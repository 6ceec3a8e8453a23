-- ===== src/Heap/Free.antt =====
-- `kfree` of kernel/mm/heap.c on a heap that holds a list of blocks.
use chanux.Common.{
  ℕ, ◌+◌, ◌≤◌, ◌<◌, ◌≡◌, ◌∙◌, refl, sym, ap, true, false, ◌==◌, if◌then◌else◌, Option, none, some,
  u64_mod, List, [], ◌∷◌, arith, Bool-cases, inl, inr, ==→eq, eq→==, subst,
}
use chanux.Heap.{Headers, heap_block_magic, block_merge_next}
use chanux.Heap.Calls.{set_flags, release}
use chanux.Heap.Layout.{
  Seg, free, used, seg_size, seg_flags, first_of, after, Holds, SameBelow, Rebuilt, Rebuilt-cons,
  Holds-le, Holds-update,
}
use chanux.Heap.Merge.{fold_next, block_merge_next-Holds}

-- The block at an address of a list from `addr` on.
unfoldable pub block_at : ℕ → ℕ → List Seg → Option Seg
block_at b addr [] = none
block_at b addr (g ∷ gs) = if addr == b then some g else block_at b (after addr g) gs

-- A free block in front of a list takes in a free neighbour.
unfoldable pub join : Seg → List Seg → List Seg
join (used s) gs = used s ∷ gs
join (free s) gs = fold_next (free s) gs

-- The list with the block at `b` free, and one with its free neighbours.
unfoldable pub give_back : ℕ → ℕ → List Seg → List Seg
give_back b addr [] = []
give_back b addr (g ∷ gs) =
    let rest = give_back b (after addr g) gs in
    if addr == b
    then fold_next (free (seg_size g)) gs
    else if after addr g == b
    then join g rest
    else g ∷ rest

free-Holds :
    (mem : Headers) (prev b s brk : ℕ) (gs : List Seg)
    → Holds mem prev b (used s ∷ gs) brk
    → Rebuilt mem (set_flags mem b 0) prev b (free s ∷ gs) brk
free-Holds mem prev b s brk gs h = (
  (
    rw (eq→== b b refl, h.0) refl,
    Holds-update mem b (record (mem b) { flags = 0 }) b (b + 32 + s) gs brk (omega arith) h.1,
  ),
  λ a lt. ground arith,
)

pub Rebuilt-trans :
    (mem mem1 mem2 : Headers) (prev addr brk : ℕ) (gs : List Seg)
    → SameBelow mem mem1 addr
    → Rebuilt mem1 mem2 prev addr gs brk
    → Rebuilt mem mem2 prev addr gs brk
Rebuilt-trans mem mem1 mem2 prev addr brk gs same r = (r.0, λ a lt. r.1 a lt ∙ same a lt)

-- What `release` does first.
abbrev merged : Headers → ℕ → Headers
merged mem b = block_merge_next (set_flags mem b 0) b

merged-Rebuilt :
    (mem : Headers) (prev b s brk : ℕ) (gs : List Seg)
    → 0 < b
    → brk < u64_mod
    → Holds mem prev b (used s ∷ gs) brk
    → Rebuilt mem (merged mem b) prev b (fold_next (free s) gs) brk
merged-Rebuilt mem prev b s brk gs pos top h =
    let f = free-Holds mem prev b s brk gs h in
    Rebuilt-trans mem (set_flags mem b 0) (merged mem b) prev b brk (fold_next (free s) gs) f.1
      (block_merge_next-Holds (set_flags mem b 0) prev b brk (free s) gs pos top f.0)

-- The header of the block that is given back.
fold_next-head :
    (mem : Headers) (prev b s brk : ℕ) (gs : List Seg)
    → Holds mem prev b (fold_next (free s) gs) brk
    → ((mem b).prev ≡ prev) × (first_of (fold_next (free s) gs) b ≡ b)
unfolding fold_next
fold_next-head mem prev b s brk [] h = (ap (λ x. x.prev) h.0, refl)
fold_next-head mem prev b s brk (used t ∷ gs) h = (ap (λ x. x.prev) h.0, refl)
fold_next-head mem prev b s brk (free t ∷ gs) h = (ap (λ x. x.prev) h.0, refl)

release_first : (mem : Headers) (b : ℕ) → (merged mem b b).prev ≡ 0 → release mem b ≡ merged mem b
unfolding release
release_first mem b e = rw e refl

release_behind :
    (mem : Headers) (b p f : ℕ)
    → 0 < p
    → (merged mem b b).prev ≡ p
    → (merged mem b p).flags ≡ f
    → release mem b ≡ (if f == 0 then block_merge_next (merged mem b) p else merged mem b)
unfolding release
release_behind mem b p f pos e flags =
    let ne : (p == 0) ≡ false = ground arith in rw (e, ne, flags) refl

module _ (mem : Headers) (prev addr s brk : ℕ) (g : Seg) (gs : List Seg) (pos : 0 < addr)
    (top : brk < u64_mod) (h : Holds mem prev addr (g ∷ used s ∷ gs) brk) where
  abbrev b : ℕ
  b = after addr g

  merged-whole :
      Rebuilt mem (merged mem b) prev addr (g ∷ fold_next (free s) gs) brk
      × ((merged mem b b).prev ≡ addr)
  merged-whole =
      let r = merged-Rebuilt mem addr b s brk gs (omega arith) top h.1 in
      let head = fold_next-head (merged mem b) addr b s brk gs r.0 in
      (
        Rebuilt-cons mem (merged mem b) g (used s ∷ gs) (fold_next (free s) gs) prev addr brk
            (sym head.1) h r,
        head.0,
      )

  merged-flags : (merged mem b addr).flags ≡ seg_flags g
  merged-flags = ap (λ x. x.flags) merged-whole.0.0.0

  release-eq :
      release mem b
      ≡ (if seg_flags g == 0 then block_merge_next (merged mem b) addr else merged mem b)
  release-eq = release_behind mem b addr (seg_flags g) pos merged-whole.1 merged-flags

-- The block behind `g` is given back.
release-second :
    (mem : Headers) (prev addr s brk : ℕ) (g : Seg) (gs : List Seg)
    → 0 < addr
    → brk < u64_mod
    → Holds mem prev addr (g ∷ used s ∷ gs) brk
    → Rebuilt mem (release mem (after addr g)) prev addr (join g (fold_next (free s) gs)) brk
unfolding join
release-second mem prev addr s brk (used t) gs pos top h =
    subst (λ m. Rebuilt mem m prev addr (used t ∷ fold_next (free s) gs) brk)
      (sym (release-eq mem prev addr s brk (used t) gs pos top h))
      (merged-whole mem prev addr s brk (used t) gs pos top h).0
release-second mem prev addr s brk (free t) gs pos top h =
    let m = merged mem (after addr (free t)) in
    let w = (merged-whole mem prev addr s brk (free t) gs pos top h).0 in
    subst (λ m. Rebuilt mem m prev addr (fold_next (free t) (fold_next (free s) gs)) brk)
      (sym (release-eq mem prev addr s brk (free t) gs pos top h))
      (Rebuilt-trans mem m (block_merge_next m addr) prev addr brk
        (fold_next (free t) (fold_next (free s) gs)) w.1
        (block_merge_next-Holds m prev addr brk (free t) (fold_next (free s) gs) pos top w.0))

pub block_at-le : (b addr : ℕ) (gs : List Seg) (g : Seg) → block_at b addr gs ≡ some g → addr ≤ b
unfolding block_at
block_at-le b addr [] g e = absurd (ground arith)
block_at-le b addr (x ∷ gs) g e = elim (Bool-cases (addr == b)) [
  | inl here ↦ omega (arith, ==→eq addr b here)
  | inr later ↦ omega (arith, block_at-le b (after addr x) gs g (rw later at e))
]

-- The first block of a list is given back, when there is none before it.
release-first :
    (mem : Headers) (b s brk : ℕ) (gs : List Seg)
    → 0 < b
    → brk < u64_mod
    → Holds mem 0 b (used s ∷ gs) brk
    → Rebuilt mem (release mem b) 0 b (fold_next (free s) gs) brk
release-first mem b s brk gs pos top h =
    let r = merged-Rebuilt mem 0 b s brk gs pos top h in
    subst (λ m. Rebuilt mem m 0 b (fold_next (free s) gs) brk)
      (sym (release_first mem b (fold_next-head (merged mem b) 0 b s brk gs r.0).0)) r

first_of-join : (g : Seg) (gs : List Seg) (addr : ℕ) → first_of (join g gs) addr ≡ addr
unfolding join fold_next
first_of-join (used s) gs addr = refl
first_of-join (free s) [] addr = refl
first_of-join (free s) (used t ∷ gs) addr = refl
first_of-join (free s) (free t ∷ gs) addr = refl

first_of-give_back :
    (b addr : ℕ) (gs : List Seg)
    → (addr == b) ≡ false
    → first_of gs addr ≡ first_of (give_back b addr gs) addr
unfolding give_back
first_of-give_back b addr [] ne = refl
first_of-give_back b addr (g ∷ gs) ne = elim (Bool-cases (after addr g == b)) [
  | inl next ↦ rw (ne, next) (sym (first_of-join g (give_back b (after addr g) gs) addr))
  | inr later ↦ rw (ne, later) refl
]

give_back_here : (b s : ℕ) (gs : List Seg) → give_back b b (used s ∷ gs) ≡ fold_next (free s) gs
unfolding give_back
give_back_here b s gs = rw (eq→== b b refl) refl

give_back_next :
    (b addr : ℕ) (g : Seg) (gs : List Seg)
    → (addr == b) ≡ false
    → (after addr g == b) ≡ true
    → give_back b addr (g ∷ gs) ≡ join g (give_back b (after addr g) gs)
unfolding give_back
give_back_next b addr g gs ne next = rw (ne, next) refl

give_back_later :
    (b addr : ℕ) (g : Seg) (gs : List Seg)
    → (addr == b) ≡ false
    → (after addr g == b) ≡ false
    → give_back b addr (g ∷ gs) ≡ g ∷ give_back b (after addr g) gs
unfolding give_back
give_back_later b addr g gs ne later = rw (ne, later) refl

-- What stands at the front, if the block is there.
block_at_front :
    (b : ℕ) (gs : List Seg) (s : ℕ)
    → block_at b b gs ≡ some (used s)
    → (rest : List Seg) × (gs ≡ used s ∷ rest)
unfolding block_at
block_at_front b [] s e = absurd (ground arith)
block_at_front b (g ∷ gs) s e = (gs, ground (arith, eq→== b b refl, e))

-- The block stands behind the first.
release-inner :
    (gs : List Seg) (mem : Headers) (prev addr b s brk : ℕ)
    → 0 < addr
    → brk < u64_mod
    → (addr == b) ≡ false
    → block_at b addr gs ≡ some (used s)
    → Holds mem prev addr gs brk
    → Rebuilt mem (release mem b) prev addr (give_back b addr gs) brk
unfolding block_at
release-inner [] mem prev addr b s brk pos top ne e h = absurd (ground arith)
release-inner (g ∷ gs) mem prev addr b s brk pos top ne e h =
    let e' : block_at b (after addr g) gs ≡ some (used s) = rw ne at e in
    elim (Bool-cases (after addr g == b)) [
      | inl next ↦
          let here = ==→eq (after addr g) b next in
          let (rest, same) =
            block_at_front b gs s (subst (λ a. block_at b a gs ≡ some (used s)) here e') in
          let h' : Holds mem prev addr (g ∷ used s ∷ rest) brk =
            subst (λ l. Holds mem prev addr (g ∷ l) brk) same h in
          let back : give_back b addr (g ∷ gs) ≡ join g (fold_next (free s) rest) =
            give_back_next b addr g gs ne next
            ∙ ap (join g) (
                ap (λ a. give_back b a gs) here
                ∙ ap (give_back b b) same
                ∙ give_back_here b s rest) in
          subst (λ l. Rebuilt mem (release mem b) prev addr l brk) (sym back)
            (subst
              (λ a. Rebuilt mem (release mem a) prev addr (join g (fold_next (free s) rest)) brk)
              here (release-second mem prev addr s brk g rest pos top h'))
      | inr later ↦
          subst (λ l. Rebuilt mem (release mem b) prev addr l brk)
            (sym (give_back_later b addr g gs ne later))
            (Rebuilt-cons mem (release mem b) g gs (give_back b (after addr g) gs) prev addr brk
              (first_of-give_back b (after addr g) gs later) h
              (release-inner gs mem addr (after addr g) b s brk (omega arith) top later e' h.1))
    ]

release-front :
    (mem : Headers) (b s brk : ℕ) (gs : List Seg)
    → 0 < b
    → brk < u64_mod
    → block_at b b gs ≡ some (used s)
    → Holds mem 0 b gs brk
    → Rebuilt mem (release mem b) 0 b (give_back b b gs) brk
release-front mem b s brk gs pos top e h =
    let (rest, same) = block_at_front b gs s e in
    subst (λ l. Rebuilt mem (release mem b) 0 b l brk)
      (sym (ap (give_back b b) same ∙ give_back_here b s rest))
      (release-first mem b s brk rest pos top (subst (λ l. Holds mem 0 b l brk) same h))

pub release-Holds :
    (mem : Headers) (addr b s brk : ℕ) (gs : List Seg)
    → 0 < addr
    → brk < u64_mod
    → block_at b addr gs ≡ some (used s)
    → Holds mem 0 addr gs brk
    → Rebuilt mem (release mem b) 0 addr (give_back b addr gs) brk
release-Holds mem addr b s brk gs pos top e h = elim (Bool-cases (addr == b)) [
  | inl here ↦
      let same = ==→eq addr b here in
      subst (λ a. Rebuilt mem (release mem b) 0 a (give_back b a gs) brk) (sym same)
        (release-front mem b s brk gs (omega arith) top
          (subst (λ a. block_at b a gs ≡ some (used s)) same e)
          (subst (λ a. Holds mem 0 a gs brk) same h))
  | inr inner ↦ release-inner gs mem 0 addr b s brk pos top inner e h
]

-- The header of a block of the list.
pub Holds-block_at :
    (gs : List Seg) (mem : Headers) (prev addr b brk : ℕ) (g : Seg)
    → block_at b addr gs ≡ some g
    → Holds mem prev addr gs brk
    → ((mem b).magic ≡ heap_block_magic)
      × ((mem b).flags ≡ seg_flags g)
      × ((mem b).size ≡ seg_size g)
      × (after b g ≤ brk)
unfolding block_at
Holds-block_at [] mem prev addr b brk g e h = absurd (ground arith)
Holds-block_at (x ∷ gs) mem prev addr b brk g e h = elim (Bool-cases (addr == b)) [
  | inl here ↦
      let same : x ≡ g = ground (arith, here, e) in
      let at = ==→eq addr b here in
      let le = Holds-le mem addr (after addr x) gs brk h.1 in
      rw (← at) (
        ground (arith, h.0, same),
        ground (arith, h.0, same),
        ground (arith, h.0, same),
        omega (arith, ap seg_size same),
      )
  | inr later ↦ Holds-block_at gs mem addr (after addr x) b brk g (rw later at e) h.1
]
