-- ===== src/Heap/Alloc.antt =====
-- `kmalloc` of kernel/mm/heap.c on a heap that holds a list of blocks: the first free block that is
-- large enough is cut.
use chanux.Common.{
  ℕ, zero, suc, ◌+◌, ◌-◌, ◌≤◌, ◌<◌, ◌≡◌, refl, sym, ap, true, false, ◌==◌, ltb, leb, if◌then◌else◌,
  Option, none, some, add64, sub64, u64_mod, List, [], ◌∷◌, length, arith, Bool-cases, inl, inr,
  eq→==, subst,
}
use chanux.Heap.{Headers, header_size, split_at, block_split, Fit, found, missing, find_fit}
use chanux.Heap.Calls.{set_flags}
use chanux.Heap.Layout.{
  Seg, free, used, first_of, Holds, Rebuilt, Rebuilt-cons, Holds-le, Holds-update,
}
use chanux.Heap.Split.{split_at-Holds}

-- The size of the first free block of `n` bytes at least.
unfoldable pub first_fit : ℕ → List Seg → Option ℕ
first_fit n [] = none
first_fit n (used s ∷ gs) = first_fit n gs
first_fit n (free s ∷ gs) = if leb n s then some s else first_fit n gs

-- Its address, in a list from `addr` on.
unfoldable pub fit_addr : ℕ → ℕ → List Seg → ℕ
fit_addr n addr [] = addr
fit_addr n addr (used s ∷ gs) = fit_addr n (addr + 32 + s) gs
fit_addr n addr (free s ∷ gs) = if leb n s then addr else fit_addr n (addr + 32 + s) gs

-- What is left of a free block of `s` bytes, once `n` are taken. A rest too small for a header and
-- 32 bytes stays with the block.
unfoldable pub cut : ℕ → ℕ → List Seg → List Seg
cut s n gs = if ltb s (n + 64) then used s ∷ gs else used n ∷ free (s - n - 32) ∷ gs

unfoldable pub place : ℕ → List Seg → List Seg
unfolding cut
place n [] = []
place n (used s ∷ gs) = used s ∷ place n gs
place n (free s ∷ gs) = if leb n s then cut s n gs else free s ∷ place n gs

abbrev pub search_result : Option ℕ → ℕ → Fit
search_result none addr = missing
search_result (some s) addr = found addr

pub find_fit-eq :
    (gs : List Seg) (mem : Headers) (n fuel prev addr brk : ℕ)
    → 0 < addr
    → length gs < fuel
    → Holds mem prev addr gs brk
    → find_fit mem n fuel (first_of gs addr) ≡ search_result (first_fit n gs) (fit_addr n addr gs)
unfolding find_fit first_fit fit_addr
find_fit-eq gs mem n zero prev addr brk pos f h = absurd (omega arith)
find_fit-eq [] mem n (suc fuel) prev addr brk pos f h = refl
find_fit-eq (used s ∷ gs) mem n (suc fuel) prev addr brk pos f h =
    let ne : (addr == 0) ≡ false = ground arith in
    let ih = find_fit-eq gs mem n fuel addr (addr + 32 + s) brk (omega arith) (omega arith) h.1 in
    rw (ne, h.0) ih
find_fit-eq (free s ∷ gs) mem n (suc fuel) prev addr brk pos f h =
    let ne : (addr == 0) ≡ false = ground arith in
    let ih = find_fit-eq gs mem n fuel addr (addr + 32 + s) brk (omega arith) (omega arith) h.1 in
    elim (Bool-cases (leb n s)) [
      | inl fits ↦ ground (arith, ne, h.0, fits)
      | inr small ↦ rw (ne, h.0, small, fit_addr) ih
    ]

whole-Holds :
    (mem : Headers) (prev b s brk : ℕ) (gs : List Seg)
    → Holds mem prev b (free s ∷ gs) brk
    → Rebuilt mem (set_flags mem b 1) prev b (used s ∷ gs) brk
whole-Holds mem prev b s brk gs h = (
  (
    rw (eq→== b b refl, h.0) refl,
    Holds-update mem b (record (mem b) { flags = 1 }) b (b + 32 + s) gs brk (omega arith) h.1,
  ),
  λ a lt. ground arith,
)

module _ (mem : Headers) (b s n : ℕ) (size : (mem b).size ≡ s) (roomy : n + 32 ≤ s)
    (top : b + 32 + s < u64_mod) where
  rest_size : sub64 (sub64 (mem b).size n) header_size ≡ s - n - 32
  rest_size = rw size (omega arith)

  block_split_small : s < n + 64 → block_split mem b n ≡ mem
  unfolding block_split
  block_split_small small =
      let short : ltb (s - n - 32) 32 ≡ true = ground arith in rw (rest_size, short) refl

  block_split_large : n + 64 ≤ s → block_split mem b n ≡ split_at mem b n (b + 32 + n) (s - n - 32)
  unfolding block_split
  block_split_large large =
      let long : ltb (s - n - 32) 32 ≡ false = ground arith in
      let place : add64 (add64 b header_size) n ≡ b + 32 + n = ground arith in
      rw (rest_size, long, place) refl

cut_small : (s n : ℕ) (gs : List Seg) → s < n + 64 → cut s n gs ≡ used s ∷ gs
unfolding cut
cut_small s n gs small = ground arith

cut_large : (s n : ℕ) (gs : List Seg) → n + 64 ≤ s → cut s n gs ≡ used n ∷ free (s - n - 32) ∷ gs
unfolding cut
cut_large s n gs large = ground arith

-- The first block of a list serves a request.
pub cut-Holds :
    (mem : Headers) (prev b s n brk : ℕ) (gs : List Seg)
    → 0 < b
    → brk < u64_mod
    → n + 32 ≤ s
    → Holds mem prev b (free s ∷ gs) brk
    → Rebuilt mem (set_flags (block_split mem b n) b 1) prev b (cut s n gs) brk
cut-Holds mem prev b s n brk gs pos top roomy h =
    let le = Holds-le mem b (b + 32 + s) gs brk h.1 in
    let size : (mem b).size ≡ s = ap (λ x. x.size) h.0 in
    let end : b + 32 + s < u64_mod = omega arith in
    elim (Bool-cases (ltb s (n + 64))) [
      | inl small ↦
          let lt : s < n + 64 = ground arith in
          subst (λ m. Rebuilt mem (set_flags m b 1) prev b (cut s n gs) brk)
            (sym (block_split_small mem b s n size roomy end lt))
            (subst (λ l. Rebuilt mem (set_flags mem b 1) prev b l brk) (sym (cut_small s n gs lt))
              (whole-Holds mem prev b s brk gs h))
      | inr large ↦
          let ge : n + 64 ≤ s = ground arith in
          let whole : s ≡ n + 32 + (s - n - 32) = omega arith in
          subst (λ m. Rebuilt mem (set_flags m b 1) prev b (cut s n gs) brk)
            (sym (block_split_large mem b s n size roomy end ge))
            (subst
              (λ l.
                Rebuilt mem (set_flags (split_at mem b n (b + 32 + n) (s - n - 32)) b 1) prev b l
                  brk)
              (sym (cut_large s n gs ge))
              (split_at-Holds mem prev b n (s - n - 32) brk gs pos
                (subst (λ x. Holds mem prev b (free x ∷ gs) brk) whole h)))
    ]

-- What `kmalloc` does to the headers.
abbrev take : Headers → ℕ → ℕ → Headers
take mem b n = set_flags (block_split mem b n) b 1

first_of-place : (n addr : ℕ) (gs : List Seg) → first_of gs addr ≡ first_of (place n gs) addr
unfolding place cut
first_of-place n addr [] = refl
first_of-place n addr (used s ∷ gs) = refl
first_of-place n addr (free s ∷ gs) = elim (Bool-cases (leb n s)) [
  | inl fits ↦ elim (Bool-cases (ltb s (n + 64))) [
    | inl small ↦ rw (fits, small) refl
    | inr large ↦ rw (fits, large) refl
  ]
  | inr tight ↦ rw tight refl
]

pub place-Holds :
    (gs : List Seg) (mem : Headers) (n s prev addr brk : ℕ)
    → 0 < addr
    → brk < u64_mod
    → first_fit n gs ≡ some s
    → n + 32 ≤ s
    → Holds mem prev addr gs brk
    → Rebuilt mem (take mem (fit_addr n addr gs) n) prev addr (place n gs) brk
unfolding first_fit fit_addr place
place-Holds [] mem n s prev addr brk pos top fit roomy h = absurd (ground arith)
place-Holds (used t ∷ gs) mem n s prev addr brk pos top fit roomy h =
    Rebuilt-cons mem (take mem (fit_addr n (addr + 32 + t) gs) n) (used t) gs (place n gs) prev addr
      brk (first_of-place n (addr + 32 + t) gs) h
      (place-Holds gs mem n s addr (addr + 32 + t) brk (omega arith) top fit roomy h.1)
place-Holds (free t ∷ gs) mem n s prev addr brk pos top fit roomy h = elim (Bool-cases (leb n t)) [
  | inl fits ↦
      let same : t ≡ s = ground (arith, fits, fit) in
      rw fits (cut-Holds mem prev addr t n brk gs pos top (omega arith) h)
  | inr tight ↦
      let fit' : first_fit n gs ≡ some s = rw tight at fit in
      rw tight (
        Rebuilt-cons mem (take mem (fit_addr n (addr + 32 + t) gs) n) (free t) gs (place n gs) prev
          addr brk (first_of-place n (addr + 32 + t) gs) h
          (place-Holds gs mem n s addr (addr + 32 + t) brk (omega arith) top fit' roomy h.1))
]
