-- ===== src/Heap/Expand.antt =====
-- `heap_expand` and `heap_init` of kernel/mm/heap.c: a free block behind the last one, and the first.
use chanux.Common.{
  ℕ, zero, suc, ◌+◌, ◌<◌, ◌≡◌, ◌∙◌, refl, sym, ap, false, ◌==◌, if◌then◌else◌, some, List, [], ◌∷◌,
  length, arith, eq→==, subst, u64_mod, update,
}
use chanux.Heap.{Headers, find_last, add_block, block_merge_next}
use chanux.Heap.Layout.{Seg, free, used, seg_flags, block_of, first_of, after, Holds, Rebuilt}
use chanux.Heap.Merge.{fold_next, block_merge_next-Holds}
use chanux.Heap.Free.{join, Rebuilt-trans}

-- The address of the last block.
pub last_of : ℕ → Seg → List Seg → ℕ
last_of addr g [] = addr
last_of addr g (x ∷ gs) = last_of (after addr g) x gs

-- The list with a free block of `n` bytes at the end.
unfoldable pub extend : ℕ → Seg → List Seg → List Seg
extend n g [] = join g (free n ∷ [])
extend n g (x ∷ gs) = g ∷ extend n x gs

pub find_last-Holds :
    (gs : List Seg) (mem : Headers) (fuel prev addr brk : ℕ) (g : Seg)
    → 0 < addr
    → length gs < fuel
    → Holds mem prev addr (g ∷ gs) brk
    → find_last mem fuel addr ≡ some (last_of addr g gs)
unfolding find_last last_of
find_last-Holds gs mem zero prev addr brk g pos f h = absurd (omega arith)
find_last-Holds [] mem (suc fuel) prev addr brk g pos f h = rw h.0 refl
find_last-Holds (x ∷ gs) mem (suc fuel) prev addr brk g pos f h =
    let ne : (after addr g == 0) ≡ false = ground arith in
    rw (ap (λ b. b.next) h.0, ne)
      (find_last-Holds gs mem fuel addr (after addr g) brk x (omega arith) (omega arith) h.1)

module _ (mem : Headers) (prev addr n : ℕ) (g : Seg) where
  abbrev brk : ℕ
  brk = after addr g

  abbrev made : Headers
  made = update mem brk (block_of (free n) 0 0)

  abbrev behind : Headers
  behind = update made addr (record (made addr) { next = brk })

  abbrev linked : Headers
  linked = update behind brk (record (behind brk) { prev = addr })

  linked-Rebuilt :
      Holds mem prev addr (g ∷ []) brk
      → Rebuilt mem linked prev addr (g ∷ free n ∷ []) (brk + 32 + n)
  linked-Rebuilt h =
      let ne : (brk == addr) ≡ false = ground arith in
      let ne' : (addr == brk) ≡ false = ground arith in
      (
        (rw (ne, eq→== addr addr refl, h.0) refl, (rw (eq→== brk brk refl, ne') refl, refl)),
        λ a lt. ground arith,
      )

  linked-flags : Holds mem prev addr (g ∷ []) brk → (linked addr).flags ≡ seg_flags g
  linked-flags h = ap (λ b. b.flags) (linked-Rebuilt h).0.0

  add_block-eq :
      Holds mem prev addr (g ∷ []) brk
      → add_block mem brk addr n
        ≡ (if seg_flags g == 0 then block_merge_next linked addr else linked)
  unfolding add_block
  add_block-eq h = rw (linked-flags h) refl

add_block-last :
    (mem : Headers) (prev addr n : ℕ) (g : Seg)
    → 0 < addr
    → after addr g + 32 + n < u64_mod
    → Holds mem prev addr (g ∷ []) (after addr g)
    → Rebuilt mem
        (add_block mem (after addr g) addr n)
        prev
        addr
        (join g (free n ∷ []))
        (after addr g + 32 + n)
unfolding join
add_block-last mem prev addr n (used s) pos top h =
    let end = addr + 32 + s + 32 + n in
    subst (λ m. Rebuilt mem m prev addr (used s ∷ free n ∷ []) end)
      (sym (add_block-eq mem prev addr n (used s) h)) (linked-Rebuilt mem prev addr n (used s) h)
add_block-last mem prev addr n (free s) pos top h =
    let end = addr + 32 + s + 32 + n in
    let m = linked mem prev addr n (free s) in
    let r = linked-Rebuilt mem prev addr n (free s) h in
    subst (λ m. Rebuilt mem m prev addr (fold_next (free s) (free n ∷ [])) end)
      (sym (add_block-eq mem prev addr n (free s) h))
      (Rebuilt-trans mem m (block_merge_next m addr) prev addr end
        (fold_next (free s) (free n ∷ [])) r.1
        (block_merge_next-Holds m prev addr end (free s) (free n ∷ []) pos top r.0))

first_of-extend :
    (n : ℕ) (g : Seg) (gs : List Seg) (addr : ℕ) → first_of (extend n g gs) addr ≡ addr
unfolding extend join fold_next
first_of-extend n (used s) [] addr = refl
first_of-extend n (free s) [] addr = refl
first_of-extend n g (x ∷ gs) addr = refl

pub add_block-Holds :
    (gs : List Seg) (mem : Headers) (prev addr n brk : ℕ) (g : Seg)
    → 0 < addr
    → brk + 32 + n < u64_mod
    → Holds mem prev addr (g ∷ gs) brk
    → Rebuilt mem (add_block mem brk (last_of addr g gs) n) prev addr (extend n g gs) (brk + 32 + n)
unfolding last_of extend
add_block-Holds [] mem prev addr n brk g pos top h =
    subst (λ b. Rebuilt mem (add_block mem b addr n) prev addr (join g (free n ∷ [])) (b + 32 + n))
      h.1
      (add_block-last mem prev addr n g pos (subst (λ b. b + 32 + n < u64_mod) (sym h.1) top)
        (h.0, refl))
add_block-Holds (x ∷ gs) mem prev addr n brk g pos top h =
    let m = add_block mem brk (last_of (after addr g) x gs) n in
    let r = add_block-Holds gs mem addr (after addr g) n brk x (omega arith) top h.1 in
    (
      (
        r.1 addr (omega arith)
            ∙ h.0
            ∙ ap (λ y. block_of g y prev) (sym (first_of-extend n x gs (after addr g))),
        r.0,
      ),
      λ a lt. r.1 a (omega arith),
    )

pub length-extend : (n : ℕ) (g : Seg) (gs : List Seg) → 0 < length (extend n g gs)
unfolding extend join fold_next
length-extend n (used s) [] = omega arith
length-extend n (free s) [] = omega arith
length-extend n g (x ∷ gs) = omega arith
