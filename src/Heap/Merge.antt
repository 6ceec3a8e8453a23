-- ===== src/Heap/Merge.antt =====
-- `block_merge_next` and the end of `kfree` on a heap that holds a list of blocks: a block that is
-- given back becomes one with its free neighbours.
use chanux.Common.{
  ℕ, ◌+◌, ◌<◌, ◌≡◌, ◌∙◌, refl, sym, ap, false, ◌==◌, update, add64, u64_mod, List, [], ◌∷◌, arith,
  eq→==, subst,
}
use chanux.Heap.{Headers, header_size, absorb, block_merge_next, set_prev}
use chanux.Heap.Layout.{
  Seg, free, used, seg_size, block_of, first_of, after, Holds, SameBelow, Rebuilt, Holds-le,
  Holds-above, Holds-update, set_prev-Holds,
}

abbrev pub grow : Seg → ℕ → Seg
grow (free s) n = free (s + (32 + n))
grow (used s) n = used (s + (32 + n))

-- A block in front of a list takes in a free neighbour.
unfoldable pub fold_next : Seg → List Seg → List Seg
fold_next g [] = g ∷ []
fold_next g (used t ∷ gs) = g ∷ used t ∷ gs
fold_next g (free t ∷ gs) = grow g t ∷ gs

grow_after : (b t : ℕ) (g : Seg) → after (after b g) (free t) ≡ after b (grow g t)
grow_after b t (free s) = omega arith
grow_after b t (used s) = omega arith

grow_block :
    (g : Seg) (t next prev : ℕ)
    → seg_size g + t + 32 < u64_mod
    → record (block_of g next prev) { size = add64 (seg_size g) (add64 header_size t) }
      ≡ block_of (grow g t) next prev
grow_block (free s) t next prev lt = ground arith
grow_block (used s) t next prev lt = ground arith

module _ (mem : Headers) (prev b t brk : ℕ) (g : Seg) (gs : List Seg) (top : brk < u64_mod)
    (h : Holds mem prev b (g ∷ free t ∷ gs) brk) where
  abbrev second : ℕ
  second = after b g

  abbrev end : ℕ
  end = after second (free t)

  abbrev grown : Headers
  grown = update mem b (record (mem b) {
    size = add64 (mem b).size (add64 header_size (mem second).size);
    next = (mem second).next;
  })

  abbrev linked : Headers
  linked = set_prev grown (grown second).next b

  abbrev merged : Headers
  merged = update linked second (record (linked second) { magic = 0 })

  grown-second : grown second ≡ mem second
  grown-second = ground arith

  linked-Rebuilt : Rebuilt grown linked b end gs brk
  linked-Rebuilt =
      let e : (grown second).next ≡ first_of gs end =
        ap (λ x. x.next) grown-second ∙ ap (λ x. x.next) h.1.0 in
      subst (λ x. Rebuilt grown (set_prev grown x b) b end gs brk) (sym e)
        (set_prev-Holds grown second b end gs brk (omega arith) (
          Holds-update mem b
            (record (mem b) {
              size = add64 (mem b).size (add64 header_size (mem second).size);
              next = (mem second).next;
            })
            second end gs brk (omega arith) h.1.1))

  grown-b : grown b ≡ block_of (grow g t) (first_of gs end) prev
  grown-b =
      let le = Holds-le mem second end gs brk h.1.1 in
      rw (eq→== b b refl, h.0, h.1.0) (grow_block g t (first_of gs end) prev (omega arith))

  merged-b : merged b ≡ block_of (grow g t) (first_of gs end) prev
  merged-b = ground (arith, linked-Rebuilt.1 b (omega arith), grown-b)

  merged-below : SameBelow mem merged b
  merged-below a lt = ground (arith, linked-Rebuilt.1 a)

  absorb-Rebuilt : Rebuilt mem merged prev b (grow g t ∷ gs) brk
  absorb-Rebuilt =
      let tail : Holds merged b end gs brk =
        Holds-above linked merged b end gs brk (λ a le. ground arith) linked-Rebuilt.0 in
      (
        subst (λ x. (merged b ≡ block_of (grow g t) (first_of gs x) prev) × Holds merged b x gs brk)
            (grow_after b t g) (merged-b, tail),
        merged-below,
      )

  merges : 0 < b → block_merge_next mem b ≡ merged
  unfolding block_merge_next absorb
  merges pos =
      let ne : (second == 0) ≡ false = ground arith in
      let next : (mem b).next ≡ second = ap (λ x. x.next) h.0 in rw (next, ne, h.1.0) refl

merges_none : (mem : Headers) (b : ℕ) → (mem b).next ≡ 0 → block_merge_next mem b ≡ mem
unfolding block_merge_next
merges_none mem b e = rw e refl

merges_used :
    (mem : Headers) (b n : ℕ) → (mem b).next ≡ n → (mem n).flags ≡ 1 → block_merge_next mem b ≡ mem
unfolding block_merge_next
merges_used mem b n e f = rw (e, f) (ground arith)

-- block_merge_next, on a heap that holds a list of blocks from the block it is given on, makes one
-- block of it and the next if that is free, and changes no header below.
pub block_merge_next-Holds :
    (mem : Headers) (prev b brk : ℕ) (g : Seg) (gs : List Seg)
    → 0 < b
    → brk < u64_mod
    → Holds mem prev b (g ∷ gs) brk
    → Rebuilt mem (block_merge_next mem b) prev b (fold_next g gs) brk
unfolding fold_next
block_merge_next-Holds mem prev b brk g [] pos top h =
    subst (λ m. Rebuilt mem m prev b (g ∷ []) brk) (sym (merges_none mem b (ap (λ x. x.next) h.0)))
      (h, λ a lt. refl)
block_merge_next-Holds mem prev b brk g (used t ∷ gs) pos top h =
    subst (λ m. Rebuilt mem m prev b (g ∷ used t ∷ gs) brk)
      (sym (merges_used mem b (after b g) (ap (λ x. x.next) h.0) (ap (λ x. x.flags) h.1.0)))
      (h, λ a lt. refl)
block_merge_next-Holds mem prev b brk g (free t ∷ gs) pos top h =
    subst (λ m. Rebuilt mem m prev b (grow g t ∷ gs) brk)
      (sym (merges mem prev b t brk g gs top h pos)) (absorb-Rebuilt mem prev b t brk g gs top h)
