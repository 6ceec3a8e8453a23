-- ===== src/Heap/Split.antt =====
-- `block_split` and the search of `kmalloc` on a heap that holds a list of blocks.
use chanux.Common.{ℕ, ◌+◌, ◌<◌, ◌≡◌, ◌∙◌, refl, sym, ap, update, List, ◌∷◌, arith, eq→==, subst}
use chanux.Heap.{Headers, set_prev, split_at}
use chanux.Heap.Calls.{set_flags}
use chanux.Heap.Layout.{
  Seg, free, used, block_of, first_of, Holds, SameBelow, Rebuilt, Holds-above, Holds-update,
  set_prev-Holds,
}

module _ (mem : Headers) (prev b n r brk : ℕ) (gs : List Seg) (pos : 0 < b)
    (h : Holds mem prev b (free (n + 32 + r) ∷ gs) brk) where
  abbrev new : ℕ
  new = b + 32 + n

  abbrev end : ℕ
  end = b + 32 + (n + 32 + r)

  abbrev made : Headers
  made = update mem new (block_of (free r) (mem b).next b)

  abbrev linked : Headers
  linked = set_prev made (made b).next new

  made-b : made b ≡ mem b
  made-b = ground arith

  linked-Holds : Rebuilt made linked new end gs brk
  linked-Holds =
      let e : (made b).next ≡ first_of gs end = ap (λ x. x.next) made-b ∙ ap (λ x. x.next) h.0 in
      subst (λ x. Rebuilt made (set_prev made x new) new end gs brk) (sym e)
        (set_prev-Holds made b new end gs brk (omega arith)
          (Holds-update mem new (block_of (free r) (mem b).next b) b end gs brk (omega arith) h.1))

  linked-b : linked b ≡ block_of (free (n + 32 + r)) (first_of gs end) prev
  linked-b = linked-Holds.1 b (omega arith) ∙ made-b ∙ h.0

  linked-new : linked new ≡ block_of (free r) (first_of gs end) b
  linked-new =
      linked-Holds.1 new (omega arith)
      ∙ (rw (eq→== new new refl) refl ∙ ap (λ x. block_of (free r) x.next b) h.0)

  abbrev cut : Headers
  cut = update linked b (record (linked b) { next = new; size = n })

  abbrev taken : Headers
  taken = set_flags cut b 1

  taken-same : (a : ℕ) → b < a → taken a ≡ linked a
  taken-same a lt = ground arith

  taken-below : SameBelow mem taken b
  taken-below a lt = ground (arith, linked-Holds.1 a)

  taken-b : taken b ≡ block_of (used n) new prev
  taken-b = rw (eq→== b b refl, linked-b) refl

  split_Rebuilt : Rebuilt mem taken prev b (used n ∷ free r ∷ gs) brk
  split_Rebuilt =
      let e : b + 32 + n + 32 + r ≡ end = omega arith in
      let tail : Holds taken new end gs brk =
        Holds-above linked taken new end gs brk (λ a le. taken-same a (omega arith))
          linked-Holds.0 in
      (
        (
          taken-b,
          subst (λ x. (taken new ≡ block_of (free r) (first_of gs x) b) × Holds taken new x gs brk)
              (sym e) (taken-same new (omega arith) ∙ linked-new, tail),
        ),
        taken-below,
      )

  -- A split block is one in use, with a free one behind it.
  pub split_at-Holds :
      Rebuilt mem
        (set_flags (split_at mem b n (b + 32 + n) r) b 1)
        prev
        b
        (used n ∷ free r ∷ gs)
        brk
  unfolding split_at
  split_at-Holds = split_Rebuilt
