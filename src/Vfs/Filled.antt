-- ===== src/Vfs/Filled.antt =====
-- The vnodes of kernel/fs/vfs.c that are in use have an inode, so that `vn->inode->size` in vfs_open
-- and vfs_write is not read through a null pointer.
use chanux.Common.{
  ℕ, zero, suc, ◌+◌, ◌≡◌, refl, sym, subst, true, false, ◌&&◌, ◌==◌, ltb, leb, ◌-◌, either, Option,
  none, some, arith, Bool-cases, Option-cases, inl, inr, ==→eq, eq→==,
}
use chanux.Vnode.{
  Vnode, Vnodes, max_vnodes, find_vnode, fresh_vnode, is_root, set_vnode, vnode_alloc, vnode_free,
  vnode_ref, vnode_unref,
}
use chanux.Vnode.Counts.{find_vnode-some}
use chanux.Ramfs.{Ramfs, max_files}
use chanux.Vfs.{find_inode, fill_vnode, vnode_get_or_create, is_set}

abbrev IsFull : Vnode → Type 0
IsFull n = ltb 0 n.ref_count ≡ true → is_set n.inode ≡ true

-- A vnode in use has an inode.
abbrev pub IsFilled : Vnodes → Type 0
IsFilled a = (v : ℕ) → IsFull (a.table v)

-- The root is in use.
abbrev pub HasRoot : Vnodes → Type 0
HasRoot a = (r : ℕ) → is_root a r ≡ true → ltb 0 (a.table r).ref_count ≡ true

-- The vnode that is returned, if one is, has an inode, and the others in use still do.
abbrev pub Gives : Option ℕ × Vnodes → Type 0
Gives (none, a) = IsFilled a
Gives (some v, a) = IsFilled a × (is_set (a.table v).inode ≡ true)

find_inode-used :
    (t : ℕ → Vnode) (n i num v : ℕ) → find_inode t n i num ≡ some v → ltb 0 (t v).ref_count ≡ true
unfolding find_inode
find_inode-used t zero i num v e = absurd (ground (arith, e))
find_inode-used t (suc n) i num v e =
    elim (Bool-cases (ltb 0 (t i).ref_count && (t i).inode_num == num)) [
      | inl here ↦
          let same : i ≡ v = ground (arith, e, here) in
          subst (λ x. ltb 0 (t x).ref_count ≡ true) same (ground (arith, here))
      | inr not_here ↦ find_inode-used t n (i + 1) num v (rw not_here at e)
    ]

-- A vnode that is not in use is not the root.
not_root : (a : Vnodes) (i : ℕ) → (a.table i).ref_count ≡ 0 → HasRoot a → is_root a i ≡ false
not_root a i e root = elim (Bool-cases (is_root a i)) [
  | inl here ↦ absurd (ground (arith, e, root i here))
  | inr other ↦ other
]

fill-Gives :
    (fs : Ramfs) (a : Vnodes) (num i : ℕ)
    → (a.table i).ref_count ≡ 0
    → IsFilled a
    → HasRoot a
    → Gives (fill_vnode fs num (some i, set_vnode a i fresh_vnode))
unfolding vnode_free
fill-Gives fs a num i e filled root = elim (Bool-cases (leb max_files num)) [
  | inl out ↦
      let other : is_root a i ≡ false = not_root a i e root in
      rw (out, other)
        (λ v used. elim (Bool-cases (i == v)) [
          | inl here ↦ absurd (ground (arith, used, here))
          | inr elsewhere ↦ rw elsewhere (filled v (rw elsewhere at used))
        ])
  | inr fits ↦
      let self : (i == i) ≡ true = eq→== i i refl in
      rw fits (
        λ v used. elim (Bool-cases (i == v)) [
          | inl here ↦ rw here refl
          | inr elsewhere ↦ rw elsewhere (filled v (rw elsewhere at used))
        ],
        rw self refl,
      )
]

alloc-Gives :
    (fs : Ramfs) (a : Vnodes) (num : ℕ) (q : Option ℕ)
    → find_vnode a.table max_vnodes 0 ≡ q
    → IsFilled a
    → HasRoot a
    → Gives (fill_vnode fs num (vnode_alloc a))
unfolding vnode_alloc
alloc-Gives fs a num none e filled root =
    let same : vnode_alloc a ≡ (none, a) = rw (vnode_alloc, e) refl in
    subst (λ x. Gives (fill_vnode fs num x)) (sym same) filled
alloc-Gives fs a num (some q) e filled root =
    let same : vnode_alloc a ≡ (some q, set_vnode a q fresh_vnode) = rw (vnode_alloc, e) refl in
    subst (λ x. Gives (fill_vnode fs num x)) (sym same)
      (fill-Gives fs a num q (find_vnode-some a.table max_vnodes 0 q e).0 filled root)

ref-Gives :
    (a : Vnodes) (w : ℕ)
    → IsFilled a
    → ltb 0 (a.table w).ref_count ≡ true
    → Gives (some w, vnode_ref a (some w))
unfolding vnode_ref
ref-Gives a w filled used =
    let self : (w == w) ≡ true = eq→== w w refl in
    (
      λ v more. elim (Bool-cases (w == v)) [
        | inl here ↦ let same = ==→eq w v here in rw here (filled w used)
        | inr elsewhere ↦ rw elsewhere (filled v (rw elsewhere at more))
      ],
      rw self (filled w used),
    )

-- If the vnodes in use have inodes and the root is in use, the vnode that vnode_get_or_create
-- returns has an inode, and the vnodes in use still have theirs.
pub get_or_create-Gives :
    (fs : Ramfs) (a : Vnodes) (num : ℕ)
    → IsFilled a
    → HasRoot a
    → Gives (vnode_get_or_create fs a num)
unfolding vnode_get_or_create
get_or_create-Gives fs a num filled root =
    elim (Option-cases (find_inode a.table max_vnodes 0 num)) [
      | inr (w, here) ↦
          let same : vnode_get_or_create fs a num ≡ (some w, vnode_ref a (some w)) =
            rw (vnode_get_or_create, here) refl in
          subst Gives (sym same)
            (ref-Gives a w filled (find_inode-used a.table max_vnodes 0 num w here))
      | inl nothing ↦
          let same : vnode_get_or_create fs a num ≡ fill_vnode fs num (vnode_alloc a) =
            rw (vnode_get_or_create, nothing) refl in
          subst Gives (sym same)
            (alloc-Gives fs a num (find_vnode a.table max_vnodes 0) refl filled root)
    ]

abbrev fewer : Vnodes → ℕ → Vnodes
fewer a w = set_vnode a w (record (a.table w) { ref_count = (a.table w).ref_count - 1 })

fewer-IsFilled : (a : Vnodes) (w : ℕ) → IsFilled a → IsFilled (fewer a w)
fewer-IsFilled a w filled u used = elim (Bool-cases (w == u)) [
  | inl here ↦
      let still : ltb 0 (a.table w).ref_count ≡ true = ground (arith, rw here at used) in
      rw here (filled w still)
  | inr elsewhere ↦ rw elsewhere (filled u (rw elsewhere at used))
]

free-IsFilled : (a : Vnodes) (w : ℕ) → IsFilled a → IsFilled (vnode_free a (some w))
unfolding vnode_free
free-IsFilled a w filled = either IsFilled (is_root a w) filled (λ u used.
    elim (Bool-cases (w == u)) [
      | inl here ↦ absurd (ground (arith, used, here))
      | inr elsewhere ↦ rw elsewhere (filled u (rw elsewhere at used))
    ])

-- Giving a reference back leaves the inodes of the vnodes in use.
pub unref-IsFilled : (a : Vnodes) (v : Option ℕ) → IsFilled a → IsFilled (vnode_unref a v)
unfolding vnode_unref
unref-IsFilled a none filled = filled
unref-IsFilled a (some w) filled =
    let less = fewer-IsFilled a w filled in
    either IsFilled (is_root a w) filled (
      either IsFilled (ltb 0 (a.table w).ref_count)
        (either IsFilled ((a.table w).ref_count - 1 == 0) (free-IsFilled (fewer a w) w less) less)
        filled)
