-- ===== src/Vnode/Counts.antt =====
-- The reference counts of the vnode table.
use chanux.Common.{
  ℕ, zero, suc, ◌+◌, ◌^◌, ◌<◌, ◌≡◌, refl, false, ◌==◌, if◌then◌else◌, none, some, arith, ◌⊎◌, inl,
  inr, Option-cases,
}
use chanux.Vnode.{
  Vnode, Vnodes, max_vnodes, fresh_vnode, find_vnode, vnode_alloc, vnode_ref, vnode_unref, is_root,
}

pub find_vnode-some :
    (t : ℕ → Vnode) (n i q : ℕ) → find_vnode t n i ≡ some q → ((t q).ref_count ≡ 0) × (q < i + n)
unfolding find_vnode
find_vnode-some t zero i q h = absurd (ground arith)
find_vnode-some t (suc n) i q h = ground (arith, find_vnode-some t n (i + 1) q)

-- How many of the `n` places from `i` on no one references.
pub count_unused : (ℕ → Vnode) → ℕ → ℕ → ℕ
count_unused t zero i = 0
count_unused t (suc n) i = (if (t i).ref_count == 0 then 1 else 0) + count_unused t n (i + 1)

pub find_vnode-none : (t : ℕ → Vnode) (n i : ℕ) → find_vnode t n i ≡ none → count_unused t n i ≡ 0
unfolding find_vnode count_unused
find_vnode-none t zero i h = refl
find_vnode-none t (suc n) i h = ground (arith, find_vnode-none t n (i + 1))

-- vnode_alloc hands out a place of the table that no one references, makes it a fresh vnode and
-- leaves every other place alone; or every place is referenced, and it changes nothing.
pub vnode_alloc_lem :
    (s : Vnodes) (i : ℕ)
    → ((vnode_alloc s ≡ (none, s)) × (count_unused s.table max_vnodes 0 ≡ 0))
      ⊎ ((q : ℕ) × ((vnode_alloc s).0 ≡ some q)
          × (q < max_vnodes)
          × ((s.table q).ref_count ≡ 0)
          × ((vnode_alloc s).1.table i ≡ (if q == i then fresh_vnode else s.table i)))
unfolding vnode_alloc
vnode_alloc_lem s i = elim (Option-cases (find_vnode s.table max_vnodes 0)) [
  | inl nothing ↦ inl (ground arith, find_vnode-none s.table max_vnodes 0 nothing)
  | inr (q, found) ↦
      let f = find_vnode-some s.table max_vnodes 0 q found in
      inr (q, ground arith, omega (arith, f), f.0, ground arith)
]

-- A reference taken by vnode_ref and given back by vnode_unref leaves the table as it was, if the
-- vnode is not the root, is referenced and its count leaves room for one more.
pub vnode_unref-ref :
    (s : Vnodes) (i j : ℕ)
    → is_root s i ≡ false
    → 0 < (s.table i).ref_count
    → (s.table i).ref_count + 1 < 2 ^ 32
    → (vnode_unref (vnode_ref s (some i)) (some i)).table j ≡ s.table j
unfolding vnode_ref vnode_unref
vnode_unref-ref s i j h pos small = ground arith
