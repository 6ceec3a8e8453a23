-- ===== src/Vfs/Holds.antt =====
-- The references that the calls of kernel/fs/vfs.c take to vnodes and give back.
use chanux.Common.{
  ℕ, ◌+◌, ◌-◌, ◌^◌, ◌<◌, ◌≡◌, ◌∙◌, refl, sym, ap, subst, false, ◌==◌, leb, if◌then◌else◌, Option,
  none, some, arith, Bool-cases, Option-cases, inl, inr,
}
use chanux.Vnode.{
  Vnodes, max_vnodes, is_root, find_vnode, vnode_alloc, vnode_free, vnode_ref, vnode_unref,
  fresh_vnode, set_vnode,
}
use chanux.Vnode.Counts.{find_vnode-some}
use chanux.Ramfs.{Ramfs, max_files}
use chanux.Vfs.{Vfs, find_inode, fill_vnode, vnode_get_or_create, get_vnode, unref}

abbrev pub count : Vnodes → ℕ → ℕ
count a v = (a.table v).ref_count

-- What a reference adds to the count of a vnode.
abbrev pub hold : Option ℕ → ℕ → ℕ
hold none v = 0
hold (some u) v = if u == v then 1 else 0

-- The counts of all vnodes but the root have grown by `h`.
pub record Holds (a b : Vnodes) (h : ℕ → ℕ) : Type 0 where
  pub root : b.root ≡ a.root
  pub grown : (v : ℕ) → is_root a v ≡ false → count b v ≡ count a v + h v

-- There is room for one more than `h` in the counts.
abbrev pub HasRoom : Vnodes → (ℕ → ℕ) → Type 0
HasRoom a h = (v : ℕ) → is_root a v ≡ false → count a v + h v + 1 < 2 ^ 32

-- A table in which each count has grown by the hold of one more.
abbrev More : Vnodes → Vnodes → Option ℕ → Type 0
More a b r =
    (b.root ≡ a.root)
    × ((v : ℕ) → is_root a v ≡ false → count a v + 1 < 2 ^ 32 → count b v ≡ count a v + hold r v)

fill-More :
    (fs : Ramfs) (a : Vnodes) (num q : ℕ)
    → (a.table q).ref_count ≡ 0
    → More a
        (fill_vnode fs num (some q, set_vnode a q fresh_vnode)).1
        (fill_vnode fs num (some q, set_vnode a q fresh_vnode)).0
unfolding vnode_free
fill-More fs a num q e = elim (Bool-cases (leb max_files num)) [
  | inl out ↦ rw out (ground arith, λ v other room. ground arith)
  | inr ok ↦ rw ok (refl, λ v other room. ground arith)
]

ref-More : (a : Vnodes) (w : ℕ) → More a (vnode_ref a (some w)) (some w)
unfolding vnode_ref
ref-More a w = (refl, λ v other room. ground arith)

alloc-More :
    (fs : Ramfs) (a : Vnodes) (num : ℕ) (q : Option ℕ)
    → find_vnode a.table max_vnodes 0 ≡ q
    → More a (fill_vnode fs num (vnode_alloc a)).1 (fill_vnode fs num (vnode_alloc a)).0
unfolding vnode_alloc
alloc-More fs a num none e =
    let same : vnode_alloc a ≡ (none, a) = rw (vnode_alloc, e) refl in
    subst (λ x. More a (fill_vnode fs num x).1 (fill_vnode fs num x).0) (sym same)
      (refl, λ v other room. omega arith)
alloc-More fs a num (some q) e =
    let same : vnode_alloc a ≡ (some q, set_vnode a q fresh_vnode) = rw (vnode_alloc, e) refl in
    subst (λ x. More a (fill_vnode fs num x).1 (fill_vnode fs num x).0) (sym same)
      (fill-More fs a num q (find_vnode-some a.table max_vnodes 0 q e).0)

get_or_create-More :
    (fs : Ramfs) (a : Vnodes) (num : ℕ)
    → More a (vnode_get_or_create fs a num).1 (vnode_get_or_create fs a num).0
unfolding vnode_get_or_create
get_or_create-More fs a num = elim (Option-cases (find_inode a.table max_vnodes 0 num)) [
  | inr (w, here) ↦
      let same : vnode_get_or_create fs a num ≡ (some w, vnode_ref a (some w)) =
        rw (vnode_get_or_create, here) refl in
      subst (λ x. More a x.1 x.0) (sym same) (ref-More a w)
  | inl nothing ↦
      let same : vnode_get_or_create fs a num ≡ fill_vnode fs num (vnode_alloc a) =
        rw (vnode_get_or_create, nothing) refl in
      subst (λ x. More a x.1 x.0) (sym same)
        (alloc-More fs a num (find_vnode a.table max_vnodes 0) refl)
]

pub Holds-more :
    (a b c : Vnodes) (h : ℕ → ℕ) (r : Option ℕ)
    → HasRoom a h
    → Holds a b h
    → More b c r
    → Holds a c (λ v. h v + hold r v)
Holds-more a b c h r room k m = record {
  root = m.0 ∙ k.root;
  grown = λ v other.
      let e = k.grown v other in
      let free = room v other in
      m.1 v (ap (λ x. elim x [ none ↦ false | some u ↦ v == u ]) k.root ∙ other) (omega arith)
      ∙ omega arith;
}

pub get_vnode-Holds :
    (a : Vnodes) (s : Vfs) (h : ℕ → ℕ) (num : Option ℕ)
    → HasRoom a h
    → Holds a s.files.vnodes h
    → Holds a (get_vnode s num).1.files.vnodes (λ v. h v + hold (get_vnode s num).0 v)
get_vnode-Holds a s h none room k = record {
  root = k.root;
  grown = λ v other. let e = k.grown v other in omega (arith, e);
}
get_vnode-Holds a s h (some num) room k =
    Holds-more a s.files.vnodes (vnode_get_or_create s.fs s.files.vnodes num).1 h
      (vnode_get_or_create s.fs s.files.vnodes num).0 room k
      (get_or_create-More s.fs s.files.vnodes num)

unref-count :
    (b : Vnodes) (u v : ℕ)
    → is_root b v ≡ false
    → count (vnode_unref b (some u)) v ≡ count b v - hold (some u) v
unfolding vnode_unref vnode_free
unref-count b u v other = ground arith

unref-root : (b : Vnodes) (u : ℕ) → (vnode_unref b (some u)).root ≡ b.root
unfolding vnode_unref vnode_free
unref-root b u = ground arith

pub unref-Holds :
    (a : Vnodes) (s : Vfs) (h : ℕ → ℕ) (u : ℕ)
    → Holds a s.files.vnodes (λ v. h v + hold (some u) v)
    → Holds a (unref s u).files.vnodes h
unref-Holds a s h u k = record {
  root = unref-root s.files.vnodes u ∙ k.root;
  grown = λ v other.
      let b = s.files.vnodes in
      let e = k.grown v other in
      let here : is_root b v ≡ false =
        ap (λ x. elim x [ none ↦ false | some r ↦ v == r ]) k.root ∙ other in
      omega (arith, e, unref-count b u v here);
}
