-- ===== src/Vnode.antt =====
-- kernel/fs/vfs.c: the vnode table and its reference counts.
pub mod Counts
use chanux.Common.{
  ℕ, zero, suc, ◌+◌, ◌-◌, Bool, true, false, ◌==◌, ltb, if◌then◌else◌, Option, none, some, update,
  add32,
}

-- `MAX_VNODES`
abbrev pub max_vnodes : ℕ
max_vnodes = 256

-- `vnode_t`. The pointers to the inode, the operations and the data are what they point to, if set.
pub record Vnode : Type 0 where
  pub inode_num : ℕ
  pub type : ℕ
  pub ref_count : ℕ
  pub inode : Option ℕ
  pub ops : Option ℕ
  pub fs_data : Option ℕ

-- The vnode table, and the place of `g_root_vnode` in it.
pub record Vnodes : Type 0 where
  pub table : ℕ → Vnode
  pub root : Option ℕ

abbrev pub set_vnode : Vnodes → ℕ → Vnode → Vnodes
set_vnode s i v = record s { table = update s.table i v }

-- The first place that no one references, among the `n` from `i` on.
pub find_vnode : (ℕ → Vnode) → ℕ → ℕ → Option ℕ
find_vnode t zero i = none
find_vnode t (suc n) i =
    let rest = find_vnode t n (i + 1) in if (t i).ref_count == 0 then some i else rest

abbrev pub fresh_vnode : Vnode
fresh_vnode = record {
  inode_num = 0;
  type = 0;
  ref_count = 1;
  inode = none;
  ops = none;
  fs_data = none;
}

unfoldable pub vnode_alloc : Vnodes → Option ℕ × Vnodes
vnode_alloc s = elim (find_vnode s.table max_vnodes 0) [
  | none ↦ (none, s)
  | some i ↦ (some i, set_vnode s i fresh_vnode)
]

abbrev pub is_root : Vnodes → ℕ → Bool
is_root s i = elim s.root [ none ↦ false | some r ↦ i == r ]

unfoldable pub vnode_free : Vnodes → Option ℕ → Vnodes
vnode_free s none = s
vnode_free s (some i) =
    if is_root s i
    then s
    else set_vnode s i (record (s.table i) { ref_count = 0; inode = none; ops = none })

unfoldable pub vnode_ref : Vnodes → Option ℕ → Vnodes
vnode_ref s none = s
vnode_ref s (some i) =
    set_vnode s i (record (s.table i) { ref_count = add32 (s.table i).ref_count 1 })

unfoldable pub vnode_unref : Vnodes → Option ℕ → Vnodes
unfolding vnode_free
vnode_unref s none = s
vnode_unref s (some i) =
    let v = s.table i in
    let less = set_vnode s i (record v { ref_count = v.ref_count - 1 }) in
    if is_root s i
    then s
    else if ltb 0 v.ref_count
    then if v.ref_count - 1 == 0 then vnode_free less (some i) else less
    else s
