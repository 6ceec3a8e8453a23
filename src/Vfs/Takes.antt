-- ===== src/Vfs/Takes.antt =====
-- What the parts of the calls of kernel/fs/vfs.c that take a path take from the vnode table and give
-- back to it.
use chanux.Common.{
  ℕ, ◌+◌, ◌^◌, ◌<◌, ◌≡◌, ◌∙◌, refl, ap, Bool, true, false, if◌then◌else◌, Option, none, some, List,
  arith, Bool-cases, inl, inr,
}
use chanux.Vnode.{Vnodes, is_root}
use chanux.Ramfs.{Ramfs, alloc_inode, type_file}
use chanux.Ramfs.Dirs.{dir_add_entry, max_filename, dir_lookup}
use chanux.Vfs.{
  Vfs, vnode_at, unref, is_set, set_fs, get_vnode, vfs_lookup, vfs_lookup_parent, at_parent,
  with_name, lookup_inode, parent_place, ramfs_vfs_create, finish_create, create_inode,
  create_below, unlink_below, unlink_inode, set_parent, ramfs_vfs_unlink, with_fs,
}
use chanux.Vfs.Calls.{or_create, create_file_in, created_in, creates}
use chanux.Vfs.Tree.{create_new, unlink_in, release_parent, release_new, stat_found}
use chanux.Vfs.Holds.{Holds, HasRoom, hold, count, get_vnode-Holds, unref-Holds}

-- Nothing has been taken.
abbrev pub nothing : ℕ → ℕ
nothing v = 0

-- There is room for two more references to each vnode.
abbrev pub IsRoomy : Vnodes → Type 0
IsRoomy a = (v : ℕ) → is_root a v ≡ false → count a v + 2 < 2 ^ 32

-- The table of a state, against the one before a call.
abbrev pub Takes : Vnodes → Vfs → (ℕ → ℕ) → Type 0
Takes a s h = Holds a s.files.vnodes h

abbrev pub place_of : Option (ℕ × List ℕ) → Option ℕ
place_of none = none
place_of (some (v, name)) = some v

pub Takes-refl : (s : Vfs) → Takes s.files.vnodes s nothing
Takes-refl s = record { root = refl; grown = λ v other. omega arith }

module _ (a : Vnodes) (room : IsRoomy a) where
  room_of : (r : Option ℕ) → HasRoom a (hold r)
  room_of none v other = let e = room v other in omega (arith, e)
  room_of (some u) v other = let e = room v other in ground (arith, e)

  swapped : (s : Vfs) (g h : ℕ → ℕ) → ((v : ℕ) → g v ≡ h v) → Takes a s g → Takes a s h
  swapped s g h e k = record {
    root = k.root;
    grown = λ v other. k.grown v other ∙ ap (λ x. count a v + x) (e v);
  }

  pub lookup-Takes :
      (s : Vfs) (path : Option (List ℕ))
      → Takes a s nothing
      → Takes a (vfs_lookup s path).1 (hold (vfs_lookup s path).0)
  unfolding vfs_lookup
  lookup-Takes s path k =
      let num = if s.initialized then lookup_inode s.fs path else none in
      let r = get_vnode s num in
      swapped r.1 (λ v. 0 + hold r.0 v) (hold r.0) (λ v. omega arith)
        (get_vnode-Holds a s nothing num (room_of none) k)

  name-Takes :
      (name : List ℕ) (r : Option ℕ × Vfs)
      → Takes a r.1 (hold r.0)
      → Takes a (with_name name r).1 (hold (place_of (with_name name r).0))
  name-Takes name (none, s) k = k
  name-Takes name (some v, s) k = k

  pub parent-Takes :
      (s : Vfs) (place : Option (List ℕ × List ℕ))
      → Takes a s nothing
      → Takes a (at_parent s place).1 (hold (place_of (at_parent s place).0))
  parent-Takes s none k = k
  parent-Takes s (some (dir, name)) k =
      name-Takes name (vfs_lookup s (some dir)) (lookup-Takes s (some dir) k)

  finish_create-Takes :
      (s : Vfs) (dir type i : ℕ) (r : Bool × Ramfs) (h : ℕ → ℕ)
      → HasRoom a h
      → Takes a s h
      → Takes a
          (finish_create s dir type i r).1
          (λ v. h v + hold (finish_create s dir type i r).0 v)
  finish_create-Takes s dir type i (true, fs) h more k =
      get_vnode-Holds a (set_fs s fs) h (some i) more k
  finish_create-Takes s dir type i (false, fs) h more k = get_vnode-Holds a s h none more k

  create_inode-Takes :
      (s : Vfs) (dir num : ℕ) (name : List ℕ) (type : ℕ) (r : Option ℕ × Ramfs) (h : ℕ → ℕ)
      → HasRoom a h
      → Takes a s h
      → Takes a
          (create_inode s dir num name type r).1
          (λ v. h v + hold (create_inode s dir num name type r).0 v)
  create_inode-Takes s dir num name type (none, fs) h more k = get_vnode-Holds a s h none more k
  create_inode-Takes s dir num name type (some i, fs) h more k =
      finish_create-Takes s dir type i
        (dir_add_entry (set_parent fs dir num type i) dir name i type) h more k

  below-Takes :
      (s : Vfs) (num : ℕ) (name : List ℕ) (type : ℕ) (o : Option ℕ) (h : ℕ → ℕ)
      → HasRoom a h
      → Takes a s h
      → Takes a
          (create_below s num name type o).1
          (λ u. h u + hold (create_below s num name type o).0 u)
  below-Takes s num name type none h more k = get_vnode-Holds a s h none more k
  below-Takes s num name type (some dir) h more k =
      create_inode-Takes s dir num name type (alloc_inode s.fs type) h more k

  create-Takes :
      (s : Vfs) (v : ℕ) (name : List ℕ) (type : ℕ) (h : ℕ → ℕ)
      → HasRoom a h
      → Takes a s h
      → Takes a
          (ramfs_vfs_create s v name type).1
          (λ u. h u + hold (ramfs_vfs_create s v name type).0 u)
  unfolding ramfs_vfs_create
  create-Takes s v name type h more k =
      below-Takes s (vnode_at s v).inode_num name type (vnode_at s v).inode h more k

  -- The reference to the parent is given back, the one to the new vnode kept.
  unref_parent :
      (s : Vfs) (p : ℕ) (r : Option ℕ)
      → Takes a s (λ v. hold (some p) v + hold r v)
      → Takes a (unref s p) (hold r)
  unref_parent s p r k = unref-Holds a s (hold r) p (
      swapped s (λ v. hold (some p) v + hold r v) (λ v. hold r v + hold (some p) v)
        (λ v. omega arith) k)

  pub unref_last : (s : Vfs) (v : ℕ) → Takes a s (hold (some v)) → Takes a (unref s v) nothing
  unref_last s v k =
      unref-Holds a s nothing v
        (swapped s (hold (some v)) (λ u. 0 + hold (some v) u) (λ u. omega arith) k)

  created-Takes :
      (p : ℕ) (r : Option ℕ × Vfs)
      → Takes a r.1 (λ v. hold (some p) v + hold r.0 v)
      → Takes a (created_in p r).1 (hold (created_in p r).0.0)
  created-Takes p (r, s) k = unref_parent s p r k

  file_in-Takes :
      (r : Option (ℕ × List ℕ) × Vfs)
      → Takes a r.1 (hold (place_of r.0))
      → Takes a (create_file_in r).1 (hold (create_file_in r).0.0)
  file_in-Takes (none, s) k = k
  file_in-Takes (some (p, name), s) k = elim (Bool-cases (is_set (vnode_at s p).ops)) [
    | inl set ↦ rw set (
        created-Takes p (ramfs_vfs_create s p name type_file)
          (create-Takes s p name type_file (hold (some p)) (room_of (some p)) k))
    | inr unset ↦ rw unset (unref_last s p k)
  ]

  pub or_create-Takes :
      (path : Option (List ℕ)) (flags : ℕ) (r : Option ℕ × Vfs)
      → Takes a r.1 (hold r.0)
      → Takes a (or_create path flags r).1 (hold (or_create path flags r).0.0)
  unfolding vfs_lookup_parent
  or_create-Takes path flags (some v, s) k = k
  or_create-Takes path flags (none, s) k = elim (Bool-cases (creates flags)) [
    | inl asked ↦ rw asked (
        file_in-Takes (vfs_lookup_parent s path max_filename)
          (parent-Takes s (parent_place path max_filename) k))
    | inr other ↦ rw other k
  ]

  release-Takes :
      (p : ℕ) (r : Bool × Vfs)
      → Takes a r.1 (hold (some p))
      → Takes a (release_parent p r).1 nothing
  release-Takes p (ok, s) k = unref_last s p k

  new-Takes :
      (p : ℕ) (r : Option ℕ × Vfs)
      → Takes a r.1 (λ v. hold (some p) v + hold r.0 v)
      → Takes a (release_new r).1 (hold (some p))
  new-Takes p (none, s) k =
      swapped s (λ v. hold (some p) v + 0) (hold (some p)) (λ v. omega arith) k
  new-Takes p (some u, s) k = unref-Holds a s (hold (some p)) u k

  pub create_new-Takes :
      (type : ℕ) (r : Option (ℕ × List ℕ) × Vfs)
      → Takes a r.1 (hold (place_of r.0))
      → Takes a (create_new type r).1 nothing
  create_new-Takes type (none, s) k = k
  create_new-Takes type (some (p, name), s) k =
      release-Takes p
        (if is_set (vnode_at s p).ops
          then release_new (ramfs_vfs_create s p name type)
          else (false, s))
        (elim (Bool-cases (is_set (vnode_at s p).ops)) [
          | inl set ↦ rw set (
              new-Takes p (ramfs_vfs_create s p name type)
                (create-Takes s p name type (hold (some p)) (room_of (some p)) k))
          | inr unset ↦ rw unset k
        ])

  with_fs-Takes : (s : Vfs) (r : Bool × Ramfs) (h : ℕ → ℕ) → Takes a s h → Takes a (with_fs s r).1 h
  with_fs-Takes s (ok, fs) h k = k

  unlink_below-Takes :
      (s : Vfs) (name : List ℕ) (o : Option ℕ) (h : ℕ → ℕ)
      → Takes a s h
      → Takes a (unlink_below s name o).1 h
  unlink_below-Takes s name none h k = k
  unlink_below-Takes s name (some dir) h k =
      with_fs-Takes s (unlink_inode s.fs dir name (dir_lookup s.fs dir name)) h k

  pub unlink_in-Takes :
      (r : Option (ℕ × List ℕ) × Vfs)
      → Takes a r.1 (hold (place_of r.0))
      → Takes a (unlink_in r).1 nothing
  unfolding ramfs_vfs_unlink
  unlink_in-Takes (none, s) k = k
  unlink_in-Takes (some (p, name), s) k =
      release-Takes p (if is_set (vnode_at s p).ops then ramfs_vfs_unlink s p name else (false, s))
        (elim (Bool-cases (is_set (vnode_at s p).ops)) [
          | inl set ↦ rw set (unlink_below-Takes s name (vnode_at s p).inode (hold (some p)) k)
          | inr unset ↦ rw unset k
        ])

  pub stat-Takes : (r : Option ℕ × Vfs) → Takes a r.1 (hold r.0) → Takes a (stat_found r).1 nothing
  stat-Takes (none, s) k = k
  stat-Takes (some v, s) k = unref_last s v k
