-- ===== src/Vfs/Close.antt =====
-- `vfs_close` of kernel/fs/vfs.c on a file that `vfs_open` has just opened.
use chanux.Common.{
  ℕ, ◌<◌, ◌≡◌, ◌∙◌, refl, sym, ap, subst, Bool, false, not, ◌&&◌, ◌==◌, Option, none, some, update,
  List, arith, Bool-cases, Option-cases, inl, inr, eq→==,
}
use chanux.Vnode.{Vnodes, vnode_unref}
use chanux.FileTable.{
  FileTable, file_alloc, find_slot, init_file_table, file_unref, file_free, file_is_console,
  blank_file, max_open_files, fresh_file, o_rdonly,
}
use chanux.FileTable.Slots.{find_slot-some}
use chanux.Ramfs.{type_dir}
use chanux.Vfs.{Vfs, vnode_at, vfs_lookup}
use chanux.Vfs.Calls.{
  vfs_open, vfs_close, open_vnode, or_create, emptied, fill_file, file_at, access_mode,
}
use chanux.Vfs.Holds.{Holds, hold, unref-Holds}
use chanux.Vfs.Takes.{IsRoomy, nothing}
use chanux.Vfs.Balance.{opened, vfs_open-Holds}

-- A file that has just been opened: one of the table, with one reference.
abbrev pub IsFresh : Vfs → ℕ → Type 0
IsFresh s f = (f < max_open_files) × ((file_at s f).ref_count ≡ 1)

abbrev FreshIf : Option ℕ × Vfs → Type 0
FreshIf r = (f : ℕ) → r.0 ≡ some f → IsFresh r.1 f

file_alloc-fresh :
    (s : FileTable) (f : ℕ)
    → (file_alloc s).0 ≡ some f
    → (f < max_open_files) × (((file_alloc s).1.files f).ref_count ≡ 1)
unfolding file_alloc
file_alloc-fresh s f e =
    let s' = init_file_table s in
    elim (Option-cases (find_slot s'.files max_open_files 0)) [
      | inl full ↦
          let same : file_alloc s ≡ (none, s') = rw (file_alloc, full) refl in
          absurd (ground (arith, e, ap (λ r. r.0) same))
      | inr (q, here) ↦
          let same : file_alloc s ≡ (some q, record s' { files = update s'.files q fresh_file }) =
            rw (file_alloc, here) refl in
          let q_is_f : q ≡ f = ground (arith, e, ap (λ r. r.0) same) in
          let bound = (find_slot-some s'.files max_open_files 0 q here).1 in
          subst (λ x. (x < max_open_files) × (((file_alloc s).1.files x).ref_count ≡ 1)) q_is_f
            (
              omega (arith, bound),
              ap (λ r. (r.1.files q).ref_count) same ∙ rw (eq→== q q refl) refl,
            )
    ]

fill-Fresh :
    (flags v : ℕ) (s : Vfs) (r : Option ℕ × FileTable)
    → ((f : ℕ) → r.0 ≡ some f → (f < max_open_files) × ((r.1.files f).ref_count ≡ 1))
    → FreshIf (fill_file flags v s r)
fill-Fresh flags v s (none, files) fresh = λ f e. absurd (ground (arith, e))
fill-Fresh flags v s (some g, files) fresh = λ f e.
    let same : g ≡ f = ground (arith, e) in
    let t = (fill_file flags v s (some g, files)).1 in
    let here : (file_at t g).ref_count ≡ (files.files g).ref_count =
      rw (file_at, eq→== g g refl) refl in
    subst (λ x. IsFresh t x) same ((fresh g refl).0, here ∙ (fresh g refl).1)

open_vnode-Fresh : (flags : ℕ) (r : (Option ℕ × Bool) × Vfs) → FreshIf (open_vnode flags r)
open_vnode-Fresh flags ((none, created), s) = λ f e. absurd (ground (arith, e))
open_vnode-Fresh flags ((some v, created), s) =
    let s' = emptied flags v created s in
    elim (Bool-cases ((vnode_at s v).type == type_dir && not (access_mode flags == o_rdonly))) [
      | inl refused ↦ rw refused (λ f e. absurd (ground (arith, e)))
      | inr allowed ↦
          rw allowed
            (fill-Fresh flags v s' (file_alloc s'.files) (λ f e. file_alloc-fresh s'.files f e))
    ]

pub vfs_open-IsFresh :
    (s : Vfs) (path : Option (List ℕ)) (flags f : ℕ)
    → (vfs_open s path flags).0 ≡ some f
    → IsFresh (vfs_open s path flags).1 f
unfolding vfs_open
vfs_open-IsFresh s path flags f e =
    open_vnode-Fresh flags (or_create path flags (vfs_lookup s path)) f e

-- The last reference to a file is given back: its slot is blank, and its vnode has one less.
last_unref :
    (s : FileTable) (f : ℕ)
    → f < max_open_files
    → (s.files f).ref_count ≡ 1
    → ((file_unref s (some f)).files f ≡ blank_file)
      × ((file_unref s (some f)).vnodes ≡ vnode_unref s.vnodes (s.files f).vnode)
unfolding file_unref file_free
last_unref s f lt one =
    let slot : file_is_console f ≡ false = ground arith in
    rw (slot, one, eq→== f f refl) (refl, refl)

unref_held :
    (a : Vnodes) (s : Vfs) (o : Option ℕ)
    → Holds a s.files.vnodes (hold o)
    → Holds a (vnode_unref s.files.vnodes o) nothing
unfolding vnode_unref
unref_held a s none k = k
unref_held a s (some v) k =
    unref-Holds a s nothing v
      (record { root = k.root; grown = λ u other. k.grown u other ∙ omega arith })

-- If vfs_open returns a file, vfs_close of it makes its slot blank again, and the reference count
-- of each vnode but the root is as before the two calls. The counts have room for two more
-- references.
pub vfs_close-open :
    (s : Vfs) (path : Option (List ℕ)) (flags f : ℕ)
    → IsRoomy s.files.vnodes
    → (vfs_open s path flags).0 ≡ some f
    → (let t = (vfs_close (vfs_open s path flags).1 (some f)).1 in
        (file_at t f ≡ blank_file) × Holds s.files.vnodes t.files.vnodes nothing)
unfolding vfs_close
vfs_close-open s path flags f room e =
    let r = vfs_open s path flags in
    let fresh = vfs_open-IsFresh s path flags f e in
    let (blank, less) = last_unref r.1.files f fresh.0 fresh.1 in
    let k = vfs_open-Holds s path flags room in
    let held : Holds s.files.vnodes r.1.files.vnodes (hold (file_at r.1 f).vnode) =
      subst (λ o. Holds s.files.vnodes r.1.files.vnodes (hold o)) (opened_vnode r f e) k in
    (
      blank,
      subst (λ x. Holds s.files.vnodes x nothing) (sym less)
          (unref_held s.files.vnodes r.1 (file_at r.1 f).vnode held),
    )
  where
    opened_vnode : (r : Option ℕ × Vfs) (f : ℕ) → r.0 ≡ some f → opened r ≡ (file_at r.1 f).vnode
    opened_vnode (none, t) f e = absurd (ground (arith, e))
    opened_vnode (some g, t) f e =
        let same : g ≡ f = ground (arith, e) in ap (λ x. (file_at t x).vnode) same
