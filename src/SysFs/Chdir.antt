-- ===== src/SysFs/Chdir.antt =====
-- `sys_chdir` of kernel/syscall/sys_fs.c, which compares the mode of a directory, its permissions
-- included, with S_IFDIR.
use chanux.Common.{
  ℕ, ◌^◌, ◌<◌, ◌≡◌, ◌≢◌, refl, sym, subst, false, ◌==◌, if◌then◌else◌, Option, none, some, List, ℤ,
  pos, arith, Bool-cases, inl, inr,
}
use chanux.Memory.{Mem}
use chanux.FsPath.{path_normalize, vfs_max_path}
use chanux.Ramfs.{Ramfs, type_dir}
use chanux.Vfs.{Vfs, vnode_at, is_set, get_vnode, vfs_lookup, lookup_inode}
use chanux.Vfs.Tree.{Stat, vfs_stat, stat_found, ramfs_vfs_stat, inode_stat, inode_mode}
use chanux.SysFs.{
  SysState, Caller, enter_dir, chdir_path, chdir_for, sys_chdir, path_at, validate_user_string,
}

-- Permissions stay below the bits of the type, and a directory has some.
pub record HasPermissions (fs : Ramfs) : Type 0 where
  pub low : (i : ℕ) → (fs.inodes i).permissions < 2 ^ 14
  pub some_set : (i : ℕ) → (fs.inodes i).type ≡ type_dir → 0 < (fs.inodes i).permissions

-- The call does not return 0, and the process keeps its directory.
abbrev pub IsRefused : SysState → ℤ × SysState → Type 0
IsRefused s r = (r.0 ≢ pos 0) × (r.1.caller ≡ s.caller)

mode_differs :
    (fs : Ramfs) (i : ℕ) → HasPermissions fs → (inode_mode (fs.inodes i) == 2 ^ 14) ≡ false
mode_differs fs i h = ground (arith, h.low i, h.some_set i)

-- No mode is that of a directory without permissions.
abbrev Differs : Option Stat → Type 0
Differs o = (st : Stat) → o ≡ some st → (st.st_mode == 2 ^ 14) ≡ false

inode_stat-Differs :
    (s : Vfs) (v : ℕ) (o : Option ℕ) → HasPermissions s.fs → Differs (inode_stat s v o)
inode_stat-Differs s v none h st e = absurd (ground (arith, e))
inode_stat-Differs s v (some i) h st e =
    mode_of (inode_stat s v (some i)) st e (mode_differs s.fs i h)
  where
    mode_of :
        (o : Option Stat) (st : Stat)
        → o ≡ some st
        → (elim o [ none ↦ false | some x ↦ x.st_mode == 2 ^ 14 ]) ≡ false
        → (st.st_mode == 2 ^ 14) ≡ false
    mode_of o st e h =
        subst (λ x. (elim x [ none ↦ false | some y ↦ y.st_mode == 2 ^ 14 ]) ≡ false) e h

found-Differs : (r : Option ℕ × Vfs) → HasPermissions r.1.fs → Differs (stat_found r).0
unfolding ramfs_vfs_stat
found-Differs (none, s) h = λ st e. absurd (ground (arith, e))
found-Differs (some v, s) h = elim (Bool-cases (is_set (vnode_at s v).ops)) [
  | inl set ↦ rw set (inode_stat-Differs s v (vnode_at s v).inode h)
  | inr unset ↦ rw unset (inode_stat-Differs s v none h)
]

get_vnode-fs : (s : Vfs) (num : Option ℕ) → (get_vnode s num).1.fs ≡ s.fs
get_vnode-fs s none = refl
get_vnode-fs s (some i) = refl

vfs_stat-Differs :
    (s : Vfs) (path : Option (List ℕ)) → HasPermissions s.fs → Differs (vfs_stat s path).0
unfolding vfs_stat vfs_lookup
vfs_stat-Differs s path h = found-Differs (vfs_lookup s path) (
    subst HasPermissions
      (sym (get_vnode-fs s (if s.initialized then lookup_inode s.fs path else none))) h)

enter_dir-IsRefused :
    (s : SysState) (p : Caller) (path : List ℕ) (r : Option Stat × Vfs)
    → s.caller ≡ some p
    → Differs r.0
    → IsRefused s (enter_dir s p path r)
enter_dir-IsRefused s p path (none, vfs) e d = (λ z. absurd (ground (arith, z)), refl)
enter_dir-IsRefused s p path (some st, vfs) e d =
    rw (d st refl) (λ z. absurd (ground (arith, z)), refl)

path-IsRefused :
    (s : SysState) (p : Caller) (path : Option (List ℕ))
    → s.caller ≡ some p
    → HasPermissions s.vfs.fs
    → IsRefused s (chdir_path s p path)
path-IsRefused s p none e h = (λ z. absurd (ground (arith, z)), refl)
path-IsRefused s p (some path) e h =
    enter_dir-IsRefused s p path (vfs_stat s.vfs (some path)) e
      (vfs_stat-Differs s.vfs (some path) h)

for-IsRefused :
    (s : SysState) (path : List ℕ) (caller : Option Caller)
    → s.caller ≡ caller
    → HasPermissions s.vfs.fs
    → IsRefused s (chdir_for s path caller)
for-IsRefused s path none e h = (λ z. absurd (ground (arith, z)), refl)
for-IsRefused s path (some p) e h =
    path-IsRefused s p (path_normalize (some path) (some p.cwd) vfs_max_path) e h

-- sys_chdir never returns 0, and never changes the directory of the process, in a filesystem in
-- which each directory has permissions and all permissions are below 2^14.
pub sys_chdir-IsRefused :
    (s : SysState) (mem : Mem) (path : ℕ)
    → HasPermissions s.vfs.fs
    → IsRefused s (sys_chdir s mem path)
unfolding sys_chdir
sys_chdir-IsRefused s mem path h = elim (Bool-cases (validate_user_string mem path vfs_max_path)) [
  | inl valid ↦ rw valid (for-IsRefused s (path_at mem path) s.caller refl h)
  | inr invalid ↦ rw invalid (λ z. absurd (ground (arith, z)), refl)
]
