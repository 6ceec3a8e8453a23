-- ===== src/SysIo/Bounds.antt =====
-- What `validate_user_ptr` accepts, and that `sys_read` writes to the buffer alone.
use chanux.Common.{
  ℕ, zero, suc, ◌+◌, ◌-◌, ◌%◌, ◌/◌, ◌≤◌, ◌<◌, ◌≡◌, ◌≢◌, ◌∙◌, refl, ap, true, false, not, ◌&&◌, ◌==◌,
  ltb, leb, if◌then◌else◌, Option, none, some, update, add64, u64_mod, ℤ, pos, negsuc, arith,
  either, Bool-cases, inl, inr, ◌⊎◌, ne→==,
}
use chanux.Memory.{Mem}
use chanux.FileTable.{FdTable, o_wronly}
use chanux.Keyboard.{Keyboard, keyboard_has_key, buffer_get}
use chanux.Ramfs.{Inode, Ramfs, block_size, direct_blocks, type_file, write_bytes}
use chanux.Ramfs.Files.{ramfs_read, read_loop, read_chunk, min_size, rounds}
use chanux.Vfs.{Vfs, vnode_at, with_fs}
use chanux.Vfs.Calls.{
  vfs_read, read_vnode, read_inode, finish_read, ramfs_vfs_read, usable_vnode, file_at, access_mode,
}
use chanux.SysFs.{Caller, entry_of, user_space_end}
use chanux.SysIo.{
  IoState, validate_user_ptr, read_keys, keys_result, put_buffer, read_result, read_file, read_fd,
  sys_read,
}

-- A range of bytes of user space, without a wrap.
abbrev pub IsUser : ℕ → ℕ → Type 0
IsUser addr len = (0 < addr) × (addr < user_space_end) × (addr + len ≤ user_space_end)

pub validate-IsUser :
    (addr len : ℕ)
    → addr < u64_mod
    → len < u64_mod
    → ((validate_user_ptr addr len ≡ true → IsUser addr len)
        × (IsUser addr len → validate_user_ptr addr len ≡ true))
unfolding validate_user_ptr
validate-IsUser addr len low low' =
    (λ h. (ground (arith, h), ground (arith, h), ground (arith, h)), λ h. ground (arith, h))

-- What a read of at most `n` bytes gives: the count, and a buffer that is as it was from `n` on.
abbrev Reads : (ℕ → ℕ) → ℕ → ℕ × (ℕ → ℕ) → Type 0
Reads buf n r = (r.0 ≤ n) × ((k : ℕ) → n ≤ k → r.1 k ≡ buf k)

chunk_kept :
    (buf : ℕ → ℕ) (from n : ℕ) (src : ℕ → ℕ) (k : ℕ)
    → from + n ≤ k
    → write_bytes buf from src n k ≡ buf k
unfolding write_bytes
chunk_kept buf from n src k le = ground arith

read_loop-Reads :
    (fuel : ℕ) (s : Ramfs) (node : Inode) (buf : ℕ → ℕ) (count offset done : ℕ)
    → done ≤ count
    → Reads buf count (read_loop fuel s node buf count offset done)
unfolding read_loop
read_loop-Reads zero s node buf count offset done le = (le, λ k high. refl)
read_loop-Reads (suc fuel) s node buf count offset done le =
    let pos = offset + done in
    let n = min_size (count - done) (block_size - pos % block_size) in
    let fits : done + n ≤ count = ground arith in
    let b = node.blocks (pos / block_size) in
    let next = read_chunk s node buf done pos n in
    let rest = read_loop-Reads fuel s node next count offset (done + n) fits in
    let out : Reads buf count (done, buf) = (le, λ k high. refl) in
    let went : Reads buf count (read_loop fuel s node next count offset (done + n)) =
      (rest.0, λ k high. rest.1 k high ∙ chunk_kept buf done n _ k (omega arith)) in
    either (Reads buf count) (not (ltb done count)) out (
      either (Reads buf count) (leb direct_blocks (pos / block_size)) out
        (either (Reads buf count) (not (b == 0) && leb s.disk_blocks b) out went))

-- The same of a read that may fail.
abbrev MayRead : {S : Type 0} → (ℕ → ℕ) → ℕ → Option (ℕ × (ℕ → ℕ)) × S → Type 0
MayRead buf n (none, s) = Unit
MayRead buf n (some r, s) = Reads buf n r

ramfs_read-MayRead :
    (s : Ramfs) (i : ℕ) (buf : ℕ → ℕ) (count offset : ℕ)
    → MayRead buf count (ramfs_read s i buf count offset)
unfolding ramfs_read
ramfs_read-MayRead s i buf count offset =
    let node = s.inodes i in
    let count' = if ltb node.size (add64 offset count) then node.size - offset else count in
    let less : count' ≤ count = ground arith in
    let r = read_loop-Reads rounds s node buf count' offset 0 (omega arith) in
    either (MayRead buf count) (not (node.type == type_file)) tt (
      either (MayRead buf count) (leb node.size offset) (omega arith, λ k high. refl)
        (omega (arith, r, less), λ k high. r.1 k (omega (arith, less))))

advance-MayRead :
    (f : ℕ) (buf : ℕ → ℕ) (n : ℕ) (r : Option (ℕ × (ℕ → ℕ)) × Vfs)
    → MayRead buf n r
    → MayRead buf n (finish_read f r)
advance-MayRead f buf n (none, s) h = tt
advance-MayRead f buf n (some r, s) h = h

fs-MayRead :
    (s : Vfs) (buf : ℕ → ℕ) (n : ℕ) (r : Option (ℕ × (ℕ → ℕ)) × Ramfs)
    → MayRead buf n r
    → MayRead buf n (with_fs s r)
fs-MayRead s buf n (none, fs) h = tt
fs-MayRead s buf n (some r, fs) h = h

inode-MayRead :
    (s : Vfs) (buf : ℕ → ℕ) (count offset : ℕ) (i : Option ℕ)
    → MayRead buf count (read_inode s buf count offset i)
inode-MayRead s buf count offset none = tt
inode-MayRead s buf count offset (some i) =
    fs-MayRead s buf count _ (ramfs_read-MayRead s.fs i buf count offset)

vnode-MayRead :
    (s : Vfs) (f : ℕ) (buf : ℕ → ℕ) (count : ℕ) (v : Option ℕ)
    → MayRead buf count (read_vnode s f buf count v)
unfolding ramfs_vfs_read
vnode-MayRead s f buf count none = tt
vnode-MayRead s f buf count (some v) =
    advance-MayRead f buf count _
      (inode-MayRead s buf count (file_at s f).offset (vnode_at s v).inode)

vfs_read-MayRead :
    (s : Vfs) (f : Option ℕ) (buf : ℕ → ℕ) (count : ℕ) → MayRead buf count (vfs_read s f buf count)
unfolding vfs_read
vfs_read-MayRead s none buf count = tt
vfs_read-MayRead s (some f) buf count =
    either (MayRead buf count) (access_mode (file_at s f).flags == o_wronly) tt
      (vnode-MayRead s f buf count (usable_vnode s f))

-- A result that is an error, or at most `n`.
abbrev AtMost : ℤ → ℕ → Type 0
AtMost (pos r) n = r ≤ n
AtMost (negsuc r) n = Unit

-- The result is at most `len`, and memory is as it was before `buf` and from `buf + len` on.
abbrev Keeps : Mem → ℕ → ℕ → ℤ × Mem × IoState → Type 0
Keeps mem buf len (r, out, s) =
    AtMost r len × ((a : ℕ) → (a < buf) ⊎ (buf + len ≤ a) → out a ≡ mem a)

abbrev KeepsKeys : Mem → ℕ → ℕ → ℕ × Mem × Keyboard → Type 0
KeepsKeys mem buf len (n, out, k) =
    (n ≤ len) × ((a : ℕ) → (a < buf) ⊎ (buf + len ≤ a) → out a ≡ mem a)

next_key :
    (mem : Mem) (place left c : ℕ) (r : ℕ × Mem × Keyboard)
    → KeepsKeys (update mem place c) (place + 1) left r
    → KeepsKeys mem place (suc left) (r.0 + 1, r.1, r.2)
next_key mem place left c (n, out, k) (le, same) = (
  omega arith,
  λ a off.
      let out_there : (a < place + 1) ⊎ (place + 1 + left ≤ a) = ground (arith, off) in
      let ne : place ≢ a = λ e. absurd (ground (arith, off, e)) in
      same a out_there ∙ rw (ne→== place a ne) refl,
)

read_keys-Keeps :
    (left : ℕ) (mem : Mem) (place : ℕ) (k : Keyboard)
    → KeepsKeys mem place left (read_keys left mem place k)
unfolding read_keys
read_keys-Keeps zero mem place k = (omega arith, λ a off. refl)
read_keys-Keeps (suc left) mem place k =
    let c = (buffer_get k).0 in
    let k' = (buffer_get k).1 in
    let P = KeepsKeys mem place (suc left) in
    let rest = read_keys-Keeps left (update mem place c) (place + 1) k' in
    either P (not (keyboard_has_key k)) (omega arith, λ a off. refl)
      (either P (c == 0) (omega arith, λ a off. refl)
        (next_key mem place left c (read_keys left (update mem place c) (place + 1) k') rest))

keys-Keeps :
    (s : IoState) (mem : Mem) (buf len : ℕ) (r : ℕ × Mem × Keyboard)
    → KeepsKeys mem buf len r
    → Keeps mem buf len (keys_result s r)
keys-Keeps s mem buf len (n, out, k) h = h

result-Keeps :
    (s : IoState) (mem : Mem) (buf len : ℕ) (r : Option (ℕ × (ℕ → ℕ)) × Vfs)
    → MayRead (λ k. mem (buf + k)) len r
    → Keeps mem buf len (read_result s mem buf r)
result-Keeps s mem buf len (none, vfs) h = (tt, λ a off. refl)
result-Keeps s mem buf len (some (n, out), vfs) (le, same) = (le, λ a off. kept a off)
  where
    kept : (a : ℕ) → (a < buf) ⊎ (buf + len ≤ a) → put_buffer mem buf out a ≡ mem a
    kept a (inl below) = let e : leb buf a ≡ false = ground arith in rw e refl
    kept a (inr above) =
        let e : leb buf a ≡ true = ground arith in
        let place : buf + (a - buf) ≡ a = omega arith in
        rw e (same (a - buf) (omega arith) ∙ ap mem place)

file-Keeps :
    (s : IoState) (mem : Mem) (buf len : ℕ) (e : Option (Caller × FdTable × ℕ × ℕ))
    → Keeps mem buf len (read_file s mem buf len e)
file-Keeps s mem buf len none = (tt, λ a off. refl)
file-Keeps s mem buf len (some (p, t, fd, f)) =
    result-Keeps s mem buf len _ (vfs_read-MayRead s.sys.vfs (some f) (λ k. mem (buf + k)) len)

read_fd-Keeps :
    (s : IoState) (mem : Mem) (fd : ℤ) (buf len : ℕ) → Keeps mem buf len (read_fd s mem fd buf len)
read_fd-Keeps s mem (negsuc n) buf len = file-Keeps s mem buf len (entry_of s.sys (negsuc n))
read_fd-Keeps s mem (pos fd) buf len =
    let P = Keeps mem buf len in
    either P (fd == 0)
      (keys-Keeps s mem buf len (read_keys len mem buf s.keyboard)
        (read_keys-Keeps len mem buf s.keyboard))
      (either P (fd == 1) (tt, λ a off. refl)
        (either P (fd == 2) (tt, λ a off. refl)
          (file-Keeps s mem buf len (entry_of s.sys (pos fd)))))

-- The result is at most `len`, and a byte of memory that is another is one of the `len` bytes from
-- `buf` on, which are all in user space.
abbrev pub WritesUser : Mem → ℕ → ℕ → ℤ × Mem × IoState → Type 0
WritesUser mem buf len (r, out, s) =
    AtMost r len × ((a : ℕ) → out a ≢ mem a → IsUser buf len × (buf ≤ a) × (a < buf + len))

writes :
    (mem : Mem) (buf len : ℕ) (r : ℤ × Mem × IoState)
    → IsUser buf len
    → Keeps mem buf len r
    → WritesUser mem buf len r
writes mem buf len (r, out, s) user (le, same) =
    (le, λ a ne. (user, ground (arith, same a, ne), ground (arith, same a, ne)))

-- Whatever the descriptor and the state are, sys_read returns an error or at most `len`, and
-- changes no byte of memory but the `len` bytes from `buf` on, and those only if they are not at
-- address 0 and all lie below the end of user space. `buf` and `len` are 64-bit.
pub sys_read-WritesUser :
    (s : IoState) (mem : Mem) (fd : ℤ) (buf len : ℕ)
    → buf < u64_mod
    → len < u64_mod
    → WritesUser mem buf len (sys_read s mem fd buf len)
unfolding sys_read
sys_read-WritesUser s mem fd buf len low low' = elim (Bool-cases (validate_user_ptr buf len)) [
  | inl valid ↦ rw valid (
      writes mem buf len (read_fd s mem fd buf len) ((validate-IsUser buf len low low').0 valid)
        (read_fd-Keeps s mem fd buf len))
  | inr invalid ↦ rw invalid (tt, λ a ne. absurd (ne refl))
]
