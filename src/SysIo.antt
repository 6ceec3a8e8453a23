-- ===== src/SysIo.antt =====
-- kernel/syscall/sys_io.c: `sys_write` and `sys_read`, on the console and on open files. The memory of
-- the calling process is a map from addresses to bytes; the screen is the characters that
-- `vga_putchar` was given.
pub mod Bounds
pub mod RoundTrip
pub mod Sound
mod Tests
use chanux.Common.{
  ℕ, zero, suc, ◌+◌, ◌-◌, Bool, true, false, not, ◌==◌, ltb, leb, if◌then◌else◌, Option, none, some,
  update, add64, List, [], ◌∷◌, ◌++◌, ℤ, pos, negsuc,
}
use chanux.Memory.{Mem}
use chanux.FileTable.{FdTable}
use chanux.Keyboard.{Keyboard, keyboard_has_key, keyboard_getchar_nonblock}
use chanux.Vfs.{Vfs}
use chanux.Vfs.Calls.{vfs_read, vfs_write}
use chanux.SysFs.{SysState, Caller, entry_of, failed, ebadf, efault, user_space_end}

pub record IoState : Type 0 where
  pub sys : SysState
  pub keyboard : Keyboard
  pub screen : List ℕ

abbrev pub set_vfs : IoState → Vfs → IoState
set_vfs s vfs = record s { sys = record s.sys { vfs = vfs } }

unfoldable pub validate_user_ptr : ℕ → ℕ → Bool
validate_user_ptr addr len =
    if addr == 0
    then false
    else if leb user_space_end addr
    then false
    else if ltb (add64 addr len) addr
    then false
    else not (ltb user_space_end (add64 addr len))

-- The `n` bytes from an address on.
pub bytes_at : Mem → ℕ → ℕ → List ℕ
bytes_at mem zero addr = []
bytes_at mem (suc n) addr = mem addr ∷ bytes_at mem n (addr + 1)

abbrev pub write_result : IoState → Option ℕ × Vfs → ℤ × IoState
write_result s (none, vfs) = (failed, set_vfs s vfs)
write_result s (some n, vfs) = (pos n, set_vfs s vfs)

abbrev pub write_file : IoState → Mem → ℕ → ℕ → Option (Caller × FdTable × ℕ × ℕ) → ℤ × IoState
write_file s mem buf len none = (ebadf, s)
write_file s mem buf len (some (p, t, fd, f)) =
    write_result s (vfs_write s.sys.vfs (some f) (λ k. mem (buf + k)) len)

abbrev pub write_fd : IoState → Mem → ℤ → ℕ → ℕ → ℤ × IoState
write_fd s mem (negsuc n) buf len = write_file s mem buf len (entry_of s.sys (negsuc n))
write_fd s mem (pos fd) buf len =
    if fd == 1
    then (pos len, record s { screen = s.screen ++ bytes_at mem len buf })
    else if fd == 2
    then (pos len, record s { screen = s.screen ++ bytes_at mem len buf })
    else if fd == 0
    then (ebadf, s)
    else write_file s mem buf len (entry_of s.sys (pos fd))

unfoldable pub sys_write : IoState → Mem → ℤ → ℕ → ℕ → ℤ × IoState
sys_write s mem fd buf len =
    if validate_user_ptr buf len then write_fd s mem fd buf len else (efault, s)

-- The loop over the keyboard, with the places that are left: how many characters were put into
-- memory from an address on, the memory and the keyboard.
pub read_keys : ℕ → Mem → ℕ → Keyboard → ℕ × Mem × Keyboard
read_keys zero mem place k = (0, mem, k)
read_keys (suc left) mem place k =
    let (c, k') = keyboard_getchar_nonblock k in
    let (n, mem', k'') = read_keys left (update mem place c) (place + 1) k' in
    if not (keyboard_has_key k)
    then (0, mem, k)
    else if c == 0
    then (0, mem, k')
    else (n + 1, mem', k'')

abbrev pub keys_result : IoState → ℕ × Mem × Keyboard → ℤ × Mem × IoState
keys_result s (n, mem, k) = (pos n, mem, record s { keyboard = k })

-- The buffer in memory.
abbrev pub put_buffer : Mem → ℕ → (ℕ → ℕ) → Mem
put_buffer mem buf out a = if leb buf a then out (a - buf) else mem a

abbrev pub read_result : IoState → Mem → ℕ → Option (ℕ × (ℕ → ℕ)) × Vfs → ℤ × Mem × IoState
read_result s mem buf (none, vfs) = (failed, mem, set_vfs s vfs)
read_result s mem buf (some (n, out), vfs) = (pos n, put_buffer mem buf out, set_vfs s vfs)

abbrev pub read_file : IoState → Mem → ℕ → ℕ → Option (Caller × FdTable × ℕ × ℕ) → ℤ × Mem × IoState
read_file s mem buf len none = (ebadf, mem, s)
read_file s mem buf len (some (p, t, fd, f)) =
    read_result s mem buf (vfs_read s.sys.vfs (some f) (λ k. mem (buf + k)) len)

abbrev pub read_fd : IoState → Mem → ℤ → ℕ → ℕ → ℤ × Mem × IoState
read_fd s mem (negsuc n) buf len = read_file s mem buf len (entry_of s.sys (negsuc n))
read_fd s mem (pos fd) buf len =
    if fd == 0
    then keys_result s (read_keys len mem buf s.keyboard)
    else if fd == 1
    then (ebadf, mem, s)
    else if fd == 2
    then (ebadf, mem, s)
    else read_file s mem buf len (entry_of s.sys (pos fd))

-- The result, the memory and the state.
unfoldable pub sys_read : IoState → Mem → ℤ → ℕ → ℕ → ℤ × Mem × IoState
sys_read s mem fd buf len =
    if validate_user_ptr buf len then read_fd s mem fd buf len else (efault, mem, s)
