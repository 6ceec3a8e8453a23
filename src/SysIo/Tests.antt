-- ===== src/SysIo/Tests.antt =====
-- A process with the file of `Vfs/Sample.antt` at descriptor 3, and two keys that have been pressed.
use chanux.Common.{false, ◌≡◌, ◌+◌, refl, some, none, [], arith, ◌==◌, if◌then◌else◌, pos}
use chanux.Memory.{Mem}
use chanux.FileTable.{FdTable, empty_table}
use chanux.Keyboard.{Keyboard, buffer_get}
use chanux.Vfs.Sample.{state, disk-IsFs, four-IsOpen}
use chanux.Vfs.Calls.{vfs_write, ramfs_vfs_write}
use chanux.Bitmap.{bitmap_test, bitmap_set, bit_test, bit_set, find_free}
use chanux.Ramfs.{alloc_block}
use chanux.Ramfs.Files.{ramfs_write, write_loop, ensure_block, set_block}
use chanux.SysFs.{Caller}
use chanux.SysIo.{IoState, validate_user_ptr, read_keys, sys_read, sys_write}
use chanux.SysIo.Bounds.{WritesUser, sys_read-WritesUser}
use chanux.SysIo.RoundTrip.{IsCopied, copy_through, sys_read-sys_write}

abbrev table : FdTable
table = record empty_table { entries = λ fd. if fd == 3 then some 4 else none }

abbrev caller : Caller
caller = record { fd_table = some table; cwd = [] }

abbrev keyboard : Keyboard
keyboard = record {
  key_buffer = λ k. 97 + k;
  buffer_head = 2;
  buffer_tail = 0;
  shift_pressed = false;
  ctrl_pressed = false;
  alt_pressed = false;
  caps_lock = false;
}

abbrev io : IoState
io = record { sys = record { vfs = state; caller = some caller }; keyboard = keyboard; screen = [] }

abbrev memory : Mem
memory a = a

-- The two keys are read, in order.
read_two : (sys_read io memory (pos 0) 4096 8).0 ≡ pos 2
unfolding sys_read validate_user_ptr read_keys buffer_get
read_two = refl

wrote_all : (sys_write io memory (pos 3) 4096 5).0 ≡ pos 5
unfolding sys_write validate_user_ptr vfs_write ramfs_vfs_write ramfs_write write_loop ensure_block
    set_block alloc_block find_free bitmap_test bit_test bitmap_set bit_set
wrote_all = refl

sys_read-WritesUser_example : WritesUser memory 4096 8 (sys_read io memory (pos 0) 4096 8)
sys_read-WritesUser_example =
    sys_read-WritesUser io memory (pos 0) 4096 8 (omega arith) (omega arith)

sys_read-sys_write_example :
    IsCopied memory 4096 8192 5 (copy_through io memory 3 4096 5 4094 8192 5)
sys_read-sys_write_example =
    sys_read-sys_write io memory caller table 3 4 1 1 4096 5 8192 5 (omega arith, refl) disk-IsFs
      four-IsOpen refl (omega arith) (omega arith) (omega arith, omega arith, omega arith)
      (omega arith, omega arith, omega arith) wrote_all
