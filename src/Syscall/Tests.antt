-- ===== src/Syscall/Tests.antt =====
-- A kernel with the processes of `Process/Sample.antt` and the filesystem of `Vfs/Sample.antt`.
use chanux.Common.{
  ℤ, leb, ltb, ◌&&◌, true, false, ◌≡◌, ◌+◌, ◌-◌, ◌^◌, refl, [], arith, ◌==◌, pos, negsuc,
  Bool-cases, inl, inr, ==→eq,
}
use chanux.Keyboard.{Keyboard}
use chanux.Bitmap.{bitmap_test, bitmap_set, bit_test, bit_set, find_free}
use chanux.Ramfs.{alloc_block}
use chanux.Ramfs.Files.{ramfs_write, write_loop, ensure_block, set_block}
use chanux.Vfs.Calls.{vfs_write, ramfs_vfs_write}
use chanux.SysIo.{IoState, sys_write, validate_user_ptr}
use chanux.Proc.{System}
use chanux.Vfs.Sample.{state, disk, disk-IsSound}
use chanux.Syscall.{Kernel, returned, stopped, io_of, put_io, to_int, handler_at, syscall_dispatch}
use chanux.Syscall.Structs.{put_number}
use chanux.Syscall.Places.{IsSafe}
use chanux.Syscall.Bounds.{syscall_dispatch-IsSafe}
use chanux.Process.Sample.{system, waiting, system-IsLive}
use chanux.Sched.Wake.{IsLive}
use chanux.Syscall.Live.{GoesOn, files-IsLive}
use chanux.Syscall.Fault.{Pages, access_at, accessible, covers, syscall, syscall-GoesOn}
use chanux.Syscall.Sound.{StaysSound, syscall_dispatch-StaysSound}
use chanux.Syscall.Run.{called, ticked, Run, start, step, ByProcess, pit_irq_handler}

abbrev kernel_system : System
kernel_system = record system { files = state.files }

live : IsLive kernel_system waiting 1 0
live = files-IsLive system state.files waiting 1 0 system-IsLive

abbrev keyboard : Keyboard
keyboard = record {
  key_buffer = λ k. 97 + k;
  buffer_head = 2;
  buffer_tail = 0;
  shift_pressed = false;
  ctrl_pressed = false;
  alt_pressed = false;
  caps_lock = false;
}

abbrev kernel : Kernel
kernel = record {
  system = kernel_system;
  fs = disk;
  vfs_initialized = true;
  keyboard = keyboard;
  screen = [];
  memory = λ a. a;
}

-- -2 as an argument of type `int`, and the four bytes of a number.
minus_two : to_int (2 ^ 64 - 2) ≡ negsuc 1
unfolding to_int
minus_two = refl

little_end_first : put_number 4 (λ a. 0) 8 0x01020304 9 ≡ 3
unfolding put_number
little_end_first = refl

own_pid : syscall_dispatch kernel 4 0 0 0 ≡ returned (pos 1) kernel
unfolding syscall_dispatch handler_at
own_pid = refl

unknown_number : syscall_dispatch kernel 14 0 0 0 ≡ returned (negsuc 37) kernel
unfolding syscall_dispatch
unknown_number = refl

-- `read(0, 4096, 8)`
syscall_dispatch-IsSafe_example : IsSafe kernel.memory (syscall_dispatch kernel 2 0 4096 8)
syscall_dispatch-IsSafe_example =
    syscall_dispatch-IsSafe kernel 2 0 4096 8 (omega arith) (omega arith) (omega arith)

-- `write(3, 4096, 5)`
syscall_dispatch-StaysSound_example : StaysSound (syscall_dispatch kernel 1 3 4096 5)
syscall_dispatch-StaysSound_example = syscall_dispatch-StaysSound kernel 1 3 4096 5 disk-IsSound

busy : ByProcess kernel_system
busy c current = elim (Bool-cases (c == 1)) [
  | inl here ↦ rw (==→eq c 1 here) refl
  | inr other ↦ absurd (ground (arith, current, other))
]

-- One page is there.
abbrev pages : Pages
pages = record {
  readable = λ a. leb 4096 a && ltb a 8192;
  writable = λ a. leb 4096 a && ltb a 8192;
}

-- `write(3, 4096, 5)`, and from the page before.
write_there : accessible pages kernel 1 3 4096 5 ≡ true
unfolding accessible access_at covers sys_write validate_user_ptr vfs_write ramfs_vfs_write
    ramfs_write write_loop ensure_block set_block alloc_block find_free bitmap_test bit_test
    bitmap_set bit_set to_int
write_there = refl

not_there : syscall pages kernel 1 1 4095 5 ≡ stopped
unfolding syscall accessible access_at covers sys_write validate_user_ptr to_int
not_there = refl

exit_there : accessible pages kernel 0 3 0 0 ≡ true
unfolding accessible access_at
exit_there = refl

-- `exit(3)`
syscall-GoesOn_example : GoesOn 0 (syscall pages kernel 0 3 0 0)
syscall-GoesOn_example = syscall-GoesOn 0 pages kernel 0 3 0 0 (waiting, 1, live, refl) exit_there

-- The write, and a timer interrupt.
abbrev wrote : ℤ × IoState
wrote = sys_write (io_of kernel) kernel.memory (to_int 3) 4096 5

abbrev written : Kernel
written = put_io kernel wrote.1

written_there : syscall pages kernel 1 3 4096 5 ≡ returned wrote.0 written
unfolding syscall syscall_dispatch handler_at
written_there = rw write_there refl

abbrev later : Kernel
later = pit_irq_handler written

abbrev run : Run kernel later
run =
    step kernel written later
      (step kernel kernel written (start kernel) (
        called pages kernel 1 3 4096 5 wrote.0 written (omega arith) (omega arith) (omega arith)
          busy written_there))
      (ticked written)
