-- ===== src/Keyboard.antt =====
-- kernel/drivers/keyboard/keyboard.c: the input buffer, and the interrupt of the keyboard.
pub mod Tables
pub mod Queue
pub mod Refinement
mod Tests
use Prim.Native.Nat.{bit_and}
use chanux.Common.{
  ℕ, zero, suc, ◌+◌, ◌%◌, Bool, true, false, not, ◌&&◌, ◌||◌, ◌==◌, leb, if◌then◌else◌, update,
  List,
}
use chanux.Keyboard.Tables.{scancode_ascii, scancode_ascii_shift}

abbrev pub kb_buffer_size : ℕ
kb_buffer_size = 256

-- The static variables of keyboard.c; a `char` is its code.
pub record Keyboard : Type 0 where
  pub key_buffer : ℕ → ℕ
  pub buffer_head : ℕ
  pub buffer_tail : ℕ
  pub shift_pressed : Bool
  pub ctrl_pressed : Bool
  pub alt_pressed : Bool
  pub caps_lock : Bool

abbrev pub buffer_empty : Keyboard → Bool
buffer_empty k = k.buffer_head == k.buffer_tail

abbrev pub buffer_full : Keyboard → Bool
buffer_full k = (k.buffer_head + 1) % kb_buffer_size == k.buffer_tail

unfoldable pub buffer_put : Keyboard → ℕ → Keyboard
buffer_put k c =
    if not (buffer_full k)
    then record k {
      key_buffer = update k.key_buffer k.buffer_head c;
      buffer_head = (k.buffer_head + 1) % kb_buffer_size;
    }
    else k

unfoldable pub buffer_get : Keyboard → ℕ × Keyboard
buffer_get k = if buffer_empty k then (0, k) else (
  k.key_buffer k.buffer_tail,
  record k { buffer_tail = (k.buffer_tail + 1) % kb_buffer_size },
)

-- The rows of letters, which Caps Lock affects.
abbrev pub is_letter_key : ℕ → Bool
is_letter_key key =
    leb 0x10 key && leb key 0x19 || (leb 0x1E key && leb key 0x26 || leb 0x2C key && leb key 0x32)

abbrev pub use_shift : Keyboard → ℕ → Bool
use_shift k key = if k.caps_lock && is_letter_key key then not k.shift_pressed else k.shift_pressed

abbrev pub ascii_of : Keyboard → ℕ → ℕ
ascii_of k key = if use_shift k key then scancode_ascii_shift key else scancode_ascii key

abbrev pub press_key : Keyboard → ℕ → Keyboard
press_key k key = let ascii = ascii_of k key in if not (ascii == 0) then buffer_put k ascii else k

-- `scancode` is the byte that the keyboard's data port gives.
unfoldable pub keyboard_irq_handler : Keyboard → ℕ → Keyboard
unfolding buffer_put
keyboard_irq_handler k scancode =
    let released = not (bit_and scancode 0x80 == 0) in
    let key = bit_and scancode 0x7F in
    if key == 0x2A || key == 0x36
    then record k { shift_pressed = not released }
    else if key == 0x1D
    then record k { ctrl_pressed = not released }
    else if key == 0x38
    then record k { alt_pressed = not released }
    else if key == 0x3A
    then if not released then record k { caps_lock = not k.caps_lock } else k
    else if released
    then k
    else press_key k key

-- The ports and the interrupt controller, which it also sets up, are not modelled.
unfoldable pub keyboard_init : Keyboard → Keyboard
keyboard_init k = record k {
  buffer_head = 0;
  buffer_tail = 0;
  shift_pressed = false;
  ctrl_pressed = false;
  alt_pressed = false;
  caps_lock = false;
}

abbrev pub keyboard_has_key : Keyboard → Bool
keyboard_has_key k = not (buffer_empty k)

-- `keyboard_getchar_nonblock`; `keyboard_getchar` does the same once a key is there.
abbrev pub keyboard_getchar_nonblock : Keyboard → ℕ × Keyboard
keyboard_getchar_nonblock k = buffer_get k
