-- ===== src/Keyboard/Tests.antt =====
-- A keyboard after `keyboard_init`, on which a shifted A is typed and read.
use chanux.Common.{◌≡◌, refl, false, List, [], ◌∷◌, arith}
use chanux.Keyboard.{Keyboard, buffer_put, buffer_get, keyboard_irq_handler}
use chanux.Keyboard.Tables.{scancode_ascii_shift}
use chanux.Keyboard.Queue.{IsValid}
use chanux.Keyboard.Refinement.{Event, Refines, run, run_typist, typist, run-Refines}

abbrev idle : Keyboard
idle = record {
  key_buffer = λ i. 0;
  buffer_head = 255;
  buffer_tail = 255;
  shift_pressed = false;
  ctrl_pressed = false;
  alt_pressed = false;
  caps_lock = false;
}

idle-IsValid : IsValid idle
idle-IsValid = record { head_lt = omega arith; tail_lt = omega arith }

-- Shift down, A down, and two reads.
abbrev events : List Event
events = Event.interrupt 0x2A ∷ Event.interrupt 0x1E ∷ Event.read ∷ Event.read ∷ []

run-Refines_example :
    ((run idle events).0 ≡ (run_typist (typist idle) events).0)
    × Refines (run idle events).1 (run_typist (typist idle) events).1
run-Refines_example = run-Refines events idle (typist idle) (idle-IsValid, refl)

reads_a_capital : (run idle events).0 ≡ (65 ∷ 0 ∷ [])
unfolding run keyboard_irq_handler buffer_put buffer_get scancode_ascii_shift
reads_a_capital = refl
