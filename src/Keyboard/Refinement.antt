-- ===== src/Keyboard/Refinement.antt =====
-- The driver refines a keyboard that holds its modifiers and a queue of characters.
use Prim.Native.Nat.{bit_and}
use chanux.Common.{
  ℕ, ◌+◌, ◌%◌, ◌≡◌, ◌∙◌, ap, subst, refl, Bool, not, ◌&&◌, ◌||◌, ◌==◌, if◌then◌else◌, List, [], ◌∷◌,
  Bool-cases, inl, inr,
}
use chanux.Keyboard.{
  Keyboard, buffer_put, buffer_get, keyboard_irq_handler, keyboard_getchar_nonblock, press_key,
  ascii_of, is_letter_key,
}
use chanux.Keyboard.Tables.{scancode_ascii, scancode_ascii_shift}
use chanux.Keyboard.Queue.{contents, IsValid, enqueue, dequeue, buffer_put_lem, buffer_get_lem}

-- What a keyboard is, without its ring.
pub record Typist : Type 0 where
  pub queue : List ℕ
  pub shift : Bool
  pub ctrl : Bool
  pub alt : Bool
  pub caps : Bool

-- What the characters of a key are, by the modifiers.
abbrev pub meaning : Typist → ℕ → ℕ
meaning t key =
    let shifted = if t.caps && is_letter_key key then not t.shift else t.shift in
    if shifted then scancode_ascii_shift key else scancode_ascii key

abbrev pub type_key : Typist → ℕ → Typist
type_key t key =
    if not (meaning t key == 0) then record t { queue = enqueue t.queue (meaning t key) } else t

-- A key goes down or up.
abbrev pub strike : Typist → ℕ → Bool → Typist
strike t key up =
    if key == 0x2A || key == 0x36
    then record t { shift = not up }
    else if key == 0x1D
    then record t { ctrl = not up }
    else if key == 0x38
    then record t { alt = not up }
    else if key == 0x3A
    then if not up then record t { caps = not t.caps } else t
    else if up
    then t
    else type_key t key

unfoldable pub typist : Keyboard → Typist
typist k = record {
  queue = contents k;
  shift = k.shift_pressed;
  ctrl = k.ctrl_pressed;
  alt = k.alt_pressed;
  caps = k.caps_lock;
}

-- What happens to a keyboard: an interrupt with a scancode, or a read of a character.
pub data Event : Type 0 where
  interrupt : ℕ → Event
  read : Event

-- The characters that are read, 0 for none.
unfoldable pub run : Keyboard → List Event → List ℕ × Keyboard
run k [] = ([], k)
run k (Event.interrupt scancode ∷ es) = run (keyboard_irq_handler k scancode) es
run k (Event.read ∷ es) =
    let (c, k') = keyboard_getchar_nonblock k in let (cs, k'') = run k' es in (c ∷ cs, k'')

pub run_typist : Typist → List Event → List ℕ × Typist
run_typist t [] = ([], t)
run_typist t (Event.interrupt scancode ∷ es) =
    run_typist (strike t (bit_and scancode 0x7F) (not (bit_and scancode 0x80 == 0))) es
run_typist t (Event.read ∷ es) =
    let (c, queue) = dequeue t.queue in
    let (cs, t') = run_typist (record t { queue = queue }) es in (c ∷ cs, t')

abbrev pub Refines : Keyboard → Typist → Type 0
Refines k t = IsValid k × (typist k ≡ t)

keeps-IsValid :
    (k k' : Keyboard)
    → k'.buffer_head ≡ k.buffer_head
    → k'.buffer_tail ≡ k.buffer_tail
    → IsValid k
    → IsValid k'
keeps-IsValid k k' h t v = record { head_lt = rw h v.head_lt; tail_lt = rw t v.tail_lt }

put-typist :
    (k : Keyboard) (c : ℕ)
    → typist (buffer_put k c) ≡ record (typist k) { queue = contents (buffer_put k c) }
unfolding typist buffer_put
put-typist k c = elim (Bool-cases ((k.buffer_head + 1) % 256 == k.buffer_tail)) [
  | inl full ↦ rw full refl
  | inr room ↦ rw room refl
]

get-typist :
    (k : Keyboard)
    → typist (buffer_get k).1 ≡ record (typist k) { queue = contents (buffer_get k).1 }
unfolding typist buffer_get
get-typist k = elim (Bool-cases (k.buffer_head == k.buffer_tail)) [
  | inl empty ↦ rw empty refl
  | inr some ↦ rw some refl
]

press_key-Refines :
    (k : Keyboard) (key : ℕ) → IsValid k → Refines (press_key k key) (type_key (typist k) key)
unfolding typist
press_key-Refines k key v = elim (Bool-cases (ascii_of k key == 0)) [
  | inl silent ↦ rw silent (v, refl)
  | inr sounds ↦
      let (v', e) = buffer_put_lem k (ascii_of k key) v in
      rw sounds
        (v', put-typist k (ascii_of k key) ∙ ap (λ queue. record (typist k) { queue = queue }) e)
]

pub keyboard_irq_handler-Refines :
    (k : Keyboard) (scancode : ℕ)
    → IsValid k
    → Refines
        (keyboard_irq_handler k scancode)
        (strike (typist k) (bit_and scancode 0x7F) (not (bit_and scancode 0x80 == 0)))
unfolding keyboard_irq_handler typist contents
keyboard_irq_handler-Refines k scancode v =
    let key = bit_and scancode 0x7F in
    let up = not (bit_and scancode 0x80 == 0) in
    let kept =
      (λ (k' : Keyboard) (h : k'.buffer_head ≡ k.buffer_head) (t : k'.buffer_tail ≡ k.buffer_tail).
        keeps-IsValid k k' h t v) in
    elim (Bool-cases (key == 0x2A || key == 0x36)) [
      | inl shift ↦ rw shift (kept _ refl refl, refl)
      | inr h1 ↦ elim (Bool-cases (key == 0x1D)) [
        | inl ctrl ↦ rw (h1, ctrl) (kept _ refl refl, refl)
        | inr h2 ↦ elim (Bool-cases (key == 0x38)) [
          | inl alt ↦ rw (h1, h2, alt) (kept _ refl refl, refl)
          | inr h3 ↦ elim (Bool-cases (key == 0x3A)) [
            | inl caps ↦ elim (Bool-cases up) [
              | inl released ↦ rw (h1, h2, h3, caps, released) (v, refl)
              | inr pressed ↦ rw (h1, h2, h3, caps, pressed) (kept _ refl refl, refl)
            ]
            | inr h4 ↦ elim (Bool-cases up) [
              | inl released ↦ rw (h1, h2, h3, h4, released) (v, refl)
              | inr pressed ↦ rw (h1, h2, h3, h4, pressed) (press_key-Refines k key v)
            ]
          ]
        ]
      ]
    ]

abbrev read_typist : Typist → Typist
read_typist t = record t { queue = (dequeue t.queue).1 }

read-Refines :
    (k : Keyboard) (t : Typist)
    → Refines k t
    → ((buffer_get k).0 ≡ (dequeue t.queue).0) × Refines (buffer_get k).1 (read_typist t)
unfolding typist
read-Refines k t (v, e) =
    let (v', c, q) = buffer_get_lem k v in
    let next = get-typist k ∙ ap (λ queue. record (typist k) { queue = queue }) q in
    let queue : contents k ≡ t.queue = queue_of k ∙ ap (λ u. u.queue) e in
    (c ∙ ap (λ xs. (dequeue xs).0) queue, (v', next ∙ ap_rest k t e))
  where
    queue_of : (k : Keyboard) → contents k ≡ (typist k).queue
    queue_of k = refl

    ap_rest :
        (k : Keyboard) (t : Typist)
        → typist k ≡ t
        → record (typist k) { queue = (dequeue (contents k)).1 } ≡ read_typist t
    ap_rest k t e = ap read_typist e

-- For every sequence of keyboard interrupts and reads, the driver reads the same characters as a
-- keyboard that holds only its modifiers and a queue of at most 255 characters, and ends in a state
-- that represents the same.
pub run-Refines :
    (es : List Event) (k : Keyboard) (t : Typist)
    → Refines k t
    → ((run k es).0 ≡ (run_typist t es).0) × Refines (run k es).1 (run_typist t es).1
unfolding run run_typist
run-Refines [] k t r = (refl, r)
run-Refines (Event.interrupt scancode ∷ es) k t (v, e) =
    let key = bit_and scancode 0x7F in
    let up = not (bit_and scancode 0x80 == 0) in
    run-Refines es (keyboard_irq_handler k scancode) (strike t key up) (
      subst (λ u. Refines (keyboard_irq_handler k scancode) (strike u key up)) e
        (keyboard_irq_handler-Refines k scancode v))
run-Refines (Event.read ∷ es) k t r =
    let (c, r') = read-Refines k t r in
    let (cs, rest) = run-Refines es (buffer_get k).1 (read_typist t) r' in
    (ap (λ x. x ∷ (run (buffer_get k).1 es).0) c ∙ ap (λ xs. (dequeue t.queue).0 ∷ xs) cs, rest)
