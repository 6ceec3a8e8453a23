-- ===== src/Keyboard/Queue.antt =====
-- The circular buffer of the keyboard is a queue of at most 255 characters.
use chanux.Common.{
  ℕ, zero, suc, ◌+◌, ◌-◌, ◌%◌, ◌<◌, ◌≤◌, ◌≡◌, ◌∙◌, refl, true, false, ◌==◌, ltb, if◌then◌else◌,
  update, List, [], ◌∷◌, ◌++◌, length, arith, Bool-cases, ◌≢◌, ap, sym, lt→ltb, ==→eq, eq→==, ne→==,
  inl, inr,
}
use chanux.Keyboard.{Keyboard, buffer_put, buffer_get, kb_buffer_size}

-- `n` characters of the ring from place `i` on.
pub read_from : (ℕ → ℕ) → ℕ → ℕ → List ℕ
read_from b i zero = []
read_from b i (suc n) = b i ∷ read_from b ((i + 1) % 256) n

-- How many places lead from `t` to `h`.
abbrev pub gap : ℕ → ℕ → ℕ
gap t h = (h + 256 - t) % 256

-- The characters that wait, oldest first.
unfoldable pub contents : Keyboard → List ℕ
contents k = read_from k.key_buffer k.buffer_tail (gap k.buffer_tail k.buffer_head)

pub record IsValid (k : Keyboard) : Type 0 where
  pub head_lt : k.buffer_head < 256
  pub tail_lt : k.buffer_tail < 256

read_from-length : (b : ℕ → ℕ) (n i : ℕ) → length (read_from b i n) ≡ n
unfolding read_from
read_from-length b zero i = refl
read_from-length b (suc n) i = ground (arith, read_from-length b n ((i + 1) % 256))

pub contents-length : (k : Keyboard) → length (contents k) ≡ gap k.buffer_tail k.buffer_head
unfolding contents
contents-length k = read_from-length k.key_buffer (gap k.buffer_tail k.buffer_head) k.buffer_tail

read_from-update :
    (b : ℕ → ℕ) (h c n t : ℕ)
    → h < 256
    → t < 256
    → n ≤ gap t h
    → read_from (update b h c) t n ≡ read_from b t n
unfolding read_from
read_from-update b h c zero t hh ht le = refl
read_from-update b h c (suc n) t hh ht le =
    ground (arith, read_from-update b h c n ((t + 1) % 256) hh (omega arith) (omega arith))

read_from-snoc :
    (b : ℕ → ℕ) (n t : ℕ)
    → t < 256
    → read_from b t (suc n) ≡ (read_from b t n ++ (b ((t + n) % 256) ∷ []))
unfolding read_from
read_from-snoc b zero t ht = let e : (t + 0) % 256 ≡ t = omega arith in rw e refl
read_from-snoc b (suc n) t ht =
    let e : ((t + 1) % 256 + n) % 256 ≡ (t + suc n) % 256 = omega arith in
    ap (λ xs. b t ∷ xs)
      (read_from-snoc b n ((t + 1) % 256) (omega arith)
        ∙ ap (λ j. read_from b ((t + 1) % 256) n ++ (b j ∷ [])) e)

-- A queue of at most 255 characters.
abbrev pub enqueue : List ℕ → ℕ → List ℕ
enqueue xs c = if ltb (length xs) 255 then xs ++ (c ∷ []) else xs

abbrev pub dequeue : List ℕ → ℕ × List ℕ
dequeue [] = (0, [])
dequeue (c ∷ cs) = (c, cs)

module _ (k : Keyboard) (c : ℕ) (v : IsValid k) where
  put_full : (k.buffer_head + 1) % 256 ≡ k.buffer_tail → buffer_put k c ≡ k
  unfolding buffer_put
  put_full full = ground (arith, full, eq→== ((k.buffer_head + 1) % 256) k.buffer_tail full)

  abbrev filled : Keyboard
  filled = record k {
    key_buffer = update k.key_buffer k.buffer_head c;
    buffer_head = (k.buffer_head + 1) % kb_buffer_size;
  }

  put_room : (k.buffer_head + 1) % 256 ≢ k.buffer_tail → buffer_put k c ≡ filled
  unfolding buffer_put
  put_room room = ground (arith, ne→== ((k.buffer_head + 1) % 256) k.buffer_tail room)

  filled-contents :
      (k.buffer_head + 1) % 256 ≢ k.buffer_tail → contents filled ≡ (contents k ++ (c ∷ []))
  unfolding contents
  filled-contents room =
      let g = gap k.buffer_tail k.buffer_head in
      let b = update k.key_buffer k.buffer_head c in
      let more : gap k.buffer_tail ((k.buffer_head + 1) % 256) ≡ suc g = grow in
      let last : (k.buffer_tail + g) % 256 ≡ k.buffer_head = reach in
      ap (read_from b k.buffer_tail) more
      ∙ read_from-snoc b g k.buffer_tail v.tail_lt
      ∙ ap (λ j. read_from b k.buffer_tail g ++ (b j ∷ [])) last
      ∙ ap (λ j. read_from b k.buffer_tail g ++ (j ∷ [])) written
      ∙ ap (λ xs. xs ++ (c ∷ []))
          (read_from-update k.key_buffer k.buffer_head c g k.buffer_tail v.head_lt v.tail_lt
            (omega arith))
    where
      grow : gap k.buffer_tail ((k.buffer_head + 1) % 256) ≡ suc (gap k.buffer_tail k.buffer_head)
      grow = let a = v.head_lt in let b = v.tail_lt in omega (arith, room)

      reach : (k.buffer_tail + gap k.buffer_tail k.buffer_head) % 256 ≡ k.buffer_head
      reach = let a = v.head_lt in let b = v.tail_lt in omega arith

      written : update k.key_buffer k.buffer_head c k.buffer_head ≡ c
      written = ground (arith, eq→== k.buffer_head k.buffer_head refl)

  -- With both positions inside the ring, buffer_put keeps them inside and appends the character to
  -- the characters that wait, or drops it if 255 wait.
  pub buffer_put_lem :
      IsValid (buffer_put k c) × (contents (buffer_put k c) ≡ enqueue (contents k) c)
  buffer_put_lem =
      let a = v.head_lt in
      let b = v.tail_lt in
      let len = contents-length k in
      elim (Bool-cases ((k.buffer_head + 1) % 256 == k.buffer_tail)) [
        | inl full ↦
            let e = ==→eq ((k.buffer_head + 1) % 256) k.buffer_tail full in
            rw (put_full e) (v, no_room e)
        | inr room ↦
            let ne : (k.buffer_head + 1) % 256 ≢ k.buffer_tail =
              λ e. absurd (ground (arith, eq→== ((k.buffer_head + 1) % 256) k.buffer_tail e)) in
            rw (put_room ne) (
              record { head_lt = omega arith; tail_lt = b },
              filled-contents ne ∙ sym (with_room ne),
            )
      ]
    where
      no_room : (k.buffer_head + 1) % 256 ≡ k.buffer_tail → contents k ≡ enqueue (contents k) c
      no_room e =
          let a = v.head_lt in
          let b = v.tail_lt in
          let long : 255 ≤ length (contents k) = rw (contents-length k) (omega arith) in
          ground arith

      with_room :
          (k.buffer_head + 1) % 256 ≢ k.buffer_tail
          → enqueue (contents k) c ≡ (contents k ++ (c ∷ []))
      with_room room =
          let a = v.head_lt in
          let b = v.tail_lt in
          let short : length (contents k) < 255 = rw (contents-length k) (omega (arith, room)) in
          rw (lt→ltb (length (contents k)) 255 short) refl

module _ (k : Keyboard) (v : IsValid k) where
  -- With both positions inside the ring, buffer_get keeps them inside, returns the character that
  -- has waited longest, or 0 if none waits, and takes it out.
  pub buffer_get_lem :
      IsValid (buffer_get k).1
      × ((buffer_get k).0 ≡ (dequeue (contents k)).0)
      × (contents (buffer_get k).1 ≡ (dequeue (contents k)).1)
  unfolding buffer_get contents read_from
  buffer_get_lem = elim (Bool-cases (k.buffer_head == k.buffer_tail)) [
    | inl empty ↦ rw empty (
      v,
      ap (λ xs. (dequeue xs).0) (sym (none_waits empty)),
      none_waits empty ∙ ap (λ xs. (dequeue xs).1) (sym (none_waits empty)),
    )
    | inr some ↦ rw some (
      record { head_lt = v.head_lt; tail_lt = omega arith },
      ap (λ xs. (dequeue xs).0) (sym (one_waits some)),
      ap (λ xs. (dequeue xs).1) (sym (one_waits some)),
    )
  ]
    where
      none_waits : (k.buffer_head == k.buffer_tail) ≡ true → contents k ≡ []
      none_waits empty =
          let e = ==→eq k.buffer_head k.buffer_tail empty in
          let no : gap k.buffer_tail k.buffer_head ≡ 0 = let b = v.tail_lt in omega arith in
          ap (read_from k.key_buffer k.buffer_tail) no

      one_waits :
          (k.buffer_head == k.buffer_tail) ≡ false
          → contents k ≡ (
              k.key_buffer k.buffer_tail
              ∷ read_from k.key_buffer
                  ((k.buffer_tail + 1) % 256)
                  (gap ((k.buffer_tail + 1) % 256) k.buffer_head))
      one_waits some =
          let a = v.head_lt in
          let b = v.tail_lt in
          let ne : k.buffer_head ≢ k.buffer_tail =
            λ e. absurd (ground (arith, eq→== k.buffer_head k.buffer_tail e)) in
          let more : gap k.buffer_tail k.buffer_head
              ≡ suc (gap ((k.buffer_tail + 1) % 256) k.buffer_head) =
            omega (arith, ne) in
          ap (read_from k.key_buffer k.buffer_tail) more
