-- ===== src/Bitmap/Bytes.antt =====
-- The bits of one byte, checked at every byte and every position.
use chanux.Common.{
  ℕ, zero, suc, ◌<◌, ◌≡◌, refl, Bool, true, false, not, ◌&&◌, Bool-cases, inl, inr, ==→eq, ◌==◌,
  ltb, if◌then◌else◌, arith,
}
use chanux.Bitmap.{bit_test, bit_set, bit_clear}

-- Whether a test passes at each number under a limit.
every : (ℕ → Bool) → ℕ → Bool
every test zero = true
every test (suc top) = if test top then every test top else false

every→test : (test : ℕ → Bool) (top n : ℕ) → n < top → every test top ≡ true → test n ≡ true
unfolding every
every→test test zero n below passed = elim below [ ]
every→test test (suc top) n below passed = elim (Bool-cases (n == top)) [
  | inl last ↦ rw (==→eq n top last) (ground arith)
  | inr earlier ↦ every→test test top n (ground arith) (ground arith)
]

abbrev bool_eq : Bool → Bool → Bool
bool_eq true b = b
bool_eq false b = not b

bool_eq_sound : (a b : Bool) → bool_eq a b ≡ true → a ≡ b
bool_eq_sound a b h = ground arith

-- Every byte `b` and all positions `k` and `j`.
all_bits : (ℕ → ℕ → ℕ → Bool) → Bool
unfolding every
all_bits p = every (λ b. every (λ k. every (p b k) 8) 8) 256

all_bits_sound :
    (p : ℕ → ℕ → ℕ → Bool)
    → all_bits p ≡ true
    → (b k j : ℕ) → b < 256
    → k < 8
    → j < 8
    → p b k j ≡ true
unfolding all_bits
all_bits_sound p h b k j hb hk hj = every→test (p b k) 8 j hj (
    every→test (λ k. every (p b k) 8) 8 k hk
      (every→test (λ b. every (λ k. every (p b k) 8) 8) 256 b hb h))

abbrev set_case : ℕ → ℕ → ℕ → Bool
set_case b k j = bool_eq (bit_test (bit_set b k) j) (if k == j then true else bit_test b j)

abbrev clear_case : ℕ → ℕ → ℕ → Bool
clear_case b k j = bool_eq (bit_test (bit_clear b k) j) (if k == j then false else bit_test b j)

set_table : all_bits set_case ≡ true
unfolding all_bits bit_test bit_set
set_table = refl

clear_table : all_bits clear_case ≡ true
unfolding all_bits bit_test bit_clear
clear_table = refl

range_table : all_bits (λ b k j. ltb (bit_set b k) 256 && ltb (bit_clear b k) 256) ≡ true
unfolding all_bits bit_set bit_clear
range_table = refl

module _ (b k j : ℕ) (hb : b < 256) (hk : k < 8) (hj : j < 8) where
  pub bit_test-set : bit_test (bit_set b k) j ≡ (if k == j then true else bit_test b j)
  bit_test-set = bool_eq_sound _ _ (all_bits_sound set_case set_table b k j hb hk hj)

  pub bit_test-clear : bit_test (bit_clear b k) j ≡ (if k == j then false else bit_test b j)
  bit_test-clear = bool_eq_sound _ _ (all_bits_sound clear_case clear_table b k j hb hk hj)

  range_case : (ltb (bit_set b k) 256 && ltb (bit_clear b k) 256) ≡ true
  range_case = all_bits_sound _ range_table b k j hb hk hj

pub bit_set-lt : (b k : ℕ) → b < 256 → k < 8 → bit_set b k < 256
bit_set-lt b k hb hk = ground (arith, range_case b k 0 hb hk (omega arith))

pub bit_clear-lt : (b k : ℕ) → b < 256 → k < 8 → bit_clear b k < 256
bit_clear-lt b k hb hk = ground (arith, range_case b k 0 hb hk (omega arith))

full_table : every (bit_test 255) 8 ≡ true
unfolding every bit_test
full_table = refl

pub bit_test-full : (k : ℕ) → k < 8 → bit_test 255 k ≡ true
bit_test-full k h = every→test (bit_test 255) 8 k h full_table

empty_table : every (λ k. not (bit_test 0 k)) 8 ≡ true
unfolding every bit_test
empty_table = refl

pub bit_test-empty : (k : ℕ) → k < 8 → bit_test 0 k ≡ false
bit_test-empty k h = ground (arith, every→test (λ j. not (bit_test 0 j)) 8 k h empty_table)
