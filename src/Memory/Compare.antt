-- ===== src/Memory/Compare.antt =====
-- `strcmp` and `strncmp` order strings as lists of bytes.
use chanux.Common.{
  ℕ, zero, suc, ◌+◌, ◌<◌, ◌≡◌, ◌∙◌, refl, sym, ap, subst, false, not, ◌&&◌, ◌==◌, if◌then◌else◌,
  arith, Bool-cases, inl, inr, List, [], ◌∷◌, ℤ, pos, ==→eq, eq→==, ne→==,
}
use chanux.Memory.{Mem, difference, string_at, strcmp, strncmp}
use chanux.Memory.Strings.{IsString}

-- The first byte that differs decides, and a string that has ended is before any other.
pub compare_bytes : List ℕ → List ℕ → ℤ
compare_bytes [] [] = pos 0
compare_bytes [] (y ∷ ys) = difference 0 y
compare_bytes (x ∷ xs) [] = difference x 0
compare_bytes (x ∷ xs) (y ∷ ys) =
    let rest = compare_bytes xs ys in if x == y then rest else difference x y

strncmp-compare_bytes :
    (mem : Mem) (s1 s2 n : ℕ)
    → strncmp mem s1 s2 n ≡ compare_bytes (string_at mem n s1) (string_at mem n s2)
unfolding strncmp string_at compare_bytes
strncmp-compare_bytes mem s1 s2 zero = refl
strncmp-compare_bytes mem s1 s2 (suc n) =
    let rest = strncmp-compare_bytes mem (s1 + 1) (s2 + 1) n in
    elim (Bool-cases (mem s1 == 0)) [
      | inl end1 ↦ elim (Bool-cases (mem s2 == 0)) [
        | inl end2 ↦
            let e1 = ==→eq (mem s1) 0 end1 in let e2 = ==→eq (mem s2) 0 end2 in rw (e1, e2) refl
        | inr more2 ↦ let e1 = ==→eq (mem s1) 0 end1 in rw (e1, more2) refl
      ]
      | inr more1 ↦ elim (Bool-cases (mem s2 == 0)) [
        | inl end2 ↦ let e2 = ==→eq (mem s2) 0 end2 in rw (e2, more1) refl
        | inr more2 ↦ elim (Bool-cases (mem s1 == mem s2)) [
          | inl same ↦ rw (more1, more2, same) rest
          | inr other ↦ rw (more1, more2, other) refl
        ]
      ]
    ]

difference_same : (x y : ℕ) → difference x y ≡ pos 0 → x ≡ y
difference_same x y e = ground (arith, e)

strncmp_same :
    (mem : Mem) (s1 s2 n : ℕ)
    → strncmp mem s1 s2 n ≡ pos 0
    → string_at mem n s1 ≡ string_at mem n s2
unfolding strncmp string_at
strncmp_same mem s1 s2 zero = λ e. refl
strncmp_same mem s1 s2 (suc n) = elim (Bool-cases (not (mem s1 == 0) && mem s1 == mem s2)) [
  | inl on ↦
      let same : mem s1 ≡ mem s2 = ground (arith, on) in
      let more : (mem s1 == 0) ≡ false = ground (arith, on) in
      let more' : (mem s2 == 0) ≡ false = ground (arith, on) in
      λ e.
        let rest = strncmp_same mem (s1 + 1) (s2 + 1) n (rw on at e) in
        rw (more, more', same) (ap (λ r. mem s2 ∷ r) rest)
  | inr off ↦ λ e.
      let same : mem s1 ≡ mem s2 = difference_same (mem s1) (mem s2) (rw off at e) in
      let z : mem s1 ≡ 0 = ground (arith, off, same) in
      let z' : mem s2 ≡ 0 = ground (arith, off, same) in rw (z, z') refl
]

compare_self : (xs : List ℕ) → compare_bytes xs xs ≡ pos 0
unfolding compare_bytes
compare_self [] = refl
compare_self (x ∷ xs) = rw (eq→== x x refl) (compare_self xs)

strcmp-strncmp : (fuel : ℕ) (mem : Mem) (s1 s2 : ℕ) → strcmp fuel mem s1 s2 ≡ strncmp mem s1 s2 fuel
unfolding strcmp strncmp
strcmp-strncmp zero mem s1 s2 = refl
strcmp-strncmp (suc fuel) mem s1 s2 =
    ap (λ r. if not (mem s1 == 0) && mem s1 == mem s2 then r else difference (mem s1) (mem s2))
      (strcmp-strncmp fuel mem (s1 + 1) (s2 + 1))

-- The string without its first byte.
IsString-next : (mem : Mem) (s n : ℕ) → IsString mem s (suc n) → IsString mem (s + 1) n
IsString-next mem s n h = record {
  bytes = λ i lt e.
      let place : s + 1 + i ≡ s + suc i = omega arith in
      h.bytes (suc i) (omega arith) (ap mem (sym place) ∙ e);
  ends = let place : s + 1 + n ≡ s + suc n = omega arith in ap mem place ∙ h.ends;
}

first_byte : (mem : Mem) (s n : ℕ) → IsString mem s (suc n) → (mem s == 0) ≡ false
first_byte mem s n h =
    let place : s + 0 ≡ s = omega arith in
    ne→== (mem s) 0 (λ z. h.bytes 0 (omega arith) (ap mem place ∙ z))

last_byte : (mem : Mem) (s : ℕ) → IsString mem s 0 → mem s ≡ 0
last_byte mem s h = let place : s + 0 ≡ s = omega arith in ap mem (sym place) ∙ h.ends

string_at_ends :
    (n fuel : ℕ) (mem : Mem) (s : ℕ)
    → n < fuel
    → IsString mem s n
    → string_at mem fuel s ≡ string_at mem n s
unfolding string_at
string_at_ends n zero mem s lt h = absurd (omega arith)
string_at_ends zero (suc fuel) mem s lt h = rw (last_byte mem s h) refl
string_at_ends (suc n) (suc fuel) mem s lt h = rw (first_byte mem s n h) (
    ap (λ r. mem s ∷ r) (string_at_ends n fuel mem (s + 1) (omega arith) (IsString-next mem s n h)))

-- The result `r` is the order of the two lists, and 0 exactly if they are the same.
abbrev pub IsOrder : List ℕ → List ℕ → ℤ → Type 0
IsOrder xs ys r = (r ≡ compare_bytes xs ys) × (r ≡ pos 0 → xs ≡ ys) × (xs ≡ ys → r ≡ pos 0)

-- strncmp compares the bytes before the NULs, the first `n` of them at most, as lists: the first byte
-- that differs decides, a list that has ended is before any other, and the result is 0 exactly if
-- the two lists are the same.
pub strncmp-IsOrder :
    (mem : Mem) (s1 s2 n : ℕ)
    → IsOrder (string_at mem n s1) (string_at mem n s2) (strncmp mem s1 s2 n)
strncmp-IsOrder mem s1 s2 n =
    let xs = string_at mem n s1 in
    let ys = string_at mem n s2 in
    let e = strncmp-compare_bytes mem s1 s2 n in
    (e, strncmp_same mem s1 s2 n, λ same. e ∙ ap (compare_bytes xs) (sym same) ∙ compare_self xs)

-- strcmp compares two strings as lists of bytes, on fuel of more than the length of each: the first
-- byte that differs decides, a list that has ended is before any other, and the result is 0 exactly
-- if the two lists are the same.
pub strcmp-IsOrder :
    (fuel : ℕ) (mem : Mem) (s1 s2 n m : ℕ)
    → IsString mem s1 n
    → IsString mem s2 m
    → n < fuel
    → m < fuel
    → IsOrder (string_at mem n s1) (string_at mem m s2) (strcmp fuel mem s1 s2)
strcmp-IsOrder fuel mem s1 s2 n m h1 h2 lt1 lt2 =
    subst (λ xs. IsOrder xs (string_at mem m s2) (strcmp fuel mem s1 s2))
      (string_at_ends n fuel mem s1 lt1 h1)
      (subst (λ ys. IsOrder (string_at mem fuel s1) ys (strcmp fuel mem s1 s2))
        (string_at_ends m fuel mem s2 lt2 h2)
        (subst (IsOrder (string_at mem fuel s1) (string_at mem fuel s2))
          (sym (strcmp-strncmp fuel mem s1 s2)) (strncmp-IsOrder mem s1 s2 fuel)))
