-- ===== src/Ramfs/Listing.antt =====
-- The entries in the bytes of a directory of kernel/fs/ramfs.c, wherever its blocks are: what a name
-- leads to, and what writing or clearing an entry does to that.
use chanux.Common.{
  ℕ, ◌+◌, ◌*◌, ◌≤◌, ◌<◌, ◌≡◌, ◌≢◌, ◌∙◌, refl, sym, ap, subst, true, false, ◌==◌, ltb, Option, none,
  some, List, [], ◌∷◌, length, arith, Bool-cases, inl, inr, ◌⊎◌, ==→eq, ne→==,
}
use chanux.Memory.{Mem}
use chanux.Ramfs.Dirs.{
  entry_inode, entry_matches, name_matches, search_entries, entry_result, dirent_size,
}
use chanux.Ramfs.Search.{search-none, search-some, search-fails, search-cong}

-- The entries of the 12 blocks that a directory can have.
abbrev pub slots : ℕ
slots = 768

-- What a name leads to.
abbrev pub lookup : Mem → List ℕ → Option ℕ
lookup c name = entry_result c (search_entries (entry_matches c name) slots 0)

-- The names that an entry has room for.
abbrev pub Fits : List ℕ → Type 0
Fits name = length name ≤ 55

-- No name has two entries.
abbrev pub IsDistinct : Mem → Type 0
IsDistinct c =
    (name : List ℕ) (j k : ℕ)
    → Fits name
    → j < slots
    → k < slots
    → entry_matches c name (dirent_size * j) ≡ true
    → entry_matches c name (dirent_size * k) ≡ true
    → j ≡ k

pub name_matches-cong :
    (name : List ℕ) (c d : Mem) (a b : ℕ)
    → ((k : ℕ) → k < length name → c (a + k) ≡ d (b + k))
    → name_matches c a name ≡ name_matches d b name
unfolding name_matches
name_matches-cong [] c d a b h = refl
name_matches-cong (x ∷ xs) c d a b h =
    let first : c a ≡ d b =
      subst (λ y. c y ≡ d b) {x = a + 0} (omega arith)
        (subst (λ y. c (a + 0) ≡ d y) {x = b + 0} (omega arith) (h 0 (omega arith))) in
    let rest = name_matches-cong xs c d (a + 1) (b + 1) (λ k lt.
      subst (λ y. c y ≡ d (b + 1 + k)) {x = a + (1 + k)} (omega arith)
        (subst (λ y. c (a + (1 + k)) ≡ d y) {x = b + (1 + k)} (omega arith)
          (h (1 + k) (omega arith)))) in
    rw (first, rest) refl

-- An entry is what its 64 bytes are.
pub entry-cong :
    (name : List ℕ) (c d : Mem) (a b : ℕ)
    → Fits name
    → ((k : ℕ) → k < dirent_size → c (a + k) ≡ d (b + k))
    → (entry_matches c name a ≡ entry_matches d name b) × (entry_inode c a ≡ entry_inode d b)
unfolding entry_matches
entry-cong name c d a b fits h =
    let zero_byte : c a ≡ d b =
      subst (λ y. c y ≡ d b) {x = a + 0} (omega arith)
        (subst (λ y. c (a + 0) ≡ d y) {x = b + 0} (omega arith) (h 0 (omega arith))) in
    let named = name_matches-cong name c d (a + 8) (b + 8) (λ k lt.
      subst (λ y. c y ≡ d (b + 8 + k)) {x = a + (8 + k)} (omega arith)
        (subst (λ y. c (a + (8 + k)) ≡ d y) {x = b + (8 + k)} (omega arith)
          (h (8 + k) (omega arith)))) in
    let b1 = h 1 (omega arith) in
    let b2 = h 2 (omega arith) in
    let b3 = h 3 (omega arith) in
    let b6 = h 6 (omega arith) in
    (rw (zero_byte, b1, b2, b3, b6, named) refl, rw (zero_byte, b1, b2, b3) refl)

-- Two names of the same bytes are the same.
same_bytes :
    (m name : List ℕ) (c : Mem) (a : ℕ)
    → length m ≡ length name
    → name_matches c a m ≡ true
    → name_matches c a name ≡ true
    → m ≡ name
unfolding name_matches
same_bytes [] [] c a len h h' = refl
same_bytes [] (y ∷ ys) c a len h h' = absurd (omega arith)
same_bytes (x ∷ xs) [] c a len h h' = absurd (omega arith)
same_bytes (x ∷ xs) (y ∷ ys) c a len h h' =
    let first : x ≡ y = ground (arith, h, h') in
    let rest = same_bytes xs ys c (a + 1) (omega arith) (ground (arith, h)) (ground (arith, h')) in
    rw (first, rest) refl

-- An entry has one name.
pub one_name :
    (c : Mem) (m name : List ℕ) (e : ℕ)
    → entry_matches c name e ≡ true
    → entry_matches c m e ≡ true
    → m ≡ name
unfolding entry_matches
one_name c m name e h h' =
    same_bytes m name c (e + 8) (ground (arith, h, h')) (ground (arith, h')) (ground (arith, h))

pub other_name :
    (c : Mem) (m name : List ℕ) (e : ℕ)
    → m ≢ name
    → entry_matches c name e ≡ true
    → entry_matches c m e ≡ false
other_name c m name e ne h = elim (Bool-cases (entry_matches c m e)) [
  | inl same ↦ absurd (ne (one_name c m name e h same))
  | inr other ↦ other
]

-- A free entry has no name.
pub free_entry :
    (c : Mem) (name : List ℕ) (e : ℕ) → entry_inode c e ≡ 0 → entry_matches c name e ≡ false
unfolding entry_matches
free_entry c name e h = rw h refl

-- Two states of a directory that differ in the entry `j` at most.
abbrev pub SameBut : Mem → Mem → ℕ → Type 0
SameBut c d j = (a : ℕ) → a < dirent_size * j ⊎ dirent_size * j + dirent_size ≤ a → d a ≡ c a

module _ (c d : Mem) (j : ℕ) (same : SameBut c d j) where
  pub other_entry :
      (m : List ℕ) (k : ℕ)
      → Fits m
      → k ≢ j
      → (entry_matches d m (dirent_size * k) ≡ entry_matches c m (dirent_size * k))
        × (entry_inode d (dirent_size * k) ≡ entry_inode c (dirent_size * k))
  other_entry m k fits ne = entry-cong m d c (dirent_size * k) (dirent_size * k) fits (λ b lt.
      same (dirent_size * k + b) (elim (Bool-cases (ltb k j)) [
        | inl low ↦ let before : k < j = ground arith in inl (omega arith)
        | inr high ↦ let after : j < k = ground (arith, ne→== k j ne) in inr (omega arith)
      ]))

  -- A name that the entry has in neither state leads to the same.
  pub lookup-other :
      (m : List ℕ)
      → Fits m
      → entry_matches c m (dirent_size * j) ≡ false
      → entry_matches d m (dirent_size * j) ≡ false
      → lookup d m ≡ lookup c m
  lookup-other m fits out out' =
      let found = search-cong (entry_matches d m) (entry_matches c m) slots 0 (λ k lt. agrees k) in
      let r = search_entries (entry_matches c m) slots 0 in
      ap (entry_result d) found ∙ result r refl
    where
      agrees :
          (k : ℕ)
          → entry_matches d m (0 + dirent_size * k) ≡ entry_matches c m (0 + dirent_size * k)
      agrees k =
          let place : 0 + dirent_size * k ≡ dirent_size * k = omega arith in
          rw place (elim (Bool-cases (k == j)) [
            | inl this ↦ let e : k ≡ j = ==→eq k j this in rw e (out' ∙ sym out)
            | inr other ↦ (other_entry m k fits (λ z. absurd (ground (arith, other, z)))).0
          ])

      result :
          (r : Option ℕ)
          → search_entries (entry_matches c m) slots 0 ≡ r
          → entry_result d r ≡ entry_result c r
      result none e = refl
      result (some p) e =
          let (k, lt, place, pass) = search-some (entry_matches c m) slots 0 p e in
          let here : p ≡ dirent_size * k = omega (arith, place) in
          let ne : k ≢ j = λ z.
            absurd
              (ground (arith, pass, out, here, ap (λ x. entry_matches c m (dirent_size * x)) z)) in
          ap some (rw here (other_entry m k fits ne).1)

-- A name without an entry.
unfoldable pub IsMissing : Mem → List ℕ → Type 0
IsMissing c name = (k : ℕ) → k < slots → entry_matches c name (dirent_size * k) ≡ false

pub IsMissing-lookup : (c : Mem) (name : List ℕ) → lookup c name ≡ none → IsMissing c name
unfolding IsMissing
IsMissing-lookup c name e k lt =
    subst (λ x. entry_matches c name x ≡ false) {x = 0 + dirent_size * k} (omega arith)
      (search-none (entry_matches c name) slots 0
        (unresolved (search_entries (entry_matches c name) slots 0) e) k lt)
  where
    unresolved : (r : Option ℕ) → entry_result c r ≡ none → r ≡ none
    unresolved none h = refl
    unresolved (some p) h = absurd (ground (arith, h))

pub lookup-missing : (c : Mem) (name : List ℕ) → IsMissing c name → lookup c name ≡ none
unfolding IsMissing
lookup-missing c name h = ap (entry_result c) (
    search-fails (entry_matches c name) slots 0 (λ k lt.
      subst (λ x. entry_matches c name x ≡ false) {x = dirent_size * k} (omega arith) (h k lt)))
