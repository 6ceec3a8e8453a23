-- ===== src/FsPath/Work.antt =====
-- The working path of `path_normalize`: what one component does to it.
use mathlib.Core.List.{reverse, reverse-cons}
use chanux.Common.{
  ℕ, ◌+◌, ◌≤◌, ◌≡◌, ◌∙◌, ap, refl, Bool, true, false, ◌&&◌, ◌==◌, leb, none, some, List, [], ◌∷◌,
  ◌++◌, length, length-append, arith, Bool-cases, inl, inr, ◌⊎◌,
}
use chanux.FsPath.{
  slash, is_open, close_work, drop_component, go_up, append_closed, apply_component,
  drop_end_slashes, is_dot, is_dot_dot,
}
use chanux.FsPath.Components.{enter, no_slash, is_name, all_names}

-- The bytes of the working path of a directory, the last one first.
abbrev pub body : List (List ℕ) → List ℕ
body [] = []
body (w ∷ names) = reverse w ++ (slash ∷ body names)

abbrev pub has_name : List (List ℕ) → Bool
has_name [] = false
has_name (w ∷ names) = true

-- The working path of a directory, with a slash at its end or without.
abbrev pub Shows : List ℕ → List (List ℕ) → Type 0
Shows work names = (work ≡ (slash ∷ body names)) ⊎ ((work ≡ body names) × (has_name names ≡ true))

append-no_slash : (xs ys : List ℕ) → no_slash (xs ++ ys) ≡ (no_slash xs && no_slash ys)
append-no_slash [] ys = refl
append-no_slash (x ∷ xs) ys = ground (arith, append-no_slash xs ys)

reverse-no_slash : (xs : List ℕ) → no_slash xs ≡ true → no_slash (reverse xs) ≡ true
reverse-no_slash [] h = refl
reverse-no_slash (x ∷ xs) h =
    rw (reverse-cons x xs)
      (rw (append-no_slash (reverse xs) (x ∷ [])) (ground (arith, reverse-no_slash xs)))

drop-names :
    (xs rest : List ℕ) → no_slash xs ≡ true → drop_component (xs ++ (slash ∷ rest)) ≡ (slash ∷ rest)
unfolding drop_component
drop-names [] [] h = refl
drop-names [] (r ∷ rest) h = refl
drop-names (x ∷ []) rest h = ground (arith, drop-names [] rest refl)
drop-names (x ∷ y ∷ xs) rest h = ground (arith, drop-names (y ∷ xs) rest (ground arith))

pub drop_end-names :
    (xs rest : List ℕ) → is_open xs ≡ true → drop_end_slashes (xs ++ rest) ≡ (xs ++ rest)
unfolding drop_end_slashes
drop_end-names [] rest h = absurd (ground arith)
drop_end-names (x ∷ []) [] h = refl
drop_end-names (x ∷ []) (r ∷ rest) h = ground arith
drop_end-names (x ∷ y ∷ xs) rest h = ground arith

reverse-snoc_open :
    (x : ℕ) (xs : List ℕ) → no_slash (x ∷ xs) ≡ true → is_open (reverse (x ∷ xs)) ≡ true
reverse-snoc_open x xs h =
    rw (reverse-cons x xs)
      (append_open (reverse xs) x (ground arith) (reverse-no_slash xs (ground arith)))
  where
    append_open :
        (ys : List ℕ) (x : ℕ)
        → (x == slash) ≡ false
        → no_slash ys ≡ true
        → is_open (ys ++ (x ∷ [])) ≡ true
    append_open [] x h k = ground arith
    append_open (y ∷ ys) x h k = ground arith

pub name-is_open : (w : List ℕ) → is_name w ≡ true → is_open (reverse w) ≡ true
name-is_open [] h = absurd (ground arith)
name-is_open (x ∷ xs) h = reverse-snoc_open x xs h

pub append-is_open : (xs ys : List ℕ) → is_open xs ≡ true → is_open (xs ++ ys) ≡ true
append-is_open [] ys h = absurd (ground arith)
append-is_open (x ∷ xs) ys h = h

name-no_slash : (w : List ℕ) → is_name w ≡ true → no_slash (reverse w) ≡ true
name-no_slash [] h = refl
name-no_slash (x ∷ xs) h = reverse-no_slash (x ∷ xs) h

pub body-is_open :
    (names : List (List ℕ))
    → has_name names ≡ true
    → all_names names ≡ true
    → is_open (body names) ≡ true
body-is_open [] h a = absurd (ground arith)
body-is_open (w ∷ names) h a = append-is_open (reverse w) _ (name-is_open w (ground arith))

-- The work after its end is closed.
pub close-Shows :
    (work : List ℕ) (names : List (List ℕ))
    → Shows work names
    → all_names names ≡ true
    → (close_work work ≡ some (slash ∷ body names))
      ⊎ ((close_work work ≡ none) × (255 ≤ length work))
close-Shows work names (inl e) a = rw e (inl refl)
close-Shows work names (inr (e, h)) a =
    let opened : is_open work ≡ true = rw e (body-is_open names h a) in
    elim (Bool-cases (leb 255 (length work))) [
      | inl long ↦ inr (rw (opened, long) refl, ground (arith, long))
      | inr short ↦ inl (rw (opened, short) (ap (λ w. some (slash ∷ w)) e))
    ]

go_up-closed :
    (xs rest : List ℕ)
    → no_slash xs ≡ true
    → go_up (slash ∷ (xs ++ (slash ∷ rest))) ≡ (slash ∷ rest)
unfolding go_up
go_up-closed xs rest h = ground (arith, drop-names xs rest h, length-append xs (slash ∷ rest))

go_up-open :
    (xs rest : List ℕ)
    → no_slash xs ≡ true
    → is_open xs ≡ true
    → go_up (xs ++ (slash ∷ rest)) ≡ (slash ∷ rest)
unfolding go_up
go_up-open [] rest h o = absurd (ground arith)
go_up-open (x ∷ xs) rest h o =
    ground (arith, drop-names (x ∷ xs) rest h, length-append xs (slash ∷ rest))

go_up-Shows :
    (work w : List ℕ) (names : List (List ℕ))
    → Shows work (w ∷ names)
    → all_names (w ∷ names) ≡ true
    → Shows (go_up work) names
go_up-Shows work w names (inl e) a =
    inl (ap go_up e ∙ go_up-closed (reverse w) (body names) (name-no_slash w (ground arith)))
go_up-Shows work w names (inr (e, h)) a =
    let (free, opened) : (no_slash (reverse w) ≡ true) × (is_open (reverse w) ≡ true) =
      (name-no_slash w (ground arith), name-is_open w (ground arith)) in
    inl (ap go_up e ∙ go_up-open (reverse w) (body names) free opened)

go_up-root : (work : List ℕ) → Shows work [] → go_up work ≡ work
unfolding go_up
go_up-root work (inl e) = rw e refl
go_up-root work (inr (e, h)) = absurd (ground arith)

drop-length : (xs : List ℕ) → length (drop_component xs) ≤ length xs
unfolding drop_component
drop-length [] = omega arith
drop-length (x ∷ []) = omega arith
drop-length (x ∷ y ∷ xs) = ground (arith, drop-length (y ∷ xs))

go_up-length : (work : List ℕ) → length (go_up work) ≤ length work
unfolding go_up
go_up-length [] = omega arith
go_up-length (x ∷ work) = ground (arith, drop-length work, drop-length (x ∷ work))

Shows-length :
    (work : List ℕ) (names : List (List ℕ))
    → Shows work names
    → length (slash ∷ body names) ≤ length work + 1
Shows-length work names (inl e) = rw e (omega arith)
Shows-length work names (inr (e, h)) = rw e (omega arith)

abbrev parent : List (List ℕ) → List (List ℕ)
parent [] = []
parent (w ∷ names) = names

enter-dot : (w : List ℕ) (names : List (List ℕ)) → is_dot w ≡ true → enter w names ≡ names
enter-dot w [] h = rw h refl
enter-dot w (x ∷ xs) h = rw h refl

enter-up :
    (w : List ℕ) (names : List (List ℕ))
    → is_dot w ≡ false
    → is_dot_dot w ≡ true
    → enter w names ≡ parent names
enter-up w [] h k = rw (h, k) refl
enter-up w (x ∷ xs) h k = rw (h, k) refl

enter-name :
    (w : List ℕ) (names : List (List ℕ))
    → is_dot w ≡ false
    → is_dot_dot w ≡ false
    → enter w names ≡ (w ∷ names)
enter-name w [] h k = rw (h, k) refl
enter-name w (x ∷ xs) h k = rw (h, k) refl

module _ (w : List ℕ) (work : List ℕ) where
  apply-dot : is_dot w ≡ true → apply_component w work ≡ some work
  unfolding apply_component
  apply-dot h = rw h refl

  apply-up : is_dot w ≡ false → is_dot_dot w ≡ true → apply_component w work ≡ some (go_up work)
  unfolding apply_component
  apply-up h k = rw (h, k) refl

  apply-name :
      is_dot w ≡ false
      → is_dot_dot w ≡ false
      → apply_component w work ≡ append_closed w (close_work work)
  unfolding apply_component
  apply-name h k = rw (h, k) refl

parent-Shows :
    (work : List ℕ) (names : List (List ℕ))
    → Shows work names
    → all_names names ≡ true
    → Shows (go_up work) (parent names) × (all_names (parent names) ≡ true)
parent-Shows work [] sh a = rw (go_up-root work sh) (sh, refl)
parent-Shows work (w ∷ names) sh a = (go_up-Shows work w names sh a, ground arith)

pub length-reverse : (xs : List ℕ) → length (reverse xs) ≡ length xs
length-reverse [] = refl
length-reverse (x ∷ xs) =
    rw (reverse-cons x xs)
      (rw (length-append (reverse xs) (x ∷ [])) (ground (arith, length-reverse xs)))

-- A component is applied, or the path has grown too long.
abbrev pub Applied : List ℕ → List ℕ → List (List ℕ) → Type 0
Applied work w names =
    ((work' : List ℕ) × (apply_component w work ≡ some work')
      × Shows work' (enter w names)
      × (all_names (enter w names) ≡ true)
      × (length work' ≤ length work + length w + 1))
    ⊎ ((apply_component w work ≡ none) × (255 ≤ length work + length w))

-- A name is appended to a closed path.
append-Applied :
    (w work : List ℕ) (names : List (List ℕ))
    → is_name w ≡ true
    → Shows work names
    → all_names names ≡ true
    → enter w names ≡ (w ∷ names)
    → apply_component w work ≡ append_closed w (some (slash ∷ body names))
    → Applied work w names
append-Applied w work names n sh a entered e =
    let short = Shows-length work names sh in
    elim (Bool-cases (leb 256 (length (slash ∷ body names) + length w))) [
      | inl long ↦ inr (e ∙ ground (arith, long), ground (arith, long))
      | inr room ↦ inl (
        body (w ∷ names),
        e ∙ ground (arith, room),
        rw entered (inr (refl, refl)),
        rw entered (ground arith),
        rw (length-append (reverse w) (slash ∷ body names), length-reverse w) (omega arith),
      )
    ]

pub apply_component-Applied :
    (w work : List ℕ) (names : List (List ℕ))
    → is_name w ≡ true
    → Shows work names
    → all_names names ≡ true
    → Applied work w names
apply_component-Applied w work names n sh a = elim (Bool-cases (is_dot w)) [
  | inl here ↦ inl (
    work,
    apply-dot w work here,
    rw (enter-dot w names here) sh,
    rw (enter-dot w names here) a,
    omega arith,
  )
  | inr h1 ↦ elim (Bool-cases (is_dot_dot w)) [
    | inl up ↦
        let (sh', a') = parent-Shows work names sh a in
        let shrinks = go_up-length work in
        inl (
          go_up work,
          apply-up w work h1 up,
          rw (enter-up w names h1 up) sh',
          rw (enter-up w names h1 up) a',
          omega arith,
        )
    | inr h2 ↦ elim (close-Shows work names sh a) [
      | inl closed ↦
          append-Applied w work names n sh a (enter-name w names h1 h2)
            (apply-name w work h1 h2 ∙ ap (append_closed w) closed)
      | inr (full, long) ↦ inr (apply-name w work h1 h2 ∙ ap (append_closed w) full, omega arith)
    ]
  ]
]
