-- ===== src/FsPath/Components.antt =====
-- The components of a path, and the absolute path that a list of components names.
use chanux.Common.{
  ℕ, ◌+◌, ◌≤◌, ◌≡◌, ap, refl, Bool, true, false, not, ◌&&◌, ◌||◌, ◌==◌, if◌then◌else◌, List, [],
  ◌∷◌, ◌++◌, length, arith, Bool-cases, inl, inr,
}
use chanux.FsPath.{slash, skip_slashes, cut_component, is_dot, is_dot_dot}

abbrev prefix_first : ℕ → List (List ℕ) → List (List ℕ)
prefix_first c [] = (c ∷ []) ∷ []
prefix_first c (w ∷ ws) = (c ∷ w) ∷ ws

abbrev pub grow : ℕ → List ℕ → List (List ℕ) → List (List ℕ)
grow c [] ws = (c ∷ []) ∷ ws
grow c (d ∷ cs) ws = if d == slash then (c ∷ []) ∷ ws else prefix_first c ws

-- The longest runs of bytes without a slash.
abbrev pub components : List ℕ → List (List ℕ)
components [] = []
components (c ∷ cs) = if c == slash then components cs else grow c cs (components cs)

-- A directory, by its names from the root, the last one first, and one more name.
abbrev pub enter : List ℕ → List (List ℕ) → List (List ℕ)
enter w [] = if is_dot w || is_dot_dot w then [] else w ∷ []
enter w (top ∷ names) =
    if is_dot w then top ∷ names else if is_dot_dot w then names else w ∷ top ∷ names

abbrev pub resolve : List (List ℕ) → List (List ℕ) → List (List ℕ)
resolve [] names = names
resolve (w ∷ ws) names = resolve ws (enter w names)

abbrev pub names_text : List (List ℕ) → List ℕ
names_text [] = []
names_text (w ∷ names) = names_text names ++ (slash ∷ w)

-- The absolute path of a directory.
abbrev pub path_text : List (List ℕ) → List ℕ
path_text [] = slash ∷ []
path_text (w ∷ names) = names_text (w ∷ names)

abbrev pub no_slash : List ℕ → Bool
no_slash [] = true
no_slash (c ∷ cs) = not (c == slash) && no_slash cs

abbrev pub is_name : List ℕ → Bool
is_name [] = false
is_name (c ∷ cs) = no_slash (c ∷ cs)

abbrev pub all_names : List (List ℕ) → Bool
all_names [] = true
all_names (w ∷ names) = is_name w && all_names names

pub components-skip : (p : List ℕ) → components (skip_slashes p) ≡ components p
unfolding skip_slashes
components-skip [] = refl
components-skip (c ∷ cs) = ground (arith, components-skip cs)

pub skip-length : (p : List ℕ) → length (skip_slashes p) ≤ length p
unfolding skip_slashes
skip-length [] = omega arith
skip-length (c ∷ cs) = ground (arith, skip-length cs)

abbrev head_open : List ℕ → Bool
head_open [] = true
head_open (c ∷ cs) = not (c == slash)

pub skip-open : (p : List ℕ) → head_open (skip_slashes p) ≡ true
unfolding skip_slashes
skip-open [] = refl
skip-open (c ∷ cs) = ground (arith, skip-open cs)

pub components-cut :
    (c : ℕ) (cs : List ℕ)
    → (c == slash) ≡ false
    → components (c ∷ cs) ≡ ((cut_component (c ∷ cs)).0 ∷ components (cut_component (c ∷ cs)).1)
unfolding cut_component
components-cut c [] h = ground arith
components-cut c (d ∷ ds) h = elim (Bool-cases (d == slash)) [
  | inl end ↦ rw (h, end) (rw end refl)
  | inr more ↦ rw (h, more) (ap (prefix_first c) (rw more at (components-cut d ds more)))
]

pub cut-length : (p : List ℕ) → length (cut_component p).0 + length (cut_component p).1 ≡ length p
unfolding cut_component
cut-length [] = refl
cut-length (c ∷ cs) = ground (arith, cut-length cs)

cut-no_slash : (p : List ℕ) → no_slash (cut_component p).0 ≡ true
unfolding cut_component
cut-no_slash [] = refl
cut-no_slash (c ∷ cs) = ground (arith, cut-no_slash cs)

pub cut-is_name :
    (c : ℕ) (cs : List ℕ) → (c == slash) ≡ false → is_name (cut_component (c ∷ cs)).0 ≡ true
unfolding cut_component
cut-is_name c cs h = rw h (ground (arith, cut-no_slash cs))
