-- ===== src/FsPath/Resolve.antt =====
-- `path_normalize` resolves the components of a path against the working directory.
use mathlib.Core.List.{reverse, reverse-cons, reverse-append, reverse-reverse, append_assoc}
use chanux.Common.{
  ℕ, ◌+◌, ◌≤◌, ◌≡◌, ◌∙◌, ap, subst, sym, refl, true, false, leb, if◌then◌else◌, none, some, List,
  [], ◌∷◌, ◌++◌, length, arith, Bool-cases, inl, inr, ◌⊎◌,
}
use chanux.FsPath.{
  slash, is_open, start_work, walk, walk_from, finish, or_root, drop_end_slashes, path_normalize,
  starts_with_slash, write_path, close_work,
}
use chanux.FsPath.Components.{components, resolve, names_text, path_text, all_names, skip-length}
use chanux.FsPath.Work.{
  body, Shows, name-is_open, append-is_open, drop_end-names, close-Shows, length-reverse,
}
use chanux.FsPath.Normalize.{walk-Walked}

reverse-text : (names : List (List ℕ)) → reverse (names_text names) ≡ body names
reverse-text [] = refl
reverse-text (w ∷ names) =
    reverse-append (names_text names) (slash ∷ w)
    ∙ ap (λ xs. xs ++ reverse (names_text names)) (reverse-cons slash w)
    ∙ append_assoc (reverse w) (slash ∷ []) (reverse (names_text names))
    ∙ ap (λ xs. reverse w ++ (slash ∷ xs)) (reverse-text names)

text-starts :
    (w : List ℕ) (names : List (List ℕ)) → starts_with_slash (names_text (w ∷ names)) ≡ true
text-starts w [] = refl
text-starts w (v ∷ names) = append-starts (names_text (v ∷ names)) (slash ∷ w) (text-starts v names)
  where
    append-starts :
        (xs ys : List ℕ) → starts_with_slash xs ≡ true → starts_with_slash (xs ++ ys) ≡ true
    append-starts [] ys h = absurd (ground arith)
    append-starts (x ∷ xs) ys h = h

drop_end-slash :
    (x : ℕ) (xs : List ℕ) → drop_end_slashes (slash ∷ x ∷ xs) ≡ drop_end_slashes (x ∷ xs)
unfolding drop_end_slashes
drop_end-slash x xs = refl

drop_end-closed :
    (xs : List ℕ) → is_open xs ≡ true → drop_end_slashes (slash ∷ xs) ≡ drop_end_slashes xs
drop_end-closed [] h = absurd (ground arith)
drop_end-closed (x ∷ xs) h = drop_end-slash x xs

or_root-open : (xs : List ℕ) → is_open xs ≡ true → or_root xs ≡ xs
or_root-open [] h = absurd (ground arith)
or_root-open (x ∷ xs) h = refl

text_of : (names : List (List ℕ)) → reverse (body names) ≡ names_text names
text_of names = ap reverse (sym (reverse-text names)) ∙ reverse-reverse (names_text names)

-- What `path_normalize` writes of its working path is the path of the directory.
shown :
    (work : List ℕ) (names : List (List ℕ))
    → Shows work names
    → all_names names ≡ true
    → reverse (drop_end_slashes (or_root work)) ≡ path_text names
unfolding drop_end_slashes
shown work [] (inl e) a = rw e refl
shown work [] (inr (e, h)) a = absurd (ground arith)
shown work (w ∷ names) (inl e) a =
    let opened = name-is_open w (ground arith) in
    let opened' = append-is_open (reverse w) (slash ∷ body names) opened in
    ap (λ xs. reverse (drop_end_slashes (or_root xs))) e
    ∙ ap reverse (
        drop_end-closed (body (w ∷ names)) opened'
        ∙ drop_end-names (reverse w) (slash ∷ body names) opened)
    ∙ text_of (w ∷ names)
shown work (w ∷ names) (inr (e, h)) a =
    let opened = name-is_open w (ground arith) in
    let opened' = append-is_open (reverse w) (slash ∷ body names) opened in
    ap (λ xs. reverse (drop_end_slashes (or_root xs))) e
    ∙ ap reverse (
        ap drop_end_slashes (or_root-open (body (w ∷ names)) opened')
        ∙ drop_end-names (reverse w) (slash ∷ body names) opened)
    ∙ text_of (w ∷ names)

-- The directory that a path starts from.
abbrev pub base : List ℕ → List (List ℕ) → List (List ℕ)
base path names = if starts_with_slash path then [] else names

-- The path starts at the directory `dir`, or the working directory is too long.
abbrev Started : List ℕ → List (List ℕ) → List (List ℕ) → Type 0
Started path names dir =
    ((work : List ℕ) × (start_work path (some (path_text names)) ≡ some work)
      × Shows work dir
      × (all_names dir ≡ true)
      × (length work ≤ length (path_text names) + 1))
    ⊎ ((start_work path (some (path_text names)) ≡ none) × (255 ≤ length (path_text names)))

start_closed :
    (path w : List ℕ) (names : List (List ℕ))
    → starts_with_slash path ≡ false
    → leb 256 (length (names_text (w ∷ names))) ≡ false
    → start_work path (some (path_text (w ∷ names))) ≡ close_work (body (w ∷ names))
start_closed path w names relative room =
    rw (relative, text-starts w names, room) (ap close_work (reverse-text (w ∷ names)))

start_long :
    (path w : List ℕ) (names : List (List ℕ))
    → starts_with_slash path ≡ false
    → leb 256 (length (names_text (w ∷ names))) ≡ true
    → start_work path (some (path_text (w ∷ names))) ≡ none
start_long path w names relative long = rw (relative, text-starts w names, long) refl

body-length : (names : List (List ℕ)) → length (body names) ≡ length (names_text names)
body-length names = ap length (sym (reverse-text names)) ∙ length-reverse (names_text names)

from_cwd :
    (path : List ℕ) (names : List (List ℕ))
    → starts_with_slash path ≡ false
    → all_names names ≡ true
    → Started path names names
from_cwd path [] relative a = inl (slash ∷ [], rw relative refl, inl refl, refl, omega arith)
from_cwd path (w ∷ names) relative a =
    let len = body-length (w ∷ names) in
    elim (Bool-cases (leb 256 (length (names_text (w ∷ names))))) [
      | inl long ↦ inr (start_long path w names relative long, ground (arith, long))
      | inr room ↦ elim (close-Shows (body (w ∷ names)) (w ∷ names) (inr (refl, refl)) a) [
        | inl closed ↦ inl (
          slash ∷ body (w ∷ names),
          start_closed path w names relative room ∙ closed,
          inl refl,
          a,
          omega arith,
        )
        | inr (full, long) ↦ inr (start_closed path w names relative room ∙ full, omega arith)
      ]
    ]

base-relative :
    (path : List ℕ) (names : List (List ℕ))
    → starts_with_slash path ≡ false
    → names ≡ base path names
base-relative path names h = rw h refl

start-Shows :
    (path : List ℕ) (names : List (List ℕ))
    → all_names names ≡ true
    → Started path names (base path names)
start-Shows path names a = elim (Bool-cases (starts_with_slash path)) [
  | inl absolute ↦
      inl (slash ∷ [], rw absolute refl, rw absolute (inl refl), rw absolute refl, omega arith)
  | inr relative ↦
      subst (λ d. Started path names d) (base-relative path names relative)
        (from_cwd path names relative a)
]

module _ (path cwd : List ℕ) (size : ℕ) where
  normalize-start :
      start_work path (some cwd) ≡ none → path_normalize (some path) (some cwd) size ≡ none
  unfolding path_normalize
  normalize-start e = ap (λ o. finish size (walk_from path o)) e

  module _ (work : List ℕ) (e : start_work path (some cwd) ≡ some work) where
    normalize-none :
        walk (length path + 1) path work ≡ none → path_normalize (some path) (some cwd) size ≡ none
    unfolding path_normalize
    normalize-none k = ap (λ o. finish size (walk_from path o)) e ∙ ap (finish size) k

    normalize-some :
        (end : List ℕ)
        → walk (length path + 1) path work ≡ some end
        → path_normalize (some path) (some cwd) size
          ≡ write_path (reverse (drop_end_slashes (or_root end))) size
    unfolding path_normalize
    normalize-some end k = ap (λ o. finish size (walk_from path o)) e ∙ ap (finish size) k

-- Let the working directory be the absolute path of a list of names. path_normalize writes the
-- absolute path that results from that list, or from the root if the path starts with a slash, by
-- taking the components of the path in order, where a dot changes nothing and two dots drop the
-- last name, if its buffer has room, and returns -1 if it has not; or it returns -1 and the two
-- paths have 254 bytes or more together.
pub path_normalize_lem :
    (path : List ℕ) (names : List (List ℕ)) (size : ℕ)
    → all_names names ≡ true
    → (path_normalize (some path) (some (path_text names)) size
        ≡ write_path (path_text (resolve (components path) (base path names))) size)
      ⊎ ((path_normalize (some path) (some (path_text names)) size ≡ none)
          × (254 ≤ length (path_text names) + length path))
path_normalize_lem path names size a = elim (start-Shows path names a) [
  | inl (work, e, sh, a', short) ↦
      elim (walk-Walked (length path + 1) path work (base path names) (omega arith) sh a') [
        | inl (end, k, sh', a'') ↦ inl (
            normalize-some path (path_text names) size work e end k
            ∙ ap (λ xs. write_path xs size) (shown end _ sh' a''))
        | inr (k, long) ↦
            let skipped = skip-length path in
            inr (normalize-none path (path_text names) size work e k, omega arith)
      ]
  | inr (e, long) ↦ inr (normalize-start path (path_text names) size e, omega arith)
]
