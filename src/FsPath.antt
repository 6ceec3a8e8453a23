-- ===== src/FsPath.antt =====
-- kernel/fs/path.c. A C string is the list of its bytes before the NUL, a path that may be `NULL` an
-- option, and `none` is the result -1. The output buffer is there, of `size` bytes.
pub mod Components
pub mod Work
pub mod Normalize
pub mod Resolve
pub mod Join
mod Tests
use mathlib.Core.List.{reverse}
use chanux.Common.{
  ℕ, zero, suc, ◌+◌, ◌-◌, Bool, true, false, not, ◌&&◌, ◌||◌, ◌==◌, ltb, leb, if◌then◌else◌, Option,
  none, some, List, [], ◌∷◌, ◌++◌, length, get_elem?, take, drop,
}

abbrev pub slash : ℕ
slash = 47

abbrev pub dot : ℕ
dot = 46

abbrev pub vfs_max_path : ℕ
vfs_max_path = 256

abbrev starts_with_slash : List ℕ → Bool
starts_with_slash [] = false
starts_with_slash (c ∷ cs) = c == slash

unfoldable pub path_is_absolute : Option (List ℕ) → Bool
path_is_absolute none = false
path_is_absolute (some path) = starts_with_slash path

-- The scan for the last slash, at place `i`.
pub last_slash_from : List ℕ → ℕ → Option ℕ → Option ℕ
last_slash_from [] i last = last
last_slash_from (c ∷ cs) i last = last_slash_from cs (i + 1) (if c == slash then some i else last)

abbrev pub is_slash_at : List ℕ → ℕ → Bool
is_slash_at path i = elim (get_elem? path i) [ none ↦ false | some c ↦ c == slash ]

-- `while (end > path && *end == '/') end--;`
pub before_slashes : List ℕ → ℕ → ℕ
before_slashes path zero = zero
before_slashes path (suc e) =
    let rest = before_slashes path e in if is_slash_at path (suc e) then rest else suc e

-- `while (start > path && *(start - 1) != '/') start--;`
pub component_start : List ℕ → ℕ → ℕ
component_start path zero = zero
component_start path (suc e) =
    let rest = component_start path e in if is_slash_at path e then suc e else rest

abbrev last_component : List ℕ → ℕ → List ℕ
last_component path end =
    if end == 0 && is_slash_at path end then slash ∷ [] else drop (component_start path end) path

abbrev name_after : List ℕ → Option ℕ → List ℕ
name_after path none = path
name_after path (some i) =
    if length path == i + 1 then last_component path (before_slashes path i) else drop (i + 1) path

-- A pointer into the path is the rest of the path from there.
unfoldable pub path_basename : Option (List ℕ) → List ℕ
path_basename none = dot ∷ []
path_basename (some []) = dot ∷ []
path_basename (some (c ∷ cs)) = name_after (c ∷ cs) (last_slash_from (c ∷ cs) 0 none)

-- What is written, with its NUL, if the buffer has room.
abbrev pub write_path : List ℕ → ℕ → Option (List ℕ)
write_path path size = if leb size (length path) then none else some path

abbrev pub dir_before : List ℕ → ℕ → Option ℕ → Option (List ℕ)
dir_before path size none = write_path (dot ∷ []) size
dir_before path size (some zero) = write_path (slash ∷ []) size
dir_before path size (some (suc i)) = write_path (take (suc i) path) size

unfoldable pub path_dirname : Option (List ℕ) → ℕ → Option (List ℕ)
path_dirname none size = none
path_dirname (some []) size = write_path (dot ∷ []) size
path_dirname (some (c ∷ cs)) size = dir_before (c ∷ cs) size (last_slash_from (c ∷ cs) 0 none)

-- The working path of `path_normalize`: its bytes, the last one first.
abbrev pub is_open : List ℕ → Bool
is_open [] = false
is_open (c ∷ work) = not (c == slash)

-- `work[work_len++] = '/'`, if a slash is not there, and there is room.
abbrev pub close_work : List ℕ → Option (List ℕ)
close_work work =
    if is_open work
    then if leb (vfs_max_path - 1) (length work) then none else some (slash ∷ work)
    else some work

abbrev pub start_work : List ℕ → Option (List ℕ) → Option (List ℕ)
start_work path none = some (slash ∷ [])
start_work path (some cwd) =
    if starts_with_slash path || not (starts_with_slash cwd)
    then some (slash ∷ [])
    else if leb vfs_max_path (length cwd)
    then none
    else close_work (reverse cwd)

unfoldable pub skip_slashes : List ℕ → List ℕ
skip_slashes [] = []
skip_slashes (c ∷ cs) = let rest = skip_slashes cs in if c == slash then rest else c ∷ cs

-- The bytes up to the next slash, and the rest.
unfoldable pub cut_component : List ℕ → List ℕ × List ℕ
cut_component [] = ([], [])
cut_component (c ∷ cs) =
    let (comp, rest) = cut_component cs in if c == slash then ([], c ∷ cs) else (c ∷ comp, rest)

-- `while (work_len > 1 && work[work_len - 1] != '/') work_len--;`
pub drop_component : List ℕ → List ℕ
drop_component [] = []
drop_component (c ∷ []) = c ∷ []
drop_component (c ∷ d ∷ work) =
    let rest = drop_component (d ∷ work) in if c == slash then c ∷ d ∷ work else rest

abbrev drop_slash : List ℕ → List ℕ
drop_slash [] = []
drop_slash (c ∷ work) = if c == slash then work else c ∷ work

unfoldable pub go_up : List ℕ → List ℕ
unfolding drop_component
go_up work = if ltb 1 (length work) then drop_component (drop_slash work) else work

abbrev pub append_closed : List ℕ → Option (List ℕ) → Option (List ℕ)
append_closed comp none = none
append_closed comp (some work) =
    if leb vfs_max_path (length work + length comp) then none else some (reverse comp ++ work)

abbrev pub is_dot : List ℕ → Bool
is_dot (c ∷ []) = c == dot
is_dot _ = false

abbrev pub is_dot_dot : List ℕ → Bool
is_dot_dot (c ∷ d ∷ []) = c == dot && d == dot
is_dot_dot _ = false

-- One component of the path.
unfoldable pub apply_component : List ℕ → List ℕ → Option (List ℕ)
unfolding go_up
apply_component comp work =
    if is_dot comp
    then some work
    else if is_dot_dot comp
    then some (go_up work)
    else append_closed comp (close_work work)

-- The loop over the components, which also skips the first slash. Each round takes a byte at least,
-- so the length of the path is fuel enough.
unfoldable pub walk : ℕ → List ℕ → List ℕ → Option (List ℕ)
walk zero p work = some work
walk (suc n) p work = elim (skip_slashes p) [
  | [] ↦ some work
  | c ∷ cs ↦
      let (comp, rest) = cut_component (c ∷ cs) in
      elim (apply_component comp work) [ none ↦ none | some work' ↦ walk n rest work' ]
]

-- `while (work_len > 1 && work[work_len - 1] == '/') work_len--;`
unfoldable pub drop_end_slashes : List ℕ → List ℕ
drop_end_slashes [] = []
drop_end_slashes (c ∷ []) = c ∷ []
drop_end_slashes (c ∷ d ∷ work) =
    let rest = drop_end_slashes (d ∷ work) in if c == slash then rest else c ∷ d ∷ work

abbrev or_root : List ℕ → List ℕ
or_root [] = slash ∷ []
or_root (c ∷ work) = c ∷ work

abbrev finish : ℕ → Option (List ℕ) → Option (List ℕ)
unfolding drop_end_slashes
finish size none = none
finish size (some work) = write_path (reverse (drop_end_slashes (or_root work))) size

abbrev walk_from : List ℕ → Option (List ℕ) → Option (List ℕ)
unfolding walk
walk_from path none = none
walk_from path (some work) = walk (length path + 1) path work

unfoldable pub path_normalize : Option (List ℕ) → Option (List ℕ) → ℕ → Option (List ℕ)
unfolding walk finish walk_from
path_normalize none cwd size = none
path_normalize (some path) cwd size = finish size (walk_from path (start_work path cwd))

abbrev needs_separator : List ℕ → List ℕ → Bool
needs_separator dir name = is_open (reverse dir) && not (starts_with_slash name)

-- `none` for one of the strings is `NULL`.
unfoldable pub path_join : Option (List ℕ) → Option (List ℕ) → ℕ → Option (List ℕ)
path_join none name size = none
path_join (some dir) none size = none
path_join (some dir) (some name) size =
    write_path (if needs_separator dir name then dir ++ (slash ∷ name) else dir ++ name) size
