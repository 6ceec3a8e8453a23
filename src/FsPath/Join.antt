-- ===== src/FsPath/Join.antt =====
-- `path_dirname` and `path_basename` take apart what `path_join` puts together.
use mathlib.Core.List.{reverse}
use chanux.Common.{
  ℕ, suc, ◌+◌, ◌≤◌, ◌<◌, ◌≡◌, ◌≢◌, ◌∙◌, ap, refl, true, false, ◌==◌, if◌then◌else◌, Option, none,
  some, List, [], ◌∷◌, ◌++◌, length, length-append, take, drop, arith, ne→==,
}
use chanux.FsPath.{
  slash, is_open, starts_with_slash, last_slash_from, path_join, path_dirname, path_basename,
  write_path, dir_before, name_after,
}
use chanux.FsPath.Components.{no_slash, is_name}

last_slash-append :
    (xs ys : List ℕ) (i : ℕ) (last : Option ℕ)
    → last_slash_from (xs ++ ys) i last
      ≡ last_slash_from ys (i + length xs) (last_slash_from xs i last)
unfolding last_slash_from
last_slash-append [] ys i last = let e : i + 0 ≡ i = omega arith in rw e refl
last_slash-append (x ∷ xs) ys i last =
    let e : i + 1 + length xs ≡ i + suc (length xs) = omega arith in
    rw (← e) (last_slash-append xs ys (i + 1) (if x == slash then some i else last))

last_slash-name :
    (name : List ℕ) (i : ℕ) (last : Option ℕ)
    → no_slash name ≡ true
    → last_slash_from name i last ≡ last
unfolding last_slash_from
last_slash-name [] i last h = refl
last_slash-name (c ∷ cs) i last h =
    let other : (c == slash) ≡ false = ground arith in
    rw other (last_slash-name cs (i + 1) last (ground arith))

last_slash-joined :
    (dir name : List ℕ)
    → no_slash name ≡ true
    → last_slash_from (dir ++ (slash ∷ name)) 0 none ≡ some (length dir)
unfolding last_slash_from
last_slash-joined dir name h =
    last_slash-append dir (slash ∷ name) 0 none
    ∙ last_slash-name name (0 + length dir + 1) (some (0 + length dir)) h
    ∙ ap some (zero_add (length dir))
  where
    zero_add : (n : ℕ) → 0 + n ≡ n
    zero_add n = omega arith

take-joined : (dir ys : List ℕ) → take (length dir) (dir ++ ys) ≡ dir
take-joined [] ys = refl
take-joined (x ∷ xs) ys = ap (λ zs. x ∷ zs) (take-joined xs ys)

drop-joined : (dir : List ℕ) (c : ℕ) (ys : List ℕ) → drop (suc (length dir)) (dir ++ (c ∷ ys)) ≡ ys
drop-joined [] c ys = refl
drop-joined (x ∷ xs) c ys = drop-joined xs c ys

name_free : (name : List ℕ) → is_name name ≡ true → no_slash name ≡ true
name_free [] h = refl
name_free (c ∷ cs) h = h

name_positive : (name : List ℕ) → is_name name ≡ true → 1 ≤ length name
name_positive [] h = absurd (ground arith)
name_positive (c ∷ cs) h = omega arith

name_start : (name : List ℕ) → is_name name ≡ true → starts_with_slash name ≡ false
name_start [] h = refl
name_start (c ∷ cs) h = ground arith

write-fits : (xs : List ℕ) (size : ℕ) → length xs < size → write_path xs size ≡ some xs
write-fits xs size room = ground arith

-- A directory, a slash and a name.
abbrev pub joined : ℕ → List ℕ → List ℕ → List ℕ
joined d ds name = (d ∷ ds) ++ (slash ∷ name)

module _ (d : ℕ) (ds name : List ℕ) (size : ℕ) where
  abbrev path : List ℕ
  path = joined d ds name

  dirname-joined :
      no_slash name ≡ true → length path < size → path_dirname (some path) size ≡ some (d ∷ ds)
  unfolding path_dirname
  dirname-joined h room =
      ap (dir_before path size) (last_slash-joined (d ∷ ds) name h)
      ∙ ap (λ xs. write_path xs size) (take-joined (d ∷ ds) (slash ∷ name))
      ∙ fits
    where
      fits : write_path (d ∷ ds) size ≡ some (d ∷ ds)
      fits =
          let len = length-append (d ∷ ds) (slash ∷ name) in write-fits (d ∷ ds) size (omega arith)

  basename-joined : is_name name ≡ true → path_basename (some path) ≡ name
  unfolding path_basename
  basename-joined h =
      ap (name_after path) (last_slash-joined (d ∷ ds) name (name_free name h)) ∙ after
    where
      longer : (length path == length (d ∷ ds) + 1) ≡ false
      longer =
          let len = length-append (d ∷ ds) (slash ∷ name) in
          let some_name = name_positive name h in
          let more : length path ≢ length (d ∷ ds) + 1 = omega arith in
          ne→== (length path) (length (d ∷ ds) + 1) more

      after : name_after path (some (length (d ∷ ds))) ≡ name
      after =
          let e : length (d ∷ ds) + 1 ≡ suc (suc (length ds)) = omega arith in
          rw (longer, e) (drop-joined (d ∷ ds) slash name)

  -- For a directory that is not empty and does not end in a slash, and a name that is not empty and
  -- has no slash, path_join writes the directory, a slash and the name if the buffer has room; and
  -- of that path path_dirname writes the directory and path_basename gives the name.
  pub path_join_lem :
      is_open (reverse (d ∷ ds)) ≡ true
      → is_name name ≡ true
      → length path < size
      → (path_join (some (d ∷ ds)) (some name) size ≡ some path)
        × (path_dirname (some path) size ≡ some (d ∷ ds))
        × (path_basename (some path) ≡ name)
  unfolding path_join
  path_join_lem opened named room =
      let start = name_start name named in
      (
        rw (opened, start) (write-fits path size room),
        dirname-joined (name_free name named) room,
        basename-joined named,
      )
