-- ===== src/FsPath/Tests.antt =====
-- The path `../b` in `/a`, and the file `b` of the directory `/a`.
use chanux.Common.{ℕ, ◌+◌, ◌≤◌, ◌≡◌, refl, none, some, List, [], ◌∷◌, length, ◌⊎◌}
use chanux.FsPath.{apply_component, cut_component, path_normalize, skip_slashes, write_path}
use chanux.FsPath.Components.{components, path_text, resolve}
use chanux.FsPath.Resolve.{base, path_normalize_lem}

abbrev up_b : List ℕ
up_b = 46 ∷ 46 ∷ 47 ∷ 98 ∷ []

abbrev in_a : List (List ℕ)
in_a = (97 ∷ []) ∷ []

path_normalize_lem_example :
    (path_normalize (some up_b) (some (path_text in_a)) 256
      ≡ write_path (path_text (resolve (components up_b) (base up_b in_a))) 256)
    ⊎ ((path_normalize (some up_b) (some (path_text in_a)) 256 ≡ none)
        × (254 ≤ length (path_text in_a) + length up_b))
path_normalize_lem_example = path_normalize_lem up_b in_a 256 refl

goes_to_b : path_normalize (some up_b) (some (path_text in_a)) 256 ≡ some (47 ∷ 98 ∷ [])
unfolding path_normalize skip_slashes apply_component cut_component
goes_to_b = refl
