-- ===== src/FsPath/Normalize.antt =====
-- The loop of `path_normalize` applies the components of the path in turn.
use chanux.Common.{
  ℕ, zero, suc, ◌+◌, ◌≤◌, ◌<◌, ◌≡◌, ◌≢◌, ◌∙◌, ap, sym, refl, true, false, ◌==◌, none, some, List,
  [], ◌∷◌, length, arith, Bool-cases, inl, inr, ◌⊎◌,
}
use chanux.FsPath.{slash, skip_slashes, cut_component, apply_component, walk}
use chanux.FsPath.Components.{
  components, enter, resolve, is_name, all_names, components-skip, skip-length, skip-open,
  components-cut, cut-length, cut-is_name,
}
use chanux.FsPath.Work.{Shows, apply_component-Applied}

cut-nil : (cut_component []).1 ≡ []
unfolding cut_component
cut-nil = refl

module _ (c : ℕ) (cs : List ℕ) where
  cut-slash : (c == slash) ≡ true → cut_component (c ∷ cs) ≡ ([], c ∷ cs)
  unfolding cut_component
  cut-slash h = rw h refl

  cut-byte : (c == slash) ≡ false → (cut_component (c ∷ cs)).1 ≡ (cut_component cs).1
  unfolding cut_component
  cut-byte h = rw h refl

  skip-slash : (c == slash) ≡ true → skip_slashes (c ∷ cs) ≡ skip_slashes cs
  unfolding skip_slashes
  skip-slash h = rw h refl

-- What is left after a component is empty, or starts with a slash.
cut-rest :
    (p : List ℕ)
    → ((cut_component p).1 ≡ [])
      ⊎ (length (skip_slashes (cut_component p).1) + 1 ≤ length (cut_component p).1)
cut-rest [] = inl cut-nil
cut-rest (c ∷ cs) = elim (Bool-cases (c == slash)) [
  | inl end ↦
      rw (cut-slash c cs end, skip-slash c cs end) (inr (let short = skip-length cs in omega arith))
  | inr more ↦ rw (cut-byte c cs more) (cut-rest cs)
]

walk-nil : (n : ℕ) (work : List ℕ) → walk n [] work ≡ some work
unfolding walk skip_slashes
walk-nil zero work = refl
walk-nil (suc n) work = refl

abbrev pub Walked : ℕ → List ℕ → List ℕ → List (List ℕ) → Type 0
Walked n p work names =
    ((work' : List ℕ) × (walk n p work ≡ some work')
      × Shows work' (resolve (components p) names)
      × (all_names (resolve (components p) names) ≡ true))
    ⊎ ((walk n p work ≡ none) × (255 ≤ length work + length (skip_slashes p)))

walk-end : (n : ℕ) (p work : List ℕ) → skip_slashes p ≡ [] → walk (suc n) p work ≡ some work
unfolding walk
walk-end n p work e = rw (e, walk) refl

module _ (n c : ℕ) (p cs work : List ℕ) (e : skip_slashes p ≡ (c ∷ cs)) where
  walk-step :
      (work' : List ℕ)
      → apply_component (cut_component (c ∷ cs)).0 work ≡ some work'
      → walk (suc n) p work ≡ walk n (cut_component (c ∷ cs)).1 work'
  unfolding walk
  walk-step work' h = rw (e, walk, h) refl

  walk-fail : apply_component (cut_component (c ∷ cs)).0 work ≡ none → walk (suc n) p work ≡ none
  unfolding walk
  walk-fail h = rw (e, walk, h) refl

List-cases : (xs : List ℕ) → (xs ≡ []) ⊎ ((c : ℕ) × (cs : List ℕ) × (xs ≡ (c ∷ cs)))
List-cases [] = inl refl
List-cases (c ∷ cs) = inr (c, cs, refl)

nothing_left : (p : List ℕ) → skip_slashes p ≡ [] → components p ≡ []
nothing_left p e = sym (components-skip p) ∙ ap components e

starts : (p : List ℕ) (c : ℕ) (cs : List ℕ) → skip_slashes p ≡ (c ∷ cs) → (c == slash) ≡ false
starts p c cs e = ground (arith, rw e at (skip-open p))

-- The components of `p`, with the first one cut off.
cut_off :
    (p : List ℕ) (c : ℕ) (cs : List ℕ)
    → skip_slashes p ≡ (c ∷ cs)
    → components p ≡ ((cut_component (c ∷ cs)).0 ∷ components (cut_component (c ∷ cs)).1)
cut_off p c cs e = sym (components-skip p) ∙ ap components e ∙ components-cut c cs (starts p c cs e)

step_length :
    (p : List ℕ) (c : ℕ) (cs : List ℕ)
    → skip_slashes p ≡ (c ∷ cs)
    → length (cut_component (c ∷ cs)).0 + length (cut_component (c ∷ cs)).1
      ≡ length (skip_slashes p)
step_length p c cs e = cut-length (c ∷ cs) ∙ sym (ap length e)

name-length : (w : List ℕ) → is_name w ≡ true → 1 ≤ length w
name-length [] h = absurd (ground arith)
name-length (x ∷ xs) h = omega arith

ends : (n : ℕ) (p work : List ℕ) → p ≡ [] → walk n p work ≢ none
ends n p work last k =
    let e : none ≡ some work = sym k ∙ ap (λ q. walk n q work) last ∙ walk-nil n work in
    absurd (ground (arith, e))

pub walk-Walked :
    (n : ℕ) (p work : List ℕ) (names : List (List ℕ))
    → length p < n
    → Shows work names
    → all_names names ≡ true
    → Walked n p work names
walk-Walked zero p work names lt sh a = absurd (omega arith)
walk-Walked (suc n) p work names lt sh a = elim (List-cases (skip_slashes p)) [
  | inl done ↦
      let same = nothing_left p done in inl (work, walk-end n p work done, rw same sh, rw same a)
  | inr (c, cs, e) ↦
      let named = cut-is_name c cs (starts p c cs e) in
      let w = (cut_component (c ∷ cs)).0 in
      let p' = (cut_component (c ∷ cs)).1 in
      let len = step_length p c cs e in
      let all = skip-length p in
      let nonempty = name-length w named in
      elim (apply_component-Applied w work names named sh a) [
        | inl (work', h, sh', a', short) ↦
            elim (walk-Walked n p' work' (enter w names) (omega arith) sh' a') [
              | inl (end, k, sh'', a'') ↦ inl (
                end,
                walk-step n c p cs work e work' h ∙ k,
                rw (cut_off p c cs e) sh'',
                rw (cut_off p c cs e) a'',
              )
              | inr (k, long) ↦ elim (cut-rest (c ∷ cs)) [
                | inl last ↦ absurd (ends n p' work' last k)
                | inr further ↦ inr (walk-step n c p cs work e work' h ∙ k, omega arith)
              ]
            ]
        | inr (h, long) ↦ inr (walk-fail n c p cs work e h, omega arith)
      ]
]
