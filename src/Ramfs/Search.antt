-- ===== src/Ramfs/Search.antt =====
-- The search through directory entries that stand 64 bytes apart.
use chanux.Common.{
  ℕ, zero, suc, ◌+◌, ◌*◌, ◌<◌, ◌≡◌, ◌≢◌, ◌∙◌, refl, sym, ap, subst, Bool, true, false, none, some,
  arith, Bool-cases, inl, inr,
}
use chanux.Ramfs.Dirs.{search_entries, dirent_size}

module _ (t : ℕ → Bool) where
  search_skip :
      (n e : ℕ) → t e ≡ false → search_entries t (suc n) e ≡ search_entries t n (e + dirent_size)
  unfolding search_entries
  search_skip n e miss = rw miss refl

  search_stop : (n e : ℕ) → t e ≡ true → search_entries t (suc n) e ≡ some e
  unfolding search_entries
  search_stop n e here = rw here refl

  -- No entry passes the test.
  pub search-none :
      (n e : ℕ) → search_entries t n e ≡ none → (j : ℕ) → j < n → t (e + dirent_size * j) ≡ false
  search-none zero e h j lt = absurd (omega arith)
  search-none (suc n) e h zero lt = elim (Bool-cases (t e)) [
    | inl here ↦ absurd (ground (arith, h, search_stop n e here))
    | inr miss ↦ subst (λ x. t x ≡ false) {x = e} (omega arith) miss
  ]
  search-none (suc n) e h (suc j) lt = elim (Bool-cases (t e)) [
    | inl here ↦ absurd (ground (arith, h, search_stop n e here))
    | inr miss ↦
        subst (λ x. t x ≡ false) {x = e + dirent_size + dirent_size * j} (omega arith)
          (search-none n (e + dirent_size) (sym (search_skip n e miss) ∙ h) j (omega arith))
  ]

  -- The entry that is found, which passes the test.
  pub search-some :
      (n e p : ℕ)
      → search_entries t n e ≡ some p
      → (j : ℕ) × (j < n) × (p ≡ e + dirent_size * j) × (t p ≡ true)
  unfolding search_entries
  search-some zero e p h = absurd (ground (arith, h))
  search-some (suc n) e p h = elim (Bool-cases (t e)) [
    | inl here ↦
        let same : e ≡ p = ground (arith, h, search_stop n e here) in
        (0, omega arith, omega arith, subst (λ x. t x ≡ true) same here)
    | inr miss ↦
        let (j, lt, place, pass) =
          search-some n (e + dirent_size) p (sym (search_skip n e miss) ∙ h) in
        (suc j, omega arith, omega (arith, place), pass)
  ]

  -- The only entry that passes the test is found.
  pub search-sole :
      (n e j : ℕ)
      → j < n
      → t (e + dirent_size * j) ≡ true
      → ((k : ℕ) → k < n → k ≢ j → t (e + dirent_size * k) ≡ false)
      → search_entries t n e ≡ some (e + dirent_size * j)
  search-sole zero e j lt here others = absurd (omega arith)
  search-sole (suc n) e zero lt here others =
      search_stop n e (subst (λ x. t x ≡ true) (omega arith) here) ∙ ap some (omega arith)
  search-sole (suc n) e (suc j) lt here others =
      let miss : t e ≡ false =
        subst (λ x. t x ≡ false) {x = e + dirent_size * 0} (omega arith)
          (others 0 (omega arith) (λ z. absurd (omega arith))) in
      let there =
        search-sole n (e + dirent_size) j (omega arith) (subst (λ x. t x ≡ true) (omega arith) here)
          (λ k in_range ne.
            subst (λ x. t x ≡ false) {x = e + dirent_size * suc k} (omega arith)
              (others (suc k) (omega arith) (λ z. ne (omega arith)))) in
      search_skip n e miss ∙ there ∙ ap some (omega arith)

  -- No entry passes, and none is found.
  pub search-fails :
      (n e : ℕ) → ((j : ℕ) → j < n → t (e + dirent_size * j) ≡ false) → search_entries t n e ≡ none
  unfolding search_entries
  search-fails zero e miss = refl
  search-fails (suc n) e miss =
      let first : t e ≡ false =
        subst (λ x. t x ≡ false) {x = e + dirent_size * 0} (omega arith) (miss 0 (omega arith)) in
      search_skip n e first
      ∙ search-fails n (e + dirent_size) (λ j lt.
        subst (λ x. t x ≡ false) {x = e + dirent_size * suc j} (omega arith)
          (miss (suc j) (omega arith)))

  -- A search in two parts.
  pub search-append :
      (n m e : ℕ)
      → search_entries t n e ≡ none
      → search_entries t (n + m) e ≡ search_entries t m (e + dirent_size * n)
  search-append zero m e h =
      let none_skipped : zero + m ≡ m = omega arith in
      let same : e + dirent_size * 0 ≡ e = omega arith in rw (none_skipped, same) refl
  search-append (suc n) m e h = elim (Bool-cases (t e)) [
    | inl here ↦ absurd (ground (arith, h, search_stop n e here))
    | inr miss ↦
        let more : suc n + m ≡ suc (n + m) = omega arith in
        let place : e + dirent_size * suc n ≡ e + dirent_size + dirent_size * n = omega arith in
        rw (more, place)
          (search_skip (n + m) e miss
            ∙ search-append n m (e + dirent_size) (sym (search_skip n e miss) ∙ h))
  ]

  pub search-append_found :
      (n m e p : ℕ) → search_entries t n e ≡ some p → search_entries t (n + m) e ≡ some p
  unfolding search_entries
  search-append_found zero m e p h = absurd (ground (arith, h))
  search-append_found (suc n) m e p h =
      let more : suc n + m ≡ suc (n + m) = omega arith in
      elim (Bool-cases (t e)) [
        | inl here ↦ rw more (search_stop (n + m) e here ∙ sym (search_stop n e here) ∙ h)
        | inr miss ↦ rw more (
            search_skip (n + m) e miss
            ∙ search-append_found n m (e + dirent_size) p (sym (search_skip n e miss) ∙ h))
      ]

-- Two tests that agree on the entries find the same.
pub search-cong :
    (t u : ℕ → Bool) (n e : ℕ)
    → ((j : ℕ) → j < n → t (e + dirent_size * j) ≡ u (e + dirent_size * j))
    → search_entries t n e ≡ search_entries u n e
unfolding search_entries
search-cong t u zero e h = refl
search-cong t u (suc n) e h =
    let first : t e ≡ u e =
      subst (λ x. t x ≡ u x) {x = e + dirent_size * 0} (omega arith) (h 0 (omega arith)) in
    let rest = search-cong t u n (e + dirent_size) (λ j lt.
      subst (λ x. t x ≡ u x) {x = e + dirent_size * suc j} (omega arith)
        (h (suc j) (omega arith))) in
    rw (first, rest) refl
