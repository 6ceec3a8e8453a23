-- ===== src/Ramfs/Edits.antt =====
-- What writing and clearing an entry do to what the names of a directory lead to.
use chanux.Common.{
  ℕ, ◌+◌, ◌*◌, ◌<◌, ◌≡◌, ◌≢◌, ◌∙◌, sym, ap, subst, true, false, ◌==◌, none, some, List, u32_mod,
  arith, Bool-cases, inl, inr, ==→eq,
}
use chanux.Memory.{Mem}
use chanux.Ramfs.{write_bytes, clear_bytes}
use chanux.Ramfs.Dirs.{put_entry, entry_inode, entry_matches, entry_result, dirent_size}
use chanux.Ramfs.Entries.{put_entry_lem}
use chanux.Ramfs.Search.{search-sole}
use chanux.Ramfs.Listing.{
  slots, lookup, Fits, IsDistinct, one_name, other_name, free_entry, SameBut, other_entry,
  lookup-other, IsMissing, lookup-missing,
}

-- What writing an entry does to a directory, and what clearing one does.
pub record IsInserted (c d : Mem) (name : List ℕ) (inode : ℕ) : Type 0 where
  pub found : lookup d name ≡ some inode
  pub others : (m : List ℕ) → Fits m → m ≢ name → lookup d m ≡ lookup c m
  pub distinct : IsDistinct c → IsDistinct d

pub record IsDeleted (c d : Mem) (name : List ℕ) : Type 0 where
  pub gone : IsDistinct c → lookup d name ≡ none
  pub others : (m : List ℕ) → Fits m → m ≢ name → lookup d m ≡ lookup c m
  pub distinct : IsDistinct c → IsDistinct d

module _ (c : Mem) (name : List ℕ) (inode type j : ℕ) (fits : Fits name) (lt : j < slots)
    (missing : IsMissing c name) (free : entry_inode c (dirent_size * j) ≡ 0) (pos : 0 < inode)
    (small : inode < u32_mod) where
  abbrev put : Mem
  put = put_entry c (dirent_size * j) name inode type

  written :
      (entry_matches put name (dirent_size * j) ≡ true)
      × (entry_inode put (dirent_size * j) ≡ inode)
      × SameBut c put j
  written = put_entry_lem c (dirent_size * j) name inode type fits pos small

  only : (k : ℕ) → k < slots → k ≢ j → entry_matches put name (dirent_size * k) ≡ false
  unfolding IsMissing
  only k in_range ne = (other_entry c put j written.2 name k fits ne).0 ∙ missing k in_range

  put_found : lookup put name ≡ some inode
  put_found =
      let place : 0 + dirent_size * j ≡ dirent_size * j = omega arith in
      let found =
        search-sole (entry_matches put name) slots 0 j lt
          (subst (λ x. entry_matches put name x ≡ true) (sym place) written.0)
          (λ k in_range ne.
            subst (λ x. entry_matches put name x ≡ false) {x = dirent_size * k} (omega arith)
              (only k in_range ne)) in
      ap (entry_result put) found ∙ ap some (ap (entry_inode put) place ∙ written.1)

  put_others : (m : List ℕ) → Fits m → m ≢ name → lookup put m ≡ lookup c m
  put_others m fits' ne =
      lookup-other c put j written.2 m fits' (free_entry c m (dirent_size * j) free)
        (other_name put m name (dirent_size * j) ne written.0)

  -- A name that the written entry has is the new one, which no other entry has.
  put_distinct : IsDistinct c → IsDistinct put
  put_distinct d m k l fits' in_k in_l hk hl = elim (Bool-cases (k == j)) [
    | inl k_is_j ↦ elim (Bool-cases (l == j)) [
      | inl l_is_j ↦ ground (arith, k_is_j, l_is_j)
      | inr other ↦
          absurd (
            clash m k l fits' in_l hk hl (==→eq k j k_is_j)
              (λ z. absurd (ground (arith, other, z))))
    ]
    | inr other ↦ elim (Bool-cases (l == j)) [
      | inl l_is_j ↦
          absurd (
            clash m l k fits' in_k hl hk (==→eq l j l_is_j)
              (λ z. absurd (ground (arith, other, z))))
      | inr other' ↦
          d m k l fits' in_k in_l
            (sym
                (other_entry c put j written.2 m k fits' (λ z. absurd (ground (arith, other, z)))).0
              ∙ hk)
            (sym
                (other_entry c put j written.2 m l fits'
                  (λ z. absurd (ground (arith, other', z)))).0
              ∙ hl)
    ]
  ]
    where
      clash :
          (m : List ℕ) (k l : ℕ)
          → Fits m
          → l < slots
          → entry_matches put m (dirent_size * k) ≡ true
          → entry_matches put m (dirent_size * l) ≡ true
          → k ≡ j
          → l ≢ j
          → ⊥
      clash m k l fits' in_l hk hl e ne =
          let here : entry_matches put m (dirent_size * j) ≡ true =
            subst (λ x. entry_matches put m (dirent_size * x) ≡ true) e hk in
          let same : m ≡ name = one_name put m name (dirent_size * j) written.0 here in
          let there : entry_matches put name (dirent_size * l) ≡ true =
            subst (λ x. entry_matches put x (dirent_size * l) ≡ true) same hl in
          absurd (ground (arith, there, only l in_l ne))

  pub put-IsInserted : IsInserted c put name inode
  put-IsInserted = record { found = put_found; others = put_others; distinct = put_distinct }

module _ (c : Mem) (name : List ℕ) (j : ℕ) (fits : Fits name) (lt : j < slots)
    (here : entry_matches c name (dirent_size * j) ≡ true) where
  abbrev cut : Mem
  cut = clear_bytes c (dirent_size * j) dirent_size

  cut-SameBut : SameBut c cut j
  unfolding write_bytes
  cut-SameBut a (inl below) = ground arith
  cut-SameBut a (inr above) = ground arith

  cut_free : entry_inode cut (dirent_size * j) ≡ 0
  unfolding write_bytes
  cut_free = ground arith

  -- What an entry matches after it, it matched before.
  still :
      (m : List ℕ) (k : ℕ)
      → Fits m
      → entry_matches cut m (dirent_size * k) ≡ true
      → (k ≢ j) × (entry_matches c m (dirent_size * k) ≡ true)
  still m k fits' h =
      let ne : k ≢ j = λ z. absurd (
        ground (
          arith,
          free_entry cut m (dirent_size * j) cut_free,
          subst (λ x. entry_matches cut m (dirent_size * x) ≡ true) z h,
        )) in
      (ne, sym (other_entry c cut j cut-SameBut m k fits' ne).0 ∙ h)

  cut_gone : IsDistinct c → lookup cut name ≡ none
  unfolding IsMissing
  cut_gone d = lookup-missing cut name (λ k in_range.
      elim (Bool-cases (entry_matches cut name (dirent_size * k))) [
        | inl left ↦
            let s = still name k fits left in absurd (s.0 (d name k j fits in_range lt s.1 here))
        | inr out ↦ out
      ])

  cut_others : (m : List ℕ) → Fits m → m ≢ name → lookup cut m ≡ lookup c m
  cut_others m fits' ne =
      lookup-other c cut j cut-SameBut m fits' (other_name c m name (dirent_size * j) ne here)
        (free_entry cut m (dirent_size * j) cut_free)

  pub cut-IsDeleted : IsDeleted c cut name
  cut-IsDeleted = record {
    gone = cut_gone;
    others = cut_others;
    distinct = λ d m k l fits' in_k in_l hk hl.
        d m k l fits' in_k in_l (still m k fits' hk).1 (still m l fits' hl).1;
  }
