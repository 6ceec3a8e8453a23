-- ===== src/Ramfs/Entries.antt =====
-- One directory entry of kernel/fs/ramfs.c: what is written is found again, and a name too long for
-- the entry reaches into the next.
use chanux.Common.{
  ℕ, zero, suc, ◌+◌, ◌-◌, ◌/◌, ◌%◌, ◌^◌, ◌≤◌, ◌<◌, ◌≡◌, ◌∙◌, refl, subst, true, false, ◌==◌, List,
  [], ◌∷◌, length, u32_mod, arith, inl, inr, ◌⊎◌, eq→==,
}
use chanux.Memory.{Mem}
use chanux.Ramfs.{write_bytes}
use chanux.Ramfs.Dirs.{
  put_entry, entry_inode, entry_name_len, entry_matches, name_matches, name_bytes, dirent_size,
}

name_bytes_end : (name : List ℕ) (k : ℕ) → length name ≤ k → name_bytes name k ≡ 0
name_bytes_end [] k le = refl
name_bytes_end (c ∷ cs) zero le = absurd (omega arith)
name_bytes_end (c ∷ cs) (suc k) le =
    let ne : (suc k == 0) ≡ false = ground arith in
    let back : suc k - 1 ≡ k = omega arith in rw (ne, back) (name_bytes_end cs k (omega arith))

matches-bytes :
    (name : List ℕ) (disk : Mem) (a : ℕ)
    → ((k : ℕ) → k < length name → disk (a + k) ≡ name_bytes name k)
    → name_matches disk a name ≡ true
unfolding name_matches
matches-bytes [] disk a h = refl
matches-bytes (c ∷ cs) disk a h =
    let first : disk a ≡ c =
      subst (λ x. disk x ≡ c) {x = a + 0} (omega arith) (h 0 (omega arith)) in
    let rest = matches-bytes cs disk (a + 1) (λ k lt.
      let ne : (k + 1 == 0) ≡ false = ground arith in
      let back : k + 1 - 1 ≡ k = omega arith in
      subst (λ x. disk x ≡ name_bytes cs k) {x = a + (k + 1)} (omega arith)
        (h (k + 1) (omega arith) ∙ rw (ne, back) refl)) in
    ground (arith, first, rest)

module _ (disk : Mem) (e : ℕ) (name : List ℕ) (inode type : ℕ) where
  abbrev after : Mem
  after = put_entry disk e name inode type

  byte_inode : (k : ℕ) → k < 4 → after (e + k) ≡ inode / 256 ^ k % 256
  unfolding put_entry write_bytes
  byte_inode k lt = let place : e + k - e ≡ k = omega arith in ground (arith, place)

  after_inode : inode < u32_mod → entry_inode after e ≡ inode
  after_inode small =
      let b0 : after e ≡ inode % 256 =
        subst (λ x. after x ≡ inode % 256) {x = e + 0} (omega arith)
          (byte_inode 0 (omega arith) ∙ omega arith) in
      let b1 : after (e + 1) ≡ inode / 256 % 256 = byte_inode 1 (omega arith) ∙ omega arith in
      let b2 : after (e + 2) ≡ inode / 65536 % 256 = byte_inode 2 (omega arith) ∙ omega arith in
      let b3 : after (e + 3) ≡ inode / 16777216 % 256 = byte_inode 3 (omega arith) ∙ omega arith in
      rw (b0, b1, b2, b3) (omega arith)

  after_name_len : length name < 256 → entry_name_len after e ≡ length name
  unfolding put_entry write_bytes
  after_name_len small = ground arith

  after_name : (k : ℕ) → k < length name → after (e + 8 + k) ≡ name_bytes name k
  unfolding put_entry write_bytes
  after_name k lt = let place : e + 8 + k - (e + 8) ≡ k = omega arith in ground (arith, place)

  after_outside : (a : ℕ) → a < e ⊎ e + 9 + length name ≤ a → after a ≡ disk a
  unfolding put_entry write_bytes
  after_outside a (inl below) = ground arith
  after_outside a (inr above) = ground arith

  after_nul : after (e + 8 + length name) ≡ 0
  unfolding put_entry write_bytes
  after_nul =
      let place : e + 8 + length name - (e + 8) ≡ length name = omega arith in
      let nul = name_bytes_end name (length name) (omega arith) in ground (arith, place, nul)

  -- put_entry writes an entry that has its name and its inode number, and no byte outside its 64,
  -- for a name of 55 bytes at most and an inode number that is not 0.
  pub put_entry_lem :
      length name ≤ 55
      → 0 < inode
      → inode < u32_mod
      → (entry_matches after name e ≡ true)
        × (entry_inode after e ≡ inode)
        × ((a : ℕ) → a < e ⊎ e + dirent_size ≤ a → after a ≡ disk a)
  unfolding entry_matches
  put_entry_lem short pos small =
      let number = after_inode small in
      let len = after_name_len (omega arith) in
      let named = matches-bytes name after (e + 8) after_name in
      let used : (entry_inode after e == 0) ≡ false = rw number (ground arith) in
      let same = eq→== (length name) (length name) refl in
      (
        ground (arith, used, len, named, same),
        number,
        λ a o. after_outside a (elim o [ inl below ↦ inl below | inr above ↦ inr (omega arith) ]),
      )

  -- A name of 56 bytes, which dir_add_entry takes, puts its final NUL into the next entry: if that
  -- is the entry of an inode below 256, it is free afterwards.
  pub put_entry_overflow :
      length name ≡ 56
      → entry_inode disk (e + dirent_size) < 256
      → entry_inode after (e + dirent_size) ≡ 0
  put_entry_overflow long low =
      let out1 = after_outside (e + dirent_size + 1) (inr (omega arith)) in
      let out2 = after_outside (e + dirent_size + 2) (inr (omega arith)) in
      let out3 = after_outside (e + dirent_size + 3) (inr (omega arith)) in
      let low_byte : after (e + dirent_size) ≡ 0 =
        subst (λ x. after x ≡ 0) {x = e + 8 + length name} (omega arith) after_nul in
      omega arith
