-- ===== src/Ramfs/Chunk.antt =====
-- One round of `ramfs_write` of kernel/fs/ramfs.c: the bytes of a chunk within a block.
use chanux.Common.{
  ℕ, ◌+◌, ◌-◌, ◌*◌, ◌/◌, ◌%◌, ◌≤◌, ◌<◌, ◌≡◌, ◌≢◌, ◌∙◌, refl, sym, ap, true, false, ◌&&◌, ◌==◌, ltb,
  leb, if◌then◌else◌, arith, Bool-cases, inl, inr, ==→eq, eq→==,
}
use chanux.Ramfs.{Ramfs, write_bytes, block_size}
use chanux.Ramfs.Files.{put_chunk}
use chanux.Ramfs.Owned.{IsFs, pointer, IsCounted-same}
use chanux.Ramfs.Content.{byte_of, content, SameFiles}

-- The bytes of file `i` from position `from` up to `to` are those of `f`; all other bytes of the files
-- are as before.
abbrev pub Written : Ramfs → Ramfs → ℕ → (ℕ → ℕ) → ℕ → ℕ → Type 0
Written s s' i f from to =
    (j p : ℕ) → content s' j p ≡ (if i == j && (leb from p && ltb p to) then f p else content s j p)

pub Written-none : (s s' : Ramfs) (i at : ℕ) (f : ℕ → ℕ) → SameFiles s s' → Written s s' i f at at
Written-none s s' i at f same j p = ground (arith, same.bytes j p)

pub Written-join :
    (s s1 s2 : Ramfs) (i from mid to : ℕ) (f : ℕ → ℕ)
    → from ≤ mid
    → mid ≤ to
    → Written s s1 i f from mid
    → Written s1 s2 i f mid to
    → Written s s2 i f from to
Written-join s s1 s2 i from mid to f le le' w w' j p = ground (arith, w j p, w' j p)

chunk_range :
    (b pos n c p : ℕ)
    → n ≤ block_size - pos % block_size
    → (leb (b * block_size + pos % block_size) (c * block_size + p % block_size)
        && ltb (c * block_size + p % block_size) (b * block_size + pos % block_size + n))
      ≡ (c == b
          && (leb (pos % block_size) (p % block_size)
              && ltb (p % block_size) (pos % block_size + n)))
chunk_range b pos n c p le = ground arith

chunk_place :
    (b pos c p : ℕ)
    → (c == b) ≡ true
    → c * block_size + p % block_size - (b * block_size + pos % block_size)
      ≡ p % block_size - pos % block_size
chunk_place b pos c p same = ground arith

chunk_byte :
    (s : Ramfs) (b pos n c p : ℕ) (src : ℕ → ℕ)
    → b ≢ 0
    → n ≤ block_size - pos % block_size
    → byte_of (put_chunk s b pos src n).disk c p ≡ (
        if c == b
          && (leb (pos % block_size) (p % block_size)
              && ltb (p % block_size) (pos % block_size + n))
        then src (p % block_size - pos % block_size)
        else byte_of s.disk c p)
unfolding byte_of write_bytes
chunk_byte s b pos n c p src ne le = elim (Bool-cases (c == b)) [
  | inl same ↦
      let range = chunk_range b pos n c p le in
      let place = chunk_place b pos c p same in
      let nonzero : (c == 0) ≡ false = ground arith in rw (nonzero, range, place) refl
  | inr other ↦ let range = chunk_range b pos n c p le in rw (range, other) refl
]

module _ (s : Ramfs) (i pos n : ℕ) (src : ℕ → ℕ) (v : IsFs s)
    (there : pointer s i (pos / block_size) ≢ 0) (le : n ≤ block_size - pos % block_size) where
  abbrev b : ℕ
  b = pointer s i (pos / block_size)

  pub put_chunk-IsFs : IsFs (put_chunk s b pos src n)
  put_chunk-IsFs = record {
    counted = IsCounted-same s (put_chunk s b pos src n) refl refl refl refl refl v.counted;
    used = λ j k live ne.
        let u = v.used j k live ne in record { low = u.low; high = u.high; marked = u.marked };
    once = v.once;
  }

  in_range : (p : ℕ) → pos ≤ p → p < pos + n → pos / block_size ≡ p / block_size
  in_range p low high = omega arith

  -- Two positions in the same block.
  same_block :
      (j p : ℕ)
      → j ≡ i
      → p / block_size ≡ pos / block_size
      → (pointer s j (p / block_size) == b) ≡ true
      → (if pointer s j (p / block_size) == b
            && (leb (pos % block_size) (p % block_size)
                && ltb (p % block_size) (pos % block_size + n))
          then src (p % block_size - pos % block_size)
          else byte_of s.disk (pointer s j (p / block_size)) p)
        ≡ (if i == j && (leb pos p && ltb p (pos + n)) then src (p - pos) else content s j p)
  unfolding content
  same_block j p ej ep same =
      let low : leb (pos % block_size) (p % block_size) ≡ leb pos p = ground arith in
      let high : ltb (p % block_size) (pos % block_size + n) ≡ ltb p (pos + n) = ground arith in
      let place : p % block_size - pos % block_size ≡ p - pos = omega arith in
      let file : (i == j) ≡ true = eq→== i j (sym ej) in rw (same, low, high, place, file) refl

  other_block :
      (j p : ℕ)
      → (pointer s j (p / block_size) == b) ≡ false
      → (if pointer s j (p / block_size) == b
            && (leb (pos % block_size) (p % block_size)
                && ltb (p % block_size) (pos % block_size + n))
          then src (p % block_size - pos % block_size)
          else byte_of s.disk (pointer s j (p / block_size)) p)
        ≡ (if i == j && (leb pos p && ltb p (pos + n)) then src (p - pos) else content s j p)
  unfolding content
  other_block j p other = elim (Bool-cases (i == j && (leb pos p && ltb p (pos + n)))) [
    | inr out ↦ rw (other, out) refl
    | inl inside ↦
        let file : i ≡ j = ground (arith, inside) in
        let low : pos ≤ p = ground (arith, inside) in
        let high : p < pos + n = ground (arith, inside) in
        let same : b ≡ pointer s j (p / block_size) =
          ap (λ k. pointer s i k) (in_range p low high)
          ∙ ap (λ x. pointer s x (p / block_size)) file in
        absurd (ground (arith, other, eq→== (pointer s j (p / block_size)) b (sym same)))
  ]

  pub put_chunk-Written : Written s (put_chunk s b pos src n) i (λ p. src (p - pos)) pos (pos + n)
  unfolding content
  put_chunk-Written j p =
      let c = pointer s j (p / block_size) in
      chunk_byte s b pos n c p src there le ∙ elim (Bool-cases (c == b)) [
        | inl same ↦
            let own =
              v.once j (p / block_size) i (pos / block_size) refl refl
                (λ z. absurd (there (sym (==→eq c b same) ∙ z))) (==→eq c b same) in
            same_block j p own.0 own.1 same
        | inr other ↦ other_block j p other
      ]
