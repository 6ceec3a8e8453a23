-- ===== src/Ramfs/Write.antt =====
-- `ramfs_write` of kernel/fs/ramfs.c changes the bytes of its file that it is given, and nothing else.
use chanux.Common.{
  ℕ, zero, suc, ◌+◌, ◌-◌, ◌/◌, ◌%◌, ◌≤◌, ◌<◌, ◌≡◌, ◌≢◌, ◌∙◌, refl, sym, subst, true, false, ◌&&◌,
  ◌==◌, ltb, leb, none, some, arith, Bool-cases, Option-cases, inl, inr, ◌⊎◌,
}
use chanux.Ramfs.{Ramfs, block_size, direct_blocks}
use chanux.Ramfs.Files.{ensure_block, put_chunk, write_loop, max_size, min_size}
use chanux.Ramfs.Owned.{IsFs, IsFull, pointer}
use chanux.Ramfs.Content.{SameFiles, SameFiles-refl, Ensured, ensure_block-Ensured}
use chanux.Ramfs.Chunk.{Written, Written-none, Written-join, put_chunk-IsFs, put_chunk-Written}

-- How the loop of `ramfs_write` ends: `m` of `count` bytes are written, from `done` on.
pub record WriteEnds (s : Ramfs) (i : ℕ) (src : ℕ → ℕ) (count offset done m : ℕ) (s' : Ramfs)
    : Type 0 where
  pub valid : IsFs s'
  pub type : (j : ℕ) → (s'.inodes j).type ≡ (s.inodes j).type
  pub size : (j : ℕ) → (s'.inodes j).size ≡ (s.inodes j).size
  pub disk_blocks : s'.disk_blocks ≡ s.disk_blocks
  pub lower : done ≤ m
  pub upper : m ≤ count
  pub written : Written s s' i (λ p. src (p - offset)) (offset + done) (offset + m)
  pub full : (m ≡ count) ⊎ IsFull s'

-- The rounds that are left are enough.
abbrev Enough : ℕ → ℕ → ℕ → ℕ → Type 0
Enough fuel count offset done =
    (0 < fuel) × (done < count → direct_blocks < fuel + (offset + done) / block_size)

module _ (s : Ramfs) (i : ℕ) (src : ℕ → ℕ) (count offset done : ℕ) where
  abbrev pos : ℕ
  pos = offset + done

  abbrev size : ℕ
  size = min_size (count - done) (block_size - pos % block_size)

  stop-WriteEnds :
      IsFs s → done ≤ count → (done ≡ count) ⊎ IsFull s → WriteEnds s i src count offset done done s
  stop-WriteEnds v le full = record {
    valid = v;
    type = λ j. refl;
    size = λ j. refl;
    disk_blocks = refl;
    lower = omega arith;
    upper = le;
    written = Written-none s s i pos (λ p. src (p - offset)) (SameFiles-refl s);
    full = full;
  }

  write_done :
      (fuel : ℕ) → count ≤ done → write_loop (suc fuel) s i src count offset done ≡ (done, s)
  unfolding write_loop
  write_done fuel le = let e : ltb done count ≡ false = ground arith in rw e refl

  module _ (more : done < count) (top : offset + count ≤ max_size) where
    index_in : leb direct_blocks (pos / block_size) ≡ false
    index_in = ground arith

    write_full :
        (fuel : ℕ)
        → ensure_block s i (pos / block_size) ≡ none
        → write_loop (suc fuel) s i src count offset done ≡ (done, s)
    unfolding write_loop
    write_full fuel e = let go : ltb done count ≡ true = ground arith in rw (go, index_in, e) refl

    write_next :
        (fuel : ℕ) (s' : Ramfs)
        → ensure_block s i (pos / block_size) ≡ some s'
        → leb s'.disk_blocks (pointer s' i (pos / block_size)) ≡ false
        → write_loop (suc fuel) s i src count offset done
          ≡ write_loop fuel
              (put_chunk s' (pointer s' i (pos / block_size)) pos (λ k. src (done + k)) size)
              i
              src
              count
              offset
              (done + size)
    unfolding write_loop
    write_next fuel s' e inside =
        let go : ltb done count ≡ true = ground arith in rw (go, index_in, e, inside) refl

    -- The state after one round.
    abbrev put : Ramfs → Ramfs
    put s' = put_chunk s' (pointer s' i (pos / block_size)) pos (λ k. src (done + k)) size

    size_bounds : (0 < size) × (done + size ≤ count) × (size ≤ block_size - pos % block_size)
    size_bounds = (ground arith, ground arith, ground arith)

    next-Enough :
        (fuel : ℕ) → Enough (suc fuel) count offset done → Enough fuel count offset (done + size)
    next-Enough fuel enough =
        let before = enough.1 more in
        (
          omega arith,
          λ left.
              let whole : size ≡ block_size - pos % block_size = ground arith in
              omega (arith, whole),
        )

    put-Written :
        (s' : Ramfs)
        → IsFs s'
        → SameFiles s s'
        → pointer s' i (pos / block_size) ≢ 0
        → Written s (put s') i (λ p. src (p - offset)) pos (offset + (done + size))
    put-Written s' v same there j p =
        let w = put_chunk-Written s' i pos size (λ k. src (done + k)) v there size_bounds.2 j p in
        elim (Bool-cases (i == j && (leb pos p && ltb p (offset + (done + size))))) [
          | inl inside ↦
              let inside' : (i == j && (leb pos p && ltb p (pos + size))) ≡ true =
                ground (arith, inside) in
              let low : pos ≤ p = ground (arith, inside) in
              let place : done + (p - pos) ≡ p - offset = omega arith in
              w ∙ rw (inside', inside, place) refl
          | inr out ↦
              let out' : (i == j && (leb pos p && ltb p (pos + size))) ≡ false =
                ground (arith, out) in
              w ∙ rw (out', out) (same.bytes j p)
        ]

    round-WriteEnds :
        (s' t : Ramfs) (m : ℕ)
        → IsFs s'
        → SameFiles s s'
        → pointer s' i (pos / block_size) ≢ 0
        → WriteEnds (put s') i src count offset (done + size) m t
        → WriteEnds s i src count offset done m t
    round-WriteEnds s' t m v same there w = record {
      valid = w.valid;
      type = λ j. w.type j ∙ same.type j;
      size = λ j. w.size j ∙ same.size j;
      disk_blocks = w.disk_blocks ∙ same.disk_blocks;
      lower = let low = w.lower in omega (arith, size_bounds.0);
      upper = w.upper;
      written =
          let low = w.lower in
          Written-join s (put s') t i pos (offset + (done + size)) (offset + m)
            (λ p. src (p - offset)) (omega arith) (omega arith) (put-Written s' v same there)
            w.written;
      full = w.full;
    }

pub write_loop-WriteEnds :
    (fuel : ℕ) (s : Ramfs) (i : ℕ) (src : ℕ → ℕ) (count offset done : ℕ)
    → IsFs s
    → done ≤ count
    → offset + count ≤ max_size
    → Enough fuel count offset done
    → (let r = write_loop fuel s i src count offset done in
        WriteEnds s i src count offset done r.0 r.1)
write_loop-WriteEnds zero s i src count offset done v le top enough =
    absurd (omega (arith, enough.0))
write_loop-WriteEnds (suc fuel) s i src count offset done v le top enough =
    let End : ℕ × Ramfs → Type 0 = λ (r : ℕ × Ramfs). WriteEnds s i src count offset done r.0 r.1 in
    elim (Bool-cases (ltb done count)) [
      | inr finished ↦
          let all : count ≤ done = ground arith in
          subst End (sym (write_done s i src count offset done fuel all))
            (stop-WriteEnds s i src count offset done v le (inl (omega arith)))
      | inl go ↦
          let more : done < count = ground arith in
          let index = (offset + done) / block_size in
          let ensured = ensure_block-Ensured s i index v in
          elim (Option-cases (ensure_block s i index)) [
            | inl no_block ↦
                let full : IsFull s = subst (Ensured s i index) no_block ensured in
                subst End (sym (write_full s i src count offset done more top fuel no_block))
                  (stop-WriteEnds s i src count offset done v le (inr full))
            | inr one ↦
                let s' = one.0 in
                let (v', same, there) = subst (Ensured s i index) one.1 ensured in
                let used = v'.used i index refl there in
                let high = used.high in
                let inside : leb s'.disk_blocks (pointer s' i index) ≡ false = ground arith in
                let n = size s i src count offset done in
                let next = put s i src count offset done more top s' in
                let ih =
                  write_loop-WriteEnds fuel next i src count offset (done + n)
                    (put_chunk-IsFs s' i (offset + done) n (λ k. src (done + k)) v' there
                      (size_bounds s i src count offset done more top).2)
                    (size_bounds s i src count offset done more top).1 top
                    (next-Enough s i src count offset done more top fuel enough) in
                let r = write_loop fuel next i src count offset (done + n) in
                subst End (sym (write_next s i src count offset done more top fuel s' one.1 inside))
                  (round-WriteEnds s i src count offset done more top s' r.1 r.0 v' same there ih)
          ]
    ]
