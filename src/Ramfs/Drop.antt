-- ===== src/Ramfs/Drop.antt =====
-- The loop of `ramfs_truncate` of kernel/fs/ramfs.c over the block pointers of a file.
use chanux.Common.{
  ℕ, zero, suc, ◌+◌, ◌/◌, ◌≤◌, ◌≡◌, ◌≢◌, ◌∙◌, refl, sym, ap, subst, Bool, true, false, not, ◌||◌,
  ◌&&◌, ◌==◌, ltb, leb, if◌then◌else◌, update, sub32, arith, Bool-cases, inl, inr, ==→eq, eq→==,
}
use chanux.Bitmap.{bitmap_test}
use chanux.Ramfs.{Inode, Ramfs, set_inode, free_block, block_size}
use chanux.Ramfs.Files.{drop_blocks}
use chanux.Ramfs.Owned.{
  IsFs, pointer, hit, hit-eq, inode_here, inode_there, inode_field, IsCounted-same, all_live,
}
use chanux.Ramfs.Release.{free_block-IsOwned, free_block-marks, free_block-inodes, free_block-disk}
use chanux.Ramfs.Content.{byte_of, content}

pointer-update :
    (s : Ramfs) (i index b : ℕ) (node : Inode)
    → node.blocks ≡ update (s.inodes i).blocks index b
    → (j l : ℕ) → pointer (set_inode s i node) j l ≡ (if hit i index j l then b else pointer s j l)
pointer-update s i index b node e j l = elim (Bool-cases (i == j)) [
  | inl same ↦
      let base : pointer (set_inode s i node) i l ≡ (if hit i index i l then b else pointer s i l) =
        ap (λ x. x.blocks l) (inode_here s i node) ∙ ap (λ f. f l) e ∙ rw (eq→== i i refl) refl in
      subst (λ x. pointer (set_inode s i node) x l ≡ (if hit i index x l then b else pointer s x l))
        (==→eq i j same) base
  | inr other ↦ ap (λ x. x.blocks l) (inode_there s i j node other) ∙ rw other refl
]

module _ (s : Ramfs) (i k : ℕ) (v : IsFs s) (there : pointer s i k ≢ 0) where
  abbrev freed : Ramfs
  freed = free_block s (pointer s i k)

  abbrev node : Inode
  node = record (freed.inodes i) {
    blocks = update (freed.inodes i).blocks k 0;
    block_count = sub32 (freed.inodes i).block_count 1;
  }

  abbrev dropped : Ramfs
  dropped = set_inode freed i node

  freed-pointer : (j l : ℕ) → pointer freed j l ≡ pointer s j l
  freed-pointer j l = ap (λ f. (f j).blocks l) (free_block-inodes s (pointer s i k))

  dropped-pointer : (j l : ℕ) → pointer dropped j l ≡ (if hit i k j l then 0 else pointer freed j l)
  dropped-pointer j l = pointer-update freed i k 0 node refl j l

  -- A pointer that is left.
  left : (j l : ℕ) → pointer dropped j l ≢ 0 → hit i k j l ≡ false
  left j l ne = elim (Bool-cases (hit i k j l)) [
    | inr out ↦ out
    | inl here ↦ absurd (ne (dropped-pointer j l ∙ rw here refl))
  ]

  dropped-IsFs : IsFs dropped
  dropped-IsFs =
      let own = free_block-IsOwned s all_live i k v refl there in
      record {
        counted = IsCounted-same freed dropped refl refl refl refl refl own.counted;
        used = λ j l live ne.
            let out = left j l ne in
            let e : pointer dropped j l ≡ pointer freed j l = dropped-pointer j l ∙ rw out refl in
            let u = own.used j l (ground (arith, out)) (λ z. ne (e ∙ z)) in
            record { low = rw e u.low; high = rw e u.high; marked = rw e u.marked };
        once = λ j l m n live live' ne same.
            let out = left j l ne in
            let out' = left m n (λ z. ne (same ∙ z)) in
            let e : pointer dropped j l ≡ pointer freed j l = dropped-pointer j l ∙ rw out refl in
            let e' : pointer dropped m n ≡ pointer freed m n = dropped-pointer m n ∙ rw out' refl in
            own.once j l m n (ground (arith, out)) (ground (arith, out')) (λ z. ne (e ∙ z))
              (sym e ∙ same ∙ e');
      }

  dropped-content :
      (j p : ℕ) → content dropped j p ≡ (if hit i k j (p / block_size) then 0 else content s j p)
  unfolding content byte_of
  dropped-content j p =
      let l = p / block_size in
      let disk : freed.disk ≡ s.disk = (free_block-disk s (pointer s i k)).0 in
      let step : content dropped j p ≡ byte_of s.disk (pointer dropped j l) p =
        ap (λ d. byte_of d (pointer dropped j l) p) disk in
      elim (Bool-cases (hit i k j l)) [
        | inl here ↦
            let e : pointer dropped j l ≡ 0 = dropped-pointer j l ∙ rw here refl in
            rw here (step ∙ ap (λ b. byte_of s.disk b p) e)
        | inr out ↦
            let e : pointer dropped j l ≡ pointer s j l =
              dropped-pointer j l ∙ rw out (freed-pointer j l) in
            rw out (step ∙ ap (λ b. byte_of s.disk b p) e)
      ]

-- `b` is one of the `n` block pointers from `k` on.
unfoldable pub among : (ℕ → ℕ) → ℕ → ℕ → ℕ → Bool
among blocks zero k b = false
among blocks (suc n) k b =
    let rest = among blocks n (k + 1) b in (not (blocks k == 0) && blocks k == b) || rest

among-same :
    (f g : ℕ → ℕ) (n k b : ℕ) → ((l : ℕ) → k ≤ l → f l ≡ g l) → among f n k b ≡ among g n k b
unfolding among
among-same f g zero k b same = refl
among-same f g (suc n) k b same =
    let rest = among-same f g n (k + 1) b (λ l le. same l (omega (arith, le))) in
    rw (same k (omega arith), rest) refl

-- What the loop of `ramfs_truncate` does, over `n` block pointers from `k` on.
pub record Dropped (s : Ramfs) (i k n : ℕ) (s' : Ramfs) : Type 0 where
  pub valid : IsFs s'
  pub type : (s'.inodes i).type ≡ (s.inodes i).type
  pub bytes :
      (j p : ℕ)
      → content s' j p ≡ (
          if i == j && (leb k (p / block_size) && ltb (p / block_size) (k + n))
          then 0
          else content s j p)
  pub marks :
      (b : ℕ)
      → bitmap_test s'.block_bitmap b
        ≡ (bitmap_test s.block_bitmap b && not (among (s.inodes i).blocks n k b))

-- One round, whether or not there is a block.
abbrev next : Ramfs → ℕ → ℕ → Ramfs
next s i k =
    let node = s.inodes i in
    let freed = free_block s (node.blocks k) in
    let dropped = set_inode freed i (record (freed.inodes i) {
      blocks = update (freed.inodes i).blocks k 0;
      block_count = sub32 (freed.inodes i).block_count 1;
    }) in
    if node.blocks k == 0 then s else dropped

hole_content :
    (s : Ramfs) (i k j p : ℕ)
    → pointer s i k ≡ 0
    → hit i k j (p / block_size) ≡ true
    → content s j p ≡ 0
unfolding content byte_of
hole_content s i k j p e here =
    let h = hit-eq i k j (p / block_size) here in
    let e' : pointer s j (p / block_size) ≡ 0 = rw (← h.0, ← h.1) e in
    ap (λ b. byte_of s.disk b p) e'

-- The pointer `k` of inode `i` is clear, its block is free, and the rest is as before.
abbrev IsNext : Ramfs → ℕ → ℕ → Ramfs → Type 0
IsNext s i k t =
    IsFs t
    × ((t.inodes i).type ≡ (s.inodes i).type)
    × ((j p : ℕ) → content t j p ≡ (if hit i k j (p / block_size) then 0 else content s j p))
    × ((l : ℕ) → k + 1 ≤ l → pointer t i l ≡ pointer s i l)
    × ((b : ℕ)
        → bitmap_test t.block_bitmap b
          ≡ (bitmap_test s.block_bitmap b && not (not (pointer s i k == 0) && pointer s i k == b)))

hole-IsNext : (s : Ramfs) (i k : ℕ) → IsFs s → pointer s i k ≡ 0 → IsNext s i k s
hole-IsNext s i k v e = (
  v,
  refl,
  λ j p. elim (Bool-cases (hit i k j (p / block_size))) [
    | inl here ↦ rw here (hole_content s i k j p e here)
    | inr out ↦ rw out refl
  ],
  λ l le. refl,
  λ b. ground (arith, e),
)

dropped-IsNext :
    (s : Ramfs) (i k : ℕ) (v : IsFs s) (ne : pointer s i k ≢ 0) → IsNext s i k (dropped s i k v ne)
dropped-IsNext s i k v ne = (
  dropped-IsFs s i k v ne,
  inode_field (freed s i k v ne) i (node s i k v ne) (λ x. x.type) refl i
      ∙ ap (λ f. (f i).type) (free_block-inodes s (pointer s i k)),
  dropped-content s i k v ne,
  λ l le.
      let out : hit i k i l ≡ false = ground (arith, le) in
      dropped-pointer s i k v ne i l ∙ rw out (freed-pointer s i k v ne i l),
  λ b. free_block-marks s (pointer s i k) v.counted (v.used i k refl ne) b ∙ ground (arith, ne),
)

next-IsNext : (s : Ramfs) (i k : ℕ) → IsFs s → IsNext s i k (next s i k)
next-IsNext s i k v = elim (Bool-cases (pointer s i k == 0)) [
  | inl none_there ↦
      let same : next s i k ≡ s = rw none_there refl in
      subst (IsNext s i k) (sym same) (hole-IsNext s i k v (==→eq (pointer s i k) 0 none_there))
  | inr there ↦
      let ne : pointer s i k ≢ 0 = λ z. absurd (ground (arith, there, z)) in
      let same : next s i k ≡ dropped s i k v ne = rw there refl in
      subst (IsNext s i k) (sym same) (dropped-IsNext s i k v ne)
]

pub drop_blocks-Dropped :
    (n : ℕ) (s : Ramfs) (i k : ℕ) → IsFs s → Dropped s i k n (drop_blocks s i n k)
unfolding drop_blocks among
drop_blocks-Dropped zero s i k v = record {
  valid = v;
  type = refl;
  bytes = λ j p. ground arith;
  marks = λ b. ground arith;
}
drop_blocks-Dropped (suc n) s i k v =
    let (v', type, bytes, later, marks) = next-IsNext s i k v in
    let ih = drop_blocks-Dropped n (next s i k) i (k + 1) v' in
    record {
      valid = ih.valid;
      type = ih.type ∙ type;
      bytes = λ j p. ground (arith, ih.bytes j p, bytes j p);
      marks = λ b.
          let same =
            among-same ((next s i k).inodes i).blocks (s.inodes i).blocks n (k + 1) b later in
          ground (arith, ih.marks b, marks b, same);
    }
