-- ===== src/Ramfs/Owned.antt =====
-- The invariant of the RAM filesystem: the counters of the superblock count the clear bits, each
-- block pointer names a data block that is marked as used, and no block has two pointers.
use chanux.Common.{
  ℕ, ◌-◌, ◌*◌, ◌≤◌, ◌<◌, ◌≡◌, ◌≢◌, ◌∙◌, refl, sym, ap, subst, Bool, true, false, not, ◌&&◌, ◌==◌,
  if◌then◌else◌, Option, none, some, update, add32, sub32, arith, Bool-cases, Option-cases, inl,
  inr, ==→eq, eq→==,
}
use chanux.Bitmap.{IsBytes, bitmap_test, bitmap_set, count_free, find_free}
use chanux.Bitmap.Laws.{test-set, bitmap_set-IsBytes}
use chanux.Bitmap.Count.{count_free-set, count_free-le, count_free_pos}
use chanux.Bitmap.Search.{find_free-some, find_free-none}
use chanux.Ramfs.{
  Inode, Ramfs, set_inode, alloc_block, data_start, max_files, max_blocks, clear_bytes, block_size,
}
use chanux.Ramfs.Files.{set_block}

pub record IsCounted (s : Ramfs) : Type 0 where
  pub block_bytes : IsBytes s.block_bitmap
  pub inode_bytes : IsBytes s.inode_bitmap
  pub blocks : s.free_blocks ≡ count_free s.block_bitmap s.disk_blocks
  pub inodes : s.free_inodes ≡ count_free s.inode_bitmap max_files
  pub least : data_start ≤ s.disk_blocks
  pub most : s.disk_blocks ≤ max_blocks
  pub root : bitmap_test s.inode_bitmap 0 ≡ true

-- A data block that is marked as used.
pub record IsUsed (s : Ramfs) (b : ℕ) : Type 0 where
  pub low : data_start ≤ b
  pub high : b < s.disk_blocks
  pub marked : bitmap_test s.block_bitmap b ≡ true

-- The pointer `k` of inode `i`.
abbrev pub pointer : Ramfs → ℕ → ℕ → ℕ
pointer s i k = (s.inodes i).blocks k

-- The pointers that count; the others are about to be cleared.
abbrev pub Live : Type 0
Live = ℕ → ℕ → Bool

pub record IsOwned (s : Ramfs) (live : Live) : Type 0 where
  pub counted : IsCounted s
  pub used : (i k : ℕ) → live i k ≡ true → pointer s i k ≢ 0 → IsUsed s (pointer s i k)
  pub once :
      (i k j l : ℕ)
      → live i k ≡ true
      → live j l ≡ true
      → pointer s i k ≢ 0
      → pointer s i k ≡ pointer s j l
      → (i ≡ j) × (k ≡ l)

abbrev pub all_live : Live
all_live i k = true

-- Every pointer counts.
abbrev pub IsFs : Ramfs → Type 0
IsFs s = IsOwned s all_live

-- The live pointers but one.
abbrev pub without : Live → ℕ → ℕ → Live
without live i k j l = live j l && not (i == j && k == l)

-- What `alloc_block` does with the block that it finds.
abbrev pub taken : Ramfs → ℕ → Ramfs
taken s b = record s {
  block_bitmap = bitmap_set s.block_bitmap b;
  free_blocks = sub32 s.free_blocks 1;
  disk = clear_bytes s.disk (b * block_size) block_size;
}

-- A data block that is not marked.
pub record IsFree (s : Ramfs) (b : ℕ) : Type 0 where
  pub low : data_start ≤ b
  pub high : b < s.disk_blocks
  pub unmarked : bitmap_test s.block_bitmap b ≡ false

-- No data block is free.
abbrev pub IsFull : Ramfs → Type 0
IsFull s = (b : ℕ) → IsFree s b → ⊥

abbrev pub AllocBlock : Ramfs → Option ℕ × Ramfs → Type 0
AllocBlock s (none, s') = (s' ≡ s) × IsFull s
AllocBlock s (some b, s') = (s' ≡ taken s b) × IsFree s b

no_room : (s : Ramfs) → IsCounted s → (s.free_blocks == 0) ≡ true → IsFull s
no_room s v full b f =
    let e = v.blocks in
    absurd
      (ground (arith, full, e, count_free_pos s.block_bitmap s.disk_blocks b f.high f.unmarked))

none_found :
    (s : Ramfs)
    → data_start ≤ s.disk_blocks
    → find_free s.block_bitmap (s.disk_blocks - data_start) data_start ≡ none
    → IsFull s
none_found s least e b f =
    let high = f.high in
    let set =
      find_free-none s.block_bitmap (s.disk_blocks - data_start) data_start e b f.low
        (omega arith) in
    absurd (ground (arith, set, f.unmarked))

-- alloc_block takes the first free data block and clears it, and fails only if no data block is
-- free.
pub alloc_block_lem : (s : Ramfs) → IsCounted s → AllocBlock s (alloc_block s)
unfolding alloc_block
alloc_block_lem s v = elim (Bool-cases (s.free_blocks == 0)) [
  | inl full ↦ rw full (refl, no_room s v full)
  | inr room ↦
      elim (Option-cases (find_free s.block_bitmap (s.disk_blocks - data_start) data_start)) [
        | inl none_free ↦ rw (room, none_free) (refl, none_found s v.least none_free)
        | inr one ↦
            let f =
              find_free-some s.block_bitmap (s.disk_blocks - data_start) data_start one.0 one.1 in
            let least = v.least in
            rw (room, one.1)
              (
                refl,
                record { low = f.after; high = let b = f.before in omega arith; unmarked = f.free },
              )
      ]
]

taken-IsCounted : (s : Ramfs) (b : ℕ) → IsCounted s → IsFree s b → IsCounted (taken s b)
taken-IsCounted s b v f = record {
  block_bytes = bitmap_set-IsBytes s.block_bitmap v.block_bytes b;
  inode_bytes = v.inode_bytes;
  blocks =
      let e = v.blocks in
      let most = v.most in
      omega (
        arith,
        count_free-set s.block_bitmap v.block_bytes b s.disk_blocks f.high f.unmarked,
        count_free-le s.block_bitmap s.disk_blocks,
      );
  inodes = v.inodes;
  least = v.least;
  most = v.most;
  root = v.root;
}

IsUsed-taken : (s : Ramfs) (b c : ℕ) → IsCounted s → IsUsed s c → IsUsed (taken s b) c
IsUsed-taken s b c v u = record {
  low = u.low;
  high = u.high;
  marked = ground (arith, u.marked, test-set s.block_bitmap v.block_bytes b c);
}

-- A block in use is not free.
pub used-ne-free : (s : Ramfs) (b c : ℕ) → IsUsed s c → IsFree s b → c ≢ b
used-ne-free s b c u f e =
    let m : bitmap_test s.block_bitmap b ≡ true =
      subst (λ x. bitmap_test s.block_bitmap x ≡ true) e u.marked in
    absurd (ground (arith, m, f.unmarked))

abbrev pub hit : ℕ → ℕ → ℕ → ℕ → Bool
hit i k j l = i == j && k == l

pub hit-eq : (i k j l : ℕ) → hit i k j l ≡ true → (i ≡ j) × (k ≡ l)
hit-eq i k j l h = (ground arith, ground arith)

pub inode_here : (s : Ramfs) (i : ℕ) (node : Inode) → (set_inode s i node).inodes i ≡ node
inode_here s i node = rw (eq→== i i refl) refl

pub inode_there :
    (s : Ramfs) (i j : ℕ) (node : Inode)
    → (i == j) ≡ false
    → (set_inode s i node).inodes j ≡ s.inodes j
inode_there s i j node ne = rw ne refl

-- A write to an inode that keeps a field of it.
pub inode_field {ℓ} :
    {A : Type ℓ} (s : Ramfs) (i : ℕ) (node : Inode) (field : Inode → A)
    → field node ≡ field (s.inodes i)
    → (j : ℕ) → field ((set_inode s i node).inodes j) ≡ field (s.inodes j)
inode_field s i node field h j = elim (Bool-cases (i == j)) [
  | inl same ↦
      subst (λ x. field ((set_inode s i node).inodes x) ≡ field (s.inodes x)) (==→eq i j same)
        (ap field (inode_here s i node) ∙ h)
  | inr other ↦ ap field (inode_there s i j node other)
]

pub pointer-set_block :
    (s : Ramfs) (i index b j l : ℕ)
    → pointer (set_block s i index b) j l ≡ (if hit i index j l then b else pointer s j l)
unfolding set_block
pointer-set_block s i index b j l = elim (Bool-cases (i == j)) [
  | inl same ↦
      let base : pointer (set_block s i index b) i l
          ≡ (if hit i index i l then b else pointer s i l) =
        ap (λ x. x.blocks l)
          (inode_here s i (record (s.inodes i) {
            blocks = update (s.inodes i).blocks index b;
            block_count = add32 (s.inodes i).block_count 1;
          }))
        ∙ rw (eq→== i i refl) refl in
      subst
        (λ x. pointer (set_block s i index b) x l ≡ (if hit i index x l then b else pointer s x l))
        (==→eq i j same) base
  | inr other ↦
      ap (λ x. x.blocks l)
        (inode_there s i j
          (record (s.inodes i) {
            blocks = update (s.inodes i).blocks index b;
            block_count = add32 (s.inodes i).block_count 1;
          })
          other)
      ∙ rw other refl
]

-- A state with the bitmaps and counters of another.
pub IsCounted-same :
    (s s' : Ramfs)
    → s'.block_bitmap ≡ s.block_bitmap
    → s'.inode_bitmap ≡ s.inode_bitmap
    → s'.free_blocks ≡ s.free_blocks
    → s'.free_inodes ≡ s.free_inodes
    → s'.disk_blocks ≡ s.disk_blocks
    → IsCounted s
    → IsCounted s'
IsCounted-same s s' bb ib fb fi db v = record {
  block_bytes = rw bb v.block_bytes;
  inode_bytes = rw ib v.inode_bytes;
  blocks = rw (fb, bb, db) v.blocks;
  inodes = rw (fi, ib) v.inodes;
  least = rw db v.least;
  most = rw db v.most;
  root = rw ib v.root;
}

-- A pointer that was clear names a block that was free.
module _ (s : Ramfs) (i index b : ℕ) (v : IsFs s) (f : IsFree s b)
    (clear : pointer s i index ≡ 0) where
  abbrev after : Ramfs
  after = set_block (taken s b) i index b

  after_pointer : (j l : ℕ) → pointer after j l ≡ (if hit i index j l then b else pointer s j l)
  after_pointer j l = pointer-set_block (taken s b) i index b j l

  after-IsCounted : IsCounted after
  unfolding set_block
  after-IsCounted =
      IsCounted-same (taken s b) after refl refl refl refl refl (taken-IsCounted s b v.counted f)

  b-IsUsed : IsUsed (taken s b) b
  b-IsUsed = record {
    low = f.low;
    high = f.high;
    marked = ground (arith, test-set s.block_bitmap v.counted.block_bytes b b, eq→== b b refl);
  }

  IsUsed-after : (c : ℕ) → IsUsed (taken s b) c → IsUsed after c
  unfolding set_block
  IsUsed-after c u = record { low = u.low; high = u.high; marked = u.marked }

  after-IsUsed : (j l : ℕ) → pointer after j l ≢ 0 → IsUsed after (pointer after j l)
  after-IsUsed j l ne = elim (Bool-cases (hit i index j l)) [
    | inl here ↦
        let e : b ≡ pointer after j l = sym (after_pointer j l ∙ rw here refl) in
        subst (IsUsed after) e (IsUsed-after b b-IsUsed)
    | inr there ↦
        let e : pointer s j l ≡ pointer after j l = sym (after_pointer j l ∙ rw there refl) in
        subst (IsUsed after) e (
          IsUsed-after (pointer s j l)
            (IsUsed-taken s b (pointer s j l) v.counted (v.used j l refl (λ z. ne (sym e ∙ z)))))
  ]

  after-once :
      (j l m n : ℕ)
      → pointer after j l ≢ 0
      → pointer after j l ≡ pointer after m n
      → (j ≡ m) × (l ≡ n)
  after-once j l m n ne same =
      let e1 = after_pointer j l in
      let e2 = after_pointer m n in
      elim (Bool-cases (hit i index j l)) [
        | inl here ↦ elim (Bool-cases (hit i index m n)) [
          | inl here' ↦
              let h = hit-eq i index j l here in
              let h' = hit-eq i index m n here' in (sym h.0 ∙ h'.0, sym h.1 ∙ h'.1)
          | inr there ↦
              let p : pointer after j l ≡ b = e1 ∙ rw here refl in
              let q : pointer after m n ≡ pointer s m n = e2 ∙ rw there refl in
              let back : pointer s m n ≡ b = sym q ∙ sym same ∙ p in
              absurd
                (used-ne-free s b (pointer s m n) (v.used m n refl (λ z. ne (same ∙ q ∙ z))) f back)
        ]
        | inr there ↦
            let p : pointer after j l ≡ pointer s j l = e1 ∙ rw there refl in
            elim (Bool-cases (hit i index m n)) [
              | inl here' ↦
                  let q : pointer after m n ≡ b = e2 ∙ rw here' refl in
                  let back : pointer s j l ≡ b = sym p ∙ same ∙ q in
                  absurd
                    (used-ne-free s b (pointer s j l) (v.used j l refl (λ z. ne (p ∙ z))) f back)
              | inr there' ↦
                  let q : pointer after m n ≡ pointer s m n = e2 ∙ rw there' refl in
                  v.once j l m n refl refl (λ z. ne (p ∙ z)) (sym p ∙ same ∙ q)
            ]
      ]

  pub set_block-IsFs : IsFs after
  set_block-IsFs = record {
    counted = after-IsCounted;
    used = λ j l live. after-IsUsed j l;
    once = λ j l m n live live'. after-once j l m n;
  }
