-- ===== src/Ramfs/Names.antt =====
-- `ramfs_dir_lookup`, `ramfs_dir_add_entry` and `ramfs_dir_remove_entry` of kernel/fs/ramfs.c, on the
-- names in a directory.
use chanux.Common.{
  ℕ, ◌+◌, ◌-◌, ◌*◌, ◌/◌, ◌%◌, ◌^◌, ◌≤◌, ◌<◌, ◌≡◌, ◌≢◌, ◌∙◌, refl, sym, ap, subst, fun_ext, false,
  ◌&&◌, ◌==◌, ltb, leb, if◌then◌else◌, Option, none, some, List, length, arith, eq→==, ne→==,
}
use chanux.Memory.{Mem}
use chanux.Ramfs.{Ramfs, write_bytes, clear_bytes, block_size, direct_blocks}
use chanux.Ramfs.Files.{put_chunk}
use chanux.Ramfs.Dirs.{
  find_entry, search_entries, entry_matches, entry_inode, entry_result, put_entry, entry_head,
  name_bytes, dirent_size, dirents_per_block,
}
use chanux.Ramfs.Owned.{IsFs, pointer}
use chanux.Ramfs.Content.{content}
use chanux.Ramfs.Chunk.{put_chunk-Written}
use chanux.Ramfs.Create.{disk-Keeps}
use chanux.Ramfs.Listing.{Fits, lookup, slots, entry-cong, free_entry}
use chanux.Ramfs.Directory.{bytes, content_at, blocks-Agree, Agree}

module _ (s : Ramfs) (dir : ℕ) (v : IsFs s) where
  pub entry_byte :
      (k o b : ℕ)
      → pointer s dir k ≢ 0
      → o + dirent_size ≤ block_size
      → b < dirent_size
      → s.disk (pointer s dir k * block_size + o + b) ≡ bytes s dir (k * block_size + o + b)
  entry_byte k o b there le lt =
      let e = content_at s dir k (o + b) (omega arith) in
      let block : (pointer s dir k == 0) ≡ false = ne→== (pointer s dir k) 0 there in
      let place : pointer s dir k * block_size + o + b ≡ pointer s dir k * block_size + (o + b) =
        omega arith in
      let position : k * block_size + o + b ≡ k * block_size + (o + b) = omega arith in
      rw (place, position, e, block) refl

  entry_hole :
      (k o : ℕ)
      → pointer s dir k ≡ 0
      → o + dirent_size ≤ block_size
      → entry_inode (bytes s dir) (k * block_size + o) ≡ 0
  entry_hole k o hole le = ground (
    arith,
    byte 0 (omega arith),
    byte 1 (omega arith),
    byte 2 (omega arith),
    byte 3 (omega arith),
    at_0,
  )
    where
      byte : (b : ℕ) → b < 4 → content s dir (k * block_size + o + b) ≡ 0
      byte b lt =
          let position : k * block_size + o + b ≡ k * block_size + (o + b) = omega arith in
          rw (position, content_at s dir k (o + b) (omega arith), hole) refl

      at_0 : content s dir (k * block_size + o) ≡ 0
      at_0 =
          subst (λ x. content s dir x ≡ 0) {x = k * block_size + o + 0} (omega arith)
            (byte 0 (omega arith))

  -- The searches on the disk and in the bytes of the directory find the same entry.
  pub finds :
      (name : List ℕ)
      → Fits name
      → Agree s dir
          (find_entry s dir name)
          (search_entries (entry_matches (bytes s dir) name) slots 0)
  finds name fits =
      blocks-Agree s dir v (entry_matches s.disk name) (entry_matches (bytes s dir) name)
        (λ k o there le.
          (entry-cong name s.disk (bytes s dir) (pointer s dir k * block_size + o)
            (k * block_size + o) fits (λ b lt. entry_byte k o b there le lt)).0)
        (λ k o hole le. free_entry (bytes s dir) name (k * block_size + o) (entry_hole k o hole le))
        direct_blocks 0

  -- A name is looked up in the bytes of the directory.
  pub find-lookup :
      (name : List ℕ)
      → Fits name
      → entry_result s.disk (find_entry s dir name) ≡ lookup (bytes s dir) name
  find-lookup name fits = go (find_entry s dir name) refl (finds name fits)
    where
      go :
          (r : Option ℕ)
          → find_entry s dir name ≡ r
          → Agree s dir
              (find_entry s dir name)
              (search_entries (entry_matches (bytes s dir) name) slots 0)
          → entry_result s.disk r ≡ lookup (bytes s dir) name
      go none e h = ap (entry_result (bytes s dir)) (sym (h.0 e))
      go (some a) e h =
          let (p, found, (k, o, le, there, at_a, at_p)) = h.1 a e in
          let same =
            (entry-cong name s.disk (bytes s dir) (pointer s dir k * block_size + o)
              (k * block_size + o) fits (λ b lt. entry_byte k o b there le lt)).1 in
          ap some (ap (entry_inode s.disk) at_a ∙ same ∙ ap (entry_inode (bytes s dir)) (sym at_p))
          ∙ ap (entry_result (bytes s dir)) (sym found)

-- What `put_entry` writes, in three chunks of one block.
module _ (s : Ramfs) (dir : ℕ) (v : IsFs s) (k j : ℕ) (name : List ℕ) (inode type : ℕ)
    (there : pointer s dir k ≢ 0) (lt : j < dirents_per_block) (fits : Fits name) where
  -- The position of the entry, and its place on the disk.
  abbrev pub position : ℕ
  position = dirent_size * (dirents_per_block * k + j)

  abbrev block : ℕ
  block = pointer s dir k

  abbrev place : ℕ
  place = block * block_size + dirent_size * j

  block_index : (o : ℕ) → o < dirent_size → (position + o) / block_size ≡ k
  block_index o small = omega arith

  block_offset : (o : ℕ) → o < dirent_size → (position + o) % block_size ≡ dirent_size * j + o
  block_offset o small = omega arith

  abbrev with_disk : Mem → Ramfs
  with_disk d = record s { disk = d }

  -- One chunk within the entry: the bytes of this directory and those of the other files.
  module _ (d : Mem) (o n : ℕ) (src : ℕ → ℕ) (le : o + n ≤ dirent_size)
      (small : o < dirent_size) where
    abbrev chunked : Ramfs
    chunked =
        put_chunk (with_disk d) (pointer s dir ((position + o) / block_size)) (position + o) src n

    chunked-same : chunked ≡ with_disk (write_bytes d (place + o) src n)
    chunked-same =
        let index = block_index o small in
        let offset = block_offset o small in
        let where_to : block * block_size + (dirent_size * j + o) ≡ place + o = omega arith in
        rw (index, offset, where_to) refl

    chunk :
        (i q : ℕ)
        → content (with_disk (write_bytes d (place + o) src n)) i q ≡ (
            if dir == i && (leb (position + o) q && ltb q (position + o + n))
            then src (q - (position + o))
            else content (with_disk d) i q)
    chunk i q =
        let index = block_index o small in
        let offset = block_offset o small in
        subst
          (λ t. content t i q ≡ (
            if dir == i && (leb (position + o) q && ltb q (position + o + n))
            then src (q - (position + o))
            else content (with_disk d) i q))
          chunked-same
          (put_chunk-Written (with_disk d) dir (position + o) n src (disk-Keeps s d v).valid
            (λ z. there (ap (pointer s dir) (sym index) ∙ z)) (rw offset (omega arith)) i q)

    chunk_here :
        bytes (with_disk (write_bytes d (place + o) src n)) dir
        ≡ write_bytes (bytes (with_disk d) dir) (position + o) src n
    unfolding write_bytes
    chunk_here = fun_ext (λ q. chunk dir q ∙ rw (eq→== dir dir refl) refl)

    chunk_there :
        (i : ℕ)
        → dir ≢ i
        → bytes (with_disk (write_bytes d (place + o) src n)) i ≡ bytes (with_disk d) i
    chunk_there i ne = fun_ext (λ q. chunk i q ∙ rw (ne→== dir i ne) refl)

  abbrev number : ℕ → ℕ
  number b = inode / 256 ^ b % 256

  abbrev head : ℕ → ℕ
  head = entry_head (length name) type

  numbered : Mem
  numbered = write_bytes s.disk place number 4

  headed : Mem
  unfolding numbered
  headed = write_bytes numbered (place + 4) head 4

  first_place :
      (d : Mem) (src : ℕ → ℕ) (n : ℕ) → write_bytes d (place + 0) src n ≡ write_bytes d place src n
  first_place d src n = let e : place + 0 ≡ place = omega arith in rw e refl

  first_position :
      (c : Mem) (src : ℕ → ℕ) (n : ℕ)
      → write_bytes c (position + 0) src n ≡ write_bytes c position src n
  first_position c src n = let e : position + 0 ≡ position = omega arith in rw e refl

  pub put_here :
      bytes (with_disk (put_entry s.disk place name inode type)) dir
      ≡ put_entry (bytes s dir) position name inode type
  unfolding put_entry numbered headed
  put_here =
      let one : bytes (with_disk numbered) dir ≡ write_bytes (bytes s dir) position number 4 =
        ap (λ d. bytes (with_disk d) dir) (sym (first_place s.disk number 4))
        ∙ chunk_here s.disk 0 4 number (omega arith) (omega arith)
        ∙ first_position (bytes s dir) number 4 in
      let two = chunk_here numbered 4 4 head (omega arith) (omega arith) in
      let three =
        chunk_here headed 8 (length name + 1) (name_bytes name) (omega arith) (omega arith) in
      three
      ∙ ap (λ c. write_bytes c (position + 8) (name_bytes name) (length name + 1))
          (two ∙ ap (λ c. write_bytes c (position + 4) head 4) one)

  pub put_there :
      (i : ℕ) → dir ≢ i → bytes (with_disk (put_entry s.disk place name inode type)) i ≡ bytes s i
  unfolding put_entry numbered headed
  put_there i ne =
      chunk_there headed 8 (length name + 1) (name_bytes name) (omega arith) (omega arith) i ne
      ∙ chunk_there numbered 4 4 head (omega arith) (omega arith) i ne
      ∙ ap (λ d. bytes (with_disk d) i) (sym (first_place s.disk number 4))
      ∙ chunk_there s.disk 0 4 number (omega arith) (omega arith) i ne

  pub clear_here :
      bytes (with_disk (clear_bytes s.disk place dirent_size)) dir
      ≡ clear_bytes (bytes s dir) position dirent_size
  clear_here =
      ap (λ d. bytes (with_disk d) dir) (sym (first_place s.disk (λ b. 0) dirent_size))
      ∙ chunk_here s.disk 0 dirent_size (λ b. 0) (omega arith) (omega arith)
      ∙ first_position (bytes s dir) (λ b. 0) dirent_size

  pub clear_there :
      (i : ℕ) → dir ≢ i → bytes (with_disk (clear_bytes s.disk place dirent_size)) i ≡ bytes s i
  clear_there i ne =
      ap (λ d. bytes (with_disk d) i) (sym (first_place s.disk (λ b. 0) dirent_size))
      ∙ chunk_there s.disk 0 dirent_size (λ b. 0) (omega arith) (omega arith) i ne
