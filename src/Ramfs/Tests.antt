-- ===== src/Ramfs/Tests.antt =====
-- A RAM disk of 16 blocks, with an empty root directory and a file without blocks as inode 1.
use chanux.Common.{
  ℕ, zero, suc, ◌+◌, ◌*◌, ◌≡◌, refl, true, some, List, [], ◌∷◌, arith, ◌==◌, if◌then◌else◌,
}
use chanux.Bitmap.{bitmap_test, count_free, bitmap_set, bit_test, bit_set, find_free}
use chanux.Memory.{Mem}
use chanux.Ramfs.{Inode, Ramfs, type_file, no_inode, alloc_block, write_bytes}
use chanux.Ramfs.Files.{
  ramfs_read, ramfs_write, ramfs_truncate, write_loop, ensure_block, set_block,
}
use chanux.Ramfs.Dirs.{
  put_entry, entry_matches, name_matches, entry_inode, dirent_size, dir_add_entry, dir_remove_entry,
  dir_lookup, search_blocks, search_entries, add_loop,
}
use chanux.Ramfs.Create.{dir_add_entry-Keeps}
use chanux.Ramfs.AddName.{IsName}
use chanux.Ramfs.Listing.{IsDistinct, free_entry}
use chanux.Ramfs.Directory.{bytes}
use chanux.Ramfs.NameMap.{IsAdded, IsRemoved, dir_add_entry-IsAdded, dir_remove_entry-IsRemoved}
use chanux.Ramfs.Paths.{create_file, create_dir}
use chanux.Ramfs.Owned.{IsFs}
use chanux.Ramfs.Content.{content, byte_of}
use chanux.Ramfs.WriteFile.{FileWritten, ramfs_write-FileWritten}
use chanux.Ramfs.Read.{IsRead, readable, ramfs_read-IsRead}
use chanux.Ramfs.Drop.{among}
use chanux.Ramfs.Truncate.{Truncated, unneeded, ramfs_truncate-Truncated}
use chanux.Ramfs.CreateFile.{create-IsFs}

abbrev clear : Mem
clear a = 0

-- `type_file` at inode 1, without blocks.
abbrev node : Inode
node = record no_inode { type = 1; size = 100; link_count = 1 }

abbrev root : Inode
root = record no_inode { type = 2; link_count = 2 }

abbrev bits : ℕ → ℕ
bits k = if k == 0 then 255 else if k == 1 then 1 else 0

abbrev fs : Ramfs
fs = record {
  disk = clear;
  disk_blocks = 16;
  free_blocks = 7;
  free_inodes = 254;
  block_bitmap = bits;
  inode_bitmap = λ k. if k == 0 then 3 else 0;
  inodes = λ i. if i == 1 then node else if i == 0 then root else no_inode;
  ticks = 5;
}

pointers_clear : (i k : ℕ) → (fs.inodes i).blocks k ≡ 0
pointers_clear i k = ground arith

fs-IsFs : IsFs fs
unfolding count_free bitmap_test bit_test
fs-IsFs = record {
  counted = record {
    block_bytes = λ k. ground arith;
    inode_bytes = λ k. ground arith;
    blocks = refl;
    inodes = refl;
    least = omega arith;
    most = omega arith;
    root = refl;
  };
  used = λ i k live ne. absurd (ne (pointers_clear i k));
  once = λ i k j l live live' ne e. absurd (ne (pointers_clear i k));
}

abbrev hello : ℕ → ℕ
hello k = 104 + k

ramfs_write-FileWritten_example :
    (m : ℕ) × ((ramfs_write fs 1 hello 5 4094).0 ≡ some m)
    × FileWritten fs 1 hello 5 4094 m (ramfs_write fs 1 hello 5 4094).1
ramfs_write-FileWritten_example =
    ramfs_write-FileWritten fs 1 hello 5 4094 fs-IsFs refl (omega arith) (omega arith)

ramfs_read-IsRead_example :
    (let r = ramfs_read fs 1 hello 50 80 in
      IsRead fs 1 80 hello (readable 100 50 80) r.0
      × ((j p : ℕ) → content r.1 j p ≡ content fs j p))
ramfs_read-IsRead_example =
    ramfs_read-IsRead fs 1 hello 50 80 fs-IsFs refl (omega arith) (omega arith)

-- Five bytes across the end of the first block.
wrote_all : (ramfs_write fs 1 hello 5 4094).0 ≡ some 5
unfolding ramfs_write write_loop ensure_block set_block alloc_block find_free bitmap_test bit_test
    bitmap_set bit_set
wrote_all = refl

marked : bitmap_test fs.inode_bitmap 1 ≡ true
unfolding bitmap_test bit_test
marked = refl

wrote :
    (m : ℕ) × ((ramfs_write fs 1 hello 5 4094).0 ≡ some m)
    × FileWritten fs 1 hello 5 4094 m (ramfs_write fs 1 hello 5 4094).1
wrote = ramfs_write-FileWritten fs 1 hello 5 4094 fs-IsFs refl (omega arith) (omega arith)

-- The file of those five bytes, which has two blocks.
abbrev two_blocks : Ramfs
two_blocks = (ramfs_write fs 1 hello 5 4094).1

-- The second one, which a file of 10 bytes does not need.
abbrev spare : ℕ
spare = (two_blocks.inodes 1).blocks 1

fits_one_block : unneeded two_blocks 1 10 spare ≡ true
unfolding ramfs_write write_loop ensure_block set_block alloc_block find_free bitmap_test bit_test
    bitmap_set bit_set among
fits_one_block = refl

ramfs_truncate-Truncated_example :
    ((ramfs_truncate two_blocks 1 10).0 ≡ true)
    × Truncated two_blocks 1 10 (ramfs_truncate two_blocks 1 10).1
ramfs_truncate-Truncated_example =
    ramfs_truncate-Truncated two_blocks 1 10 wrote.2.valid wrote.2.type

create-IsFs_example :
    IsFs (create_file fs (47 ∷ 97 ∷ [])).1
    × IsFs (create_dir fs (47 ∷ 97 ∷ [])).1
    × IsFs (dir_add_entry fs 0 (97 ∷ []) 1 type_file).1
    × IsFs (dir_remove_entry fs 0 (97 ∷ [])).1
create-IsFs_example = create-IsFs fs (47 ∷ 97 ∷ []) (97 ∷ []) 0 1 type_file fs-IsFs

-- A name of as many bytes as are asked for.
many : ℕ → List ℕ
many zero = []
many (suc n) = 97 ∷ many n

abbrev second : Mem
second a = if a == 64 then 7 else 0

abbrev name : List ℕ
name = 97 ∷ []

name-IsName : IsName name
name-IsName = record { fits = omega arith; not_dot = refl; not_dot_dot = refl }

-- The root has no block, and no entry.
root_empty : (a : ℕ) → bytes fs 0 a ≡ 0
unfolding content byte_of
root_empty a = refl

no_entry : (e : ℕ) → entry_inode (bytes fs 0) e ≡ 0
no_entry e = rw (root_empty e, root_empty (e + 1), root_empty (e + 2), root_empty (e + 3)) refl

fs_once : IsDistinct (bytes fs 0)
fs_once m j k fits lt lt' here there =
    absurd (
      ground
        (arith, here, free_entry (bytes fs 0) m (dirent_size * j) (no_entry (dirent_size * j))))

adds : (dir_add_entry fs 0 name 5 1).0 ≡ true
unfolding dir_add_entry dir_lookup search_blocks search_entries add_loop ensure_block set_block
    alloc_block find_free bitmap_test bit_test bitmap_set bit_set write_bytes
adds = refl

dir_add_entry-IsAdded_example : IsAdded fs (dir_add_entry fs 0 name 5 1).1 0 name 5
dir_add_entry-IsAdded_example =
    dir_add_entry-IsAdded fs 0 name fs-IsFs name-IsName fs_once 5 1 (omega arith) (omega arith) adds

abbrev named : Ramfs
named = (dir_add_entry fs 0 name 5 1).1

removes : (dir_remove_entry named 0 name).0 ≡ true
unfolding dir_add_entry dir_remove_entry dir_lookup search_blocks search_entries add_loop
    ensure_block set_block alloc_block find_free bitmap_test bit_test bitmap_set bit_set write_bytes
    put_entry entry_matches name_matches
removes = refl

dir_remove_entry-IsRemoved_example : IsRemoved named (dir_remove_entry named 0 name).1 0 name
dir_remove_entry-IsRemoved_example =
    dir_remove_entry-IsRemoved named 0 name (dir_add_entry-Keeps fs 0 name 5 1 fs-IsFs).valid
      name-IsName
      (dir_add_entry-IsAdded fs 0 name fs-IsFs name-IsName fs_once 5 1 (omega arith) (omega arith)
        adds).distinct
      removes
