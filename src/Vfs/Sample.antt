-- ===== src/Vfs/Sample.antt =====
-- A RAM disk of 16 blocks with an empty file of 100 bytes at inode 1, the root and that file as
-- vnodes, and the file open at offset 4094: the state that runs of the calls start from.
use chanux.Common.{
  ℕ, ◌≡◌, ◌≢◌, refl, true, some, arith, ◌==◌, if◌then◌else◌, Bool-cases, inl, inr, subst, sym,
  ==→eq,
}
use chanux.Bitmap.{bitmap_test, count_free, bit_test}
use chanux.Vnode.{Vnode, Vnodes, fresh_vnode}
use chanux.FileTable.{File, blank_file}
use chanux.Ramfs.{Inode, Ramfs, no_inode}
use chanux.Ramfs.Owned.{IsFs}
use chanux.Ramfs.Marks.{IsSound}
use chanux.Vfs.{Vfs}
use chanux.Vfs.ReadBack.{IsOpen}

abbrev pub root_node : Inode
root_node = record no_inode { type = 2; permissions = 7; link_count = 2 }

abbrev pub file_node : Inode
file_node = record no_inode { type = 1; permissions = 6; size = 100; link_count = 1 }

abbrev pub bits : ℕ → ℕ
bits k = if k == 0 then 255 else if k == 1 then 1 else 0

abbrev pub disk : Ramfs
disk = record {
  disk = λ a. 0;
  disk_blocks = 16;
  free_blocks = 7;
  free_inodes = 254;
  block_bitmap = bits;
  inode_bitmap = λ k. if k == 0 then 3 else 0;
  inodes = λ i. if i == 0 then root_node else if i == 1 then file_node else no_inode;
  ticks = 5;
}

pointers_clear : (i k : ℕ) → (disk.inodes i).blocks k ≡ 0
pointers_clear i k = ground arith

pub disk-IsFs : IsFs disk
unfolding count_free bitmap_test bit_test
disk-IsFs = record {
  counted = record {
    block_bytes = λ k. ground arith;
    inode_bytes = λ k. ground arith;
    blocks = refl;
    inodes = refl;
    least = omega arith;
    most = omega arith;
    root = refl;
  };
  used = λ i k live ne. absurd (ne (pointers_clear i k));
  once = λ i k j l live live' ne e. absurd (ne (pointers_clear i k));
}

both_marked : (bitmap_test disk.inode_bitmap 0 ≡ true) × (bitmap_test disk.inode_bitmap 1 ≡ true)
unfolding bitmap_test bit_test
both_marked = (refl, refl)

marks : (i : ℕ) → (disk.inodes i).type ≢ 0 → bitmap_test disk.inode_bitmap i ≡ true
marks i typed = elim (Bool-cases (i == 0)) [
  | inl root ↦
      subst (λ x. bitmap_test disk.inode_bitmap x ≡ true) (sym (==→eq i 0 root)) both_marked.0
  | inr other ↦ elim (Bool-cases (i == 1)) [
    | inl file ↦
        subst (λ x. bitmap_test disk.inode_bitmap x ≡ true) (sym (==→eq i 1 file)) both_marked.1
    | inr free ↦ absurd (typed (rw (other, free) refl))
  ]
]

pub disk-IsSound : IsSound disk
disk-IsSound = record { valid = disk-IsFs; marked = λ i lt typed. marks i typed }

abbrev pub vnode : ℕ → ℕ → Vnode
vnode num type = record fresh_vnode { inode_num = num; type = type; inode = some num; ops = some 0 }

abbrev pub no_vnode : Vnode
no_vnode = record fresh_vnode { ref_count = 0 }

abbrev pub vnodes : Vnodes
vnodes = record {
  table = λ v. if v == 0 then vnode 0 2 else if v == 1 then vnode 1 1 else no_vnode;
  root = some 0;
}

-- `O_RDWR`, at offset 4094
abbrev pub open_file : File
open_file = record blank_file { ref_count = 1; flags = 3; offset = 4094; inode = 1; vnode = some 1 }

abbrev pub state : Vfs
state = record {
  files = record {
    files = λ f. if f == 4 then open_file else blank_file;
    vnodes = vnodes;
    initialized = true;
  };
  fs = disk;
  initialized = true;
}

pub four-IsOpen : IsOpen state 4 1 1
four-IsOpen = record {
  vnode = refl;
  inode = refl;
  ops = refl;
  readable = refl;
  writable = refl;
  in_place = refl;
  on_disk = refl;
}
