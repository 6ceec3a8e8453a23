-- ===== src/Vfs/Tests.antt =====
-- A RAM disk of 16 blocks with a root directory, which has no entries, and a file as inode 1; the
-- vnode table has the root at place 0 and the file at place 1, which is open as file 4.
use chanux.Common.{ℕ, ◌+◌, ◌≡◌, refl, some, List, [], ◌∷◌, arith, Option, negsuc}
use chanux.Bitmap.{bitmap_test, bitmap_set, bit_test, bit_set, find_free}
use chanux.Vnode.{vnode_ref}
use chanux.FileTable.{blank_file, file_alloc, init_file_table, find_slot}
use chanux.FsPath.{path_normalize, walk, skip_slashes, drop_end_slashes}
use chanux.Ramfs.{alloc_block}
use chanux.Ramfs.Files.{ramfs_write, write_loop, ensure_block, set_block}
use chanux.Ramfs.Paths.{lookup_path, walk_path}
use chanux.Ramfs.Marks.{IsSound}
use chanux.Ramfs.ReadBack.{IsReadBack}
use chanux.Vfs.{find_inode, vnode_get_or_create, lookup_inode, vfs_lookup}
use chanux.Vfs.Calls.{vfs_open, vfs_read, vfs_write, vfs_close, file_at, ramfs_vfs_write}
use chanux.Vfs.Seek.{vfs_lseek, to_word, move_to, seek_cur, vfs_lseek-exact}
use chanux.Vfs.Tree.{vfs_create, vfs_mkdir, vfs_unlink, vfs_stat}
use chanux.Vfs.Holds.{Holds, hold}
use chanux.Vfs.Takes.{IsRoomy, nothing}
use chanux.Vfs.Balance.{opened, vfs_open-Holds, vfs_path-Holds}
use chanux.Vfs.ReadBack.{vfs_read-write}
use chanux.Vfs.Keeps.{vfs_calls-IsSound}
use chanux.Vfs.Close.{vfs_close-open}
use chanux.Vfs.Sample.{disk-IsFs, disk-IsSound, vnodes, state, four-IsOpen}

roomy : IsRoomy vnodes
roomy v other = ground arith

abbrev hello : ℕ → ℕ
hello k = 104 + k

-- Two bytes back from the offset of the file.
vfs_lseek-exact_example :
    vfs_lseek state (some 4) (to_word (negsuc 1)) 1 ≡ move_to state 4 (some 4092)
vfs_lseek-exact_example =
    vfs_lseek-exact state 4 (negsuc 1) 1 (some 4094) (seek_cur refl) (omega arith) (omega arith)

-- Five bytes across the end of the first block.
wrote_all : (vfs_write state (some 4) hello 5).0 ≡ some 5
unfolding vfs_write ramfs_vfs_write ramfs_write write_loop ensure_block set_block alloc_block
    find_free bitmap_test bit_test bitmap_set bit_set
wrote_all = refl

vfs_read-write_example :
    IsReadBack hello 5
      (vfs_read
        (vfs_lseek (vfs_write state (some 4) hello 5).1 (some 4) 4094 0).1
        (some 4)
        (λ k. 0)
        5).0
vfs_read-write_example =
    vfs_read-write state 4 1 1 hello (λ k. 0) 5 5 disk-IsFs four-IsOpen refl (omega arith)
      (omega arith) (omega arith) wrote_all

-- The root, for reading.
abbrev root_path : Option (List ℕ)
root_path = some (47 ∷ [])

vfs_open-Holds_example :
    Holds vnodes
      (vfs_open state root_path 1).1.files.vnodes
      (hold (opened (vfs_open state root_path 1)))
vfs_open-Holds_example = vfs_open-Holds state root_path 1 roomy

abbrev new_path : Option (List ℕ)
new_path = some (47 ∷ 97 ∷ [])

vfs_path-Holds_example :
    Holds vnodes (vfs_create state new_path 1).1.files.vnodes nothing
    × Holds vnodes (vfs_mkdir state new_path).1.files.vnodes nothing
    × Holds vnodes (vfs_unlink state new_path).1.files.vnodes nothing
    × Holds vnodes (vfs_stat state new_path).1.files.vnodes nothing
vfs_path-Holds_example = vfs_path-Holds state new_path 1 roomy

vfs_calls-IsSound_example :
    IsSound (vfs_open state new_path 259).1.fs
    × IsSound (vfs_read state (some 4) hello 5).1.fs
    × IsSound (vfs_write state (some 4) hello 5).1.fs
    × IsSound (vfs_create state new_path 1).1.fs
    × IsSound (vfs_mkdir state new_path).1.fs
    × IsSound (vfs_unlink state new_path).1.fs
vfs_calls-IsSound_example = vfs_calls-IsSound state new_path (some 4) hello 5 259 1 disk-IsSound

opens : (vfs_open state root_path 1).0 ≡ some 0
unfolding vfs_open vfs_lookup lookup_inode path_normalize walk skip_slashes drop_end_slashes
    lookup_path walk_path vnode_get_or_create find_inode vnode_ref file_alloc init_file_table
    find_slot
opens = refl

vfs_close-open_example :
    (let t = (vfs_close (vfs_open state root_path 1).1 (some 0)).1 in
      (file_at t 0 ≡ blank_file) × Holds vnodes t.files.vnodes nothing)
vfs_close-open_example = vfs_close-open state root_path 1 0 roomy opens
