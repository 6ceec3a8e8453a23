-- ===== src/Syscall/Structs.antt =====
-- The C structs and strings that the system calls leave in memory, byte by byte.
use chanux.Common.{ℕ, zero, suc, ◌+◌, ◌%◌, ◌/◌, update, List, [], ◌∷◌}
use chanux.Memory.{Mem}
use chanux.Vfs.Tree.{Stat}

-- The `n` bytes of a number, the low one first.
unfoldable pub put_number : ℕ → Mem → ℕ → ℕ → Mem
put_number zero mem at value = mem
put_number (suc n) mem at value = put_number n (update mem at (value % 256)) (at + 1) (value / 256)

-- Fields of a struct, each with its offset, its size and its value.
unfoldable pub put_fields : Mem → ℕ → List (ℕ × ℕ × ℕ) → Mem
put_fields mem ptr [] = mem
put_fields mem ptr ((offset, size, value) ∷ rest) =
    put_fields (put_number size mem (ptr + offset) value) ptr rest

-- `stat_t` without its times, and its times.
abbrev pub stat_fields : Stat → List (ℕ × ℕ × ℕ)
stat_fields st =
    (0, 4, st.st_ino)
    ∷ (4, 4, st.st_mode)
    ∷ (8, 4, st.st_nlink)
    ∷ (12, 4, st.st_uid)
    ∷ (16, 4, st.st_gid)
    ∷ (24, 8, st.st_size)
    ∷ (32, 8, st.st_blksize)
    ∷ (40, 8, st.st_blocks)
    ∷ []

abbrev pub time_fields : Stat → List (ℕ × ℕ × ℕ)
time_fields st = (48, 8, st.st_atime) ∷ (56, 8, st.st_mtime) ∷ (64, 8, st.st_ctime) ∷ []

-- The four bytes before the size, which `memset` clears.
abbrev pub padding : List (ℕ × ℕ × ℕ)
padding = (20, 4, 0) ∷ []

-- A C string, with its NUL.
unfoldable pub put_string : Mem → ℕ → List ℕ → Mem
put_string mem at [] = update mem at 0
put_string mem at (c ∷ rest) = put_string (update mem at c) (at + 1) rest

-- A struct that no call has filled in yet.
abbrev pub blank_stat : Stat
blank_stat = record {
  st_ino = 0;
  st_mode = 0;
  st_nlink = 0;
  st_uid = 0;
  st_gid = 0;
  st_size = 0;
  st_blksize = 0;
  st_blocks = 0;
  st_atime = 0;
  st_mtime = 0;
  st_ctime = 0;
}
