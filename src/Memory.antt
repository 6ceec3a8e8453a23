-- ===== src/Memory.antt =====
-- The memory functions of kernel/lib/string.c. Memory is a map from addresses to bytes; the ranges of
-- a call do not wrap around the address space.
pub mod Copied
pub mod Move
pub mod Strings
pub mod Compare
pub mod Fill
mod Tests
use chanux.Common.{
  ℕ, zero, suc, ◌+◌, ◌-◌, ◌*◌, ◌/◌, ◌%◌, Bool, not, ◌&&◌, ◌||◌, ◌==◌, ltb, leb, if◌then◌else◌,
  update, ℤ, pos, negsuc, List, [], ◌∷◌,
}

abbrev pub Mem : Type 0
Mem = ℕ → ℕ

-- `*d64 = *s64`: eight bytes are read, and then written.
unfoldable pub copy_word : Mem → ℕ → ℕ → Mem
copy_word mem d s a = if leb d a && ltb a (d + 8) then mem (s + (a - d)) else mem a

-- What a loop has copied: the memory, the two pointers and the count that is left.
pub record Copy : Type 0 where
  pub mem : Mem
  pub d : ℕ
  pub s : ℕ
  pub count : ℕ

-- Byte by byte, up to an address that 8 divides.
pub align_loop : ℕ → Mem → ℕ → ℕ → Copy
align_loop zero mem d s = record { mem = mem; d = d; s = s; count = 0 }
align_loop (suc n) mem d s =
    let rest = align_loop n (update mem d (mem s)) (d + 1) (s + 1) in
    if d % 8 == 0 then record { mem = mem; d = d; s = s; count = suc n } else rest

-- `n` words.
pub word_loop : ℕ → Mem → ℕ → ℕ → Mem
word_loop zero mem d s = mem
word_loop (suc n) mem d s = word_loop n (copy_word mem d s) (d + 8) (s + 8)

pub byte_loop : ℕ → Mem → ℕ → ℕ → Mem
byte_loop zero mem d s = mem
byte_loop (suc n) mem d s = byte_loop n (update mem d (mem s)) (d + 1) (s + 1)

-- The words, and then the bytes that are left.
abbrev pub copy_words : Copy → Mem
copy_words c =
    let n = c.count / 8 in
    byte_loop (c.count % 8) (word_loop n c.mem c.d c.s) (c.d + 8 * n) (c.s + 8 * n)

unfoldable pub memcpy : Mem → ℕ → ℕ → ℕ → Mem
memcpy mem dest src count =
    if leb 8 count && dest % 8 == src % 8
    then copy_words (align_loop count mem dest src)
    else byte_loop count mem dest src

-- From the end down.
pub back_loop : ℕ → Mem → ℕ → ℕ → Mem
back_loop zero mem d s = mem
back_loop (suc n) mem d s = back_loop n (update mem (d + n) (mem (s + n))) d s

unfoldable pub memmove : Mem → ℕ → ℕ → ℕ → Mem
unfolding memcpy
memmove mem dest src count =
    if dest == src || count == 0
    then mem
    else if ltb dest src || leb (src + count) dest
    then memcpy mem dest src count
    else back_loop count mem dest src

abbrev pub difference : ℕ → ℕ → ℤ
difference a b = if leb b a then pos (a - b) else negsuc (b - a - 1)

pub memcmp : Mem → ℕ → ℕ → ℕ → ℤ
memcmp mem p1 p2 zero = pos 0
memcmp mem p1 p2 (suc n) =
    let rest = memcmp mem (p1 + 1) (p2 + 1) n in
    if mem p1 == mem p2 then rest else difference (mem p1) (mem p2)

-- The loop of `strlen`, on fuel: a string has its NUL within `fuel` bytes.
pub len_loop : ℕ → Mem → ℕ → ℕ → ℕ
len_loop zero mem str len = len
len_loop (suc fuel) mem str len =
    let rest = len_loop fuel mem str (len + 1) in if not (mem (str + len) == 0) then rest else len

unfoldable pub strlen : ℕ → Mem → ℕ → ℕ
strlen fuel mem str = len_loop fuel mem str 0

-- `while (n && (*dest++ = *src++)) n--;`
pub copy_until : ℕ → Mem → ℕ → ℕ → Copy
copy_until zero mem d s = record { mem = mem; d = d; s = s; count = 0 }
copy_until (suc n) mem d s =
    let mem' = update mem d (mem s) in
    let rest = copy_until n mem' (d + 1) (s + 1) in
    if mem s == 0 then record { mem = mem'; d = d + 1; s = s + 1; count = suc n } else rest

-- `while (n--) *dest++ = '\0';`
pub pad_loop : ℕ → Mem → ℕ → Mem
pad_loop zero mem d = mem
pad_loop (suc n) mem d = pad_loop n (update mem d 0) (d + 1)

unfoldable pub strncpy : Mem → ℕ → ℕ → ℕ → Mem
strncpy mem dest src n = let c = copy_until n mem dest src in pad_loop c.count c.mem c.d

-- The bytes up to the NUL, `n` at most.
pub string_at : Mem → ℕ → ℕ → List ℕ
string_at mem zero addr = []
string_at mem (suc n) addr =
    let rest = string_at mem n (addr + 1) in if mem addr == 0 then [] else mem addr ∷ rest

-- `while ((*dest++ = *src++));`, on fuel: a string has its NUL within `fuel` bytes.
pub copy_string : ℕ → Mem → ℕ → ℕ → Mem
copy_string zero mem d s = mem
copy_string (suc fuel) mem d s =
    let mem' = update mem d (mem s) in
    let rest = copy_string fuel mem' (d + 1) (s + 1) in if not (mem s == 0) then rest else mem'

unfoldable pub strcpy : ℕ → Mem → ℕ → ℕ → Mem
strcpy fuel mem dest src = copy_string fuel mem dest src

-- On fuel, as `strlen`.
pub strcmp : ℕ → Mem → ℕ → ℕ → ℤ
strcmp zero mem s1 s2 = pos 0
strcmp (suc fuel) mem s1 s2 =
    let rest = strcmp fuel mem (s1 + 1) (s2 + 1) in
    if not (mem s1 == 0) && mem s1 == mem s2 then rest else difference (mem s1) (mem s2)

pub strncmp : Mem → ℕ → ℕ → ℕ → ℤ
strncmp mem s1 s2 zero = pos 0
strncmp mem s1 s2 (suc n) =
    let rest = strncmp mem (s1 + 1) (s2 + 1) n in
    if not (mem s1 == 0) && mem s1 == mem s2 then rest else difference (mem s1) (mem s2)

-- `*ptr64 = pattern`: eight bytes, each of them `byte`.
pub fill_word : Mem → ℕ → ℕ → Mem
fill_word mem byte d a = if leb d a && ltb a (d + 8) then byte else mem a

-- What the first loop of `memset` has filled: the memory, the pointer and the count that is left.
pub record Filled : Type 0 where
  pub mem : Mem
  pub ptr : ℕ
  pub count : ℕ

-- Up to an address that 8 divides.
pub fill_align : ℕ → Mem → ℕ → ℕ → Filled
fill_align zero mem byte d = record { mem = mem; ptr = d; count = 0 }
fill_align (suc n) mem byte d =
    let rest = fill_align n (update mem d byte) byte (d + 1) in
    if d % 8 == 0 then record { mem = mem; ptr = d; count = suc n } else rest

pub fill_words : ℕ → Mem → ℕ → ℕ → Mem
fill_words zero mem byte d = mem
fill_words (suc n) mem byte d = fill_words n (fill_word mem byte d) byte (d + 8)

pub fill_bytes : ℕ → Mem → ℕ → ℕ → Mem
fill_bytes zero mem byte d = mem
fill_bytes (suc n) mem byte d = fill_bytes n (update mem d byte) byte (d + 1)

-- The words, and then the bytes that are left.
abbrev pub fill_rest : ℕ → Filled → Mem
fill_rest byte f =
    let n = f.count / 8 in
    fill_bytes (f.count % 8) (fill_words n f.mem byte f.ptr) byte (f.ptr + 8 * n)

unfoldable pub memset : Mem → ℕ → ℕ → ℕ → Mem
memset mem dest val count =
    let byte = val % 256 in
    if leb 8 count
    then fill_rest byte (fill_align count mem byte dest)
    else fill_bytes count mem byte dest
