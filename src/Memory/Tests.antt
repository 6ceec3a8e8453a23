-- ===== src/Memory/Tests.antt =====
-- Twelve bytes at 8, moved two places up; and the string `ab` at 100.
use chanux.Common.{◌≡◌, pos, refl, if◌then◌else◌, ◌==◌, ltb, arith}
use chanux.Memory.{Mem, memmove, back_loop, memset, string_at, strcmp}
use chanux.Memory.Copied.{Copied}
use chanux.Memory.Fill.{IsFilled, memset-IsFilled}
use chanux.Memory.Move.{memmove_lem}
use chanux.Memory.Strings.{IsString}
use chanux.Memory.Compare.{IsOrder, strcmp-IsOrder}

abbrev numbered : Mem
numbered a = if ltb a 64 then a else 7

memmove_lem_example : Copied numbered (memmove numbered 10 8 12) 10 8 12
memmove_lem_example = memmove_lem numbered 10 8 12

moved_up : memmove numbered 10 8 12 21 ≡ 19
unfolding memmove back_loop
moved_up = refl

abbrev text : Mem
text a = if a == 100 then 97 else if a == 101 then 98 else if a == 102 then 0 else 7

text-IsString : IsString text 100 2
text-IsString = record { bytes = λ i lt e. absurd (ground (arith, e)); ends = refl }

-- Thirteen bytes from an odd address on.
memset-IsFilled_example : IsFilled numbered (memset numbered 9 513 13) 1 9 13
memset-IsFilled_example = memset-IsFilled numbered 9 513 13

-- `b` is after `ab`.
tail-IsString : IsString text 101 1
tail-IsString = record { bytes = λ i lt e. absurd (ground (arith, e)); ends = refl }

strcmp-IsOrder_example :
    IsOrder (string_at text 1 101) (string_at text 2 100) (strcmp 9 text 101 100)
strcmp-IsOrder_example =
    strcmp-IsOrder 9 text 101 100 1 2 tail-IsString text-IsString (omega arith) (omega arith)

first_byte_decides : strcmp 9 text 101 100 ≡ pos 1
unfolding strcmp
first_byte_decides = refl
