-- ===== src/Pmm/Runs.antt =====
-- The search for a run of free pages, and taking a run.
use chanux.Common.{
  ℕ, zero, suc, ◌+◌, ◌<◌, ◌≤◌, ◌≡◌, refl, Bool, true, false, ◌==◌, ltb, leb, ◌&&◌, not, ==→eq,
  if◌then◌else◌, ◌⊎◌, inl, inr, arith, Bool-cases,
}
use chanux.Bitmap.{Bitmap, IsBytes, bitmap_test, bitmap_set, count_free}
use chanux.Bitmap.Laws.{test-set, bitmap_set-IsBytes}
use chanux.Bitmap.Count.{count_free-set}
use chanux.Pmm.{find_run, set_run}

-- The `n` pages from `a` on are free.
abbrev pub AllFree : Bitmap → ℕ → ℕ → Type 0
AllFree bm a n = (r : ℕ) → a ≤ r → r < a + n → bitmap_test bm r ≡ false

-- The same, as a test.
unfoldable pub all_free : Bitmap → ℕ → ℕ → Bool
all_free bm a zero = true
all_free bm a (suc n) = not (bitmap_test bm a) && all_free bm (a + 1) n

pub all_free→AllFree : (bm : Bitmap) (a n : ℕ) → all_free bm a n ≡ true → AllFree bm a n
unfolding all_free
all_free→AllFree bm a zero h r p q = absurd (omega arith)
all_free→AllFree bm a (suc n) h r p q = elim (Bool-cases (a == r)) [
  | inl here ↦ rw (← ==→eq a r here) (ground arith)
  | inr later ↦ all_free→AllFree bm (a + 1) n (ground arith) r (ground arith) (omega arith)
]

pub AllFree→all_free : (bm : Bitmap) (a n : ℕ) → AllFree bm a n → all_free bm a n ≡ true
unfolding all_free
AllFree→all_free bm a zero h = refl
AllFree→all_free bm a (suc n) h =
    rw (h a (omega arith) (omega arith))
      (AllFree→all_free bm (a + 1) n (λ r p q. h r (omega arith) (omega arith)))

-- The loop's invariant at `pfn`: it has found the free pages that end there.
record IsRun (bm : Bitmap) (count pfn start found : ℕ) : Type 0 where
  short : found ≤ count
  ends : (found ≡ 0) ⊎ (start + found ≡ pfn)
  free : AllFree bm start found

module _ (bm : Bitmap) (count : ℕ) where
  AllFree-extend :
      (pfn start found : ℕ)
      → (found ≡ 0) ⊎ (start + found ≡ pfn)
      → AllFree bm start found
      → bitmap_test bm pfn ≡ false
      → AllFree bm (if found == 0 then pfn else start) (found + 1)
  AllFree-extend pfn start found ends old free r a b = elim (Bool-cases (found == 0)) [
    | inl none_yet ↦ let here : pfn ≡ r = ground arith in rw here at free
    | inr some_yet ↦ elim (Bool-cases (ltb r pfn)) [
      | inl before ↦ old r (ground arith) (ground arith)
      | inr last ↦ let here : pfn ≡ r = ground arith in rw here at free
    ]
  ]

  step-IsRun :
      (pfn start found : ℕ)
      → found < count
      → IsRun bm count pfn start found
      → let used = bitmap_test bm pfn in
        IsRun bm count
          (pfn + 1)
          (if used then start else if found == 0 then pfn else start)
          (if used then 0 else found + 1)
  step-IsRun pfn start found h run = elim (Bool-cases (bitmap_test bm pfn)) [
    | inl used ↦
        rw used
          (record { short = omega arith; ends = inl refl; free = λ r a b. absurd (omega arith) })
    | inr free ↦ rw free (record {
      short = omega arith;
      ends = ground (arith, run.ends);
      free = AllFree-extend pfn start found run.ends run.free free;
    })
  ]

  -- What the loop returns is a run of free pages before its end.
  record Found (end : ℕ) (r : ℕ × ℕ) : Type 0 where
    short : r.1 ≤ count
    before : (r.1 ≡ 0) ⊎ (r.0 + r.1 ≤ end)
    free : AllFree bm r.0 r.1

  find_run-IsRun :
      (n pfn start found end : ℕ)
      → pfn + n ≤ end
      → IsRun bm count pfn start found
      → Found end (find_run bm count n pfn start found)
  unfolding find_run
  find_run-IsRun zero pfn start found end h run = record {
    short = run.short;
    before = ground (arith, run.ends);
    free = run.free;
  }
  find_run-IsRun (suc n) pfn start found end h run = elim (Bool-cases (ltb found count)) [
    | inl more ↦ rw more (
        find_run-IsRun n (pfn + 1) _ _ end (omega arith)
          (step-IsRun pfn start found (ground arith) run))
    | inr done ↦
        rw done (record { short = run.short; before = ground (arith, run.ends); free = run.free })
  ]

  pub find_run-some :
      (n pfn start end : ℕ)
      → pfn + n ≤ end
      → 0 < count
      → ltb (find_run bm count n pfn start 0).1 count ≡ false
      → AllFree bm (find_run bm count n pfn start 0).0 count
        × ((find_run bm count n pfn start 0).0 + count ≤ end)
  find_run-some n pfn start end h pos enough =
      let f : Found end (find_run bm count n pfn start 0) =
        find_run-IsRun n pfn start 0 end h
          (record { short = omega arith; ends = inl refl; free = λ r a b. absurd (omega arith) }) in
      let all : (find_run bm count n pfn start 0).1 ≡ count = ground (arith, f.short) in
      (rw all at f.free, ground (arith, f.before))

  used_before :
      (a pfn found : ℕ)
      → AllFree bm a count
      → found < count
      → pfn ≤ a + found
      → bitmap_test bm pfn ≡ true
      → pfn + 1 ≤ a
  used_before a pfn found free h near used = elim (Bool-cases (ltb pfn a)) [
    | inl before ↦ ground arith
    | inr within ↦ absurd (ground (arith, free pfn (ground arith) (omega arith)))
  ]

  -- It misses no run between its ends.
  pub find_run_complete :
      (a n pfn start found : ℕ)
      → AllFree bm a count
      → a + count ≤ pfn + n
      → pfn ≤ a + found
      → ltb (find_run bm count n pfn start found).1 count ≡ false
  unfolding find_run
  find_run_complete a zero pfn start found free h near = ground arith
  find_run_complete a (suc n) pfn start found free h near = elim (Bool-cases (ltb found count)) [
    | inl more ↦ elim (Bool-cases (bitmap_test bm pfn)) [
      | inl used ↦
          rw (more, used)
            (find_run_complete a n (pfn + 1) start 0 free (omega arith)
              (omega (arith, used_before a pfn found free (ground arith) near used)))
      | inr clear ↦
          rw (more, clear)
            (find_run_complete a n (pfn + 1) _ (found + 1) free (omega arith) (omega arith))
    ]
    | inr done ↦ rw (done, done)
  ]

pub set_run-IsBytes : (n a : ℕ) (bm : Bitmap) → IsBytes bm → IsBytes (set_run bm a n)
unfolding set_run
set_run-IsBytes zero a bm v = v
set_run-IsBytes (suc n) a bm v =
    set_run-IsBytes n (a + 1) (bitmap_set bm a) (bitmap_set-IsBytes bm v a)

pub test-set_run :
    (n a : ℕ) (bm : Bitmap)
    → IsBytes bm
    → (r : ℕ)
    → bitmap_test (set_run bm a n) r ≡ (if leb a r && ltb r (a + n) then true else bitmap_test bm r)
unfolding set_run
test-set_run zero a bm v r = ground arith
test-set_run (suc n) a bm v r = ground (
  arith,
  test-set_run n (a + 1) (bitmap_set bm a) (bitmap_set-IsBytes bm v a) r,
  test-set bm v a r,
)

pub count_free-set_run :
    (n a : ℕ) (bm : Bitmap) (end : ℕ)
    → IsBytes bm
    → a + n ≤ end
    → AllFree bm a n
    → count_free (set_run bm a n) end + n ≡ count_free bm end
unfolding set_run
count_free-set_run zero a bm end v h free = omega arith
count_free-set_run (suc n) a bm end v h free = omega (
  arith,
  count_free-set bm v a end (omega arith) (free a (omega arith) (omega arith)),
  count_free-set_run n (a + 1) (bitmap_set bm a) end (bitmap_set-IsBytes bm v a) (omega arith)
      (λ r p q. ground (arith, test-set bm v a r, free r (omega arith) (omega arith))),
)
