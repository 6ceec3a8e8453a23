-- ===== src/Pmm/Valid.antt =====
-- The invariant of the allocator, and what it is to take or to give back one page.
use chanux.Common.{
  ℕ, ◌+◌, ◌≤◌, ◌<◌, ◌≡◌, ◌≢◌, true, false, ◌==◌, if◌then◌else◌, add64, sub64, arith,
}
use chanux.Bitmap.{IsBytes, bitmap_test, bitmap_set, bitmap_clear, count_free}
use chanux.Bitmap.Laws.{test-set, test-clear, bitmap_set-IsBytes, bitmap_clear-IsBytes}
use chanux.Bitmap.Count.{count_free-set, count_free-clear, count_free-le}
use chanux.Pmm.{Pmm, max_pages}

-- The free count is the number of clear bits, and page 0 is used, whose address means failure.
pub record IsValid (s : Pmm) : Type 0 where
  pub bytes : IsBytes s.bitmap
  pub counted : s.free_count ≡ count_free s.bitmap max_pages
  pub hint_in : s.first_free_hint ≤ max_pages
  pub zero_used : bitmap_test s.bitmap 0 ≡ true

-- Page `q` was free and is now used, and no other page has changed.
pub record Takes (s s' : Pmm) (q : ℕ) : Type 0 where
  pub in_range : q < max_pages
  pub was_free : bitmap_test s.bitmap q ≡ false
  pub now : (r : ℕ) → bitmap_test s'.bitmap r ≡ (if q == r then true else bitmap_test s.bitmap r)
  pub counted : s'.free_count + 1 ≡ s.free_count
  pub valid : IsValid s'

-- Page `q` was used and is now free, and no other page has changed.
pub record Releases (s s' : Pmm) (q : ℕ) : Type 0 where
  pub in_range : q < max_pages
  pub was_used : bitmap_test s.bitmap q ≡ true
  pub now : (r : ℕ) → bitmap_test s'.bitmap r ≡ (if q == r then false else bitmap_test s.bitmap r)
  pub counted : s'.free_count ≡ s.free_count + 1
  pub valid : IsValid s'

module _ (s s' : Pmm) (q : ℕ) (v : IsValid s) (h : q < max_pages) where
  pub set-Takes :
      bitmap_test s.bitmap q ≡ false
      → s'.bitmap ≡ bitmap_set s.bitmap q
      → s'.free_count ≡ sub64 s.free_count 1
      → s'.first_free_hint ≤ max_pages
      → Takes s s' q
  set-Takes free eb ef hint = record {
    in_range = h;
    was_free = free;
    now = λ r. rw eb (test-set s.bitmap v.bytes q r);
    counted = less.0;
    valid = record {
      bytes = rw eb (bitmap_set-IsBytes s.bitmap v.bytes q);
      counted = rw eb less.1;
      hint_in = hint;
      zero_used = rw eb (ground (arith, v.zero_used, test-set s.bitmap v.bytes q 0));
    };
  }
    where
      less :
          (s'.free_count + 1 ≡ s.free_count)
          × (s'.free_count ≡ count_free (bitmap_set s.bitmap q) max_pages)
      less = omega (
        arith,
        ef,
        v.counted,
        count_free-set s.bitmap v.bytes q max_pages h free,
        count_free-le s.bitmap max_pages,
      )

  pub clear-Releases :
      bitmap_test s.bitmap q ≡ true
      → q ≢ 0
      → s'.bitmap ≡ bitmap_clear s.bitmap q
      → s'.free_count ≡ add64 s.free_count 1
      → s'.first_free_hint ≤ max_pages
      → Releases s s' q
  clear-Releases used ne eb ef hint = record {
    in_range = h;
    was_used = used;
    now = λ r. rw eb (test-clear s.bitmap v.bytes q r);
    counted = more.0;
    valid = record {
      bytes = rw eb (bitmap_clear-IsBytes s.bitmap v.bytes q);
      counted = rw eb more.1;
      hint_in = hint;
      zero_used = rw eb (ground (arith, v.zero_used, test-clear s.bitmap v.bytes q 0));
    };
  }
    where
      more :
          (s'.free_count ≡ s.free_count + 1)
          × (s'.free_count ≡ count_free (bitmap_clear s.bitmap q) max_pages)
      more = omega (
        arith,
        ef,
        v.counted,
        count_free-clear s.bitmap v.bytes q max_pages h used,
        count_free-le s.bitmap max_pages,
      )
