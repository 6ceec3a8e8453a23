-- ===== src/Heap/Layout.antt =====
-- The abstract view of the heap: the blocks in the order of their addresses, each free or in use,
-- and what it means that the headers in memory hold such a list.
use chanux.Common.{
  ℕ, ◌+◌, ◌*◌, ◌≤◌, ◌<◌, ◌≡◌, ◌∙◌, refl, sym, ap, false, ◌==◌, update, subst, List, [], ◌∷◌, length,
  arith, eq→==,
}
use chanux.Heap.{Block, Headers, heap_block_magic, set_prev}

pub data Seg : Type 0 where
  free : ℕ → Seg
  used : ℕ → Seg

abbrev pub seg_size : Seg → ℕ
seg_size (free s) = s
seg_size (used s) = s

abbrev pub seg_flags : Seg → ℕ
seg_flags (free s) = 0
seg_flags (used s) = 1

abbrev pub block_of : Seg → ℕ → ℕ → Block
block_of g next prev = record {
  magic = heap_block_magic;
  flags = seg_flags g;
  size = seg_size g;
  next = next;
  prev = prev;
}

-- The address of a list's first block, `NULL` if it has none.
abbrev pub first_of : List Seg → ℕ → ℕ
first_of [] addr = 0
first_of (g ∷ gs) addr = addr

-- The address behind a block.
abbrev pub after : ℕ → Seg → ℕ
after addr g = addr + 32 + seg_size g

-- The headers hold the blocks `gs` from `addr` to `brk`, with no gap between them.
abbrev pub Holds : Headers → ℕ → ℕ → List Seg → ℕ → Type 0
Holds mem prev addr [] brk = addr ≡ brk
Holds mem prev addr (g ∷ gs) brk =
    (mem addr ≡ block_of g (first_of gs (after addr g)) prev) × Holds mem addr (after addr g) gs brk

abbrev pub SameBelow : Headers → Headers → ℕ → Type 0
SameBelow mem mem' addr = (a : ℕ) → a < addr → mem' a ≡ mem a

pub Holds-le :
    (mem : Headers) (prev addr : ℕ) (gs : List Seg) (brk : ℕ)
    → Holds mem prev addr gs brk
    → addr ≤ brk
Holds-le mem prev addr [] brk h = omega arith
Holds-le mem prev addr (g ∷ gs) brk h = omega (arith, Holds-le mem addr (after addr g) gs brk h.1)

-- A block takes 32 bytes at least, so the walks have fuel enough.
pub length-Holds :
    (mem : Headers) (prev addr : ℕ) (gs : List Seg) (brk : ℕ)
    → Holds mem prev addr gs brk
    → addr + 32 * length gs ≤ brk
length-Holds mem prev addr [] brk h = omega arith
length-Holds mem prev addr (g ∷ gs) brk h =
    omega (arith, length-Holds mem addr (after addr g) gs brk h.1)

-- The headers at and above an address decide.
pub Holds-above :
    (mem mem' : Headers) (prev addr : ℕ) (gs : List Seg) (brk : ℕ)
    → ((a : ℕ) → addr ≤ a → mem' a ≡ mem a)
    → Holds mem prev addr gs brk
    → Holds mem' prev addr gs brk
Holds-above mem mem' prev addr [] brk same h = h
Holds-above mem mem' prev addr (g ∷ gs) brk same h = (
  same addr (omega arith) ∙ h.0,
  Holds-above mem mem' addr (after addr g) gs brk (λ a le. same a (omega arith)) h.1,
)

pub Holds-update :
    (mem : Headers) (a : ℕ) (blk : Block) (prev addr : ℕ) (gs : List Seg) (brk : ℕ)
    → a < addr
    → Holds mem prev addr gs brk
    → Holds (update mem a blk) prev addr gs brk
Holds-update mem a blk prev addr gs brk lt h =
    Holds-above mem (update mem a blk) prev addr gs brk (λ b le. ground arith) h

-- The headers from `addr` on hold `gs` now, and those below it are as before.
abbrev pub Rebuilt : Headers → Headers → ℕ → ℕ → List Seg → ℕ → Type 0
Rebuilt mem mem' prev addr gs brk = Holds mem' prev addr gs brk × SameBelow mem mem' addr

-- The block behind one that changes points back to it.
pub set_prev-Holds :
    (mem : Headers) (prev prev' addr : ℕ) (gs : List Seg) (brk : ℕ)
    → 0 < addr
    → Holds mem prev addr gs brk
    → Rebuilt mem (set_prev mem (first_of gs addr) prev') prev' addr gs brk
set_prev-Holds mem prev prev' addr [] brk pos h = (h, λ a lt. refl)
set_prev-Holds mem prev prev' addr (g ∷ gs) brk pos h =
    let ne : (addr == 0) ≡ false = ground arith in
    let blk = record (mem addr) { prev = prev' } in
    let same : set_prev mem addr prev' ≡ update mem addr blk = rw ne refl in
    subst (λ m. Rebuilt mem m prev' addr (g ∷ gs) brk) (sym same)
      (
        (
          rw (eq→== addr addr refl, h.0) refl,
          Holds-update mem addr blk addr (after addr g) gs brk (omega arith) h.1,
        ),
        λ a lt. ground arith,
      )

-- A block in front of a part that changes.
pub Rebuilt-cons :
    (mem mem' : Headers) (g : Seg) (gs gs' : List Seg) (prev addr brk : ℕ)
    → first_of gs (after addr g) ≡ first_of gs' (after addr g)
    → Holds mem prev addr (g ∷ gs) brk
    → Rebuilt mem mem' addr (after addr g) gs' brk
    → Rebuilt mem mem' prev addr (g ∷ gs') brk
Rebuilt-cons mem mem' g gs gs' prev addr brk same h r = (
  (r.1 addr (omega arith) ∙ h.0 ∙ ap (λ x. block_of g x prev) same, r.0),
  λ a lt. r.1 a (omega arith),
)
