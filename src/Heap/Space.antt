-- ===== src/Heap/Space.antt =====
-- `sbrk` of kernel/sys.c for the heap of a program, and how the heap lies in memory.
use unix_v.Common.{
  ℕ, ◌+◌, ◌-◌, ◌/◌, ◌^◌, ◌<◌, ◌≤◌, ◌≡◌, refl, ◌∙◌, ap, arith, Bool, true, false, if◌then◌else◌, leb,
  ltb, Option, none, some, List, [], ◌∷◌, if_false,
}
use unix_v.Heap.{
  Segments, Errno, enomem, estabur_fails, resize, text_end, break_of, sys_sbrk, returned, sbrk,
  HeapBlock, Heap,
}

-- The segments fit into memory, which has at most MAXMEM units.
unfoldable pub IsFitting : Segments → Type 0
IsFitting s = (s.tsize + s.dsize + s.ssize + 64 ≤ s.maxmem) × (s.maxmem ≤ 1048576)

-- the blocks lie between the addresses, one behind the other
unfoldable pub IsLaid : (from : ℕ) → List HeapBlock → (to : ℕ) → Type 0
IsLaid from [] to = from ≤ to
IsLaid from (b ∷ l) to = (from ≤ b.addr) × IsLaid (b.addr + 12 + b.size) l to

-- The blocks lie below the end of the data.
unfoldable pub IsHeap : Heap → Type 0
IsHeap h = IsFitting h.seg × IsLaid 0 h.blocks (break_of h.seg)

-- What sbrk of a number that is not negative may come to.
unfoldable pub SbrkOutcome : (incr : ℕ) → Segments → Option ℕ × Segments → Type 0
SbrkOutcome incr s (none, s') = (s' ≡ s) × (s.maxmem < (break_of s + incr + 63) / 64 + s.ssize + 64)
SbrkOutcome incr s (some old, s') =
    (old ≡ break_of s)
    × IsFitting s'
    × (s'.maxmem ≡ s.maxmem)
    × (s'.ssize ≡ s.ssize)
    × (break_of s + incr ≤ break_of s')
    × (break_of s' < break_of s + incr + 64)

-- sbrk of a number that is not negative, where the segments fit into memory: it gives the old end of
-- the data, and the new one lies so many bytes further on, rounded up to a unit of 64; the segments fit
-- again. Or it fails, only where the memory is too small, and then nothing has changed.
pub sbrk-SbrkOutcome :
    (incr : ℕ) (s : Segments) → incr < 2 ^ 31 → IsFitting s → SbrkOutcome incr s (sbrk incr s)
unfolding sys_sbrk resize SbrkOutcome IsFitting
sbrk-SbrkOutcome incr s small (fits, most) =
    let pos : leb (2 ^ 31) incr ≡ false = ground (arith, small) in
    let over : ltb (break_of s + incr) (text_end s) ≡ false = ground (arith, fits, most) in
    let units = (break_of s + incr + 63) / 64 in
    rw (pos, over) (by_fits (estabur_fails s.tsize (units - s.tsize) s) refl)
  where
    by_fits :
        (b : Bool)
        → estabur_fails s.tsize ((break_of s + incr + 63) / 64 - s.tsize) s ≡ b
        → SbrkOutcome incr s (
            returned (
              if b
                  then (some enomem, s)
                  else (none, record s { dsize = (break_of s + incr + 63) / 64 - s.tsize }),
              break_of s,
            ))
    by_fits true e = (refl, ground (arith, e, fits, most, small))
    by_fits false e = (
      refl,
      (ground (arith, e, fits, most, small), most),
      refl,
      refl,
      ground (arith, e, fits, most, small),
      ground (arith, e, fits, most, small),
    )

-- sbrk(0) only tells where the data end
pub sbrk-zero : (s : Segments) → IsFitting s → sbrk 0 s ≡ (some (break_of s), s)
unfolding sys_sbrk resize IsFitting
sbrk-zero s (fits, most) =
    let over : ltb (break_of s + 0) (text_end s) ≡ false = ground (arith, fits, most) in
    let same : (break_of s + 0 + 63) / 64 - s.tsize ≡ s.dsize = omega (arith, fits, most) in
    let no : estabur_fails s.tsize ((break_of s + 0 + 63) / 64 - s.tsize) s ≡ false =
      ground (arith, fits, most, same) in
    ap returned (
      ap (λ (r : Option Errno × Segments). (r, break_of s))
        (if_false _ _ _ over ∙ if_false _ _ _ no ∙ ap (λ d. (none, record s { dsize = d })) same))
