-- ===== src/Bio/Flushing.antt =====
-- `bflush` of kernel/fs/bio.c.
use unix_v.Common.{
  ℕ, zero, suc, true, ◌&&◌, ◌||◌, Option, none, some, List, [], ◌∷◌, ◌==◌, if◌then◌else◌, length,
}
use unix_v.Bio.{Cache, buf_at, put, nodev, notavail, bwrite}

-- `bflush`: every dirty buffer of the available list that belongs to `dev` is written, and the
-- search begins again. Fuel as for `getblk`.
unfoldable pub first_dirty : ℕ → Cache → List ℕ → Option ℕ
first_dirty dev s [] = none
first_dirty dev s (i ∷ l) =
    let rest = first_dirty dev s l in
    if (buf_at s i).delwri && (dev == nodev || (buf_at s i).dev == dev) then some i else rest

unfoldable pub bflush_loop : ℕ → ℕ → Cache → Option Cache
bflush_loop zero dev s = none
bflush_loop (suc n) dev s = elim (first_dirty dev s s.avail) [
  | none ↦ some s
  | some i ↦
      bflush_loop n dev (bwrite i (notavail i (put s i (record (buf_at s i) { async = true }))))
]

unfoldable pub bflush : ℕ → Cache → Option Cache
bflush dev s = bflush_loop (suc (length s.avail)) dev s
