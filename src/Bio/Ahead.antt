-- ===== src/Bio/Ahead.antt =====
-- `breada` of kernel/fs/bio.c: a block, and the start of the transfer of another.
use unix_v.Common.{ℕ, true, none, some, ◌==◌, if◌then◌else◌}
use unix_v.Bio.{
  Cache, Got, got, and_then, buf_at, put, brelse, strategy, iowait, incore, getblk, bread,
}

-- `breada`: the read ahead of `rablkno`, which no caller gets
unfoldable pub read_ahead : ℕ → Cache → Cache
read_ahead i s =
    if (buf_at s i).done
    then brelse i s
    else strategy i (put s i (record (buf_at s i) { read = true; async = true }))

-- `breada`: the read ahead of `rablkno` (the index given is of no use), unless it is in the cache
unfoldable pub ahead : ℕ → ℕ → Cache → Got
ahead dev rablkno s = if rablkno == 0 then got 0 s else elim (incore dev rablkno s) [
  | some i ↦ got 0 s
  | none ↦ and_then (getblk dev rablkno s) λ i t. got 0 (read_ahead i t)
]

-- the transfer that `breada` starts and does not wait for
unfoldable pub start : ℕ → Cache → Cache
start i s =
    if (buf_at s i).done then s else strategy i (put s i (record (buf_at s i) { read = true }))

unfoldable pub breada : ℕ → ℕ → ℕ → Cache → Got
breada dev blkno rablkno s = elim (incore dev blkno s) [
  | some i ↦ and_then (ahead dev rablkno s) λ j t. bread dev blkno t
  | none ↦
      and_then (getblk dev blkno s)
        (λ i t. and_then (ahead dev rablkno (start i t)) λ j u. got i (iowait i u))
]
