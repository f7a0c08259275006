-- ===== src/Bio/Avail.antt =====
-- The available list of kernel/fs/bio.c and the flag B_BUSY: `notavail`, `brelse`.
use unix_v.Common.{
  ℕ, ◌<◌, ◌≡◌, [], ◌∷◌, arith, if◌then◌else◌, length, true, false, not, ◌&&◌, ltb, get_or-set,
  length-set,
}
use unix_v.Bio.{Buf, Cache, no_buf, buf_at, put, notavail, released, wake_waiters, brelse}
use unix_v.Bio.Lists.{count, count-append, count-remove}

abbrev pub places : Cache → ℕ → ℕ
places s i = if ltb i (length s.bufs) && not (buf_at s i).busy then 1 else 0

abbrev pub IsAvail : Cache → Type 0
IsAvail s = (i : ℕ) → count i s.avail ≡ places s i

pub wake_waiters-same :
    (i : ℕ) (s : Cache)
    → ((wake_waiters i s).bufs ≡ s.bufs)
      × ((wake_waiters i s).avail ≡ s.avail)
      × ((wake_waiters i s).chain ≡ s.chain)
      × ((wake_waiters i s).disk ≡ s.disk)
unfolding wake_waiters
wake_waiters-same i s = (ground arith, ground arith, ground arith, ground arith)

module _ (s : Cache) (v : IsAvail s) (i : ℕ) (h : i < length s.bufs) where
  -- `notavail` of an available buffer takes it off the list and makes it busy.
  pub notavail-IsAvail : (buf_at s i).busy ≡ false → IsAvail (notavail i s)
  unfolding notavail
  notavail-IsAvail free j =
      let b = record (buf_at s i) { busy = true } in
      ground (
        arith,
        v i,
        v j,
        count-remove i j s.avail,
        get_or-set s.bufs i j b no_buf h,
        length-set s.bufs i b,
      )

  -- `brelse` of a busy buffer puts it at the end of the list.
  pub brelse-IsAvail : (buf_at s i).busy ≡ true → IsAvail (brelse i s)
  unfolding brelse
  brelse-IsAvail taken j = ground (
    arith,
    v i,
    v j,
    count-append j s.avail (i ∷ []),
    get_or-set s.bufs i j (released (buf_at s i)) no_buf h,
    length-set s.bufs i (released (buf_at s i)),
  )

  -- A change of a buffer that leaves it busy or not keeps the invariant.
  pub put-IsAvail : (b : Buf) → b.busy ≡ (buf_at s i).busy → IsAvail (put s i b)
  put-IsAvail b same j =
      ground (arith, v j, get_or-set s.bufs i j b no_buf h, length-set s.bufs i b)
