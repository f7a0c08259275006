-- ===== src/Bio/Write.antt =====
-- A transfer and the release of a buffer, of kernel/fs/bio.c: `brelse`, `iodone`, `bwrite`.
use unix_v.Common.{
  ℕ, ◌<◌, ◌≡◌, refl, [], ◌∷◌, ◌++◌, arith, ◌==◌, if◌then◌else◌, length, true, false, ◌||◌, leb,
  get_or-set, length-set, set,
}
use unix_v.Bio.{
  Buf, Block, Cache, no_buf, buf_at, put, released, brelse, iodone, geterror, strategy,
  ramdisk_blocks, enxio, iowait, to_write, store,
}
use unix_v.Bio.Avail.{wake_waiters-same}

-- the buffer after `iodone`
abbrev pub completed : Buf → Buf
completed b =
    if b.async
    then released (record b { done = true })
    else record b { done = true; wanted = false }

module _ (s : Cache) (i : ℕ) (h : i < length s.bufs) where
  pub iodone-at :
      (j : ℕ) → buf_at (iodone i s) j ≡ (if i == j then completed (buf_at s i) else buf_at s j)
  unfolding iodone brelse
  iodone-at j =
      let b = record (buf_at s i) { done = true } in
      let t = put s i b in
      ground (
        arith,
        get_or-set s.bufs i j b no_buf h,
        get_or-set s.bufs i i b no_buf h,
        length-set s.bufs i b,
        get_or-set t.bufs i j (released b) no_buf,
        get_or-set s.bufs i j (record b { wanted = false }) no_buf h,
      )

  pub iodone-length : length (iodone i s).bufs ≡ length s.bufs
  unfolding iodone brelse
  iodone-length =
      let b = record (buf_at s i) { done = true } in
      ground (
        arith,
        length-set s.bufs i b,
        length-set (put s i b).bufs i (released (buf_at (put s i b) i)),
        length-set s.bufs i (record b { wanted = false }),
      )

  pub iodone-avail :
      (iodone i s).avail ≡ (if (buf_at s i).async then s.avail ++ (i ∷ []) else s.avail)
  unfolding iodone brelse
  iodone-avail = ground arith

  pub iodone-disk : (iodone i s).disk ≡ s.disk
  unfolding iodone brelse
  iodone-disk =
      let b = record (buf_at s i) { done = true } in ground (arith, wake_waiters-same i (put s i b))

  pub iodone-chain : (iodone i s).chain ≡ s.chain
  unfolding iodone brelse
  iodone-chain =
      let b = record (buf_at s i) { done = true } in ground (arith, wake_waiters-same i (put s i b))

-- the buffer as the transfer itself leaves it
abbrev pub transferred : (ℕ → Block) → Buf → Buf
transferred disk b =
    if leb ramdisk_blocks b.blkno
    then record b { error = true; errno = enxio }
    else if b.read
    then record b { contents = disk b.blkno }
    else b

module _ (s : Cache) (i : ℕ) (h : i < length s.bufs) where
  pub strategy-at :
      (j : ℕ)
      → buf_at (strategy i s) j
        ≡ (if i == j then completed (transferred s.disk (buf_at s i)) else buf_at s j)
  unfolding strategy
  strategy-at j =
      let b = buf_at s i in
      let bad = record b { error = true; errno = enxio } in
      let full = record b { contents = s.disk b.blkno } in
      let wrote = record s { disk = store s.disk b.blkno b.contents } in
      ground (
        arith,
        get_or-set s.bufs i j bad no_buf h,
        get_or-set s.bufs i i bad no_buf h,
        get_or-set s.bufs i j full no_buf h,
        get_or-set s.bufs i i full no_buf h,
        length-set s.bufs i bad,
        length-set s.bufs i full,
        iodone-at (put s i bad) i (omega (arith, length-set s.bufs i bad, h)) j,
        iodone-at (put s i full) i (omega (arith, length-set s.bufs i full, h)) j,
        iodone-at wrote i h j,
      )

  pub strategy-length : length (strategy i s).bufs ≡ length s.bufs
  unfolding strategy
  strategy-length =
      let b = buf_at s i in
      let bad = record b { error = true; errno = enxio } in
      let full = record b { contents = s.disk b.blkno } in
      let wrote = record s { disk = store s.disk b.blkno b.contents } in
      ground (
        arith,
        length-set s.bufs i bad,
        length-set s.bufs i full,
        iodone-length (put s i bad) i (omega (arith, length-set s.bufs i bad, h)),
        iodone-length (put s i full) i (omega (arith, length-set s.bufs i full, h)),
        iodone-length wrote i h,
      )

  pub strategy-avail :
      (strategy i s).avail ≡ (if (buf_at s i).async then s.avail ++ (i ∷ []) else s.avail)
  unfolding strategy
  strategy-avail =
      let b = buf_at s i in
      let bad = record b { error = true; errno = enxio } in
      let full = record b { contents = s.disk b.blkno } in
      let wrote = record s { disk = store s.disk b.blkno b.contents } in
      ground (
        arith,
        get_or-set s.bufs i i bad no_buf h,
        get_or-set s.bufs i i full no_buf h,
        length-set s.bufs i bad,
        length-set s.bufs i full,
        iodone-avail (put s i bad) i (omega (arith, length-set s.bufs i bad, h)),
        iodone-avail (put s i full) i (omega (arith, length-set s.bufs i full, h)),
        iodone-avail wrote i h,
      )

  -- A write stores the data of the buffer on the disk, a read nothing.
  pub strategy-disk : (strategy i s).disk ≡ (
      let b = buf_at s i in
      if leb ramdisk_blocks b.blkno || b.read then s.disk else store s.disk b.blkno b.contents)
  unfolding strategy
  strategy-disk =
      let b = buf_at s i in
      let bad = record b { error = true; errno = enxio } in
      let full = record b { contents = s.disk b.blkno } in
      let wrote = record s { disk = store s.disk b.blkno b.contents } in
      ground (
        arith,
        length-set s.bufs i bad,
        length-set s.bufs i full,
        iodone-disk (put s i bad) i (omega (arith, length-set s.bufs i bad, h)),
        iodone-disk (put s i full) i (omega (arith, length-set s.bufs i full, h)),
        iodone-disk wrote i h,
      )

  pub strategy-chain : (strategy i s).chain ≡ s.chain
  unfolding strategy
  strategy-chain =
      let b = buf_at s i in
      let bad = record b { error = true; errno = enxio } in
      let full = record b { contents = s.disk b.blkno } in
      let wrote = record s { disk = store s.disk b.blkno b.contents } in
      ground (
        arith,
        length-set s.bufs i bad,
        length-set s.bufs i full,
        iodone-chain (put s i bad) i (omega (arith, length-set s.bufs i bad, h)),
        iodone-chain (put s i full) i (omega (arith, length-set s.bufs i full, h)),
        iodone-chain wrote i h,
      )

-- the buffer as `bwrite` leaves it
abbrev pub written : (ℕ → Block) → Buf → Buf
written disk b =
    let c = completed (transferred disk (to_write b)) in if b.async then c else released c

pub geterror-same :
    (i : ℕ) (s : Cache)
    → ((geterror i s).bufs ≡ s.bufs)
      × ((geterror i s).avail ≡ s.avail)
      × ((geterror i s).chain ≡ s.chain)
      × ((geterror i s).disk ≡ s.disk)
unfolding geterror
geterror-same i s = (ground arith, ground arith, ground arith, ground arith)

module _ (s : Cache) (i : ℕ) (h : i < length s.bufs) where
  -- `brelse`, with the calls of `wakeup` out of sight
  pub brelse-parts :
      ((brelse i s).bufs ≡ set s.bufs i (released (buf_at s i)))
      × ((brelse i s).avail ≡ s.avail ++ (i ∷ []))
      × ((brelse i s).chain ≡ s.chain)
      × ((brelse i s).disk ≡ s.disk)
  unfolding brelse
  brelse-parts = (refl, refl, (wake_waiters-same i s).2, (wake_waiters-same i s).3)

  -- `iowait` of a buffer that is done changes no buffer.
  pub iowait-parts :
      (buf_at s i).done ≡ true
      → ((iowait i s).bufs ≡ s.bufs)
        × ((iowait i s).avail ≡ s.avail)
        × ((iowait i s).chain ≡ s.chain)
        × ((iowait i s).disk ≡ s.disk)
        × ((iowait i s).waiting ≡ s.waiting)
  unfolding iowait geterror
  iowait-parts d =
      rw (d, iowait) (ground arith, ground arith, ground arith, ground arith, ground arith)
