-- ===== src/Bio/Flush.antt =====
-- The write of a dirty buffer in `getblk` and `bflush` of kernel/fs/bio.c.
use unix_v.Common.{
  ℕ, ◌<◌, ◌≡◌, refl, [], ◌∷◌, ◌++◌, arith, ◌==◌, if◌then◌else◌, length, true, false, leb,
  get_or-set, length-set, set, get_or, ◌∙◌, ap,
}
use unix_v.Bio.{
  Buf, Block, Cache, no_buf, buf_at, put, remove, notavail, bawrite, store, flush_one,
  ramdisk_blocks,
}
use unix_v.Bio.Lists.{count, count-append, count-remove}
use unix_v.Bio.Avail.{IsAvail}
use unix_v.Bio.Write.{written}
use unix_v.Bio.Bwrite.{bwrite-Wrote}
use unix_v.Bio.Coherent.{IsCoherent, Holds}

-- the dirty buffer `i` as it is written to make room
abbrev outgoing : Buf → Buf
outgoing b = record b { busy = true; async = true }

module _ (s : Cache) (i : ℕ) (h : i < length s.bufs) where
  pub record Flushed (t : Cache) : Type 0 where
    pub size : length t.bufs ≡ length s.bufs
    pub at_ :
        (j : ℕ)
        → buf_at t j ≡ (if i == j then written s.disk (outgoing (buf_at s i)) else buf_at s j)
    pub avail : t.avail ≡ remove i s.avail ++ (i ∷ [])
    pub chain : t.chain ≡ s.chain
    pub disk : t.disk ≡ (
        if leb ramdisk_blocks (buf_at s i).blkno
        then s.disk
        else store s.disk (buf_at s i).blkno (buf_at s i).contents)

  taken : Cache
  taken = put (notavail i s) i (record (buf_at (notavail i s) i) { async = true })

  taken-parts :
      (i < length taken.bufs)
      × (length taken.bufs ≡ length s.bufs)
      × ((j : ℕ) → buf_at taken j ≡ (if i == j then outgoing (buf_at s i) else buf_at s j))
      × (taken.avail ≡ remove i s.avail)
      × (taken.chain ≡ s.chain)
      × (taken.disk ≡ s.disk)
  unfolding taken notavail
  taken-parts =
      let b = record (buf_at s i) { busy = true } in
      let l = set s.bufs i b in
      let b' = record (get_or l i no_buf) { async = true } in
      let here = get_or-set s.bufs i i b no_buf h in
      let h' : i < length l = omega (arith, length-set s.bufs i b, h) in
      (
        omega (arith, length-set l i b', h'),
        length-set l i b' ∙ length-set s.bufs i b,
        λ j. ground (arith, here, get_or-set s.bufs i j b no_buf h, get_or-set l i j b' no_buf h'),
        refl,
        refl,
        refl,
      )

  pub flush_one-Flushed : Flushed (flush_one i s)
  unfolding bawrite taken
  flush_one-Flushed =
      let (inside, size, at_, avail, chain, disk) = taken-parts in
      let w = bwrite-Wrote taken i inside in
      record {
        size = w.size ∙ size;
        at_ = λ j. ground (arith, w.at_ j, at_ i, at_ j, disk);
        avail = w.avail ∙ ap (λ l. l ++ (i ∷ [])) avail;
        chain = w.chain ∙ chain;
        disk = ground (arith, w.disk, at_ i, disk);
      }

module _ (root : ℕ) (s : Cache) (v : IsCoherent root s) (i : ℕ) (h : i < length s.bufs)
    (free : (buf_at s i).busy ≡ false) (t : Cache) (w : Flushed s i h t) where
  flushed-IsAvail : IsAvail t
  flushed-IsAvail j = ground (
    arith,
    v.avail i,
    v.avail j,
    w.avail,
    w.at_ j,
    w.size,
    ap (count j) w.avail,
    count-append j (remove i s.avail) (i ∷ []),
    count-remove i j s.avail,
  )

  disk-at :
      (b : ℕ)
      → t.disk b ≡ (
          if leb ramdisk_blocks (buf_at s i).blkno
          then s.disk b
          else if b == (buf_at s i).blkno
          then (buf_at s i).contents
          else s.disk b)
  disk-at b = ap (λ f. f b) w.disk ∙ ground arith

  -- The write of a dirty buffer keeps the invariant.
  pub flushed-IsCoherent : (buf_at s i).delwri ≡ true → IsCoherent root t
  flushed-IsCoherent d = record {
    avail = flushed-IsAvail;
    real = v.real;
    chained = λ j lt e. ground (arith, w.at_ j, w.size, v.chained j, v.real, ap (count j) w.chain);
    unique = λ b j k (lj, ej, bj) (lk, ek, bk).
        v.unique b j k
          (
            omega (arith, lj, w.size),
            ground (arith, w.at_ j, v.real, ej),
            ground (arith, w.at_ j, bj),
          )
          (
            omega (arith, lk, w.size),
            ground (arith, w.at_ k, v.real, ek),
            ground (arith, w.at_ k, bk),
          );
    dirty = λ j e. ground (arith, w.at_ j, v.dirty j);
    own = λ j e. ground (arith, w.at_ j, v.own j);
    quiet = λ j e. ground (arith, w.at_ j, v.quiet j);
    clean = λ b j (lj, ej, bj) dn dl bz. ground (
      arith,
      disk-at b,
      w.at_ j,
      w.size,
      v.real,
      v.own i d,
      v.dirty i d,
      v.unique b i j,
      v.clean b j,
    );
  }

  -- The write of a dirty buffer keeps the content of every block of the disk.
  pub flushed-Holds :
      (buf_at s i).delwri ≡ true
      → (b : ℕ) (c : Block) → b < ramdisk_blocks
      → Holds root s b c
      → Holds root t b c
  flushed-Holds d b c lt a = record {
    cached = λ j (lj, ej, bj) dn. ground (arith, w.at_ j, v.real, v.dirty i d, w.size, a.cached j);
    on_disk = λ none. ground (
      arith,
      disk-at b,
      w.at_ i,
      w.size,
      v.own i d,
      v.dirty i d,
      none i,
      a.cached i,
      a.on_disk (λ j (lj, ej, bj). ground (
        arith,
        w.at_ j,
        w.size,
        none j (
          omega (arith, lj, w.size),
          ground (arith, w.at_ j, lt, ej, bj),
          ground (arith, w.at_ j, bj),
        ),
        v.dirty i d,
      )),
    );
  }
