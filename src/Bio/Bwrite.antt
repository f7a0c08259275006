-- ===== src/Bio/Bwrite.antt =====
-- `bwrite` of kernel/fs/bio.c, awaited or not.
use unix_v.Common.{
  ℕ, ◌<◌, ◌≡◌, refl, [], ◌∷◌, ◌++◌, arith, ◌==◌, if◌then◌else◌, length, Bool, true, false, leb,
  get_or-set, length-set, get_or, ◌∙◌, ap,
}
use unix_v.Bio.{
  Cache, no_buf, buf_at, put, released, strategy, store, after_write, iowait, bwrite, to_write,
  ramdisk_blocks,
}
use unix_v.Bio.Write.{
  completed, transferred, written, strategy-at, strategy-length, strategy-avail, strategy-disk,
  strategy-chain, geterror-same, brelse-parts, iowait-parts,
}

-- `t` is `s` after the write of buffer `i`.
pub record Wrote (s : Cache) (i : ℕ) (t : Cache) : Type 0 where
  pub size : length t.bufs ≡ length s.bufs
  pub at_ : (j : ℕ) → buf_at t j ≡ (if i == j then written s.disk (buf_at s i) else buf_at s j)
  pub avail : t.avail ≡ s.avail ++ (i ∷ [])
  pub chain : t.chain ≡ s.chain
  pub disk : t.disk ≡ (
      if leb ramdisk_blocks (buf_at s i).blkno
      then s.disk
      else store s.disk (buf_at s i).blkno (buf_at s i).contents)

module _ (s : Cache) (i : ℕ) (h : i < length s.bufs) where
  -- the state in which `bwrite` calls the strategy routine, and the one that it returns
  begun : Cache
  begun = put s i (to_write (buf_at s i))

  moved : Cache
  moved = strategy i begun

  moved-parts :
      (i < length moved.bufs)
      × (length moved.bufs ≡ length s.bufs)
      × ((j : ℕ)
          → buf_at moved j ≡ (
              if i == j
              then completed (transferred s.disk (to_write (buf_at s i)))
              else buf_at s j))
      × (moved.avail ≡ (if (buf_at s i).async then s.avail ++ (i ∷ []) else s.avail))
      × (moved.chain ≡ s.chain)
      × (moved.disk ≡ (
          if leb ramdisk_blocks (buf_at s i).blkno
          then s.disk
          else store s.disk (buf_at s i).blkno (buf_at s i).contents))
  unfolding moved begun
  moved-parts =
      let b = to_write (buf_at s i) in
      let same = length-set s.bufs i b in
      let here = get_or-set s.bufs i i b no_buf h in
      let h' : i < length begun.bufs = omega (arith, same, h) in
      (
        omega (arith, strategy-length begun i h', same, h),
        strategy-length begun i h' ∙ same,
        λ j. ground (arith, strategy-at begun i h' j, here, get_or-set s.bufs i j b no_buf h),
        ground (arith, strategy-avail begun i h', here),
        strategy-chain begun i h',
        ground (arith, strategy-disk begun i h', here),
      )

  after_write-Wrote : (a d : Bool) → (buf_at s i).async ≡ a → Wrote s i (after_write a d i moved)
  unfolding after_write
  after_write-Wrote true true e =
      let (inside, size, at_, avail, chain, disk) = moved-parts in
      record {
        size = size;
        at_ = λ j. ground (arith, at_ j);
        avail = ground arith;
        chain = chain;
        disk = disk;
      }
  after_write-Wrote true false e =
      let (inside, size, at_, avail, chain, disk) = moved-parts in
      let (b, a, c, d) = geterror-same i moved in
      record {
        size = ap length b ∙ size;
        at_ = λ j. ap (λ l. get_or l j no_buf) b ∙ ground (arith, at_ j);
        avail = a ∙ ground arith;
        chain = c ∙ chain;
        disk = d ∙ disk;
      }
  after_write-Wrote false x e =
      let (inside, size, at_, avail, chain, disk) = moved-parts in
      let (b, a, c, d, w) = iowait-parts moved i inside (ground (arith, at_ i)) in
      let calm = iowait i moved in
      let in_calm : i < length calm.bufs = omega (arith, ap length b, inside) in
      let (b', a', c', d') = brelse-parts calm i in_calm in
      record {
        size =
            ap length b' ∙ length-set calm.bufs i (released (buf_at calm i)) ∙ ap length b ∙ size;
        at_ = λ j.
            ap (λ l. get_or l j no_buf) b'
            ∙ ground (
              arith,
              get_or-set calm.bufs i j (released (buf_at calm i)) no_buf in_calm,
              ap (λ l. get_or l i no_buf) b,
              ap (λ l. get_or l j no_buf) b,
              at_ i,
              at_ j,
            );
        avail = a' ∙ ground arith;
        chain = c' ∙ c ∙ chain;
        disk = d' ∙ d ∙ disk;
      }

  -- what `bwrite` does to the buffers and the lists
  pub bwrite-Wrote : Wrote s i (bwrite i s)
  unfolding bwrite moved begun
  bwrite-Wrote = after_write-Wrote (buf_at s i).async (buf_at s i).delwri refl
