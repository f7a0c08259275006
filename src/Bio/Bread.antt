-- ===== src/Bio/Bread.antt =====
-- `bread` and `bdwrite` of kernel/fs/bio.c.
use unix_v.Common.{
  ℕ, ◌<◌, ◌≡◌, refl, arith, ◌==◌, if◌then◌else◌, length, Bool, true, false, get_or-set, length-set,
  get_or, ◌∙◌, ap,
}
use unix_v.Bio.{
  Buf, Block, Cache, Got, got, asleep, panicked, out_of_fuel, no_buf, buf_at, put, ramdisk_blocks,
  strategy, iowait, fill, and_then, getblk, bread,
}
use unix_v.Bio.Lists.{count}
use unix_v.Bio.Write.{
  transferred, strategy-at, strategy-length, strategy-avail, strategy-disk, strategy-chain,
  iowait-parts,
}
use unix_v.Bio.Coherent.{IsCoherent, Caches, Holds}
use unix_v.Bio.Take.{Keeps, Keeps-trans}
use unix_v.Bio.Getblk.{Outcome, getblk-Outcome}

module _ (root : ℕ) (s : Cache) (i : ℕ) (h : i < length s.bufs) where
  -- the state before, after the transfer and after the wait
  asking : Cache
  asking = put s i (record (buf_at s i) { read = true })

  answered : Cache
  answered = strategy i asking

  read_in : Cache
  read_in = iowait i answered

  abbrev incoming : Buf → Buf
  incoming b = record (transferred s.disk (record b { read = true })) {
    done = true;
    wanted = false;
  }

  read_in-parts :
      (buf_at s i).async ≡ false
      → (length read_in.bufs ≡ length s.bufs)
        × ((j : ℕ) → buf_at read_in j ≡ (if i == j then incoming (buf_at s i) else buf_at s j))
        × (read_in.avail ≡ s.avail)
        × (read_in.chain ≡ s.chain)
        × (read_in.disk ≡ s.disk)
  unfolding read_in answered asking
  read_in-parts sync =
      let b = record (buf_at s i) { read = true } in
      let same = length-set s.bufs i b in
      let here = get_or-set s.bufs i i b no_buf h in
      let h' : i < length asking.bufs = omega (arith, same, h) in
      let h'' : i < length answered.bufs = omega (arith, strategy-length asking i h', h') in
      let at_ = strategy-at asking i h' in
      let (bufs, avail, chain, disk, w) =
        iowait-parts answered i h'' (ground (arith, at_ i, here, sync)) in
      (
        ap length bufs ∙ strategy-length asking i h' ∙ same,
        λ j.
            ap (λ l. get_or l j no_buf) bufs
            ∙ ground (arith, at_ j, here, get_or-set s.bufs i j b no_buf h, sync),
        avail ∙ ground (arith, strategy-avail asking i h', here, sync),
        chain ∙ strategy-chain asking i h',
        disk ∙ ground (arith, strategy-disk asking i h', here),
      )

  -- A block whose buffer is not done holds what is on the disk.
  from_disk :
      IsCoherent root s
      → (buf_at s i).done ≡ false
      → (b : ℕ) (c : Block) → Holds root s b c
      → Caches root s b i
      → s.disk b ≡ c
  from_disk v d b c a here =
      a.on_disk λ k there. ap (λ j. (buf_at s j).done) (v.unique b k i there here) ∙ d

  -- The transfer of a busy buffer that is not done changes no block.
  read_in-Keeps :
      IsCoherent root s
      → (buf_at s i).async ≡ false
      → (buf_at s i).busy ≡ true
      → (buf_at s i).done ≡ false
      → Keeps root s read_in
  read_in-Keeps v sync taken d =
      let (size, at_, avail, chain, disk) = read_in-parts sync in
      record {
        coherent = record {
          avail = λ j. ground (arith, v.avail j, at_ j, size, ap (count j) avail, taken);
          real = v.real;
          chained = λ j lt e. ground (arith, at_ j, size, v.chained j, ap (count j) chain);
          unique =
              λ n j k (lj, ej, bj) (lk, ek, bk). ground (arith, at_ j, at_ k, size, v.unique n j k);
          dirty = λ j e. ground (arith, at_ j, v.dirty j);
          own = λ j e. ground (arith, at_ j, v.own j);
          quiet = λ j e. ground (arith, at_ j, v.quiet j, taken);
          clean = λ n j (lj, ej, bj) dn dl bz.
              ground (arith, at_ j, size, v.clean n j, ap (λ f. f n) disk, taken);
        };
        holds = λ n c lt a. record {
          cached =
              λ j (lj, ej, bj) dn. ground (arith, at_ j, size, a.cached j, from_disk v d n c a);
          on_disk = λ idle.
              ap (λ f. f n) disk
              ∙ a.on_disk λ j (lj, ej, bj). ground (arith, at_ j, size, idle j, d);
        };
      }

  -- what `t` is to `s`, with the buffer of block `b`
  abbrev Filled : ℕ → Cache → Type 0
  Filled b t =
      Keeps root s t
      × Caches root t b i
      × ((buf_at t i).busy ≡ true)
      × ((c : Block) → b < ramdisk_blocks → Holds root s b c → (buf_at t i).contents ≡ c)

  either-Filled :
      (b : ℕ) (d : Bool)
      → (buf_at s i).done ≡ d
      → IsCoherent root s
      → (buf_at s i).async ≡ false
      → (buf_at s i).busy ≡ true
      → Caches root s b i
      → Filled b (if d then s else read_in)
  either-Filled b true d v sync taken here =
      (record { coherent = v; holds = λ n c lt a. a }, here, taken, λ c lt a. a.cached i here d)
  either-Filled b false d v sync taken here =
      let (size, at_, avail, chain, disk) = read_in-parts sync in
      (
        read_in-Keeps v sync taken d,
        (omega (arith, size, h), ground (arith, at_ i, here), ground (arith, at_ i, here)),
        ground (arith, at_ i, taken),
        λ c lt a. ground (arith, at_ i, here, lt) ∙ from_disk v d b c a here,
      )

  -- `fill` changes no block either, and its buffer has what the block holds.
  pub fill-Filled :
      (b : ℕ)
      → IsCoherent root s
      → (buf_at s i).async ≡ false
      → (buf_at s i).busy ≡ true
      → Caches root s b i
      → Filled b (fill i s)
  unfolding fill read_in answered asking
  fill-Filled b = either-Filled b (buf_at s i).done refl

module _ (root blkno : ℕ) where
  -- What `bread` comes to: a busy buffer of the block that has the content which the block holds,
  -- or a sleep in `getblk`.
  abbrev pub Reads : Cache → Got → Type 0
  Reads s (got i t) =
      Keeps root s t
      × Caches root t blkno i
      × ((buf_at t i).busy ≡ true)
      × ((c : Block) → blkno < ramdisk_blocks → Holds root s blkno c → (buf_at t i).contents ≡ c)
  Reads s (asleep t) = Keeps root s t
  Reads s panicked = ⊥
  Reads s out_of_fuel = ⊥

  filled :
      (s : Cache) (g : Got) → Outcome root blkno s g → Reads s (and_then g λ i t. got i (fill i t))
  filled s (got i t) o =
      let (k, here, busy, gives) =
        fill-Filled root t i o.caches.0 blkno o.keeps.coherent o.sync o.taken o.caches in
      (
        Keeps-trans root s t (fill i t) o.keeps k,
        here,
        busy,
        λ c lt a. gives c lt (o.keeps.holds blkno c lt a),
      )
  filled s (asleep t) o = o
  filled s panicked o = o
  filled s out_of_fuel o = o

  -- On a coherent cache of the device `root`, `bread` of a block comes to a buffer or a sleep. The
  -- buffer is busy, is the block's, and its content is what the block holds, where the block is on
  -- the disk. Either way the cache stays coherent and every block of the disk holds what it held.
  pub bread-Reads : (s : Cache) → IsCoherent root s → root < 256 → Reads s (bread root blkno s)
  unfolding bread
  bread-Reads s v small = filled s (getblk root blkno s) (getblk-Outcome root blkno s v small)
