-- ===== src/Bio/Update.antt =====
-- The calls of kernel/fs/bio.c that give back a changed buffer: `bdwrite` and `bwrite`.
use unix_v.Common.{
  ℕ, ◌<◌, ◌≡◌, ◌≢◌, refl, [], ◌∷◌, arith, ◌==◌, if◌then◌else◌, length, true, false, get_or-set,
  length-set, get_or, ◌∙◌, ap,
}
use unix_v.Bio.{Buf, Block, Cache, no_buf, buf_at, put, ramdisk_blocks, bdwrite, bwrite, released}
use unix_v.Bio.Lists.{count, count-append}
use unix_v.Bio.Avail.{IsAvail, put-IsAvail, brelse-IsAvail}
use unix_v.Bio.Write.{brelse-parts}
use unix_v.Bio.Bwrite.{bwrite-Wrote}
use unix_v.Bio.Coherent.{IsCoherent, Caches, Holds}

-- `t` is `s` but for block `b`, which now holds `c`.
pub record Updates (root b : ℕ) (c : Block) (s t : Cache) : Type 0 where
  pub coherent : IsCoherent root t
  pub here : Holds root t b c
  pub others :
      (n : ℕ) (d : Block) → n ≢ b → n < ramdisk_blocks → Holds root s n d → Holds root t n d

module _ (root b : ℕ) (s : Cache) (v : IsCoherent root s) (i : ℕ) (here : Caches root s b i)
    (taken : (buf_at s i).busy ≡ true) where
  abbrev delayed : Buf → Buf
  delayed c = record c { delwri = true; done = true }

  bdwrite-parts :
      (length (bdwrite i s).bufs ≡ length s.bufs)
      × ((j : ℕ)
          → buf_at (bdwrite i s) j
            ≡ (if i == j then released (delayed (buf_at s i)) else buf_at s j))
      × IsAvail (bdwrite i s)
      × ((bdwrite i s).chain ≡ s.chain)
      × ((bdwrite i s).disk ≡ s.disk)
  unfolding bdwrite
  bdwrite-parts =
      let c = delayed (buf_at s i) in
      let u = put s i c in
      let at_i = get_or-set s.bufs i i c no_buf here.0 in
      let h' : i < length u.bufs = omega (arith, here.0, length-set s.bufs i c) in
      let (bufs, avail, chain, disk) = brelse-parts u i h' in
      (
        ap length bufs ∙ length-set u.bufs i (released (buf_at u i)) ∙ length-set s.bufs i c,
        λ j.
            ap (λ l. get_or l j no_buf) bufs
            ∙ ground (
              arith,
              at_i,
              get_or-set s.bufs i j c no_buf here.0,
              get_or-set u.bufs i j (released (buf_at u i)) no_buf h',
            ),
        brelse-IsAvail u (put-IsAvail s v.avail i here.0 c refl) i h' (ground (arith, at_i, taken)),
        chain,
        disk,
      )

  -- `bdwrite` of the busy buffer of block `b` makes the block hold the content of the buffer, and
  -- no other block of the disk holds anything else than before, where the buffer has no error.
  pub bdwrite-Updates :
      (buf_at s i).error ≡ false → Updates root b (buf_at s i).contents s (bdwrite i s)
  bdwrite-Updates fine =
      let (size, at_, avail, chain, disk) = bdwrite-parts in
      record {
        coherent = record {
          avail = avail;
          real = v.real;
          chained = λ j lt e. ground (arith, at_ j, size, v.chained j, ap (count j) chain);
          unique =
              λ n j k (lj, ej, bj) (lk, ek, bk). ground (arith, at_ j, at_ k, size, v.unique n j k);
          dirty = λ j e. ground (arith, at_ j, v.dirty j);
          own = λ j e. ground (arith, at_ j, v.own j, here, fine);
          quiet = λ j e. ground (arith, at_ j, v.quiet j);
          clean = λ n j (lj, ej, bj) dn dl bz.
              ground (arith, at_ j, size, v.clean n j, ap (λ f. f n) disk);
        };
        here = record {
          cached = λ j (lj, ej, bj) dn. ground (arith, at_ j, size, v.unique b i j, here);
          on_disk = λ idle. ground (arith, idle i, at_ i, size, here, fine);
        };
        others = λ n c ne lt a. record {
          cached = λ j (lj, ej, bj) dn. ground (arith, at_ j, size, a.cached j, here);
          on_disk = λ idle.
              ap (λ f. f n) disk
              ∙ a.on_disk λ j (lj, ej, bj). ground (arith, at_ j, size, idle j, here);
        };
      }

  -- So does `bwrite`, for a block of the disk, whether it waits or not.
  pub bwrite-Updates : b < ramdisk_blocks → Updates root b (buf_at s i).contents s (bwrite i s)
  bwrite-Updates lt =
      let w = bwrite-Wrote s i here.0 in
      let disk : (n : ℕ)
          → (bwrite i s).disk n ≡ (if n == b then (buf_at s i).contents else s.disk n) =
        λ n. ap (λ f. f n) w.disk ∙ ground (arith, here, lt) in
      record {
        coherent = record {
          avail = λ j. ground (
            arith,
            v.avail i,
            v.avail j,
            ap (count j) w.avail,
            count-append j s.avail (i ∷ []),
            w.at_ j,
            w.size,
            here,
            taken,
          );
          real = v.real;
          chained =
              λ j l e. ground (arith, w.at_ j, w.size, v.chained j, ap (count j) w.chain, here, lt);
          unique = λ n j k (lj, ej, bj) (lk, ek, bk).
              ground (arith, w.at_ j, w.at_ k, w.size, v.unique n j k, here, lt);
          dirty = λ j e. ground (arith, w.at_ j, v.dirty j);
          own = λ j e. ground (arith, w.at_ j, v.own j);
          quiet = λ j e. ground (arith, w.at_ j, v.quiet j);
          clean = λ n j (lj, ej, bj) dn dl bz.
              ground (arith, w.at_ j, w.size, v.clean n j, v.unique b i j, disk n, here, lt);
        };
        here = record {
          cached = λ j (lj, ej, bj) dn. ground (arith, w.at_ j, w.size, v.unique b i j, here);
          on_disk = λ idle. ground (arith, disk b);
        };
        others = λ n c ne l a. record {
          cached = λ j (lj, ej, bj) dn. ground (arith, w.at_ j, w.size, a.cached j, here, lt);
          on_disk = λ idle. ground (
            arith,
            disk n,
            a.on_disk λ j (lj, ej, bj). ground (arith, w.at_ j, w.size, idle j, here, lt),
          );
        };
      }
