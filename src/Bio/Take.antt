-- ===== src/Bio/Take.antt =====
-- The search for a buffer in `getblk` of kernel/fs/bio.c, and the buffer that it takes for a block.
use unix_v.Common.{
  ℕ, ◌<◌, ◌≡◌, ◌≢◌, refl, List, [], ◌∷◌, arith, ◌==◌, if◌then◌else◌, length, true, false, ◌&&◌,
  get_or-set, length-set, Bool-cases, inl, inr, ◌∙◌, ap, none, some,
}
use unix_v.Bio.{
  Block, Cache, no_buf, buf_at, remove, notavail, ramdisk_blocks, reassign, renamed, find,
}
use unix_v.Bio.Lists.{count, count-remove}
use unix_v.Bio.Avail.{IsAvail, notavail-IsAvail, put-IsAvail}
use unix_v.Bio.Coherent.{IsCoherent, Caches, Holds}

-- What `t` keeps of `s`: the invariant, and what each block of the disk holds.
pub record Keeps (root : ℕ) (s t : Cache) : Type 0 where
  pub coherent : IsCoherent root t
  pub holds : (b : ℕ) (c : Block) → b < ramdisk_blocks → Holds root s b c → Holds root t b c

pub Keeps-trans : (root : ℕ) (s t u : Cache) → Keeps root s t → Keeps root t u → Keeps root s u
Keeps-trans root s t u f g = record {
  coherent = g.coherent;
  holds = λ b c lt h. g.holds b c lt (f.holds b c lt h);
}

-- The search of a device's list finds a buffer with the block, if one is on the list.
pub find-some :
    (dev blkno : ℕ) (s : Cache) (l : List ℕ) (i : ℕ)
    → find dev blkno s l ≡ some i
    → ((buf_at s i).dev ≡ dev) × ((buf_at s i).blkno ≡ blkno) × (0 < count i l)
unfolding find
find-some dev blkno s [] i e = ground (arith, e)
find-some dev blkno s (j ∷ l) i e =
    let rest = find-some dev blkno s l i in
    (ground (arith, e, rest), ground (arith, e, rest), ground (arith, e, rest))

pub find-none :
    (dev blkno : ℕ) (s : Cache) (l : List ℕ) (i : ℕ)
    → find dev blkno s l ≡ none
    → 0 < count i l
    → (buf_at s i).dev ≡ dev
    → (buf_at s i).blkno ≢ blkno
unfolding find
find-none dev blkno s [] i e lt d b = ground (arith, lt)
find-none dev blkno s (j ∷ l) i e lt d b = ground (arith, e, lt, d, b, find-none dev blkno s l i)

module _ (root : ℕ) (s : Cache) (v : IsCoherent root s) (i : ℕ) (h : i < length s.bufs)
    (free : (buf_at s i).busy ≡ false) where
  pub at_taken :
      (j : ℕ)
      → buf_at (notavail i s) j
        ≡ (if i == j then record (buf_at s i) { busy = true } else buf_at s j)
  unfolding notavail
  at_taken j = get_or-set s.bufs i j (record (buf_at s i) { busy = true }) no_buf h

  pub size-taken : length (notavail i s).bufs ≡ length s.bufs
  unfolding notavail
  size-taken = length-set s.bufs i (record (buf_at s i) { busy = true })

  same-taken : ((notavail i s).chain ≡ s.chain) × ((notavail i s).disk ≡ s.disk)
  unfolding notavail
  same-taken = (refl, refl)

  -- A buffer that is taken off the available list changes no block.
  pub notavail-Keeps : Keeps root s (notavail i s)
  notavail-Keeps = record {
    coherent = record {
      avail = notavail-IsAvail s v.avail i h free;
      real = v.real;
      chained =
          λ j lt e. ground (arith, at_taken j, size-taken, v.chained j, ap (count j) same-taken.0);
      unique = λ b j k (lj, ej, bj) (lk, ek, bk).
          ground (arith, at_taken j, at_taken k, size-taken, v.unique b j k);
      dirty = λ j e. ground (arith, at_taken j, v.dirty j);
      own = λ j e. ground (arith, at_taken j, v.own j);
      quiet = λ j e. ground (arith, at_taken j, v.quiet j);
      clean = λ b j (lj, ej, bj) dn dl bz.
          ground (arith, at_taken j, size-taken, v.clean b j, ap (λ f. f b) same-taken.1);
    };
    holds = λ b c lt a. record {
      cached = λ j (lj, ej, bj) dn. ground (arith, at_taken j, size-taken, a.cached j);
      on_disk = λ none.
          ap (λ f. f b) same-taken.1
          ∙ a.on_disk (λ j (lj, ej, bj). ground (arith, at_taken j, size-taken, none j));
    };
  }

  pub at_named :
      (blkno j : ℕ)
      → buf_at (reassign root blkno i (notavail i s)) j
        ≡ (if i == j then renamed root blkno (buf_at s i) else buf_at s j)
  unfolding reassign
  at_named blkno j =
      let b = renamed root blkno (buf_at (notavail i s) i) in
      ground (
        arith,
        at_taken i,
        at_taken j,
        get_or-set (notavail i s).bufs i j b no_buf (omega (arith, h, size-taken)),
      )

  pub size-named : (blkno : ℕ) → length (reassign root blkno i (notavail i s)).bufs ≡ length s.bufs
  unfolding reassign
  size-named blkno =
      length-set (notavail i s).bufs i (renamed root blkno (buf_at (notavail i s) i)) ∙ size-taken

  named-IsAvail : (blkno : ℕ) → IsAvail (reassign root blkno i (notavail i s))
  unfolding reassign
  named-IsAvail blkno =
      put-IsAvail (notavail i s) (notavail-IsAvail s v.avail i h free) i
        (omega (arith, h, size-taken)) (renamed root blkno (buf_at (notavail i s) i)) ground
        (arith, at_taken i)

  disk-named : (blkno : ℕ) → (reassign root blkno i (notavail i s)).disk ≡ s.disk
  unfolding reassign notavail
  disk-named blkno = refl

  chain-named : (blkno : ℕ) → (reassign root blkno i (notavail i s)).chain ≡ i ∷ remove i s.chain
  unfolding reassign notavail
  chain-named blkno = ground (arith, v.real)

  -- the disk holds what the buffer held, since the buffer is clean
  uncached :
      (blkno b : ℕ) (c : Block)
      → (buf_at s i).delwri ≡ false
      → Holds root s b c
      → ((j : ℕ)
          → Caches root (reassign root blkno i (notavail i s)) b j
          → (buf_at (reassign root blkno i (notavail i s)) j).done ≡ false)
      → s.disk b ≡ c
  uncached blkno b c d a idle =
      elim (Bool-cases ((buf_at s i).done && (buf_at s i).dev == root && (buf_at s i).blkno == b)) [
        | inl e ↦ ground (arith, e, v.clean b i, a.cached i)
        | inr e ↦
            a.on_disk
              λ j (lj, ej, bj). ground (arith, e, at_named blkno j, size-named blkno, idle j)
      ]

  -- A clean buffer that is taken for a block which no buffer has changes no block.
  pub reassign-Keeps :
      (blkno : ℕ)
      → (buf_at s i).delwri ≡ false
      → ((j : ℕ) → j < length s.bufs → (buf_at s j).dev ≡ root → (buf_at s j).blkno ≢ blkno)
      → Keeps root s (reassign root blkno i (notavail i s))
  reassign-Keeps blkno d fresh = record {
    coherent = record {
      avail = named-IsAvail blkno;
      real = v.real;
      chained = λ j lt e. ground (
        arith,
        at_named blkno j,
        size-named blkno,
        v.chained j,
        count-remove i j s.chain,
        ap (count j) (chain-named blkno),
      );
      unique = λ b j k (lj, ej, bj) (lk, ek, bk). ground (
        arith,
        at_named blkno j,
        at_named blkno k,
        size-named blkno,
        v.unique b j k,
        fresh j,
        fresh k,
      );
      dirty = λ j e. ground (arith, at_named blkno j, v.dirty j);
      own = λ j e. ground (arith, at_named blkno j, v.own j);
      quiet = λ j e. ground (arith, at_named blkno j, v.quiet j);
      clean = λ b j (lj, ej, bj) dn dl bz. ground (
        arith,
        at_named blkno j,
        size-named blkno,
        v.clean b j,
        ap (λ f. f b) (disk-named blkno),
      );
    };
    holds = λ b c lt a. record {
      cached = λ j (lj, ej, bj) dn. ground (arith, at_named blkno j, size-named blkno, a.cached j);
      on_disk = λ none. ap (λ f. f b) (disk-named blkno) ∙ uncached blkno b c d a none;
    };
  }
