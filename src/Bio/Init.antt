-- ===== src/Bio/Init.antt =====
-- `binit` of kernel/fs/bio.c.
use unix_v.Common.{
  ℕ, zero, suc, ◌+◌, ◌≤◌, ◌<◌, ◌≡◌, ◌≢◌, refl, [], ◌∷◌, arith, if◌then◌else◌, length, false, ltb,
  get_or-set, get_or-past, length-set, get_or, ◌∙◌, ap,
}
use unix_v.Bio.{
  Buf, Block, Cache, no_buf, nodev, buf_at, put, brelse, released, unassigned, init_from, binit,
}
use unix_v.Bio.Lists.{count, count-append}
use unix_v.Bio.Write.{brelse-parts}
use unix_v.Bio.Coherent.{IsCoherent, Caches, Holds}

abbrev IsIdle : Buf → Type 0
IsIdle b = (b.busy ≡ false) × (b.async ≡ false) × (b.delwri ≡ false) × (b.dev ≡ nodev)

-- the buffers below `i` are set up and available
record Started (was : ℕ → Block) (n i : ℕ) (s : Cache) : Type 0 where
  size : length s.bufs ≡ n
  idle : (j : ℕ) → j < i → IsIdle (buf_at s j)
  avail : (j : ℕ) → count j s.avail ≡ (if ltb j i then 1 else 0)
  chain : s.chain ≡ []
  disk : s.disk ≡ was

step-Started :
    (was : ℕ → Block) (n i : ℕ) (s : Cache)
    → i < n
    → Started was n i s
    → Started was n (suc i) (brelse i (put s i (unassigned (buf_at s i))))
step-Started was n i s lt v =
    let b = unassigned (buf_at s i) in
    let u = put s i b in
    let h : i < length s.bufs = omega (arith, v.size, lt) in
    let h' : i < length u.bufs = omega (arith, length-set s.bufs i b, h) in
    let (bufs, avail, chain, d) = brelse-parts u i h' in
    record {
      size =
          ap length bufs
          ∙ length-set u.bufs i (released (buf_at u i))
          ∙ length-set s.bufs i b
          ∙ v.size;
      idle = λ j l.
          let at_j = ap (λ r. get_or r j no_buf) bufs in
          ground (
            arith,
            at_j,
            v.idle j,
            get_or-set s.bufs i i b no_buf h,
            get_or-set s.bufs i j b no_buf h,
            get_or-set u.bufs i j (released (buf_at u i)) no_buf h',
          );
      avail = λ j. ground (arith, ap (count j) avail, count-append j s.avail (i ∷ []), v.avail j);
      chain = chain ∙ v.chain;
      disk = d ∙ v.disk;
    }

init_from-Started :
    (was : ℕ → Block) (m n left i : ℕ) (s : Cache)
    → left + i ≡ n
    → n ≤ m
    → Started was m i s
    → Started was m n (init_from left i s)
unfolding init_from
init_from-Started was m n zero i s e lt v = let e' : n ≡ i = omega (arith, e) in rw e' v
init_from-Started was m n (suc left) i s e lt v =
    init_from-Started was m n left (suc i) (brelse i (put s i (unassigned (buf_at s i))))
      (omega (arith, e)) lt (step-Started was m i s (omega (arith, e, lt)) v)

-- After `binit` the cache is coherent, for any device but `NODEV`, and every block holds what is on
-- the disk.
pub binit-IsCoherent :
    (root : ℕ) (s : Cache)
    → root ≢ nodev
    → IsCoherent root (binit s) × ((b : ℕ) → Holds root (binit s) b (s.disk b))
unfolding binit
binit-IsCoherent root s ne =
    let s' = record s { avail = []; free_wanted = false; chain = [] } in
    let n = length s.bufs in
    let v = init_from-Started s.disk n n n 0 s' (omega arith) (omega arith) record {
      size = refl;
      idle = λ j lt. ground (arith, lt);
      avail = λ j. ground arith;
      chain = refl;
      disk = refl;
    } in
    let t = binit s in
    let none_cached : (b i : ℕ) → ¬ Caches root t b i =
      λ b i (l, d, e). ground (arith, v.idle i, v.size, ne) in
    (
      record {
        avail = λ j. ground (arith, v.avail j, v.idle j, v.size);
        real = ne;
        chained = λ i lt e. ground (arith, v.idle i, v.size, ne);
        unique = λ b i j p q. elim (none_cached b i p) [ ];
        dirty = λ i e. ground (arith, v.idle i, v.size, get_or-past t.bufs i no_buf);
        own = λ i e. ground (arith, v.idle i, v.size, get_or-past t.bufs i no_buf);
        quiet = λ i e. ground (arith, v.idle i, v.size, get_or-past t.bufs i no_buf);
        clean = λ b i p dn dl bz. elim (none_cached b i p) [ ];
      },
      λ b. record {
        cached = λ i p dn. elim (none_cached b i p) [ ];
        on_disk = λ idle. ap (λ f. f b) v.disk;
      },
    )
