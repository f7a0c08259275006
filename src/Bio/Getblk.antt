-- ===== src/Bio/Getblk.antt =====
-- `getblk` of kernel/fs/bio.c.
use unix_v.Common.{
  ℕ, zero, suc, ◌+◌, ◌/◌, ◌%◌, ◌≤◌, ◌<◌, ◌≡◌, ◌≢◌, refl, List, [], ◌∷◌, ◌++◌, arith, ◌==◌,
  if◌then◌else◌, length, true, false, not, ◌&&◌, leb, get_or-set, length-set, set, get_or,
  Bool-cases, inl, inr, ◌∙◌, ap, none, some,
}
use unix_v.Bio.{
  Cache, Got, got, asleep, panicked, out_of_fuel, no_buf, nodev, buf_at, remove, notavail,
  flush_one, reassign, take_found, getblk_loop, getblk, held, sleep, want, of_free,
}
use unix_v.Common.{Option-cases, get_or-past, get_or}
use unix_v.Bio.Lists.{count}
use unix_v.Bio.Avail.{put-IsAvail}
use unix_v.Bio.Coherent.{IsCoherent, Caches}
use unix_v.Bio.Flush.{Flushed, flush_one-Flushed, flushed-IsCoherent, flushed-Holds}
use unix_v.Bio.Take.{
  Keeps, Keeps-trans, find-some, find-none, at_taken, size-taken, notavail-Keeps, at_named,
  size-named, reassign-Keeps,
}

module _ (root blkno : ℕ) where
  -- What the state and the buffer that `getblk` gives are: for a buffer, the block's, which is busy.
  pub record Gave (s : Cache) (i : ℕ) (t : Cache) : Type 0 where
    pub keeps : Keeps root s t
    pub caches : Caches root t blkno i
    pub taken : (buf_at t i).busy ≡ true
    pub sync : (buf_at t i).async ≡ false

  -- the first of the available buffers is one, is free and is on the list once
  first-free :
      (s : Cache)
      → IsCoherent root s
      → (i : ℕ) (l : List ℕ) → s.avail ≡ i ∷ l
      → (i < length s.bufs) × ((buf_at s i).busy ≡ false) × (count i l ≡ 0)
  first-free s v i l e =
      let n = v.avail i in
      let m = ap (count i) e in (ground (arith, n, m), ground (arith, n, m), ground (arith, n, m))

  -- the dirty buffers of a list
  abbrev dirties : Cache → List ℕ → ℕ
  dirties s [] = 0
  dirties s (i ∷ l) = (if (buf_at s i).delwri then 1 else 0) + dirties s l

  -- What `getblk` comes to is a buffer or a sleep; it neither panics nor runs out of fuel.
  abbrev pub Outcome : Cache → Got → Type 0
  Outcome s (got i t) = Gave s i t
  Outcome s (asleep t) = Keeps root s t
  Outcome s panicked = ⊥
  Outcome s out_of_fuel = ⊥

  Outcome-from : (s t : Cache) (g : Got) → Keeps root s t → Outcome t g → Outcome s g
  Outcome-from s t (got i u) k o = record {
    keeps = Keeps-trans root s t u k o.keeps;
    caches = o.caches;
    taken = o.taken;
    sync = o.sync;
  }
  Outcome-from s t (asleep u) k o = Keeps-trans root s t u k o
  Outcome-from s t panicked k o = o
  Outcome-from s t out_of_fuel k o = o

  held-some :
      (s : Cache) → IsCoherent root s → (i : ℕ) → held root blkno s ≡ some i → Caches root s blkno i
  unfolding held
  held-some s v i e =
      let (d, b, c) = find-some root blkno s s.chain i (ground (arith, e, v.real)) in
      (ground (arith, d, v.real, get_or-past s.bufs i no_buf), d, b)

  held-none :
      (s : Cache)
      → IsCoherent root s
      → held root blkno s ≡ none
      → (j : ℕ) → j < length s.bufs
      → (buf_at s j).dev ≡ root
      → (buf_at s j).blkno ≢ blkno
  unfolding held
  held-none s v e j lt d =
      find-none root blkno s s.chain j (ground (arith, e, v.real)) (v.chained j lt d) d

  wait-Keeps : (s : Cache) (i : ℕ) → IsCoherent root s → i < length s.bufs → Keeps root s (want i s)
  unfolding want
  wait-Keeps s i v h =
      let b = record (buf_at s i) { wanted = true } in
      let at_ : (j : ℕ) → get_or (set s.bufs i b) j no_buf ≡ (if i == j then b else buf_at s j) =
        λ j. get_or-set s.bufs i j b no_buf h in
      let size = length-set s.bufs i b in
      record {
        coherent = record {
          avail = put-IsAvail s v.avail i h b refl;
          real = v.real;
          chained = λ j lt e. ground (arith, at_ j, size, v.chained j);
          unique =
              λ n j k (lj, ej, bj) (lk, ek, bk). ground (arith, at_ j, at_ k, size, v.unique n j k);
          dirty = λ j e. ground (arith, at_ j, v.dirty j);
          own = λ j e. ground (arith, at_ j, v.own j);
          quiet = λ j e. ground (arith, at_ j, v.quiet j);
          clean = λ n j (lj, ej, bj) dn dl bz. ground (arith, at_ j, size, v.clean n j);
        };
        holds = λ n c lt a. record {
          cached = λ j (lj, ej, bj) dn. ground (arith, at_ j, size, a.cached j);
          on_disk = λ idle. a.on_disk λ j (lj, ej, bj). ground (arith, at_ j, size, idle j);
        };
      }

  wait_free-Keeps :
      (s : Cache)
      → IsCoherent root s
      → Keeps root s (sleep of_free (record s { free_wanted = true }))
  wait_free-Keeps s v = record {
    coherent = record {
      avail = v.avail;
      real = v.real;
      chained = v.chained;
      unique = v.unique;
      dirty = v.dirty;
      own = v.own;
      quiet = v.quiet;
      clean = v.clean;
    };
    holds = λ b c lt a. record { cached = a.cached; on_disk = a.on_disk };
  }

  found-Outcome :
      (s : Cache) (j : ℕ) → IsCoherent root s → Caches root s blkno j → Outcome s (take_found j s)
  unfolding take_found
  found-Outcome s j v so = elim (Bool-cases (buf_at s j).busy) [
    | inl b ↦ rw b (wait-Keeps s j v so.0)
    | inr b ↦
        let at_j = at_taken root s v j so.0 b j in
        rw b record {
          keeps = notavail-Keeps root s v j so.0 b;
          caches = (
            omega (arith, so.0, size-taken root s v j so.0 b),
            ground (arith, so, at_j),
            ground (arith, so, at_j),
          );
          taken = ground (arith, at_j);
          sync = ground (arith, at_j, v.quiet j b);
        }
  ]

  dirties-append : (s : Cache) (l r : List ℕ) → dirties s (l ++ r) ≡ dirties s l + dirties s r
  dirties-append s [] r = omega arith
  dirties-append s (i ∷ l) r = omega (arith, dirties-append s l r)

  dirties-same :
      (s t : Cache) (i : ℕ) (l : List ℕ)
      → ((j : ℕ) → i ≢ j → (buf_at t j).delwri ≡ (buf_at s j).delwri)
      → count i l ≡ 0
      → dirties t l ≡ dirties s l
  dirties-same s t i [] same none_left = refl
  dirties-same s t i (j ∷ l) same none_left =
      ground (arith, same j, none_left, dirties-same s t i l same)

  -- A dirty buffer that is written leaves one less.
  fewer :
      {n : ℕ} (s t : Cache) (i : ℕ) (l : List ℕ) (h : i < length s.bufs)
      → Flushed s i h t
      → (buf_at s i).delwri ≡ true
      → count i l ≡ 0
      → s.avail ≡ i ∷ l
      → dirties s s.avail ≤ n
      → dirties t t.avail < n
  unfolding remove
  fewer s t i l h w d once a fuel =
      let e = w.avail ∙ ap (λ r. remove i r ++ (i ∷ [])) a in
      ground (
        arith,
        ap (dirties t) e,
        ap (dirties s) a,
        dirties-append t l (i ∷ []),
        dirties-same s t i l (λ j ne. ground (arith, w.at_ j, ne)) once,
        w.at_ i,
      )

  first-Outcome :
      (n : ℕ) (s : Cache) (i : ℕ) (l : List ℕ)
      → IsCoherent root s
      → held root blkno s ≡ none
      → s.avail ≡ i ∷ l
      → dirties s s.avail ≤ n
      → ((t : Cache)
          → IsCoherent root t
          → dirties t t.avail < n
          → Outcome t (getblk_loop n root blkno t))
      → Outcome s (
          if (buf_at s i).delwri
          then getblk_loop n root blkno (flush_one i s)
          else got i (reassign root blkno i (notavail i s)))
  first-Outcome n s i l v e a fuel again =
      let (h, free, once) = first-free s v i l a in
      elim (Bool-cases (buf_at s i).delwri) [
        | inl d ↦
            let w = flush_one-Flushed s i h in
            let t = flush_one i s in
            let k = flushed-IsCoherent root s v i h free t w d in
            rw d (
              Outcome-from s t (getblk_loop n root blkno t)
                record { coherent = k; holds = flushed-Holds root s v i h free t w d }
                (again t k (fewer s t i l h w d once a fuel)))
        | inr d ↦
            let at_i = at_named root s v i h free blkno i in
            rw d record {
              keeps = reassign-Keeps root s v i h free blkno d (held-none s v e);
              caches = (
                omega (arith, h, size-named root s v i h free blkno),
                ground (arith, at_i),
                ground (arith, at_i),
              );
              taken = ground (arith, at_i);
              sync = ground (arith, at_i);
            }
      ]

  take_first :
      (n : ℕ) (s : Cache)
      → IsCoherent root s
      → held root blkno s ≡ none
      → dirties s s.avail ≤ n
      → ((t : Cache)
          → IsCoherent root t
          → dirties t t.avail < n
          → Outcome t (getblk_loop n root blkno t))
      → (r : List ℕ) → s.avail ≡ r
      → Outcome s elim r as (λ x. Got) [
        | [] ↦ asleep (sleep of_free (record s { free_wanted = true }))
        | i ∷ l ↦
            let again = getblk_loop n root blkno (flush_one i s) in
            if (buf_at s i).delwri then again else got i (reassign root blkno i (notavail i s))
      ]
  take_first n s v e fuel again [] a = wait_free-Keeps s v
  take_first n s v e fuel again (i ∷ l) a = first-Outcome n s i l v e a fuel again

  dirties_most : (s : Cache) (l : List ℕ) → dirties s l ≤ length l
  dirties_most s [] = omega arith
  dirties_most s (i ∷ l) = ground (arith, dirties_most s l)

  loop-Outcome :
      (n : ℕ) (s : Cache)
      → IsCoherent root s
      → dirties s s.avail < n
      → Outcome s (getblk_loop n root blkno s)
  unfolding getblk_loop
  loop-Outcome zero s v fuel = ground (arith, fuel)
  loop-Outcome (suc n) s v fuel = elim (Option-cases (held root blkno s)) [
    | inl e ↦
        rw (e, getblk_loop) (take_first n s v e (omega (arith, fuel)) (loop-Outcome n) s.avail refl)
    | inr (j, e) ↦ rw (e, getblk_loop) (found-Outcome s j v (held-some s v j e))
  ]

  -- On a coherent cache of the device, `getblk` gives the block's buffer, busy and not asynchronous,
  -- or sleeps; it does not panic and it ends. Either way the cache stays coherent and every block of
  -- the disk holds what it held.
  pub getblk-Outcome :
      (s : Cache) → IsCoherent root s → root < 256 → Outcome s (getblk root blkno s)
  unfolding getblk
  getblk-Outcome s v small =
      rw
        (let e : (not (root == nodev) && leb 1 (root / 256 % 256)) ≡ false =
            ground (arith, small) in
          e)
        (loop-Outcome (suc (length s.avail)) s v (omega (arith, dirties_most s s.avail)))
