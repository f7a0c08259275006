-- ===== src/Life/Spawn.antt =====
-- `newproc` of kernel/sched/slp.c and the core that processes own, which the waits of kernel/sys.c
-- give back.
use unix_v.Common.{
  ℕ, zero, suc, ◌+◌, ◌%◌, ◌^◌, ◌<◌, ◌≡◌, ◌≢◌, refl, ap, arith, Bool, true, false, not, ◌&&◌, ◌||◌,
  none, some, List, [], ◌∷◌, length, ◌==◌, if◌then◌else◌, get_or, get_or-set, inl, inr, Bool-cases,
  ◌⊎◌,
}
use unix_v.CoreMap.{CoreMap, malloc, mfree}
use unix_v.CoreMap.Cover.{within, covers, IsValid, IsFrom}
use unix_v.CoreMap.Malloc.{fits, malloc-covers, malloc_fails}
use unix_v.CoreMap.Mfree.{Apart, mfree-covers}
use unix_v.Proc.{Proc, srun, snull, no_proc, proc_at, is_snull}
use unix_v.Life.{
  System, at, put_proc, empty_slot, child_of, Spawned, spawned, not_spawned, spawn_at, newproc,
  buried, give_back, reap, eagain, enomem,
}

-- the process has the unit `x` of core
abbrev pub owns : Proc → ℕ → Bool
owns p x = not (is_snull p.stat) && within p.addr p.size x

-- No unit has two owners, or an owner while it is free.
unfoldable pub IsSeparate : System → Type 0
IsSeparate s =
    IsValid s.core
    × ((i x : ℕ) → owns (at s i) x ≡ true → covers s.core x ≡ false)
    × ((i j x : ℕ) → owns (at s i) x ≡ true → owns (at s j) x ≡ true → i ≡ j)

-- `newproc` in the state `s`: a child in the first empty slot, with the parent's size, in its own core;
-- or an error, which leaves the processes in use and the core map alone.
pub NewprocOutcome : System → Spawned → Type 0
unfolding IsSeparate
NewprocOutcome s (spawned i s') =
    (i < length s.table.proc)
    × (is_snull (at s i).stat ≡ true)
    × ((j : ℕ) → j < i → is_snull (at s j).stat ≡ false)
    × ((at s' i).stat ≡ srun)
    × ((at s' i).ppid ≡ (at s s.self).pid)
    × ((at s' i).pid ≡ (s.mpid + 1) % 2 ^ 16)
    × ((at s' i).size ≡ (at s s.self).size)
    × (0 < (at s' i).addr)
    × ((j : ℕ) → i ≢ j → at s' j ≡ at s j)
    × IsSeparate s'
NewprocOutcome s (not_spawned e s') =
    (((e ≡ eagain) × ((j : ℕ) → j < length s.table.proc → is_snull (at s j).stat ≡ false))
      ⊎ ((e ≡ enomem) × (fits s.core (at s s.self).size ≡ false)))
    × (s'.core ≡ s.core)
    × ((j : ℕ) → is_snull (at s j).stat ≡ false → at s' j ≡ at s j)
    × IsSeparate s'

-- the search finds the first empty slot, or there is none
empty_slot-finds :
    (i : ℕ) (l : List Proc)
    → ((empty_slot i l ≡ none)
        × ((j : ℕ) → j < length l → is_snull (get_or l j no_proc).stat ≡ false))
      ⊎ ((k : ℕ) × (empty_slot i l ≡ some (i + k))
          × (k < length l)
          × (is_snull (get_or l k no_proc).stat ≡ true)
          × ((j : ℕ) → j < k → is_snull (get_or l j no_proc).stat ≡ false))
unfolding empty_slot
empty_slot-finds i [] = inl (refl, λ j h. absurd (omega arith))
empty_slot-finds i (p ∷ l) = elim (Bool-cases (is_snull p.stat)) [
  | inl here ↦
      inr (0, rw here (ap some (omega arith)), omega arith, here, λ j b. absurd (omega arith))
  | inr used ↦ elim (empty_slot-finds (suc i) l) [
    | inl (e, all) ↦ inl (
      rw (used, e) refl,
      λ j h.
          elim j as (λ j. j < suc (length l) → is_snull (get_or (p ∷ l) j no_proc).stat ≡ false) [
            | zero ↦ λ _. used
            | suc (k → _) ↦ λ h. all k (omega arith)
          ]
            h,
    )
    | inr (k, e, h, v, all) ↦ inr (
      suc k,
      rw (used, e) (ap some (omega arith)),
      omega arith,
      v,
      λ j b.
          elim j as (λ j. j < suc k → is_snull (get_or (p ∷ l) j no_proc).stat ≡ false) [
            | zero ↦ λ _. used
            | suc (j' → _) ↦ λ b. all j' (omega arith)
          ]
            b,
    )
  ]
]

module _ (s : System) (sep : IsSeparate s) (some_size : 0 < (at s s.self).size) (i : ℕ)
    (inside : i < length s.table.proc) (empty : is_snull (at s i).stat ≡ true)
    (before : (j : ℕ) → j < i → is_snull (at s j).stat ≡ false) where
  abbrev size : ℕ
  size = (at s s.self).size

  put-at : (p : Proc) (j : ℕ) → proc_at (put_proc i p s.table) j ≡ (if i == j then p else at s j)
  put-at p j = get_or-set s.table.proc i j p no_proc inside

  -- A table that differs only in a slot that stays empty is as separate.
  empty-IsSeparate :
      (p : Proc)
      → is_snull p.stat ≡ true
      → IsSeparate (record s { table = put_proc i p s.table; mpid = s.mpid + 1 })
  unfolding IsSeparate
  empty-IsSeparate p v = (
    sep.0,
    λ j x o. ground (arith, put-at p j, sep.1 j x, o),
    λ j k x o o'. ground (arith, put-at p j, put-at p k, sep.2 j k x, o, o'),
  )

  -- A new process in units that were free keeps the owners apart.
  spawned-IsSeparate :
      (p : Proc)
      → is_snull p.stat ≡ false
      → p.size ≡ size
      → p.addr ≡ (malloc s.core size).0
      → fits s.core size ≡ true
      → IsSeparate (record s {
        table = put_proc i p s.table;
        core = (malloc s.core size).1;
        mpid = s.mpid + 1;
      })
  unfolding IsSeparate
  spawned-IsSeparate p v es ea f =
      let (_, valid, left, from) = malloc-covers s.core size sep.0 some_size f in
      (
        valid,
        λ j x o. ground (arith, put-at p j, sep.1 j x, o, left x, from x),
        λ j k x o o'.
            ground
              (arith, put-at p j, put-at p k, sep.2 j k x, sep.1 j x, sep.1 k x, from x, o, o'),
      )

  spawn_at-Outcome : NewprocOutcome s (spawn_at i s)
  unfolding spawn_at child_of NewprocOutcome
  spawn_at-Outcome = elim (Bool-cases (fits s.core size)) [
    | inl enough ↦
        let c = record (child_of (at s s.self) (at s i) (s.mpid + 1)) {
          addr = (malloc s.core size).0;
          size = size;
        } in
        let a : 0 < (malloc s.core size).0 = (malloc-covers s.core size sep.0 some_size enough).0 in
        let nz : (malloc s.core size).0 == 0 ≡ false = ground arith in
        rw nz (
          let e = put-at c i in
          (
            inside,
            empty,
            before,
            ground (arith, e),
            ground (arith, e),
            ground (arith, e),
            ground (arith, e),
            ground (arith, e, a),
            λ j ne. ground (arith, put-at c j),
            spawned-IsSeparate c refl refl refl enough,
          ))
    | inr short ↦
        let c = record (child_of (at s s.self) (at s i) (s.mpid + 1)) { stat = snull } in
        rw (malloc_fails s.core size short) (
          inr (refl, short),
          refl,
          λ j used. ground (arith, put-at c j, used),
          empty-IsSeparate c refl,
        )
  ]

-- newproc on every branch, where the owners of core are separate and the parent has core: the
-- child takes the first empty slot and core of its own, as large as the parent's, and every other
-- entry stays; it fails with EAGAIN only if no slot is empty, and with ENOMEM only if no free
-- entry of the core map is large enough, and then the processes in use and the core map stay. The
-- owners are separate afterwards in each case.
pub newproc-Outcome :
    (s : System) → IsSeparate s → 0 < (at s s.self).size → NewprocOutcome s (newproc s)
unfolding newproc NewprocOutcome
newproc-Outcome s sep some_size = elim (empty_slot-finds 0 s.table.proc) [
  | inl (e, all) ↦ rw (newproc, e) (inl (refl, all), refl, λ j _. refl, sep)
  | inr (k, e, h, v, all) ↦
      let z : 0 + k ≡ k = omega arith in
      rw (newproc, e, z) (spawn_at-Outcome s sep some_size k h v all)
]

-- an entry with no unit among the `n` from `a` on lies below or above them
Apart-of :
    (lo : ℕ) (m : CoreMap) (n a : ℕ)
    → IsFrom lo m
    → 0 < n
    → ((x : ℕ) → within a n x ≡ true → covers m x ≡ false)
    → Apart m n a
Apart-of lo [] n a v pos free = tt
Apart-of lo (e ∷ es) n a v pos free = (
  ground (arith, free a, free e.addr),
  Apart-of (suc (e.addr + e.size)) es n a v.3 pos (λ x w. ground (arith, free x w)),
)

module _ (i : ℕ) (s : System) (inside : i < length s.table.proc) where
  reap-at : (j : ℕ) → at (reap i s) j ≡ (if i == j then buried (at s i) else at s j)
  unfolding reap
  reap-at j = get_or-set s.table.proc i j (buried (at s i)) no_proc inside

  module _ (sep : IsSeparate s) (used : is_snull (at s i).stat ≡ false)
      (some_addr : 0 < (at s i).addr) (some_size : 0 < (at s i).size)
      (high : (at s i).addr + (at s i).size < 2 ^ 32) where
    -- where the owners are separate, none of the units of a process is free
    owned-Apart : Apart s.core (at s i).size (at s i).addr
    unfolding IsSeparate
    owned-Apart =
        Apart-of 1 s.core (at s i).size (at s i).addr sep.0 some_size
          (λ x w. sep.1 i x (ground (arith, used, w)))

    reap-core : (reap i s).core ≡ mfree s.core (at s i).size (at s i).addr
    unfolding reap give_back
    reap-core = ground arith

    -- Where the owners of core are separate, the wait for a process with an image in the 32-bit
    -- address space frees exactly the units of the process, and the owners are separate afterwards.
    pub reap-IsSeparate :
        IsSeparate (reap i s)
        × ((x : ℕ) → covers (reap i s).core x ≡ (covers s.core x || owns (at s i) x))
    unfolding IsSeparate buried
    reap-IsSeparate =
        let (valid, more) =
          mfree-covers s.core (at s i).size (at s i).addr sep.0 some_size some_addr high
            owned-Apart in
        rw reap-core (
          (
            valid,
            λ j x o. ground (arith, reap-at j, more x, o, sep.1 j x, sep.2 i j x),
            λ j k x o o'. ground (arith, reap-at j, reap-at k, o, o', sep.2 j k x),
          ),
          λ x. ground (arith, more x, used),
        )
