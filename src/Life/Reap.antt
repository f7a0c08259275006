-- ===== src/Life/Reap.antt =====
-- `sys_waitpid` of kernel/sys.c.
use unix_v.Common.{
  ℕ, zero, suc, ◌+◌, ◌<◌, ◌≡◌, refl, arith, Bool, true, false, not, ◌&&◌, length, ◌==◌,
  if◌then◌else◌, inl, inr, Bool-cases, ◌⊎◌, sym, subst,
}
use unix_v.Proc.{Stat, szomb, sstop}
use unix_v.Life.{
  System, at, put_proc, reap, Waited, child, nothing_yet, sleeps, refused, stop_status, is_szomb,
  is_sstop, asked_for, waitpid_from, waitpid, echild, efault, einval, wnohang, wuntraced,
  has_other_options,
}

-- the process at index `i` is a child of the caller that is asked for
unfoldable pub IsMine : (any : Bool) → (pid : ℕ) → System → ℕ → Type 0
IsMine any pid s i =
    (i < length s.table.proc)
    × ((at s i).ppid ≡ (at s s.self).pid)
    × (asked_for any pid (at s i) ≡ true)

-- a stopped child of the process, not reported yet
abbrev fresh_stop : (untraced : Bool) → System → ℕ → Bool
fresh_stop untraced s i = untraced && is_sstop (at s i).stat && not (at s i).swted

-- nothing to report of the process
IsQuiet : (untraced : Bool) → System → ℕ → Type 0
IsQuiet untraced s i = (is_szomb (at s i).stat ≡ false) × (fresh_stop untraced s i ≡ false)

-- the call with WUNTRACED marks a stopped child
abbrev marked : ℕ → System → System
marked i s = record s { table = put_proc i (record (at s i) { swted = true }) s.table }

-- Every process before `i` that is asked for is quiet.
AllQuiet : (any : Bool) → (pid : ℕ) → (untraced : Bool) → System → ℕ → Type 0
AllQuiet any pid untraced s i = (k : ℕ) → k < i → IsMine any pid s k → IsQuiet untraced s k

-- The first process, at `j`, with something to report.
IsFirst : (any : Bool) → (pid : ℕ) → (untraced : Bool) → System → ℕ → Type 0
unfolding AllQuiet IsMine
IsFirst any pid untraced s j = IsMine any pid s j × AllQuiet any pid untraced s j

-- What the loop of `waitpid` may come to in the state `s`.
LoopOutcome : (any : Bool) → (pid : ℕ) → (nohang untraced stores : Bool) → System → Waited → Type 0
unfolding IsMine IsQuiet AllQuiet IsFirst
LoopOutcome any pid nohang untraced stores s (child q st s') =
    (stores ≡ true)
    × ((j : ℕ) × IsFirst any pid untraced s j
        × (q ≡ (at s j).pid)
        × (((is_szomb (at s j).stat ≡ true) × (st ≡ (at s j).status) × (s' ≡ reap j s))
            ⊎ ((fresh_stop untraced s j ≡ true) × (st ≡ stop_status (at s j)) × (s' ≡ marked j s))))
LoopOutcome any pid nohang untraced stores s (nothing_yet s') =
    (nohang ≡ true)
    × (s' ≡ s)
    × ((j : ℕ) × IsMine any pid s j)
    × AllQuiet any pid untraced s (length s.table.proc)
LoopOutcome any pid nohang untraced stores s (sleeps s') =
    (nohang ≡ false)
    × (s' ≡ s)
    × ((j : ℕ) × IsMine any pid s j)
    × AllQuiet any pid untraced s (length s.table.proc)
LoopOutcome any pid nohang untraced stores s (refused e s') =
    ((e ≡ echild) × (s' ≡ s) × ((j : ℕ) → ¬ IsMine any pid s j))
    ⊎ ((e ≡ efault)
        × (stores ≡ false)
        × ((j : ℕ) × IsFirst any pid untraced s j
            × (((is_szomb (at s j).stat ≡ true) × (s' ≡ s))
                ⊎ ((fresh_stop untraced s j ≡ true) × (s' ≡ marked j s)))))

-- whether a child has been seen before `i`
IsSeen : (any : Bool) → (pid : ℕ) → (found : Bool) → System → ℕ → Type 0
unfolding IsMine
IsSeen any pid true s i = (j : ℕ) × IsMine any pid s j
IsSeen any pid false s i = (j : ℕ) → j < i → ¬ IsMine any pid s j

module _ (any : Bool) (pid : ℕ) (nohang untraced stores : Bool) (s : System) where
  Good : Waited → Type 0
  unfolding LoopOutcome
  Good = LoopOutcome any pid nohang untraced stores s

  from_ends :
      (found nohang' : Bool)
      → nohang ≡ nohang'
      → IsSeen any pid found s (length s.table.proc)
      → AllQuiet any pid untraced s (length s.table.proc)
      → Good (if found then (if nohang' then nothing_yet s else sleeps s) else refused echild s)
  unfolding Good LoopOutcome IsSeen IsMine
  from_ends true true e seen quiet = (e, refl, seen, quiet)
  from_ends true false e seen quiet = (e, refl, seen, quiet)
  from_ends false _ e seen quiet = inl (refl, refl, λ j m. seen j m.0 m)

  zombie_ends :
      (j : ℕ) (b : Bool)
      → stores ≡ b
      → IsFirst any pid untraced s j
      → is_szomb (at s j).stat ≡ true
      → Good (if b then child (at s j).pid (at s j).status (reap j s) else refused efault s)
  unfolding Good LoopOutcome
  zombie_ends j true e f z = (e, (j, f, refl, inl (z, refl, refl)))
  zombie_ends j false e f z = inr (refl, e, (j, f, inl (z, refl)))

  stop_ends :
      (j : ℕ) (b : Bool)
      → stores ≡ b
      → IsFirst any pid untraced s j
      → fresh_stop untraced s j ≡ true
      → Good (
          if b
          then child (at s j).pid (stop_status (at s j)) (marked j s)
          else refused efault (marked j s))
  unfolding Good LoopOutcome
  stop_ends j true e f z = (e, (j, f, refl, inr (z, refl, refl)))
  stop_ends j false e f z = inr (refl, e, (j, f, inr (z, refl)))

  IsQuiet-more :
      (i : ℕ)
      → (IsMine any pid s i → IsQuiet untraced s i)
      → AllQuiet any pid untraced s i
      → AllQuiet any pid untraced s (suc i)
  unfolding AllQuiet
  IsQuiet-more i here before k h m = elim (Bool-cases (k == i)) [
    | inl same ↦
        let e : k ≡ i = ground arith in
        subst (IsQuiet untraced s) (sym e) (here (subst (IsMine any pid s) e m))
    | inr other ↦ before k (ground arith) m
  ]

  IsSeen-more :
      (found : Bool) (i : ℕ)
      → ¬ IsMine any pid s i
      → IsSeen any pid found s i
      → IsSeen any pid found s (suc i)
  unfolding IsSeen
  IsSeen-more true i ne seen = seen
  IsSeen-more false i ne seen = λ j h m. elim (Bool-cases (j == i)) [
    | inl same ↦ let e : j ≡ i = ground arith in ne (subst (IsMine any pid s) e m)
    | inr other ↦ seen j (ground arith) m
  ]

  from_lem :
      (n i : ℕ) (found : Bool)
      → i + n ≡ length s.table.proc
      → IsSeen any pid found s i
      → AllQuiet any pid untraced s i
      → Good (waitpid_from any pid nohang untraced stores found n i s)
  unfolding waitpid_from IsMine IsQuiet IsSeen IsFirst
  from_lem zero i found h seen quiet =
      from_ends found nohang refl (subst (IsSeen any pid found s) h' seen)
        (subst (AllQuiet any pid untraced s) h' quiet)
    where
      h' : i ≡ length s.table.proc
      h' = omega arith
  from_lem (suc n) i found h seen quiet =
      elim (Bool-cases ((at s i).ppid == (at s s.self).pid && asked_for any pid (at s i))) [
        | inl mine ↦
            let m : IsMine any pid s i = (omega arith, ground arith, ground arith) in
            elim (Bool-cases (is_szomb (at s i).stat)) [
              | inl z ↦ rw (mine, z) (zombie_ends i stores refl (m, quiet) z)
              | inr nz ↦ elim (Bool-cases (fresh_stop untraced s i)) [
                | inl st ↦ rw (mine, nz, st) (stop_ends i stores refl (m, quiet) st)
                | inr ns ↦
                    rw (mine, nz, ns)
                      (from_lem n (suc i) true (omega arith) (i, m)
                        (IsQuiet-more i (λ _. (nz, ns)) quiet))
              ]
            ]
        | inr not_mine ↦
            let nm : ¬ IsMine any pid s i = λ m. ground (arith, m.1, m.2, not_mine) in
            rw not_mine (
              from_lem n (suc i) found (omega arith) (IsSeen-more found i nm seen)
                (IsQuiet-more i (λ m. absurd (nm m)) quiet))
      ]

  loop-Outcome :
      LoopOutcome any pid nohang untraced stores s
        (waitpid_from any pid nohang untraced stores false (length s.table.proc) 0 s)
  unfolding Good IsSeen AllQuiet
  loop-Outcome =
      from_lem (length s.table.proc) 0 false (omega arith) (λ j h. absurd (omega arith))
        (λ k h. absurd (omega arith))

  module _ (c : ℕ) (st : stores ≡ true) (mine : IsMine any pid s c)
      (z : is_szomb (at s c).stat ≡ true) (one : (j : ℕ) → IsMine any pid s j → j ≡ c) where
    not_fresh : fresh_stop untraced s c ≡ false
    not_fresh = apart (at s c).stat z
      where
        apart :
            (x : Stat) → is_szomb x ≡ true → untraced && is_sstop x && not (at s c).swted ≡ false
        apart szomb e = ground arith
        apart sstop e = ground (arith, e)
        apart _ e = ground arith

    only_outcome :
        (w : Waited)
        → LoopOutcome any pid nohang untraced stores s w
        → w ≡ child (at s c).pid (at s c).status (reap c s)
    unfolding LoopOutcome IsFirst AllQuiet IsQuiet IsMine
    only_outcome (child q st' s') (_, (j, f, e, inl (_, es, er))) = let same = one j f.0 in cc
    only_outcome (child q st' s') (_, (j, f, e, inr (fs, _, _))) =
        let same = one j f.0 in ground (arith, fs, not_fresh, same)
    only_outcome (nothing_yet s') (_, _, _, quiet) = ground (arith, quiet c mine.0 mine, z)
    only_outcome (sleeps s') (_, _, _, quiet) = ground (arith, quiet c mine.0 mine, z)
    only_outcome (refused x s') (inl (_, _, nobody)) = absurd (nobody c mine)
    only_outcome (refused x s') (inr (_, ns, _)) = ground (arith, ns, st)

    loop_only :
        waitpid_from any pid nohang untraced stores false (length s.table.proc) 0 s
        ≡ child (at s c).pid (at s c).status (reap c s)
    loop_only =
        only_outcome (waitpid_from any pid nohang untraced stores false (length s.table.proc) 0 s)
          loop-Outcome

-- What `waitpid` may come to in the state `s`: EINVAL for other options than WNOHANG and WUNTRACED.
pub WaitpidOutcome : (any : Bool) → (pid options : ℕ) → (stores : Bool) → System → Waited → Type 0
unfolding LoopOutcome
WaitpidOutcome any pid options stores s w =
    ((3 < options) × (w ≡ refused einval s))
    ⊎ ((options < 4) × LoopOutcome any pid (wnohang options) (wuntraced options) stores s w)

-- waitpid on every branch: with an option other than WNOHANG and WUNTRACED it fails with EINVAL and
-- changes nothing. Otherwise it reports the first child asked for that has died, which is reaped,
-- or, with WUNTRACED, the first that has stopped and was not reported, which is marked; it returns
-- 0 with WNOHANG, and sleeps without it, only if there is such a child and none has anything to
-- report; it fails with ECHILD only if there is none, and with EFAULT only if the status cannot be
-- stored, when a dead child stays.
pub waitpid-Outcome :
    (any : Bool) (pid options : ℕ) (stores : Bool) (s : System)
    → WaitpidOutcome any pid options stores s (waitpid any pid options stores s)
unfolding waitpid WaitpidOutcome
waitpid-Outcome any pid options stores s = elim (Bool-cases (has_other_options options)) [
  | inl other ↦ rw (waitpid, other) (inl (ground (arith, other), refl))
  | inr known ↦
      rw (waitpid, known)
        (inr (
          ground (arith, known),
          loop-Outcome any pid (wnohang options) (wuntraced options) stores s,
        ))
]

-- A dead child that is the only process asked for is reported.
pub waitpid_only :
    (any : Bool) (pid options : ℕ) (s : System) (c : ℕ)
    → options < 4
    → IsMine any pid s c
    → is_szomb (at s c).stat ≡ true
    → ((j : ℕ) → IsMine any pid s j → j ≡ c)
    → waitpid any pid options true s ≡ child (at s c).pid (at s c).status (reap c s)
unfolding waitpid
waitpid_only any pid options s c h mine z one =
    let known : has_other_options options ≡ false = ground arith in
    rw (waitpid, known)
      (loop_only any pid (wnohang options) (wuntraced options) true s c refl mine z one)
