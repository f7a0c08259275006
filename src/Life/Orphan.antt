-- ===== src/Life/Orphan.antt =====
-- The loops of `exit` of kernel/sys.c: over the children, and for the parent.
use unix_v.Common.{
  ℕ, zero, suc, ◌+◌, ◌≤◌, ◌<◌, ◌≡◌, ◌≢◌, refl, arith, Bool, true, false, ◌&&◌, Option, none, some,
  length, ◌==◌, if◌then◌else◌, get_or-set, length-set, inl, inr, Bool-cases, ◌⊎◌, ◌∙◌, List, [],
  ◌∷◌, get_or,
}
use unix_v.Proc.{Proc, Table, srun, no_proc, proc_at, setrun, wakeup, psignal}
use unix_v.Proc.Wakeup.{setrun-Wakes, IsWoken, wakeup-IsWoken, length-wakeup, wakeup-exact}
use unix_v.Life.{put_proc, is_sstop, orphan, orphan_from, find_pid, tell_parent, sigchld}

abbrev woken : (ro chan : ℕ) → Table → Table
woken ro chan t = wakeup ro chan t

pub find_pid-IsFirst :
    (pid q i : ℕ) (l : List Proc)
    → (get_or l q no_proc).pid ≡ pid
    → q < length l
    → ((k : ℕ) → k < q → (get_or l k no_proc).pid ≢ pid)
    → find_pid pid i l ≡ some (i + q)
unfolding find_pid
find_pid-IsFirst pid q i [] e h first = absurd (omega arith)
find_pid-IsFirst pid zero i (p ∷ l) e h first = ground arith
find_pid-IsFirst pid (suc q) i (p ∷ l) e h first =
    let later = first 0 (omega arith) in
    ground (
      arith,
      later,
      find_pid-IsFirst pid q (suc i) l e (omega arith) (λ k b. first (suc k) (omega arith)),
    )

-- what may happen to a process that is not the one that dies
unfoldable pub IsUp : (p q : Proc) → Type 0
IsUp p q = ((q.stat ≡ p.stat) × (q.wchan ≡ p.wchan)) ⊎ (q.stat ≡ srun)

module _ (ro : ℕ) (address : ℕ → ℕ) where
  -- the table after the child at `i` has been given to `proc[1]`
  adopted : ℕ → Table → Table
  adopted i t =
      let t' = wakeup ro (address 1) t in put_proc i (record (proc_at t' i) { ppid = 1 }) t'

  length-adopted : (i : ℕ) (t : Table) → length (adopted i t).proc ≡ length t.proc
  unfolding adopted
  length-adopted i t = ground (
    arith,
    length-set (wakeup ro (address 1) t).proc i
        (record (proc_at (wakeup ro (address 1) t) i) { ppid = 1 }),
    length-wakeup ro (address 1) t,
  )

  adopted-at :
      (i : ℕ) (t : Table) (j : ℕ)
      → i < length t.proc
      → proc_at (adopted i t) j ≡ (
          if i == j
          then record (proc_at (wakeup ro (address 1) t) i) { ppid = 1 }
          else proc_at (wakeup ro (address 1) t) j)
  unfolding adopted
  adopted-at i t j h =
      get_or-set (wakeup ro (address 1) t).proc i j
        (record (proc_at (wakeup ro (address 1) t) i) { ppid = 1 }) no_proc
        (omega (arith, length-wakeup ro (address 1) t))

  orphan-cases :
      (pid i : ℕ) (t : Table)
      → (((proc_at t i).ppid ≢ pid) × (orphan ro address pid i t ≡ t))
        ⊎ (((proc_at t i).ppid ≡ pid)
            × ((orphan ro address pid i t ≡ adopted i t)
                ⊎ ((is_sstop (proc_at (adopted i t) i).stat ≡ true)
                    × (orphan ro address pid i t ≡ setrun ro i (adopted i t)))))
  unfolding orphan adopted
  orphan-cases pid i t = elim (Bool-cases ((proc_at t i).ppid == pid)) [
    | inr other ↦ inl (ground (arith, other), rw other refl)
    | inl mine ↦ elim (Bool-cases (is_sstop (proc_at (adopted i t) i).stat)) [
      | inl stop ↦ inr (ground (arith, mine), inr (stop, rw (mine, stop) refl))
      | inr runs ↦ inr (ground (arith, mine), inl (rw (mine, runs) refl))
    ]
  ]

  module _ (pid : ℕ) where
    length-orphan : (i : ℕ) (t : Table) → length (orphan ro address pid i t).proc ≡ length t.proc
    length-orphan i t = ground (
      arith,
      orphan-cases pid i t,
      length-adopted i t,
      (setrun-Wakes ro).same_length i (adopted i t),
    )

    orphan-pid :
        (i : ℕ) (t : Table) (j : ℕ)
        → i < length t.proc
        → (proc_at (orphan ro address pid i t) j).pid ≡ (proc_at t j).pid
    unfolding IsWoken
    orphan-pid i t j h = ground (
      arith,
      orphan-cases pid i t,
      length-adopted i t,
      adopted-at i t j h,
      wakeup-IsWoken ro (address 1) t i,
      wakeup-IsWoken ro (address 1) t j,
      (setrun-Wakes ro).only i (adopted i t) j,
    )

    orphan-ppid :
        (i : ℕ) (t : Table) (j : ℕ)
        → i < length t.proc
        → (proc_at (orphan ro address pid i t) j).ppid
          ≡ (if i == j && (proc_at t j).ppid == pid then 1 else (proc_at t j).ppid)
    unfolding IsWoken
    orphan-ppid i t j h = ground (
      arith,
      orphan-cases pid i t,
      length-adopted i t,
      adopted-at i t j h,
      wakeup-IsWoken ro (address 1) t i,
      wakeup-IsWoken ro (address 1) t j,
      (setrun-Wakes ro).only i (adopted i t) j,
    )

    -- A process that is on no channel, not stopped and no child is left alone.
    orphan-alone :
        (i : ℕ) (t : Table) (j : ℕ)
        → i < length t.proc
        → j < length t.proc
        → (proc_at t j).wchan ≢ address 1
        → (proc_at t j).wchan ≢ ro
        → (proc_at t j).ppid ≢ pid
        → proc_at (orphan ro address pid i t) j ≡ proc_at t j
    orphan-alone i t j h h' c r p = ground (
      arith,
      orphan-cases pid i t,
      length-adopted i t,
      adopted-at i t j h,
      (wakeup-exact ro (address 1) t j h').1 c r,
      (setrun-Wakes ro).others i (adopted i t) j,
    )

    pub length-orphan_from :
        (n i : ℕ) (t : Table) → length (orphan_from ro address pid n i t).proc ≡ length t.proc
    unfolding orphan_from
    length-orphan_from zero i t = refl
    length-orphan_from (suc n) i t =
        length-orphan_from n (suc i) (orphan ro address pid i t) ∙ length-orphan i t

    pub orphan_from-pid :
        (n i : ℕ) (t : Table) (j : ℕ)
        → i + n ≤ length t.proc
        → (proc_at (orphan_from ro address pid n i t) j).pid ≡ (proc_at t j).pid
    unfolding orphan_from
    orphan_from-pid zero i t j h = refl
    orphan_from-pid (suc n) i t j h =
        orphan_from-pid n (suc i) (orphan ro address pid i t) j (omega (arith, length-orphan i t))
        ∙ orphan-pid i t j (omega arith)

    pub orphan_from-ppid :
        (n i : ℕ) (t : Table) (j : ℕ)
        → pid ≢ 1
        → i + n ≤ length t.proc
        → ((j < i → (proc_at (orphan_from ro address pid n i t) j).ppid ≡ (proc_at t j).ppid)
            × (i ≤ j
                → j < i + n
                → (proc_at (orphan_from ro address pid n i t) j).ppid
                  ≡ (if (proc_at t j).ppid == pid then 1 else (proc_at t j).ppid)))
    unfolding orphan_from
    orphan_from-ppid zero i t j ne h = (λ _. refl, λ lo hi. absurd (omega arith))
    orphan_from-ppid (suc n) i t j ne h =
        let ih =
          orphan_from-ppid n (suc i) (orphan ro address pid i t) j ne
            (omega (arith, length-orphan i t)) in
        (ground (arith, ih, orphan-ppid i t j), ground (arith, ih, orphan-ppid i t j))

    pub orphan_from-alone :
        (n i : ℕ) (t : Table) (j : ℕ)
        → i + n ≤ length t.proc
        → j < length t.proc
        → (proc_at t j).wchan ≢ address 1
        → (proc_at t j).wchan ≢ ro
        → (proc_at t j).ppid ≢ pid
        → proc_at (orphan_from ro address pid n i t) j ≡ proc_at t j
    unfolding orphan_from
    orphan_from-alone zero i t j h h' c r p = refl
    orphan_from-alone (suc n) i t j h h' c r p =
        let e = orphan-alone i t j (omega arith) h' c r p in
        orphan_from-alone n (suc i) (orphan ro address pid i t) j (omega (arith, length-orphan i t))
          (omega (arith, length-orphan i t)) (rw e c) (rw e r) (rw e p)
        ∙ e

    -- A process stays as it was or is made runnable.
    orphan-IsUp :
        (i : ℕ) (t : Table) (j : ℕ)
        → i < length t.proc
        → IsUp (proc_at t j) (proc_at (orphan ro address pid i t) j)
    unfolding IsUp IsWoken
    orphan-IsUp i t j h = ground (
      arith,
      orphan-cases pid i t,
      length-adopted i t,
      adopted-at i t j h,
      wakeup-IsWoken ro (address 1) t i,
      wakeup-IsWoken ro (address 1) t j,
      (setrun-Wakes ro).only i (adopted i t) j,
    )

    pub orphan_from-IsUp :
        (n i : ℕ) (t : Table) (j : ℕ)
        → i + n ≤ length t.proc
        → IsUp (proc_at t j) (proc_at (orphan_from ro address pid n i t) j)
    unfolding orphan_from IsUp
    orphan_from-IsUp zero i t j h = inl (refl, refl)
    orphan_from-IsUp (suc n) i t j h = ground (
      arith,
      orphan-IsUp i t j,
      orphan_from-IsUp n (suc i) (orphan ro address pid i t) j (omega (arith, length-orphan i t)),
    )

  pub tell_parent-cases :
      (chld : Bool) (ppid : ℕ) (t : Table)
      → (tell_parent ro address chld ppid t ≡ t)
        ⊎ ((q : ℕ) × (find_pid ppid 0 t.proc ≡ some q)
            × ((tell_parent ro address chld ppid t ≡ wakeup ro (address q) t)
                ⊎ (tell_parent ro address chld ppid t
                    ≡ psignal ro sigchld q (wakeup ro (address q) t))))
  unfolding tell_parent
  tell_parent-cases chld ppid t = told chld (find_pid ppid 0 t.proc) refl
    where
      told :
          (chld : Bool) (o : Option ℕ)
          → find_pid ppid 0 t.proc ≡ o
          → (tell_parent ro address chld ppid t ≡ t)
            ⊎ ((q : ℕ) × (find_pid ppid 0 t.proc ≡ some q)
                × ((tell_parent ro address chld ppid t ≡ wakeup ro (address q) t)
                    ⊎ (tell_parent ro address chld ppid t
                        ≡ psignal ro sigchld q (wakeup ro (address q) t))))
      told chld none e = inl (rw (tell_parent, e) refl)
      told true (some q) e = inr (q, e, inr (rw (tell_parent, e) refl))
      told false (some q) e = inr (q, e, inl (rw (tell_parent, e) refl))
