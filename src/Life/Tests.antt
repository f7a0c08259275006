-- ===== src/Life/Tests.antt =====
-- A system of three processes: runs of `exit`, the waits and `newproc`, and the theorems at it.
use unix_v.Common.{
  ℕ, zero, suc, ◌≤◌, ◌∙◌, sym, ◌+◌, ◌*◌, ◌%◌, ◌<◌, ◌≡◌, ◌≢◌, refl, true, false, [], ◌∷◌, arith,
}
use unix_v.CoreMap.{entry, malloc}
use unix_v.Proc.{
  Proc, no_proc, srun, swait, szomb, puser, wake_one, wake_from, wake_runout, mark, setrun, wakeup,
  psignal,
}
use unix_v.Life.{
  System, at, newproc, spawned, child_of, spawn_at, empty_slot, reap, syswait, wait_from, waitpid,
  waitpid_from, child, sleeps, refused, orphan, orphan_from, find_pid, tell_parent, exit_table,
  sys_exit,
}
use unix_v.Life.Reap.{WaitpidOutcome, waitpid-Outcome}
use unix_v.Life.Exit.{waitpid-sys_exit, resumed}
use unix_v.Life.{is_szomb}
use unix_v.Life.Wait.{SyswaitOutcome, syswait-SyswaitOutcome}
use unix_v.Life.Spawn.{IsSeparate, NewprocOutcome, newproc-Outcome, owns}

-- `proc[i]` stands at 100 and above
abbrev address : ℕ → ℕ
address i = 100 + i

abbrev init : Proc
init = record no_proc { stat = swait; pid = 1; wchan = 100; sload = true; addr = 10; size = 4 }

abbrev parent : Proc
parent = record no_proc {
  stat = swait;
  pid = 5;
  ppid = 1;
  wchan = 101;
  sload = true;
  addr = 20;
  size = 4;
}

abbrev the_child : Proc
the_child = record no_proc { stat = srun; pid = 7; ppid = 5; sload = true; addr = 30; size = 4 }

abbrev grandchild : Proc
grandchild = record no_proc { stat = srun; pid = 8; ppid = 7; sload = true; addr = 40; size = 4 }

abbrev some_system : System
some_system = record {
  table = record {
    proc = init ∷ parent ∷ the_child ∷ grandchild ∷ no_proc ∷ [];
    runrun = 0;
    runout = 0;
    curpri = puser;
  };
  core = entry 4 50 ∷ entry 100 60 ∷ [];
  mpid = 8;
  self = 2;
}

-- the child dies with the status 3: its child goes to init, which is woken, and so is the parent
run_sys_exit :
    (let s = sys_exit 9 address 3 some_system in
      ((at s 2).stat ≡ szomb)
      × ((at s 2).status ≡ 768)
      × ((at s 3).ppid ≡ 1)
      × ((at s 1).stat ≡ srun))
unfolding sys_exit exit_table orphan_from orphan find_pid tell_parent wakeup psignal setrun mark
    wake_one wake_from wake_runout
run_sys_exit = (refl, refl, refl, refl)

run_waitpid :
    waitpid false 7 0 true (resumed 1 (sys_exit 9 address 3 some_system))
    ≡ child 7 768 (reap 2 (resumed 1 (sys_exit 9 address 3 some_system)))
unfolding waitpid waitpid_from sys_exit exit_table orphan_from orphan find_pid tell_parent wakeup
    psignal setrun mark wake_one wake_from wake_runout
run_waitpid = refl

run_waitpid_einval : waitpid true 0 4 true some_system ≡ refused 22 some_system
unfolding waitpid
run_waitpid_einval = refl

run_syswait : syswait 9 (resumed 1 some_system) ≡ sleeps (resumed 1 some_system)
unfolding syswait wait_from
run_syswait = refl

first_parent : (k : ℕ) → k < 1 → (at some_system k).pid ≢ 5
first_parent zero h = omega arith
first_parent (suc k) h = absurd (omega arith)

only_child : (k : ℕ) → k < 5 → (at some_system k).pid ≡ 7 → k ≡ 2
only_child zero h e = absurd (omega arith)
only_child (suc zero) h e = absurd (omega arith)
only_child (suc (suc zero)) h e = refl
only_child (suc (suc (suc zero))) h e = absurd (omega arith)
only_child (suc (suc (suc (suc k)))) h e = ground arith

waitpid-sys_exit_example :
    (let s' = sys_exit 9 address 3 some_system in
      ((at some_system 1).wchan ≡ address 1 → (at s' 1).stat ≡ srun)
      × (waitpid false 7 0 true (resumed 1 s') ≡ child 7 (3 % 256 * 256) (reap 2 (resumed 1 s'))))
waitpid-sys_exit_example =
    waitpid-sys_exit 9 address 3 1 0 some_system (omega arith) (λ k. omega arith) (omega arith)
      (omega arith) refl (omega arith) first_parent (omega arith) only_child

waitpid-Outcome_example :
    WaitpidOutcome true 0 1 true
      (resumed 1 some_system)
      (waitpid true 0 1 true (resumed 1 some_system))
waitpid-Outcome_example = waitpid-Outcome true 0 1 true (resumed 1 some_system)

-- one process and two empty slots
abbrev alone : System
alone = record some_system {
  table = record some_system.table { proc = parent ∷ no_proc ∷ no_proc ∷ [] };
  self = 0;
}

run_newproc :
    (let s = newproc alone in
      s
      ≡ spawned 1 (record alone {
        table = record some_system.table {
          proc = parent ∷ record (child_of parent no_proc 9) { addr = 50; size = 4 } ∷ no_proc ∷ [];
        };
        core = entry 100 60 ∷ [];
        mpid = 9;
      }))
unfolding newproc spawn_at empty_slot malloc child_of
run_newproc = refl

owner_alone : (i x : ℕ) → owns (at alone i) x ≡ true → (i ≡ 0) × (20 ≤ x) × (x < 24)
owner_alone zero x e = (refl, ground (arith, e), ground (arith, e))
owner_alone (suc zero) x e = absurd (ground (arith, e))
owner_alone (suc (suc zero)) x e = absurd (ground (arith, e))
owner_alone (suc (suc (suc i))) x e = absurd (ground (arith, e))

alone-IsSeparate : IsSeparate alone
unfolding IsSeparate
alone-IsSeparate = (
  (omega arith, omega arith, omega arith, (omega arith, omega arith, omega arith, tt)),
  λ i x e. ground (arith, owner_alone i x e),
  λ i j x e f. (owner_alone i x e).0 ∙ sym (owner_alone j x f).0,
)

newproc-Outcome_example : NewprocOutcome alone (newproc alone)
newproc-Outcome_example = newproc-Outcome alone alone-IsSeparate (omega arith)

-- the parent's child has died
abbrev bereaved : System
bereaved = record some_system {
  table = record some_system.table {
    proc = init ∷ parent ∷ record the_child { stat = szomb; status = 768 } ∷ no_proc ∷ [];
  };
  self = 1;
}

run_syswait-child : syswait 9 bereaved ≡ child 7 768 (reap 2 bereaved)
unfolding syswait wait_from
run_syswait-child = refl

off_nine : (j : ℕ) → is_szomb (at bereaved j).stat ≡ true → (at bereaved j).wchan ≢ 9
off_nine zero z = omega arith
off_nine (suc zero) z = omega arith
off_nine (suc (suc zero)) z = omega arith
off_nine (suc (suc (suc j))) z = ground (arith, z)

syswait-SyswaitOutcome_example : SyswaitOutcome bereaved (syswait 9 bereaved)
syswait-SyswaitOutcome_example = syswait-SyswaitOutcome 9 bereaved off_nine
