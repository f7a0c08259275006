-- ===== src/Life/Exit.antt =====
-- `sys_exit` of kernel/sys.c, and the next `sys_waitpid` of the parent.
use unix_v.Common.{
  ap, ℕ, suc, ◌+◌, ◌*◌, ◌%◌, ◌<◌, ◌≡◌, ◌≢◌, refl, arith, Bool, true, false, some, length, ◌==◌,
  if◌then◌else◌, get_or-set, length-set, inl, inr, Bool-cases, ◌⊎◌, sym, ◌∙◌, List, [], ◌∷◌,
}
use unix_v.Proc.{Proc, Table, srun, no_proc, proc_at, wakeup}
use unix_v.Proc.Wakeup.{IsWoken, wakeup-IsWoken, length-wakeup, wakeup-exact}
use unix_v.Proc.Signals.{psignal-apart, length-psignal, psignal-other, psignal_self}
use unix_v.Life.{
  System, at, put_proc, orphan_from, find_pid, tell_parent, zombie, exit_table, sys_exit, sigchld,
  child, waitpid, reap,
}
use unix_v.Life.Orphan.{
  find_pid-IsFirst, length-orphan_from, orphan_from-pid, orphan_from-ppid, orphan_from-alone, IsUp,
  orphan_from-IsUp, tell_parent-cases,
}
use unix_v.Life.Reap.{IsMine, waitpid_only}

find_pid-lt : (pid i q : ℕ) (l : List Proc) → find_pid pid i l ≡ some q → q < i + length l
unfolding find_pid
find_pid-lt pid i q [] e = ground (arith, e)
find_pid-lt pid i q (p ∷ l) e = elim (Bool-cases (p.pid == pid)) [
  | inl here ↦ ground (arith, e, here)
  | inr later ↦ ground (arith, e, later, find_pid-lt pid (suc i) q l)
]

module _ (ro : ℕ) (address : ℕ → ℕ) (chld : Bool) (ppid : ℕ) (t : Table) where
  -- Numbers and parents stay, and what runs goes on.
  tell_parent-IsUp :
      (j : ℕ)
      → (let p = proc_at t j in
          let p' = proc_at (tell_parent ro address chld ppid t) j in
          (p'.pid ≡ p.pid) × (p'.ppid ≡ p.ppid) × IsUp p p')
  unfolding IsUp IsWoken
  tell_parent-IsUp j = elim (tell_parent-cases ro address chld ppid t) [
    | inl same ↦ rw same (refl, refl, inl (refl, refl))
    | inr (q, e, inl wake) ↦ ground (arith, wake, wakeup-IsWoken ro (address q) t j)
    | inr (q, e, inr signal) ↦
        let t' = wakeup ro (address q) t in
        let h : q < length t'.proc =
          omega (arith, find_pid-lt ppid 0 q t.proc e, length-wakeup ro (address q) t) in
        ground (
          arith,
          signal,
          wakeup-IsWoken ro (address q) t j,
          psignal-other ro sigchld q t' h j,
          psignal_self ro sigchld q t' h (omega arith),
        )
  ]

  length-tell_parent : length (tell_parent ro address chld ppid t).proc ≡ length t.proc
  length-tell_parent = elim (tell_parent-cases ro address chld ppid t) [
    | inl same ↦ ground (arith, same)
    | inr (q, e, inl wake) ↦ ground (arith, wake, length-wakeup ro (address q) t)
    | inr (q, e, inr signal) ↦
        let t' = wakeup ro (address q) t in
        let h : q < length t'.proc =
          omega (arith, find_pid-lt ppid 0 q t.proc e, length-wakeup ro (address q) t) in
        ground (arith, signal, length-wakeup ro (address q) t, length-psignal ro sigchld q t' h)
  ]

  -- A process that is on no channel and not the parent is left alone.
  tell_parent-alone :
      (j q : ℕ)
      → find_pid ppid 0 t.proc ≡ some q
      → q ≢ j
      → j < length t.proc
      → (proc_at t j).wchan ≢ address q
      → (proc_at t j).wchan ≢ ro
      → proc_at (tell_parent ro address chld ppid t) j ≡ proc_at t j
  tell_parent-alone j q e ne h c r =
      let t' = wakeup ro (address q) t in
      let w = (wakeup-exact ro (address q) t j h).1 c r in
      let k : q < length t'.proc =
        omega (arith, find_pid-lt ppid 0 q t.proc e, length-wakeup ro (address q) t) in
      ground
        (arith, tell_parent-cases ro address chld ppid t, e, w, psignal-apart ro sigchld q t' k j)

  -- A parent that sleeps on its own entry, or has been made runnable, is runnable.
  tell_parent-wakes :
      (q : ℕ)
      → find_pid ppid 0 t.proc ≡ some q
      → ((proc_at t q).wchan ≡ address q) ⊎ ((proc_at t q).stat ≡ srun)
      → (proc_at (tell_parent ro address chld ppid t) q).stat ≡ srun
  unfolding IsWoken tell_parent
  tell_parent-wakes q e up =
      let t' = wakeup ro (address q) t in
      let h : q < length t.proc = omega (arith, find_pid-lt ppid 0 q t.proc e) in
      let k : q < length t'.proc = omega (arith, h, length-wakeup ro (address q) t) in
      ground (
        arith,
        e,
        up,
        (wakeup-exact ro (address q) t q h).0,
        wakeup-IsWoken ro (address q) t q,
        psignal_self ro sigchld q t' k (omega arith),
      )

module _ (ro : ℕ) (address : ℕ → ℕ) (chld : Bool) (status c : ℕ) (t : Table)
    (h : c < length t.proc) where
  -- the table after the process has been marked, and after its children have been given away
  abbrev dead : Table
  dead = put_proc c (zombie status (proc_at t c)) t

  abbrev orphaned : Table
  orphaned = orphan_from ro address (proc_at t c).pid (length t.proc) 0 dead

  dead-at : (j : ℕ) → proc_at dead j ≡ (if c == j then zombie status (proc_at t c) else proc_at t j)
  dead-at j = get_or-set t.proc c j (zombie status (proc_at t c)) no_proc h

  length-dead : length dead.proc ≡ length t.proc
  length-dead = length-set t.proc c (zombie status (proc_at t c))

  exit_table-pid :
      (j : ℕ) → (proc_at (exit_table ro address chld status c t) j).pid ≡ (proc_at t j).pid
  unfolding exit_table
  exit_table-pid j = ground (
    arith,
    dead-at j,
    length-dead,
    orphan_from-pid ro address (proc_at t c).pid (length t.proc) 0 dead j,
    tell_parent-IsUp ro address chld (proc_at orphaned c).ppid orphaned j,
  )

  -- After the death of a process other than `proc[1]`, every process has its number; the children
  -- of the dead process are children of the process 1, and all others have the parent they had.
  pub exit_table-ppid :
      (j : ℕ)
      → (proc_at t c).pid ≢ 1
      → j < length t.proc
      → (let p = proc_at t j in
          let p' = proc_at (exit_table ro address chld status c t) j in
          (p'.pid ≡ p.pid) × (p'.ppid ≡ (if p.ppid == (proc_at t c).pid then 1 else p.ppid)))
  unfolding exit_table
  exit_table-ppid j ne k = ground (
    arith,
    dead-at j,
    length-dead,
    orphan_from-pid ro address (proc_at t c).pid (length t.proc) 0 dead j,
    orphan_from-ppid ro address (proc_at t c).pid (length t.proc) 0 dead j ne,
    tell_parent-IsUp ro address chld (proc_at orphaned c).ppid orphaned j,
  )

  length-orphaned : length orphaned.proc ≡ length t.proc
  length-orphaned =
      length-orphan_from ro address (proc_at t c).pid (length t.proc) 0 dead ∙ length-dead

  length-exit_table : length (exit_table ro address chld status c t).proc ≡ length t.proc
  unfolding exit_table
  length-exit_table =
      length-tell_parent ro address chld (proc_at orphaned c).ppid orphaned ∙ length-orphaned

  module _ (q : ℕ) (on_no_channel : (k : ℕ) → (proc_at t c).wchan ≢ address k)
      (not_out : (proc_at t c).wchan ≢ ro) (not_own : (proc_at t c).ppid ≢ (proc_at t c).pid)
      (parent : (proc_at t q).pid ≡ (proc_at t c).ppid) (inside : q < length t.proc)
      (first : (k : ℕ) → k < q → (proc_at t k).pid ≢ (proc_at t c).ppid) where
    orphaned_self : proc_at orphaned c ≡ zombie status (proc_at t c)
    orphaned_self = ground (
      arith,
      dead-at c,
      length-dead,
      orphan_from-alone ro address (proc_at t c).pid (length t.proc) 0 dead c,
      on_no_channel 1,
    )

    orphaned-pid : (j : ℕ) → (proc_at orphaned j).pid ≡ (proc_at t j).pid
    orphaned-pid j = ground (
      arith,
      dead-at j,
      length-dead,
      orphan_from-pid ro address (proc_at t c).pid (length t.proc) 0 dead j,
    )

    finds_parent : find_pid (proc_at orphaned c).ppid 0 orphaned.proc ≡ some q
    finds_parent =
        find_pid-IsFirst (proc_at orphaned c).ppid q 0 orphaned.proc
          (ground (arith, orphaned-pid q, orphaned_self, parent))
          (omega (arith, length-orphaned, inside))
          (λ k b. ground (arith, orphaned-pid k, orphaned_self, first k b))
        ∙ ap some (omega arith)

    exit_table_self :
        q ≢ c → proc_at (exit_table ro address chld status c t) c ≡ zombie status (proc_at t c)
    unfolding exit_table
    exit_table_self ne = ground (
      arith,
      length-orphaned,
      orphaned_self,
      finds_parent,
      on_no_channel q,
      tell_parent-alone ro address chld (proc_at orphaned c).ppid orphaned c q,
    )

    exit_table-wakes :
        q ≢ c
        → (proc_at t q).wchan ≡ address q
        → (proc_at (exit_table ro address chld status c t) q).stat ≡ srun
    unfolding exit_table IsUp
    exit_table-wakes ne w = ground (
      arith,
      dead-at q,
      length-dead,
      orphan_from-IsUp ro address (proc_at t c).pid (length t.proc) 0 dead q,
      finds_parent,
      tell_parent-wakes ro address chld (proc_at orphaned c).ppid orphaned q,
    )

-- the system as the parent at `q` finds it
abbrev pub resumed : ℕ → System → System
resumed q s = record s { self = q }

module _ (ro : ℕ) (address : ℕ → ℕ) (arg q options : ℕ) (s : System) (known : options < 4)
    (on_no_channel : (k : ℕ) → (at s s.self).wchan ≢ address k) (not_out : (at s s.self).wchan ≢ ro)
    (not_own : (at s s.self).ppid ≢ (at s s.self).pid) (parent : (at s q).pid ≡ (at s s.self).ppid)
    (inside : q < length s.table.proc) (first : (k : ℕ) → k < q → (at s k).pid ≢ (at s s.self).ppid)
    (self_inside : s.self < length s.table.proc)
    (only : (k : ℕ) → k < length s.table.proc → (at s k).pid ≡ (at s s.self).pid → k ≡ s.self) where
  -- After `sys_exit` of a process the parent, if it slept in a wait, is runnable; and its waitpid
  -- for the number of the process, with no options but WNOHANG and WUNTRACED, returns at once the number and the low byte of the argument of
  -- `sys_exit`, shifted by 8.
  pub waitpid-sys_exit :
      (let s' = sys_exit ro address arg s in
        ((at s q).wchan ≡ address q → (at s' q).stat ≡ srun)
        × (waitpid false (at s s.self).pid options true (resumed q s')
            ≡ child (at s s.self).pid (arg % 256 * 256) (reap s.self (resumed q s'))))
  unfolding sys_exit IsMine
  waitpid-sys_exit = (
    exit_table-wakes ro address true st s.self s.table self_inside q on_no_channel not_out not_own
        parent inside first apart,
    waitpid_only false (at s s.self).pid options s' s.self known mine (rw self refl) one
        ∙ child_eq (ap (λ p. p.pid) self) (ap (λ p. p.status) self ∙ omega arith),
  )
    where
      st : ℕ
      st = arg % 256 * 256

      s' : System
      s' = resumed q (sys_exit ro address arg s)

      apart : q ≢ s.self
      apart e = not_own (sym parent ∙ ap (λ k. (at s k).pid) e)

      self : at s' s.self ≡ zombie st (at s s.self)
      self =
          exit_table_self ro address true st s.self s.table self_inside q on_no_channel not_out
            not_own parent inside first apart

      pids : (j : ℕ) → (at s' j).pid ≡ (at s j).pid
      pids j = exit_table-pid ro address true st s.self s.table self_inside j

      len : length s'.table.proc ≡ length s.table.proc
      len = length-exit_table ro address true st s.self s.table self_inside

      mine : IsMine false (at s s.self).pid s' s.self
      mine = (
        rw len self_inside,
        ap (λ p. p.ppid) self ∙ sym parent ∙ sym (pids q),
        ground (arith, pids s.self),
      )

      one : (j : ℕ) → IsMine false (at s s.self).pid s' j → j ≡ s.self
      one j m = only j (omega (arith, len, m.0)) (sym (pids j) ∙ ground (arith, m.2))

      child_eq : {a a' b b' : ℕ} {x : System} → a ≡ a' → b ≡ b' → child a b x ≡ child a' b' x
      child_eq e f = rw (e, f) refl
