-- ===== src/Proc/Signals.antt =====
-- `psignal` and `setrun` of kernel/sig.c and kernel/sched/slp.c, for the process and for the others.
use unix_v.Common.{
  ℕ, ◌<◌, ◌≡◌, ◌≢◌, arith, set, length, ◌==◌, if◌then◌else◌, get_or-set, length-set, inl, inr,
  Bool-cases, ◌⊎◌, leb,
}
use unix_v.Proc.{Table, no_proc, proc_at, running, setrun, psignal, signalled, nsig, asleep}
use unix_v.Proc.Wakeup.{setrun-Wakes}

-- the process table after `psignal` has stored the signal
abbrev stored : ℕ → ℕ → Table → Table
stored sig i t = record t { proc = set t.proc i (signalled sig (proc_at t i)) }

module _ (ro : ℕ) (sig i : ℕ) (t : Table) (h : i < length t.proc) where
  stored-at :
      (j : ℕ)
      → proc_at (stored sig i t) j ≡ (if i == j then signalled sig (proc_at t i) else proc_at t j)
  stored-at j = get_or-set t.proc i j (signalled sig (proc_at t i)) no_proc h

  length-stored : length (stored sig i t).proc ≡ length t.proc
  length-stored = length-set t.proc i (signalled sig (proc_at t i))

  psignal-cases :
      (psignal ro sig i t ≡ t)
      ⊎ (psignal ro sig i t ≡ stored sig i t)
      ⊎ (psignal ro sig i t ≡ setrun ro i (stored sig i t))
  unfolding psignal
  psignal-cases = elim (Bool-cases (leb nsig sig)) [
    | inl large ↦ inl (rw large)
    | inr small ↦ elim (Bool-cases (asleep (proc_at (stored sig i t) i).stat)) [
      | inl wait ↦ inr (inr (rw (small, wait)))
      | inr up ↦ inr (inl (rw (small, up)))
    ]
  ]

  pub length-psignal : length (psignal ro sig i t).proc ≡ length t.proc
  length-psignal =
      ground (arith, psignal-cases, length-stored, (setrun-Wakes ro).same_length i (stored sig i t))

  -- Another process is left alone or made runnable.
  pub psignal-other :
      (j : ℕ)
      → i ≢ j
      → (proc_at (psignal ro sig i t) j ≡ proc_at t j)
        ⊎ (proc_at (psignal ro sig i t) j ≡ running (proc_at t j))
  psignal-other j ne = ground (
    arith,
    psignal-cases,
    length-stored,
    stored-at j,
    (setrun-Wakes ro).only i (stored sig i t) j,
  )

  pub psignal-apart :
      (j : ℕ) → i ≢ j → (proc_at t j).wchan ≢ ro → proc_at (psignal ro sig i t) j ≡ proc_at t j
  psignal-apart j ne c = ground (
    arith,
    psignal-cases,
    length-stored,
    stored-at j,
    (setrun-Wakes ro).others i (stored sig i t) j,
  )

  -- A signal below NSIG is pending for its process afterwards, unless a SIGKIL was pending, which
  -- stays; a process that slept is runnable; all else of it is as before.
  pub psignal_self :
      sig < nsig
      → proc_at (psignal ro sig i t) i
        ≡ (let p = signalled sig (proc_at t i) in if asleep p.stat then running p else p)
  unfolding psignal
  psignal_self small =
      ground (arith, length-stored, stored-at i, (setrun-Wakes ro).runs i (stored sig i t))
