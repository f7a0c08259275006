-- ===== src/Proc.antt =====
-- Processes: kernel/sched/slp.c (`wakeup`, `setrun`, `setpri`, the choices of `swtch` and `sched`)
-- and kernel/sig.c (`signal`, `pgsignal`, `psignal`, `issig`, `ssig`, `kill`), over `struct proc`
-- of kernel/include/proc.h. A pointer to a process is its index in `proc[]`, and a wait channel
-- is its address, a number. The address of the variable `runout` is a parameter.
pub mod Wakeup
pub mod Pick
pub mod Signals
pub mod Kill
pub mod Priority
mod Tests
use unix_v.Common.{
  ℕ, zero, suc, ◌+◌, ◌-◌, ◌*◌, ◌/◌, ◌%◌, ◌^◌, Bool, true, false, not, ◌&&◌, ◌||◌, Option, none,
  some, List, [], ◌∷◌, ltb, leb, ◌==◌, if◌then◌else◌, get_or, set, length, ℤ, pos, negsuc, ◌+ℤ◌,
  ltb_ℤ,
}

-- `p_stat`
pub data Stat : Type 0 where
  snull ssleep swait srun sidl szomb sstop : Stat

abbrev pub is_srun : Stat → Bool
is_srun srun = true
is_srun _ = false

abbrev pub is_snull : Stat → Bool
is_snull snull = true
is_snull _ = false

-- `p_stat == SSLEEP || p_stat == SWAIT`
abbrev pub asleep : Stat → Bool
asleep ssleep = true
asleep swait = true
asleep _ = false

-- `struct proc`, but for the registers; `sload`, `strc` and `swted` are flags, `status` is `p_exit`,
-- and `textp` an index of the table of texts
pub record Proc : Type 0 where
  pub stat : Stat
  pub sload : Bool
  pub strc : Bool
  pub pri : ℤ
  pub sig : ℕ
  pub uid : ℕ
  pub time : ℕ
  pub cpu : ℕ
  pub nice : ℤ
  pub ttyp : ℕ
  pub pid : ℕ
  pub pgrp : ℕ
  pub sigmask : ℕ
  pub wchan : ℕ
  pub ppid : ℕ
  pub sid : ℕ
  pub umask : ℕ
  pub status : ℕ
  pub addr : ℕ
  pub size : ℕ
  pub swted : Bool
  pub textp : Option ℕ

abbrev pub no_proc : Proc
no_proc = record {
  stat = snull;
  sload = false;
  strc = false;
  pri = pos 0;
  sig = 0;
  uid = 0;
  time = 0;
  cpu = 0;
  nice = pos 0;
  ttyp = 0;
  pid = 0;
  pgrp = 0;
  sigmask = 0;
  wchan = 0;
  ppid = 0;
  sid = 0;
  umask = 0;
  status = 0;
  addr = 0;
  size = 0;
  swted = false;
  textp = none;
}

-- `proc[]` and the scheduling flags; `runrun` holds the eight bits of the `int8_t`
pub record Table : Type 0 where
  pub proc : List Proc
  pub runrun : ℕ
  pub runout : ℕ
  pub curpri : ℤ

abbrev pub proc_at : Table → ℕ → Proc
proc_at t i = get_or t.proc i no_proc

-- the process `p` as `setrun` leaves it
abbrev pub running : Proc → Proc
running p = record p { wchan = 0; stat = srun }

-- `setrun` up to its test of `runout`
unfoldable pub mark : ℕ → Table → Table
mark i t = record t {
  proc = set t.proc i (running (proc_at t i));
  runrun = if ltb_ℤ (proc_at t i).pri t.curpri then (t.runrun + 1) % 256 else t.runrun;
}

-- The body of the loop of `wakeup`, with what it does to a sleeper.
unfoldable pub wake_one : (ℕ → Table → Table) → ℕ → ℕ → Table → Table
wake_one run chan i t = if (proc_at t i).wchan == chan then run i t else t

-- The loop over the processes from `i` on, `n` of them.
unfoldable pub wake_from : (ℕ → Table → Table) → ℕ → ℕ → ℕ → Table → Table
unfolding wake_one
wake_from run chan i zero t = t
wake_from run chan i (suc n) t = wake_from run chan (suc i) n (wake_one run chan i t)

abbrev pub wake_all : (ℕ → Table → Table) → ℕ → Table → Table
wake_all run chan t = wake_from run chan 0 (length t.proc) t

module _ (runout_chan : ℕ) where
  -- `setrun` wakes the swapper once `runout` is set, and resets it first: the calls of `setrun`
  -- under that `wakeup` find `runout` 0 and stop at `mark`.
  unfoldable pub wake_runout : Table → Table
  wake_runout t = wake_all mark runout_chan (record t { runout = 0 })

  unfoldable pub setrun : ℕ → Table → Table
  setrun i t =
      let t' = mark i t in
      if not (t'.runout == 0) && not (proc_at t' i).sload then wake_runout t' else t'

  unfoldable pub wakeup : ℕ → Table → Table
  wakeup chan t = wake_all setrun chan t

abbrev pub puser : ℤ
puser = pos 100

-- `p > 127` caps the priority at 127.
abbrev pub cap_pri : ℤ → ℤ
cap_pri p = if ltb_ℤ (pos 127) p then pos 127 else p

pub user_pri : Proc → ℤ
unfolding ◌+ℤ◌
user_pri p = cap_pri (pos (p.cpu % 256 / 16) +ℤ (puser +ℤ p.nice))

pub setpri : ℕ → Table → Table
unfolding user_pri
setpri i t =
    let p = user_pri (proc_at t i) in
    record t {
      runrun = if ltb_ℤ t.curpri p then (t.runrun + 1) % 256 else t.runrun;
      proc = set t.proc i (record (proc_at t i) { pri = p });
    }

-- `swtch` runs the process in core that is ready to run and has the lowest priority number; among
-- equals the first. `best` is the choice so far, `p` the process at index `i`.
abbrev pub ready : Proc → Bool
ready p = is_srun p.stat && p.sload

pub better : ℕ → Proc → Option (ℕ × ℤ) → Option (ℕ × ℤ)
better i p none = if ready p then some (i, p.pri) else none
better i p (some (j, q)) = if ready p && ltb_ℤ p.pri q then some (i, p.pri) else some (j, q)

pub pick_from : ℕ → Option (ℕ × ℤ) → List Proc → Option (ℕ × ℤ)
unfolding better
pick_from i best [] = best
pick_from i best (p ∷ l) = pick_from (suc i) (better i p best) l

-- The choice of `swtch`, with its priority; `none` where the processor idles.
pub pick : Table → Option (ℕ × ℤ)
unfolding pick_from
pick t = pick_from 0 none t.proc

-- `sched` brings in the process that has been out longest; `-1` is "none so far".
abbrev pub waiting_out : Proc → Bool
waiting_out p = is_srun p.stat && not p.sload

pub longer : ℕ → Proc → Option (ℕ × ℕ) → Option (ℕ × ℕ)
longer i p none = if waiting_out p then some (i, p.time) else none
longer i p (some (j, n)) = if waiting_out p && ltb n p.time then some (i, p.time) else some (j, n)

pub longest_from : ℕ → Option (ℕ × ℕ) → List Proc → Option (ℕ × ℕ)
unfolding longer
longest_from i best [] = best
longest_from i best (p ∷ l) = longest_from (suc i) (longer i p best) l

-- One round of `sched`: a process is brought in, or `runout` says that none waits.
pub sched_round : Table → Table
unfolding longest_from
sched_round t = elim (longest_from 0 none t.proc) [
  | none ↦ record t { runout = (t.runout + 1) % 256 }
  | some (j, n) ↦ record t { proc = set t.proc j (record (proc_at t j) { sload = true; time = 0 }) }
]

-- `NSIG` and `SIGKIL`
abbrev pub nsig : ℕ
nsig = 20

abbrev pub sigkil : ℕ
sigkil = 9

-- what `psignal` writes to the process
abbrev pub signalled : ℕ → Proc → Proc
signalled sig p = record p { sig = if p.sig == sigkil then p.sig else sig }

-- the bit of a signal in the 16-bit mask, `(uint16_t)(1U << (n - 1))`
abbrev pub mask_bit : ℕ → ℕ
mask_bit n = 2 ^ (n - 1) % 2 ^ 16

-- `p_sigmask & mask`, for a mask of one bit or of none
abbrev pub masked : ℕ → ℕ → Bool
masked mask n = not (mask_bit n == 0) && (mask / mask_bit n % 2 == 1)

-- `issig` for a process that is not traced: the pending signal, unless it is masked or ignored.
-- `disposition` is `u.u_signal`.
pub issig : (ℕ → ℕ) → Proc → ℕ
issig disposition p =
    let n = p.sig in
    if n == 0
    then 0
    else if not (n == sigkil) && masked p.sigmask n
    then 0
    else if disposition n % 2 == 0
    then n
    else 0

-- `ssig`: the old disposition and the new ones, `none` where the signal cannot be set
pub ssig : (sig func : ℕ) → (ℕ → ℕ) → Option (ℕ × (ℕ → ℕ))
ssig sig func disposition =
    if sig == 0 || leb nsig sig || sig == sigkil
    then none
    else some (disposition sig, λ n. if n == sig then func else disposition n)

abbrev pub eperm : ℕ
eperm = 1

abbrev pub esrch : ℕ
esrch = 3

abbrev pub einval : ℕ
einval = 22

-- another process in use with the terminal `tty`
abbrev pub in_group : ℕ → ℕ → ℕ → Proc → Bool
in_group tty self i p = not (is_snull p.stat) && p.ttyp == tty && not (i == self)

-- What `kill` returns: -1 with `u_error` set, or 0.
pub data Killed : Type 0 where
  refused : ℕ → Table → Killed
  delivered : Table → Killed

module _ (runout_chan : ℕ) where
  unfoldable pub psignal : ℕ → ℕ → Table → Table
  unfolding setrun
  psignal sig i t =
      if leb nsig sig
      then t
      else (let t' = record t { proc = set t.proc i (signalled sig (proc_at t i)) } in
          if asleep (proc_at t' i).stat then setrun runout_chan i t' else t')

  -- The loops of `signal`, `pgsignal` and `kill`: a signal to every process that the test selects,
  -- in order, `n` of them from `i`.
  pub signal_one : (ℕ → Proc → Bool) → ℕ → ℕ → Table → Table
  unfolding psignal
  signal_one test sig i t = if test i (proc_at t i) then psignal sig i t else t

  pub signal_from : (ℕ → Proc → Bool) → ℕ → ℕ → ℕ → Table → Table
  unfolding signal_one
  signal_from test sig i zero t = t
  signal_from test sig i (suc n) t = signal_from test sig (suc i) n (signal_one test sig i t)

  pub signal : ℕ → ℕ → Table → Table
  unfolding signal_from
  signal tp sig t = signal_from (λ i p. p.ttyp == tp) sig 0 (length t.proc) t

  pub pgsignal : ℤ → ℕ → Table → Table
  unfolding signal_from
  pgsignal (negsuc n) sig t = t
  pgsignal (pos pgid) sig t =
      if pgid == 0 then t else signal_from (λ i p. p.pgrp == pgid) sig 0 (length t.proc) t

  -- `kill` of one process: the first that is in use and has the number. `uid` is `u.u_uid`.
  pub kill_one : ℕ → ℕ → ℕ → ℕ → ℕ → Table → Killed
  unfolding psignal
  kill_one uid pid sig i zero t = refused esrch t
  kill_one uid pid sig i (suc n) t =
      let p = proc_at t i in
      let rest = kill_one uid pid sig (suc i) n t in
      if not (is_snull p.stat) && p.pid == pid
      then (if not (uid == 0) && not (uid == p.uid)
          then refused eperm t
          else delivered (psignal sig i t))
      else rest

  -- `kill` of `pid`; `self` is the caller, the process `u.u_procp`.
  pub kill_sig : ℕ → ℕ → ℤ → ℕ → Table → Killed
  unfolding kill_one signal_from
  kill_sig self uid (pos zero) sig t =
      delivered (signal_from (in_group (proc_at t self).ttyp self) sig 0 (length t.proc) t)
  kill_sig self uid (pos (suc n)) sig t = kill_one uid (suc n) sig 0 (length t.proc) t
  kill_sig self uid (negsuc zero) sig t = delivered (
      signal_from (λ i p. not (is_snull p.stat) && uid == 0 && not (i == self)) sig 0
        (length t.proc) t)
  kill_sig self uid (negsuc (suc n)) sig t = delivered t

  -- A negative signal is, as the `uint32_t` of `u_arg`, no smaller than NSIG.
  pub kill : ℕ → ℕ → ℤ → ℕ → Table → Killed
  unfolding kill_sig
  kill self uid pid sig t = if leb nsig sig then refused einval t else kill_sig self uid pid sig t
