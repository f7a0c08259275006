-- ===== src/Life.antt =====
-- The life of a process: `newproc` of kernel/sched/slp.c, and `exit`, `sys_exit`, `rexit`, `syswait`
-- and `sys_waitpid` of kernel/sys.c. The address of `proc[i]`, on which its owner waits, is a
-- function of the index. The copy of the image in `newproc`, and what `exit` gives back of files,
-- directory and text, act on the other components.
pub mod Reap
pub mod Wait
pub mod Orphan
pub mod Exit
pub mod Spawn
mod Tests
use unix_v.Common.{
  ℕ, zero, suc, ◌+◌, ◌-◌, ◌*◌, ◌/◌, ◌%◌, ◌^◌, Bool, true, false, not, ◌&&◌, ◌||◌, Option, none,
  some, List, [], ◌∷◌, ltb, leb, ◌==◌, if◌then◌else◌, get_or, set, length, ℤ, pos, negsuc,
}
use unix_v.CoreMap.{CoreMap, malloc, mfree}
use unix_v.Proc.{
  Proc, Table, Stat, snull, srun, szomb, sstop, swait, no_proc, proc_at, is_snull, puser, setrun,
  wakeup, psignal,
}

abbrev pub echild : ℕ
echild = 10

abbrev pub eagain : ℕ
eagain = 11

abbrev pub enomem : ℕ
enomem = 12

abbrev pub sigchld : ℕ
sigchld = 17

abbrev pub is_szomb : Stat → Bool
is_szomb szomb = true
is_szomb _ = false

abbrev pub is_sstop : Stat → Bool
is_sstop sstop = true
is_sstop _ = false

-- `proc[]` with its flags, `coremap`, `mpid`, and the index of `u.u_procp`
pub record System : Type 0 where
  pub table : Table
  pub core : CoreMap
  pub mpid : ℕ
  pub self : ℕ

abbrev pub at : System → ℕ → Proc
at s i = proc_at s.table i

abbrev pub put_proc : ℕ → Proc → Table → Table
put_proc i p t = record t { proc = set t.proc i p }

-- the first empty slot, from `i` on
pub empty_slot : (i : ℕ) → List Proc → Option ℕ
empty_slot i [] = none
empty_slot i (p ∷ l) = let rest = empty_slot (suc i) l in if is_snull p.stat then some i else rest

-- what `newproc` writes into the slot `q` of the child of `p`, before it asks for core
pub child_of : (p q : Proc) → (pid : ℕ) → Proc
child_of p q pid = record q {
  stat = srun;
  sload = true;
  strc = false;
  swted = false;
  pri = puser;
  pid = pid % 2 ^ 16;
  ppid = p.pid;
  uid = p.uid;
  time = 0;
  cpu = 0;
  nice = p.nice;
  ttyp = p.ttyp;
  textp = p.textp;
}

-- What `newproc` comes to in the parent: the index of the child, or an error.
pub data Spawned : Type 0 where
  spawned : ℕ → System → Spawned
  not_spawned : ℕ → System → Spawned

-- The slot `i` has been found.
pub spawn_at : ℕ → System → Spawned
spawn_at i s =
    let pid = s.mpid + 1 in
    let c = child_of (at s s.self) (at s i) pid in
    let n = (at s s.self).size in
    let (a, core) = malloc s.core n in
    if a == 0
    then not_spawned enomem (record s {
      table = put_proc i (record c { stat = snull }) s.table;
      core = core;
      mpid = pid;
    })
    else spawned i (record s {
      table = put_proc i (record c { addr = a; size = n }) s.table;
      core = core;
      mpid = pid;
    })

pub newproc : System → Spawned
newproc s = elim (empty_slot 0 s.table.proc) [ none ↦ not_spawned eagain s | some i ↦ spawn_at i s ]

-- the slot of a process that has been waited for
pub buried : Proc → Proc
buried p = record p { addr = 0; stat = snull; pid = 0; ppid = 0; sig = 0; status = 0 }

-- the core of the process is given back
pub give_back : Proc → CoreMap → CoreMap
give_back p core = if p.addr == 0 || p.size == 0 then core else mfree core p.size p.addr

pub reap : ℕ → System → System
reap i s = record s {
  table = put_proc i (buried (at s i)) s.table;
  core = give_back (at s i) s.core;
}

-- What a wait comes to: the number and the status of a child, no child in a call with WNOHANG, a
-- sleep, or an error.
pub data Waited : Type 0 where
  child : (pid status : ℕ) → System → Waited
  nothing_yet : System → Waited
  sleeps : System → Waited
  refused : ℕ → System → Waited

-- the status of a stopped child
abbrev pub stop_status : Proc → ℕ
stop_status p = p.sig * 256 + 127

-- a stopped child that is reported
pub report_stop : ℕ → System → System
report_stop i s = record s { table = put_proc i (record (at s i) { swted = true }) s.table }

module _ (runout_chan : ℕ) where
  -- a stopped child that has been reported goes on
  pub resume : ℕ → System → System
  resume i s =
      let t = put_proc i (record (at s i) { strc = false; swted = false }) s.table in
      record s { table = setrun runout_chan i t }

  -- the loop of `syswait` over the `n` processes from `i` on; `found` is `f != 0`
  pub wait_from : (n i : ℕ) → (found : Bool) → System → Waited
  wait_from zero i found s = if found then sleeps s else refused echild s
  wait_from (suc n) i found s =
      let p = at s i in
      let next = wait_from n (suc i) found s in
      let after = wait_from n (suc i) true s in
      let resumed = wait_from n (suc i) true (resume i s) in
      if p.ppid == (at s s.self).pid
      then (if is_szomb p.stat
          then child p.pid p.status (reap i s)
          else if is_sstop p.stat
          then (if p.swted then resumed else child p.pid (stop_status p) (report_stop i s))
          else after)
      else next

  pub syswait : System → Waited
  syswait s = wait_from (length s.table.proc) 0 false s

-- `sys_waitpid`: is the child one that is asked for? `any` is a `pid` of -1.
abbrev pub asked_for : (any : Bool) → (pid : ℕ) → Proc → Bool
asked_for any pid p = any || p.pid == pid

abbrev pub efault : ℕ
efault = 106

-- The loop of `sys_waitpid`; `untraced` is WUNTRACED, and `stores` says whether the status can be
-- stored, which it can where there is no place given for it.
pub waitpid_from :
    (any : Bool) → (pid : ℕ) → (nohang untraced stores found : Bool) → (n i : ℕ) → System → Waited
waitpid_from any pid nohang untraced stores found zero i s =
    if found then (if nohang then nothing_yet s else sleeps s) else refused echild s
waitpid_from any pid nohang untraced stores found (suc n) i s =
    let p = at s i in
    let next = waitpid_from any pid nohang untraced stores found n (suc i) s in
    let after = waitpid_from any pid nohang untraced stores true n (suc i) s in
    if p.ppid == (at s s.self).pid && asked_for any pid p
    then (if is_szomb p.stat
        then (if stores then child p.pid p.status (reap i s) else refused efault s)
        else if untraced && is_sstop p.stat && not p.swted
        then (let s' = record s { table = put_proc i (record p { swted = true }) s.table } in
            if stores then child p.pid (stop_status p) s' else refused efault s')
        else after)
    else next

abbrev pub einval : ℕ
einval = 22

-- WNOHANG and WUNTRACED in the options, which are a word of 32 bits
abbrev pub wnohang : (options : ℕ) → Bool
wnohang options = options % 2 == 1

abbrev pub wuntraced : (options : ℕ) → Bool
wuntraced options = options / 2 % 2 == 1

-- `options & ~(1 | 2)` of a word is not 0
abbrev pub has_other_options : (options : ℕ) → Bool
has_other_options options = ltb 3 options

pub waitpid : (any : Bool) → (pid options : ℕ) → (stores : Bool) → System → Waited
waitpid any pid options stores s =
    let n = length s.table.proc in
    let untraced = wuntraced options in
    if has_other_options options
    then refused einval s
    else waitpid_from any pid (wnohang options) untraced stores false n 0 s

-- the process after its exit
abbrev pub zombie : (status : ℕ) → Proc → Proc
zombie status p = record p { status = status % 2 ^ 16; strc = false; textp = none; stat = szomb }

-- the first process with the number, from `i` on
pub find_pid : (pid i : ℕ) → List Proc → Option ℕ
find_pid pid i [] = none
find_pid pid i (p ∷ l) = let rest = find_pid pid (suc i) l in if p.pid == pid then some i else rest

module _ (runout_chan : ℕ) (address : ℕ → ℕ) where
  -- The children of the process `pid` go to `proc[1]`, which is woken for each.
  pub orphan : (pid : ℕ) → ℕ → Table → Table
  orphan pid i t =
      let t' = wakeup runout_chan (address 1) t in
      let t'' = put_proc i (record (proc_at t' i) { ppid = 1 }) t' in
      if (proc_at t i).ppid == pid
      then (if is_sstop (proc_at t'' i).stat then setrun runout_chan i t'' else t'')
      else t

  pub orphan_from : (pid n i : ℕ) → Table → Table
  orphan_from pid zero i t = t
  orphan_from pid (suc n) i t = orphan_from pid n (suc i) (orphan pid i t)

  -- the parent is woken, and gets SIGCHLD from `sys_exit`
  pub tell_parent : (chld : Bool) → (ppid : ℕ) → Table → Table
  tell_parent chld ppid t = elim (find_pid ppid 0 t.proc) [
    | none ↦ t
    | some q ↦
        let t' = wakeup runout_chan (address q) t in
        if chld then psignal runout_chan sigchld q t' else t'
  ]

  pub exit_table : (chld : Bool) → (status : ℕ) → ℕ → Table → Table
  exit_table chld status self t =
      let p = proc_at t self in
      let t' = put_proc self (zombie status p) t in
      let t'' = orphan_from p.pid (length t.proc) 0 t' in
      tell_parent chld (proc_at t'' self).ppid t''

  -- `exit`, and `sys_exit`, which takes the status from its low byte
  pub exit : (status : ℕ) → System → System
  exit status s = record s { table = exit_table false status s.self s.table }

  pub sys_exit : (arg : ℕ) → System → System
  sys_exit arg s = record s { table = exit_table true (arg % 256 * 256) s.self s.table }

  pub rexit : (r0 : ℕ) → System → System
  rexit r0 s = exit (r0 * 256 % 2 ^ 32) s
