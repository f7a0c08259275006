-- ===== src/Clock.antt =====
-- The clock interrupt and the callout table, kernel/clock.c, and two calls of kernel/sys.c. The table
-- is the list of its entries, without the null entry that ends it: its bound, `NCALL`, is not tested
-- by the source. Times are in ticks from the entry before, and are not negative. The functions of the callouts are recorded
-- in the order of their calls, so a `timeout` that one of them calls while the loop runs is not
-- modelled; recorded is also the pc of each call of `incupc`.
pub mod Callout
pub mod Time
mod Tests
use unix_v.Common.{
  ℕ, zero, suc, ◌+◌, ◌-◌, ◌*◌, ◌/◌, ◌%◌, ◌^◌, Option, none, some, Bool, true, false, not, ◌&&◌,
  ◌||◌, List, [], ◌∷◌, ◌++◌, ltb, leb, ◌==◌, if◌then◌else◌, get_or, set, length, ℤ, pos, negsuc,
  ltb_ℤ,
}
use unix_v.Proc.{Proc, Table, proc_at, is_snull, setpri, wakeup, puser}

-- `struct callo`
pub record Callo : Type 0 where
  pub time : ℕ
  pub arg : ℕ
  pub func : ℕ

-- `timeout`: the entry goes behind those that are due no later, and the next one counts from it.
pub timeout : (func arg tim : ℕ) → List Callo → List Callo
timeout f a t [] = record { time = t; arg = a; func = f } ∷ []
timeout f a t (c ∷ l) =
    let rest = timeout f a (t - c.time) l in
    if leb c.time t
    then c ∷ rest
    else record { time = t; arg = a; func = f } ∷ record c { time = c.time - t } ∷ l

-- the first entry that is not due counts down
pub count_down : List Callo → List Callo
count_down [] = []
count_down (c ∷ l) =
    let rest = count_down l in if c.time == 0 then c ∷ rest else record c { time = c.time - 1 } ∷ l

-- the entries that are due, and the others, which move up
pub due : List Callo → List Callo
due [] = []
due (c ∷ l) = let rest = due l in if c.time == 0 then c ∷ rest else []

pub left_over : List Callo → List Callo
left_over [] = []
left_over (c ∷ l) = let rest = left_over l in if c.time == 0 then rest else c ∷ l

-- what `clock` does to the callout table: the calls that it makes, and the table
pub callouts : List Callo → List Callo × List Callo
callouts l = let l' = count_down l in (due l', left_over l')

-- `HZ` and `SCHMAG`
abbrev pub hz : ℕ
hz = 100

abbrev pub schmag : ℕ
schmag = 10

-- the addresses of the variables that `clock` wakes processes on
pub record Channels : Type 0 where
  pub runout : ℕ
  pub tout : ℕ
  pub lbolt : ℕ
  pub runin : ℕ

-- The state of the clock: the process that runs is `curr`, and `time` and `tout` are the two words
-- of each, with the low word as `time_1` and `tout_1`.
pub record Clock : Type 0 where
  pub callout : List Callo
  pub called : List Callo
  pub utime : ℕ
  pub stime : ℕ
  pub prof : Bool
  pub profiled : List ℕ
  pub lbolt : ℕ
  pub time_0 : ℕ
  pub time_1 : ℕ
  pub tout_0 : ℕ
  pub tout_1 : ℕ
  pub runin : Bool
  pub curr : ℕ
  pub table : Table

-- the charge of one tick to the process: its `p_cpu` stays at 255
pub charge : Proc → Proc
charge p = record p { cpu = if (p.cpu + 1) % 256 == 0 then p.cpu else (p.cpu + 1) % 256 }

-- what a second does to a process: it has been in core longer, and its use of the cpu decays
pub decayed : Proc → Proc
decayed p = record p {
  time = if p.time == 127 then p.time else (p.time + 1) % 256;
  cpu = if ltb schmag (p.cpu % 256) then p.cpu % 256 - schmag else 0;
}

pub decay_one : ℕ → Table → Table
decay_one i t =
    let p = proc_at t i in
    let t' = record t { proc = set t.proc i (decayed p) } in
    if is_snull p.stat then t else if ltb_ℤ puser p.pri then setpri i t' else t'

-- the loop over `proc[]`
pub decay_from : (left i : ℕ) → Table → Table
decay_from zero i t = t
decay_from (suc n) i t = decay_from n (suc i) (decay_one i t)

-- the time of day moves on by a second
pub next_second : Clock → Clock
next_second s =
    let low = (s.time_1 + 1) % 2 ^ 32 in
    record s {
      lbolt = s.lbolt - hz;
      time_1 = low;
      time_0 = if low == 0 then (s.time_0 + 1) % 2 ^ 32 else s.time_0;
    }

-- the calls of `wakeup` on `tout`, at the time that it holds, and on `lbolt`, every four seconds
pub wake_sleepers : Channels → Clock → Clock
wake_sleepers ch s =
    let t =
      if s.time_1 == s.tout_1 && s.time_0 == s.tout_0
      then wakeup ch.runout ch.tout s.table
      else s.table in
    let t' = record t { runrun = (t.runrun + 1) % 256 } in
    record s { table = if s.time_1 % 4 == 0 then wakeup ch.runout ch.lbolt t' else t }

pub wake_runin : Channels → Clock → Clock
wake_runin ch s =
    if s.runin then record s { runin = false; table = wakeup ch.runout ch.runin s.table } else s

-- once in a second; `signals` is what `issig` and `psig` of kernel/sig.c do to the process table
pub each_second : Channels → (signals : ℕ → Table → Table) → (user : Bool) → Clock → Clock
each_second ch signals user s =
    let s' = wake_sleepers ch (next_second s) in
    let aged = record s' { table = decay_from (length s'.table.proc) 0 s'.table } in
    let woken = wake_runin ch aged in
    if user
    then record woken { table = setpri woken.curr (signals woken.curr woken.table) }
    else woken

-- the time of the process, and its charge
pub account : (user : Bool) → (pc : ℕ) → Clock → Clock
account user pc s = record s {
  utime = if user then (s.utime + 1) % 2 ^ 32 else s.utime;
  stime = if user then s.stime else (s.stime + 1) % 2 ^ 32;
  profiled = if user && s.prof then pc ∷ s.profiled else s.profiled;
  table = record s.table { proc = set s.table.proc s.curr (charge (proc_at s.table s.curr)) };
  lbolt = s.lbolt + 1;
}

-- `clock`; `user` is the test of `ps`.
pub clock : Channels → (signals : ℕ → Table → Table) → (user : Bool) → (pc : ℕ) → Clock → Clock
clock ch signals user pc s =
    let (calls, rest) = callouts s.callout in
    let s' = account user pc (record s { callout = rest; called = s.called ++ calls }) in
    if leb hz s'.lbolt then each_second ch signals user s' else s'

-- `gtime` and `stime` of kernel/sys.c: the words of the time for EAX and EDX, and the time that the
-- superuser sets, `none` for EPERM
pub gtime : Clock → ℕ × ℕ
gtime s = (s.time_0, s.time_1)

pub stime_call : (uid arg0 arg1 : ℕ) → Clock → Option Clock
stime_call uid a b s =
    if not (uid == 0) then none else some (record s { time_0 = a % 2 ^ 32; time_1 = b % 2 ^ 32 })
