-- ===== src/Clock/Time.antt =====
-- The time of day of kernel/clock.c, and the counters of `clock`.
use unix_v.Common.{ℕ, suc, ◌+◌, ◌-◌, ◌*◌, ◌^◌, ◌<◌, ◌≡◌, ◌++◌, arith, Bool, true, false}
use unix_v.Proc.{Table}
use unix_v.Clock.{
  Clock, Channels, hz, clock, account, callouts, each_second, next_second, wake_sleepers,
  wake_runin,
}

-- the ticks since the start of the epoch
abbrev pub ticks : Clock → ℕ
ticks s = (s.time_0 * 2 ^ 32 + s.time_1) * hz + s.lbolt

-- the wakeups and the aging of the processes leave the time alone
each_second-time :
    (ch : Channels) (signals : ℕ → Table → Table) (user : Bool) (s : Clock)
    → let t = each_second ch signals user s in
      let n = next_second s in (t.time_0 ≡ n.time_0) × (t.time_1 ≡ n.time_1) × (t.lbolt ≡ n.lbolt)
unfolding each_second wake_sleepers wake_runin
each_second-time ch signals true s = (ground arith, ground arith, ground arith)
each_second-time ch signals false s = (ground arith, ground arith, ground arith)

next_second-ticks :
    (s : Clock)
    → s.lbolt ≡ hz
    → s.time_1 < 2 ^ 32
    → s.time_0 < 2 ^ 32 - 1
    → (ticks (next_second s) ≡ ticks s)
      × ((next_second s).lbolt ≡ 0)
      × ((next_second s).time_1 < 2 ^ 32)
unfolding next_second
next_second-ticks s full low high = (ground arith, ground arith, ground arith)

-- Each interrupt moves the time of day on by one tick, until its 64 bits are used up; the ticks of
-- the current second stay below `HZ`.
pub clock-ticks :
    (ch : Channels) (signals : ℕ → Table → Table) (user : Bool) (pc : ℕ) (s : Clock)
    → s.lbolt < hz
    → s.time_1 < 2 ^ 32
    → s.time_0 < 2 ^ 32 - 1
    → (ticks (clock ch signals user pc s) ≡ suc (ticks s))
      × ((clock ch signals user pc s).lbolt < hz)
      × ((clock ch signals user pc s).time_1 < 2 ^ 32)
unfolding clock account
clock-ticks ch signals user pc s lb low high =
    let (calls, rest) = callouts s.callout in
    let a = account user pc (record s { callout = rest; called = s.called ++ calls }) in
    let same = each_second-time ch signals user a in
    let next = next_second-ticks a in
    (ground (arith, same, next), ground (arith, same, next), ground (arith, same, next))
