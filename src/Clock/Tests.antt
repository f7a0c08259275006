-- ===== src/Clock/Tests.antt =====
-- Timers and a process that runs: runs of the clock, and the theorems at its states.
use unix_v.Common.{ℕ, ◌≡◌, refl, true, false, List, [], ◌∷◌, pos}
use unix_v.Proc.{Table, no_proc, srun}
use unix_v.Clock.{Callo, timeout, callouts, Clock, Channels}
use unix_v.Clock.Callout.{alarms, rings, nearer, callouts-alarms}

-- calls of function 1 in 3 ticks, 2 in 1 and 3 in 3
abbrev timers : List Callo
timers =
    record { time = 1; arg = 0; func = 2 }
    ∷ record { time = 2; arg = 0; func = 1 }
    ∷ record { time = 0; arg = 0; func = 3 }
    ∷ []

timers_from_calls : timeout 3 0 3 (timeout 2 0 1 (timeout 1 0 3 [])) ≡ timers
unfolding timeout
timers_from_calls = refl

callouts-alarms_example :
    (alarms 0 (callouts timers).0 ≡ rings (alarms 0 timers))
    × (alarms 0 (callouts timers).1 ≡ nearer (alarms 0 timers))
callouts-alarms_example = callouts-alarms timers

abbrev ch : Channels
ch = record { runout = 1; tout = 2; lbolt = 3; runin = 4 }

-- the last tick of a second, and of the low word of the time
abbrev late : Clock
late = record {
  callout = timers;
  called = [];
  utime = 0;
  stime = 0;
  prof = false;
  profiled = [];
  lbolt = 99;
  time_0 = 0;
  time_1 = 4294967295;
  tout_0 = 0;
  tout_1 = 0;
  runin = true;
  curr = 0;
  table = record {
    proc = record no_proc { stat = srun; cpu = 30 } ∷ [];
    runrun = 0;
    runout = 0;
    curpri = pos 0;
  };
}

abbrev no_signals : ℕ → Table → Table
no_signals i t = t
