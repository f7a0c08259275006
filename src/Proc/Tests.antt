-- ===== src/Proc/Tests.antt =====
-- A table of three processes: runs of the scheduler and of the signals, and the theorems at it.

use unix_v.Common.{ℕ, ◌<◌, ◌≡◌, ◌≢◌, refl, some, [], ◌∷◌, arith, true, ℤ, pos, negsuc}
use unix_v.Proc.{
  Proc, Table, no_proc, proc_at, srun, ssleep, swait, running, wakeup, setrun, mark, wake_from,
  pick, ready, psignal, kill, signal_from, delivered, refused, in_group, eperm,
}
use unix_v.Proc.Wakeup.{wakeup-exact}
use unix_v.Proc.Pick.{Below, pick-best}

-- the swapper's channel
abbrev ro : ℕ
ro = 500

abbrev shell : Proc
shell = record no_proc { stat = srun; sload = true; pri = pos 100; uid = 7; ttyp = 1; pid = 2 }

abbrev reader : Proc
reader = record no_proc {
  stat = ssleep;
  sload = true;
  pri = negsuc 49;
  uid = 3;
  ttyp = 1;
  pid = 3;
  wchan = 900;
}

abbrev daemon : Proc
daemon = record no_proc { stat = swait; pri = pos 40; uid = 0; pid = 4; wchan = 901 }

abbrev table : Table
table = record { proc = shell ∷ reader ∷ daemon ∷ []; runrun = 0; runout = 1; curpri = pos 100 }

pick_shell : pick table ≡ some (0, pos 100)
unfolding pick
pick_shell = refl

-- once its block has arrived, the reader has the better priority
pick_reader : pick (wakeup ro 900 table) ≡ some (1, negsuc 49)
unfolding pick wakeup wake_from setrun mark
pick_reader = refl

wakeup-exact_example :
    ((proc_at table 1).wchan ≡ 900 → proc_at (wakeup ro 900 table) 1 ≡ running (proc_at table 1))
    × ((proc_at table 1).wchan ≢ 900
        → (proc_at table 1).wchan ≢ ro
        → proc_at (wakeup ro 900 table) 1 ≡ proc_at table 1)
wakeup-exact_example = wakeup-exact ro 900 table 1 (omega arith)

pick-best_example :
    ((j : ℕ) (q : ℤ)
      → pick table ≡ some (j, q)
      → (j < 3) × (ready (proc_at table j) ≡ true) × (q ≡ (proc_at table j).pri))
    × ((m : ℕ) → m < 3 → ready (proc_at table m) ≡ true → Below (pick table) (proc_at table m).pri)
pick-best_example = pick-best table

-- The reader belongs to another user, and gets the signal of the shell's `kill(0, 15)`.
abbrev hit : Table
hit = signal_from ro (in_group 1 0) 15 0 3 table

-- The shell signals itself, and the reader is as before; a signal to the reader is refused.
abbrev own : Table
own = psignal ro 15 0 table

shell_signals_itself : kill ro 0 7 (pos 2) 15 table ≡ delivered own
unfolding kill
shell_signals_itself = refl

reader_is_refused : kill ro 0 7 (pos 3) 15 table ≡ refused eperm table
unfolding kill
reader_is_refused = refl
