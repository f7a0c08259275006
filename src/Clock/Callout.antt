-- ===== src/Clock/Callout.antt =====
-- The callout table of kernel/clock.c, with its differences of times: `timeout` and the loop of `clock`.
use unix_v.Common.{ℕ, suc, ◌+◌, ◌-◌, ◌<◌, ◌≡◌, refl, List, [], ◌∷◌, arith, leb, if◌then◌else◌}
use unix_v.Clock.{Callo, timeout, count_down, due, left_over, callouts}

-- a call, and the time at which it is due
pub record Alarm : Type 0 where
  pub at : ℕ
  pub arg : ℕ
  pub func : ℕ

-- the calls of a table, from `now` on
abbrev pub alarms : (now : ℕ) → List Callo → List Alarm
alarms now [] = []
alarms now (c ∷ l) =
    record { at = now + c.time; arg = c.arg; func = c.func } ∷ alarms (now + c.time) l

-- A call goes behind those that are due no later.
abbrev pub schedule : Alarm → List Alarm → List Alarm
schedule a [] = a ∷ []
schedule a (b ∷ l) = if leb b.at a.at then b ∷ schedule a l else a ∷ b ∷ l

-- `timeout` schedules its call `tim` ticks from now and moves no other call.
pub timeout-alarms :
    (f a t now : ℕ) (l : List Callo)
    → alarms now (timeout f a t l)
      ≡ schedule (record { at = now + t; arg = a; func = f }) (alarms now l)
unfolding timeout
timeout-alarms f a t now [] = refl
timeout-alarms f a t now (c ∷ l) = ground (arith, timeout-alarms f a (t - c.time) (now + c.time) l)

-- the alarms that a tick makes due, and the others, a tick nearer
abbrev pub rings : List Alarm → List Alarm
rings [] = []
rings (a ∷ l) = if leb a.at 1 then record a { at = 0 } ∷ rings l else []

abbrev pub nearer : List Alarm → List Alarm
nearer [] = []
nearer (a ∷ l) = if leb a.at 1 then nearer l else record a { at = a.at - 1 } ∷ nearer l

-- Calls that are due after the next tick are only nearer.
nearer-later :
    (n : ℕ) (l : List Callo)
    → 0 < n
    → (nearer (alarms (suc n) l) ≡ alarms n l) × (rings (alarms (suc n) l) ≡ [])
nearer-later n [] lt = (refl, refl)
nearer-later n (c ∷ l) lt =
    let rest = nearer-later (n + c.time) l (omega (arith, lt)) in
    (ground (arith, rest), ground (arith, rest))

-- Calls from the next tick on: those that count no time are due.
due-next :
    (l : List Callo)
    → (alarms 0 (due l) ≡ rings (alarms 1 l)) × (alarms 0 (left_over l) ≡ nearer (alarms 1 l))
unfolding due left_over
due-next [] = (refl, refl)
due-next (c ∷ l) =
    let rest = due-next l in
    let later = nearer-later c.time l in (ground (arith, rest, later), ground (arith, rest, later))

-- A tick of the clock makes the calls that are due within a tick, in the order in which they are
-- due, and takes them off the table; every other call is then due one tick sooner.
pub callouts-alarms :
    (l : List Callo)
    → (alarms 0 (callouts l).0 ≡ rings (alarms 0 l))
      × (alarms 0 (callouts l).1 ≡ nearer (alarms 0 l))
unfolding callouts count_down due left_over
callouts-alarms [] = (refl, refl)
callouts-alarms (c ∷ l) =
    let rest = callouts-alarms l in
    let next = due-next l in
    let later = nearer-later (c.time - 1) l in
    (ground (arith, rest, next, later), ground (arith, rest, next, later))
