-- ===== src/Proc/Pick.antt =====
-- The choice of `swtch` of kernel/sched/slp.c.
use unix_v.Common.{
  ℕ, zero, suc, ◌+◌, ◌<◌, ◌≡◌, Option, none, some, List, [], ◌∷◌, arith, get_or, length, inl, inr,
  true, ◌⊎◌, ℤ, ◌≤ℤ◌,
}
use unix_v.Proc.{Proc, Table, no_proc, proc_at, ready, better, pick_from, pick}

-- the choice has a priority number of `x` or lower
abbrev pub Below : Option (ℕ × ℤ) → ℤ → Type 0
Below none x = ⊥
Below (some (j, q)) x = q ≤ℤ x

better-Below :
    (i : ℕ) (p : Proc) (best : Option (ℕ × ℤ)) (x : ℤ) → Below best x → Below (better i p best) x
unfolding better
better-Below i p none x h = absurd h
better-Below i p (some (j, q)) x h = ground arith

better-ready :
    (i : ℕ) (p : Proc) (best : Option (ℕ × ℤ)) → ready p ≡ true → Below (better i p best) p.pri
unfolding better
better-ready i p none h = ground arith
better-ready i p (some (j, q)) h = ground arith

pick_from-Below :
    (i : ℕ) (best : Option (ℕ × ℤ)) (l : List Proc) (x : ℤ)
    → Below best x
    → Below (pick_from i best l) x
unfolding pick_from
pick_from-Below i best [] x h = h
pick_from-Below i best (p ∷ l) x h =
    pick_from-Below (suc i) (better i p best) l x (better-Below i p best x h)

pick_from-ready :
    (i : ℕ) (best : Option (ℕ × ℤ)) (l : List Proc) (m : ℕ)
    → m < length l
    → ready (get_or l m no_proc) ≡ true
    → Below (pick_from i best l) (get_or l m no_proc).pri
unfolding pick_from
pick_from-ready i best [] m h r = absurd (omega arith)
pick_from-ready i best (p ∷ l) zero h r =
    pick_from-Below (suc i) (better i p best) l p.pri (better-ready i p best r)
pick_from-ready i best (p ∷ l) (suc m) h r =
    pick_from-ready (suc i) (better i p best) l m (omega arith) r

better-cases :
    (i : ℕ) (p : Proc) (best : Option (ℕ × ℤ))
    → (better i p best ≡ best) ⊎ ((ready p ≡ true) × (better i p best ≡ some (i, p.pri)))
unfolding better
better-cases i p none = ground arith
better-cases i p (some (j, q)) = ground arith

-- what the choice is: the earlier one, or a ready process of the list
pick_from-from :
    (i : ℕ) (best : Option (ℕ × ℤ)) (l : List Proc) (j : ℕ) (q : ℤ)
    → pick_from i best l ≡ some (j, q)
    → (best ≡ some (j, q))
      ⊎ ((m : ℕ) × (j ≡ i + m)
          × (m < length l)
          × (ready (get_or l m no_proc) ≡ true)
          × (q ≡ (get_or l m no_proc).pri))
unfolding pick_from
pick_from-from i best [] j q e = inl e
pick_from-from i best (p ∷ l) j q e = elim (pick_from-from (suc i) (better i p best) l j q e) [
  | inr (m, a, b, c, d) ↦ inr (suc m, omega arith, omega arith, c, d)
  | inl chosen ↦ elim (better-cases i p best) [
    | inl kept ↦ inl (ground arith)
    | inr (up, taken) ↦ inr (0, ground arith, ground arith, up, ground arith)
  ]
]

-- `swtch` chooses a process of the table that is in core and ready to run, such that no process
-- in core and ready has a lower priority number; it idles only if no process is so.
pub pick-best :
    (t : Table)
    → ((j : ℕ) (q : ℤ)
        → pick t ≡ some (j, q)
        → (j < length t.proc) × (ready (proc_at t j) ≡ true) × (q ≡ (proc_at t j).pri))
      × ((m : ℕ)
          → m < length t.proc
          → ready (proc_at t m) ≡ true
          → Below (pick t) (proc_at t m).pri)
unfolding pick
pick-best t = (
  λ j q e. elim (pick_from-from 0 none t.proc j q e) [
    | inl no_choice ↦ cc
    | inr (m, a, b, c, d) ↦ let same : j ≡ m = omega arith in rw same (b, c, d)
  ],
  pick_from-ready 0 none t.proc,
)
