-- ===== src/Proc/Wakeup.antt =====
-- `wakeup` of kernel/sched/slp.c.
use unix_v.Common.{
  ℕ, zero, suc, ◌+◌, ◌≤◌, ◌<◌, ◌≡◌, ◌≢◌, refl, arith, length, ◌==◌, if◌then◌else◌, get_or-set,
  length-set, inl, inr, Bool-cases, ◌⊎◌, not, ◌&&◌, ◌∙◌, sym, ltb, ltb→lt, get_or-past,
}
use unix_v.Proc.{
  Proc, Table, no_proc, proc_at, running, mark, wake_one, wake_from, wake_runout, setrun, wakeup,
}

-- What a call that makes process `i` runnable may do: others change only to running, and only if
-- they sleep on `ro`.
pub record Wakes (ro : ℕ) (run : ℕ → Table → Table) : Type 0 where
  pub same_length : (i : ℕ) (t : Table) → length (run i t).proc ≡ length t.proc
  pub runs : (i : ℕ) (t : Table) → i < length t.proc → proc_at (run i t) i ≡ running (proc_at t i)
  pub only :
      (i : ℕ) (t : Table) (j : ℕ)
      → i < length t.proc
      → (proc_at (run i t) j ≡ proc_at t j) ⊎ (proc_at (run i t) j ≡ running (proc_at t j))
  pub others :
      (i : ℕ) (t : Table) (j : ℕ)
      → i < length t.proc
      → i ≢ j
      → (proc_at t j).wchan ≢ ro
      → proc_at (run i t) j ≡ proc_at t j

module _ (ro : ℕ) (run : ℕ → Table → Table) (w : Wakes ro run) (chan : ℕ) where
  length-wake_one : (i : ℕ) (t : Table) → length (wake_one run chan i t).proc ≡ length t.proc
  unfolding wake_one
  length-wake_one i t = ground (arith, w.same_length i t)

  -- A process that runs, or is made to run, stays so.
  wake_one-running :
      (p : Proc) (j i : ℕ) (t : Table)
      → i < length t.proc
      → proc_at t j ≡ running p
      → proc_at (wake_one run chan i t) j ≡ running p
  unfolding wake_one
  wake_one-running p j i t h e = ground (arith, w.only i t j h)

  wake_one-here :
      (i : ℕ) (t : Table)
      → i < length t.proc
      → (proc_at t i).wchan ≡ chan
      → proc_at (wake_one run chan i t) i ≡ running (proc_at t i)
  unfolding wake_one
  wake_one-here i t h c = ground (arith, w.runs i t h)

  -- A sleeper is left alone or made to run.
  wake_one-other :
      (p : Proc) (j i : ℕ) (t : Table)
      → i < length t.proc
      → proc_at t j ≡ p
      → (proc_at (wake_one run chan i t) j ≡ p) ⊎ (proc_at (wake_one run chan i t) j ≡ running p)
  unfolding wake_one
  wake_one-other p j i t h e = ground (arith, w.only i t j h)

  wake_one-apart :
      (i : ℕ) (t : Table) (j : ℕ)
      → i < length t.proc
      → (proc_at t j).wchan ≢ chan
      → (proc_at t j).wchan ≢ ro
      → proc_at (wake_one run chan i t) j ≡ proc_at t j
  unfolding wake_one
  wake_one-apart i t j h c r = elim (Bool-cases ((proc_at t i).wchan == chan)) [
    | inl hit ↦ ground (arith, w.others i t j h)
    | inr miss ↦ ground arith
  ]

  wake_from-running :
      (p : Proc) (j i n : ℕ) (t : Table)
      → i + n ≤ length t.proc
      → proc_at t j ≡ running p
      → proc_at (wake_from run chan i n t) j ≡ running p
  unfolding wake_from
  wake_from-running p j i zero t h e = e
  wake_from-running p j i (suc n) t h e =
      wake_from-running p j (suc i) n (wake_one run chan i t) (omega (arith, length-wake_one i t))
        (wake_one-running p j i t (omega arith) e)

  wake_from-sleeper :
      (p : Proc) (j i n : ℕ) (t : Table)
      → i + n ≤ length t.proc
      → i ≤ j
      → j < i + n
      → p.wchan ≡ chan
      → proc_at t j ≡ p
      → proc_at (wake_from run chan i n t) j ≡ running p
  unfolding wake_from
  wake_from-sleeper p j i zero t h lo hi c e = absurd (omega arith)
  wake_from-sleeper p j i (suc n) t h lo hi c e =
      let t' = wake_one run chan i t in
      let h' : suc i + n ≤ length t'.proc = omega (arith, length-wake_one i t) in
      elim (Bool-cases (i == j)) [
        | inl here ↦ wake_from-running p j (suc i) n t' h' (ground (arith, wake_one-here i t))
        | inr later ↦ elim (wake_one-other p j i t (omega arith) e) [
          | inl same ↦ wake_from-sleeper p j (suc i) n t' h' (ground arith) (omega arith) c same
          | inr up ↦ wake_from-running p j (suc i) n t' h' up
        ]
      ]

  wake_from-apart :
      (j i n : ℕ) (t : Table)
      → i + n ≤ length t.proc
      → (proc_at t j).wchan ≢ chan
      → (proc_at t j).wchan ≢ ro
      → proc_at (wake_from run chan i n t) j ≡ proc_at t j
  unfolding wake_from
  wake_from-apart j i zero t h c r = refl
  wake_from-apart j i (suc n) t h c r =
      let e = wake_one-apart i t j (omega arith) c r in
      let h' = length-wake_one i t in
      wake_from-apart j (suc i) n (wake_one run chan i t) (omega arith) (rw e c) (rw e r) ∙ e

  length-wake_from : (i n : ℕ) (t : Table) → length (wake_from run chan i n t).proc ≡ length t.proc
  unfolding wake_from
  length-wake_from i zero t = refl
  length-wake_from i (suc n) t =
      length-wake_from (suc i) n (wake_one run chan i t) ∙ length-wake_one i t

mark-at :
    (i : ℕ) (t : Table) (j : ℕ)
    → i < length t.proc
    → proc_at (mark i t) j ≡ (if i == j then running (proc_at t i) else proc_at t j)
unfolding mark
mark-at i t j h = get_or-set t.proc i j (running (proc_at t i)) no_proc h

mark-Wakes : (ro : ℕ) → Wakes ro mark
unfolding mark
mark-Wakes ro = record {
  same_length = λ i t. length-set t.proc i (running (proc_at t i));
  runs = λ i t h. ground (arith, mark-at i t i h);
  only = λ i t j h. ground (arith, mark-at i t j h);
  others = λ i t j h ne c. ground (arith, mark-at i t j h);
}

module _ (ro : ℕ) where
  length-wake_runout : (t : Table) → length (wake_runout ro t).proc ≡ length t.proc
  unfolding wake_runout
  length-wake_runout t =
      length-wake_from ro mark (mark-Wakes ro) ro 0 (length t.proc) (record t { runout = 0 })

  wake_runout-running :
      (p : Proc) (j : ℕ) (t : Table)
      → proc_at t j ≡ running p
      → proc_at (wake_runout ro t) j ≡ running p
  unfolding wake_runout
  wake_runout-running p j t =
      wake_from-running ro mark (mark-Wakes ro) ro p j 0 (length t.proc) (record t { runout = 0 })
        (omega arith)

  wake_runout-apart :
      (j : ℕ) (t : Table) → (proc_at t j).wchan ≢ ro → proc_at (wake_runout ro t) j ≡ proc_at t j
  unfolding wake_runout
  wake_runout-apart j t c =
      wake_from-apart ro mark (mark-Wakes ro) ro j 0 (length t.proc) (record t { runout = 0 })
        (omega arith) c c

  wake_runout-only :
      (j : ℕ) (t : Table)
      → (proc_at (wake_runout ro t) j ≡ proc_at t j)
        ⊎ (proc_at (wake_runout ro t) j ≡ running (proc_at t j))
  unfolding wake_runout
  wake_runout-only j t = elim (Bool-cases ((proc_at t j).wchan == ro)) [
    | inr apart ↦ inl (wake_runout-apart j t (ground arith))
    | inl sleeps ↦ elim (Bool-cases (ltb j (length t.proc))) [
      | inl inside ↦ inr (
          wake_from-sleeper ro mark (mark-Wakes ro) ro (proc_at t j) j 0 (length t.proc)
            (record t { runout = 0 }) (omega arith) (omega arith)
            (omega (arith, ltb→lt j (length t.proc) inside)) (ground arith) refl)
      | inr outside ↦ inl (
          get_or-past (wake_runout ro t).proc j no_proc (ground (arith, length-wake_runout t))
          ∙ sym (get_or-past t.proc j no_proc (ground arith)))
    ]
  ]

  setrun-cases :
      (i : ℕ) (t : Table) → (setrun ro i t ≡ mark i t) ⊎ (setrun ro i t ≡ wake_runout ro (mark i t))
  unfolding setrun
  setrun-cases i t =
      elim (Bool-cases (not ((mark i t).runout == 0) && not (proc_at (mark i t) i).sload)) [
        | inl out ↦ inr (rw out)
        | inr stays ↦ inl (rw stays)
      ]

  pub setrun-Wakes : Wakes ro (setrun ro)
  setrun-Wakes = record {
    same_length = λ i t.
        ground
          (arith, setrun-cases i t, (mark-Wakes ro).same_length i t, length-wake_runout (mark i t));
    runs = λ i t h. ground (
      arith,
      setrun-cases i t,
      (mark-Wakes ro).runs i t h,
      wake_runout-running (proc_at t i) i (mark i t),
    );
    only = λ i t j h. ground (
      arith,
      setrun-cases i t,
      (mark-Wakes ro).only i t j h,
      wake_runout-only j (mark i t),
      wake_runout-running (proc_at t j) j (mark i t),
    );
    others = λ i t j h ne c. ground (
      arith,
      setrun-cases i t,
      (mark-Wakes ro).others i t j h ne c,
      wake_runout-apart j (mark i t),
    );
  }

  -- After `wakeup` on a channel every process that slept on it is runnable and off its channel,
  -- with all else as before; and a process that slept neither on it nor on the swapper's channel
  -- is as before.
  pub wakeup-exact :
      (chan : ℕ) (t : Table) (j : ℕ)
      → j < length t.proc
      → ((proc_at t j).wchan ≡ chan → proc_at (wakeup ro chan t) j ≡ running (proc_at t j))
        × ((proc_at t j).wchan ≢ chan
            → (proc_at t j).wchan ≢ ro
            → proc_at (wakeup ro chan t) j ≡ proc_at t j)
  unfolding wakeup
  wakeup-exact chan t j h = (
    λ e.
        wake_from-sleeper ro (setrun ro) setrun-Wakes chan (proc_at t j) j 0 (length t.proc) t
          (omega arith) (omega arith) (omega arith) e refl,
    λ c r. wake_from-apart ro (setrun ro) setrun-Wakes chan j 0 (length t.proc) t (omega arith) c r,
  )

  -- With `runout` 0 `setrun` is `mark`, so the calls under the `wakeup` of `setrun` go no deeper.
  pub setrun-mark : (i : ℕ) (t : Table) → t.runout ≡ 0 → setrun ro i t ≡ mark i t
  unfolding setrun mark
  setrun-mark i t e = rw e

-- what `wakeup` and `psignal` leave of a process that is not sent a signal
unfoldable pub IsWoken : (p q : Proc) → Type 0
IsWoken p q = (q ≡ p) ⊎ (q ≡ running p)

wake_from-IsWoken :
    (ro : ℕ) (run : ℕ → Table → Table) (w : Wakes ro run) (chan : ℕ)
    → (p : Proc) (j i n : ℕ) (t : Table) → i + n ≤ length t.proc
    → IsWoken p (proc_at t j)
    → IsWoken p (proc_at (wake_from run chan i n t) j)
unfolding wake_from IsWoken
wake_from-IsWoken ro run w chan p j i zero t h e = e
wake_from-IsWoken ro run w chan p j i (suc n) t h e =
    wake_from-IsWoken ro run w chan p j (suc i) n (wake_one run chan i t)
      (omega (arith, length-wake_one ro run w chan i t))
      (ground
        (arith, e, wake_one-other ro run w chan p j i t, wake_one-running ro run w chan p j i t))

pub wakeup-IsWoken :
    (ro chan : ℕ) (t : Table) (j : ℕ) → IsWoken (proc_at t j) (proc_at (wakeup ro chan t) j)
unfolding wakeup IsWoken
wakeup-IsWoken ro chan t j =
    wake_from-IsWoken ro (setrun ro) (setrun-Wakes ro) chan (proc_at t j) j 0 (length t.proc) t
      (omega arith) (inl refl)

pub length-wakeup : (ro chan : ℕ) (t : Table) → length (wakeup ro chan t).proc ≡ length t.proc
unfolding wakeup
length-wakeup ro chan t = length-wake_from ro (setrun ro) (setrun-Wakes ro) chan 0 (length t.proc) t
