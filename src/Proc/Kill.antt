-- ===== src/Proc/Kill.antt =====
-- `kill` of kernel/sig.c.
use unix_v.Common.{
  ℕ, zero, suc, ◌+◌, ◌≤◌, ◌<◌, ◌≡◌, ◌≢◌, refl, arith, length, ◌==◌, if◌then◌else◌, inl, inr,
  Bool-cases, true, false, Bool, ◌⊎◌, leb, pos,
}
use unix_v.Proc.{
  Proc, Table, proc_at, running, signal_one, signal_from, nsig, sigkil, refused, delivered,
  kill_one, kill_sig, kill, is_snull, in_group,
}
use unix_v.Proc.Signals.{length-psignal, psignal-other, psignal-apart, psignal_self}

-- the signal pending for a process that has been sent one
abbrev pub pending : ℕ → Proc → ℕ
pending sig p = if p.sig == sigkil then p.sig else sig

module _ (ro : ℕ) (test : ℕ → Proc → Bool)
    (stable : (j : ℕ) (p : Proc) → test j p ≡ true → test j (running p) ≡ true) (sig : ℕ)
    (small : sig < nsig) where
  length-signal_one :
      (i : ℕ) (t : Table)
      → i < length t.proc
      → length (signal_one ro test sig i t).proc ≡ length t.proc
  unfolding signal_one
  length-signal_one i t h = ground (arith, length-psignal ro sig i t h)

  signal_one-other :
      (i : ℕ) (t : Table) (j : ℕ)
      → i < length t.proc
      → i ≢ j
      → (proc_at (signal_one ro test sig i t) j ≡ proc_at t j)
        ⊎ (proc_at (signal_one ro test sig i t) j ≡ running (proc_at t j))
  unfolding signal_one
  signal_one-other i t j h ne = ground (arith, psignal-other ro sig i t h j ne)

  signal_one_self :
      (i : ℕ) (t : Table)
      → i < length t.proc
      → test i (proc_at t i) ≡ true
      → (proc_at (signal_one ro test sig i t) i).sig ≡ pending sig (proc_at t i)
  unfolding signal_one
  signal_one_self i t h yes_i = ground (arith, psignal_self ro sig i t h small)

  -- The processes that the loop has passed keep their pending signal.
  signal_from-passed :
      (i n : ℕ) (t : Table) (j : ℕ)
      → i + n ≤ length t.proc
      → j < i
      → (proc_at (signal_from ro test sig i n t) j).sig ≡ (proc_at t j).sig
  unfolding signal_from
  signal_from-passed i zero t j h lt = refl
  signal_from-passed i (suc n) t j h lt = ground (
    arith,
    signal_from-passed (suc i) n (signal_one ro test sig i t) j,
    signal_one-other i t j,
    length-signal_one i t,
  )

  pub signal_from-reaches :
      (i n : ℕ) (t : Table) (j : ℕ)
      → i + n ≤ length t.proc
      → i ≤ j
      → j < i + n
      → test j (proc_at t j) ≡ true
      → (proc_at (signal_from ro test sig i n t) j).sig ≡ pending sig (proc_at t j)
  unfolding signal_from
  signal_from-reaches i zero t j h lo hi sel = absurd (omega arith)
  signal_from-reaches i (suc n) t j h lo hi sel = elim (Bool-cases (i == j)) [
    | inl here ↦
        let same : i ≡ j = ground arith in
        ground (
          arith,
          signal_from-passed (suc i) n (signal_one ro test sig i t) j,
          signal_one_self i t,
          length-signal_one i t,
        )
    | inr later ↦ ground (
      arith,
      signal_from-reaches (suc i) n (signal_one ro test sig i t) j,
      signal_one-other i t j,
      length-signal_one i t,
      stable j (proc_at t j) sel,
    )
  ]

in_group-running :
    (tty self i : ℕ) (p : Proc)
    → in_group tty self i p ≡ true
    → in_group tty self i (running p) ≡ true
in_group-running tty self i p h = ground arith

module _ (ro : ℕ) where
  -- `kill(0, sig)` reaches every process in use that has the caller's terminal, except the caller,
  -- whoever owns it: afterwards the signal is pending for it, unless a SIGKIL was. The user
  -- number of the caller plays no part.
  pub kill_group-reaches :
      (self uid sig : ℕ) (t t' : Table) (j : ℕ)
      → kill ro self uid (pos 0) sig t ≡ delivered t'
      → j < length t.proc
      → is_snull (proc_at t j).stat ≡ false
      → (proc_at t j).ttyp ≡ (proc_at t self).ttyp
      → j ≢ self
      → (proc_at t' j).sig ≡ pending sig (proc_at t j)
  unfolding kill kill_sig
  kill_group-reaches self uid sig t t' j e h used tty ne = elim (Bool-cases (leb nsig sig)) [
    | inl large ↦ ground arith
    | inr small ↦ ground (
      arith,
      signal_from-reaches ro (in_group (proc_at t self).ttyp self)
          (in_group-running (proc_at t self).ttyp self) sig (ground arith) 0 (length t.proc) t j,
    )
  ]

  kill_one-others :
      (uid pid sig i n : ℕ) (t t' : Table) (j : ℕ)
      → i + n ≤ length t.proc
      → uid ≢ 0
      → kill_one ro uid pid sig i n t ≡ delivered t'
      → (proc_at t j).uid ≢ uid
      → (proc_at t j).wchan ≢ ro
      → proc_at t' j ≡ proc_at t j
  unfolding kill_one
  kill_one-others uid pid sig i zero t t' j h nz e other c = cc
  kill_one-others uid pid sig i (suc n) t t' j h nz e other c = ground (
    arith,
    kill_one-others uid pid sig (suc i) n t t' j,
    psignal-apart ro sig i t (omega arith) j,
  )

  refused_one :
      (uid pid sig i n : ℕ) (t t' : Table) (e : ℕ)
      → kill_one ro uid pid sig i n t ≡ refused e t'
      → t' ≡ t
  unfolding kill_one
  refused_one uid pid sig i zero t t' e h = ground arith
  refused_one uid pid sig i (suc n) t t' e h =
      ground (arith, refused_one uid pid sig (suc i) n t t' e)

  -- `kill` of a process number by a caller who is not the superuser changes no process of another
  -- user, except that the swapper may be woken; and where it returns an error it changes nothing.
  pub kill_one-safety :
      (self uid pid sig : ℕ) (t t' : Table)
      → uid ≢ 0
      → ((j : ℕ)
          → kill ro self uid (pos (suc pid)) sig t ≡ delivered t'
          → (proc_at t j).uid ≢ uid
          → (proc_at t j).wchan ≢ ro
          → proc_at t' j ≡ proc_at t j)
        × ((e : ℕ) → kill ro self uid (pos (suc pid)) sig t ≡ refused e t' → t' ≡ t)
  unfolding kill kill_sig
  kill_one-safety self uid pid sig t t' nz = (
    λ j h other c.
        ground (arith, kill_one-others uid (suc pid) sig 0 (length t.proc) t t' j (omega arith)),
    λ e h. ground (arith, refused_one uid (suc pid) sig 0 (length t.proc) t t' e),
  )
