-- ===== src/Proc/Priority.antt =====
-- `setpri` of kernel/sched/slp.c, and the mask of signals in `issig` of kernel/sig.c.
use unix_v.Common.{Option, none, some, if◌then◌else◌, ◌==◌, ◌||◌, leb, false}
use unix_v.Common.{
  ℕ, ◌/◌, ◌%◌, ◌<◌, ◌≡◌, ◌≢◌, arith, inl, inr, ◌⊎◌, pos, negsuc, ◌+ℤ◌, ◌≤ℤ◌, +ℤ_parts, ◌↔◌, length,
  get_or-set,
}
use unix_v.Proc.{
  ssig, Proc, Table, no_proc, proc_at, user_pri, setpri, puser, issig, masked, mask_bit, sigkil,
  nsig,
}

-- For a `nice` value of an `int8_t` the new priority lies between -28 and 127, so its store into
-- the `int8_t` field `p_pri` loses nothing; it is the capped sum, and only this process changes.
pub setpri-bounds :
    (i : ℕ) (t : Table)
    → i < length t.proc
    → negsuc 127 ≤ℤ (proc_at t i).nice
    → (proc_at t i).nice ≤ℤ pos 127
    → let p = (proc_at (setpri i t) i).pri in
      (negsuc 27 ≤ℤ p) × (p ≤ℤ pos 127) × ((j : ℕ) → i ≢ j → proc_at (setpri i t) j ≡ proc_at t j)
unfolding setpri user_pri
setpri-bounds i t h lo hi = (
  ground (
    arith,
    get_or-set t.proc i i (record (proc_at t i) { pri = user_pri (proc_at t i) }) no_proc h,
    +ℤ_parts puser (proc_at t i).nice,
    +ℤ_parts (pos ((proc_at t i).cpu % 256 / 16)) (puser +ℤ (proc_at t i).nice),
  ),
  ground (
    arith,
    get_or-set t.proc i i (record (proc_at t i) { pri = user_pri (proc_at t i) }) no_proc h,
  ),
  λ j ne. ground (
    arith,
    get_or-set t.proc i j (record (proc_at t i) { pri = user_pri (proc_at t i) }) no_proc h,
  ),
)

-- `issig` reports a signal exactly if it is pending, not masked (SIGKIL cannot be) and not
-- ignored.
pub issig-exact :
    (disposition : ℕ → ℕ) (p : Proc) (n : ℕ)
    → n ≢ 0
    → (issig disposition p ≡ n)
      ↔ ((p.sig ≡ n) × ((n ≡ sigkil) ⊎ (masked p.sigmask n ≡ false)) × (disposition n % 2 ≡ 0))
unfolding issig
issig-exact disposition p n nz = (λ h. ground arith, λ (e, free, heard). ground arith)

three : (n : ℕ) → 16 < n → n < 20 → (n ≡ 17) ⊎ (n ≡ 18) ⊎ (n ≡ 19)
three n lo hi = omega arith

mask_bit_high : (n : ℕ) → 16 < n → n < 20 → mask_bit n ≡ 0
mask_bit_high n lo hi = elim (three n lo hi) [
  | inl a ↦ rw a
  | inr r ↦ elim r [ inl b ↦ rw b | inr c ↦ rw c ]
]

-- The mask of 16 bits has no bit for the signals 17 to 19, SIGCHLD among them: such a signal, if
-- pending and not ignored, is reported whatever the mask.
pub issig_unmaskable :
    (disposition : ℕ → ℕ) (p : Proc)
    → 16 < p.sig
    → p.sig < nsig
    → disposition p.sig % 2 ≡ 0
    → issig disposition p ≡ p.sig
unfolding issig
issig_unmaskable disposition p lo hi heard = ground (arith, mask_bit_high p.sig lo hi)

-- the pending signal after a call of `ssig`, which may have failed
abbrev pub after_ssig : Option (ℕ × (ℕ → ℕ)) → Proc → ℕ
after_ssig none p = nsig
after_ssig (some (old, disposition)) p = issig disposition p

-- A signal that `ssig` may set is, while it is pending and not masked, reported afterwards if the
-- disposition given is even, and ignored if it is odd; the others are reported as before.
pub issig-ssig :
    (sig func : ℕ) (disposition : ℕ → ℕ) (p : Proc)
    → 0 < sig
    → sig < nsig
    → sig ≢ sigkil
    → masked p.sigmask p.sig ≡ false
    → after_ssig (ssig sig func disposition) p
      ≡ (if p.sig == sig then (if func % 2 == 0 then sig else 0) else issig disposition p)
unfolding ssig issig
issig-ssig sig func disposition p above small nk free =
    let e : (sig == 0 || leb nsig sig || sig == sigkil) ≡ false =
      ground (arith, above, small, nk) in
    rw e ground (arith, free)
