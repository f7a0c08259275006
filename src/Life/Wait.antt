-- ===== src/Life/Wait.antt =====
-- `syswait` of kernel/sys.c.
use unix_v.Common.{
  ℕ, zero, suc, ◌+◌, ◌<◌, ◌≡◌, ◌≢◌, refl, sym, ap, subst, ◌∙◌, arith, Bool, true, false, length,
  ◌==◌, if◌then◌else◌, get_or-set, length-set, inl, inr, Bool-cases, ◌⊎◌,
}
use unix_v.Proc.{Stat, sstop, srun, no_proc}
use unix_v.Proc.Wakeup.{setrun-Wakes}
use unix_v.Life.{
  System, at, put_proc, reap, Waited, child, nothing_yet, sleeps, refused, stop_status, is_szomb,
  is_sstop, resume, report_stop, wait_from, syswait, echild,
}

-- Numbers and parents are the same, and so are the dead.
unfoldable pub Keeps : System → System → Type 0
Keeps s t =
    (length t.table.proc ≡ length s.table.proc)
    × (t.self ≡ s.self)
    × ((j : ℕ)
        → ((at t j).pid ≡ (at s j).pid)
          × ((at t j).ppid ≡ (at s j).ppid)
          × (is_szomb (at s j).stat ≡ true → at t j ≡ at s j)
          × (is_szomb (at t j).stat ≡ true → is_szomb (at s j).stat ≡ true))

abbrev pub IsChild : System → ℕ → Type 0
IsChild s j = (j < length s.table.proc) × ((at s j).ppid ≡ (at s s.self).pid)

-- What `syswait` may come to in the state `s`; `t` is the state in which the child is reported.
unfoldable pub SyswaitOutcome : System → Waited → Type 0
SyswaitOutcome s (child q st s') =
    (j : ℕ) × (t : System) × IsChild s j
    × Keeps s t
    × (q ≡ (at s j).pid)
    × (((is_szomb (at s j).stat ≡ true) × (st ≡ (at s j).status) × (s' ≡ reap j t))
        ⊎ ((is_sstop (at t j).stat ≡ true) × (st ≡ stop_status (at t j)) × (s' ≡ report_stop j t)))
SyswaitOutcome s (nothing_yet s') = ⊥
SyswaitOutcome s (sleeps t) =
    Keeps s t × ((j : ℕ) × IsChild s j) × ((j : ℕ) → IsChild s j → is_szomb (at s j).stat ≡ false)
SyswaitOutcome s (refused e t) = (e ≡ echild) × Keeps s t × ((j : ℕ) → ¬ IsChild s j)

true≢false : ¬ (true ≡ false)
true≢false e = ground (arith, e)

stopped_alive : (x : Stat) → is_sstop x ≡ true → is_szomb x ≡ false
stopped_alive sstop e = refl
stopped_alive x e = ground (arith, e)

module _ (ro : ℕ) where
  resume-at :
      (i : ℕ) (s : System) (j : ℕ)
      → i < length s.table.proc
      → (length (resume ro i s).table.proc ≡ length s.table.proc)
        × ((at (resume ro i s) j).pid ≡ (at s j).pid)
        × ((at (resume ro i s) j).ppid ≡ (at s j).ppid)
        × (i ≢ j → (at s j).wchan ≢ ro → at (resume ro i s) j ≡ at s j)
        × ((at (resume ro i s) j).stat ≡ (at s j).stat ⊎ (at (resume ro i s) j).stat ≡ srun)
  unfolding resume
  resume-at i s j h =
      let p = record (at s i) { strc = false; swted = false } in
      let t = put_proc i p s.table in
      let e = get_or-set s.table.proc i j p no_proc h in
      let len = length-set s.table.proc i p in
      (
        ground (arith, (setrun-Wakes ro).same_length i t, len),
        ground (arith, e, len, (setrun-Wakes ro).only i t j),
        ground (arith, e, len, (setrun-Wakes ro).only i t j),
        λ ne c. ground (arith, e, len, (setrun-Wakes ro).others i t j),
        ground (arith, e, len, (setrun-Wakes ro).only i t j),
      )

  resume-Keeps :
      (i : ℕ) (s t : System)
      → Keeps s t
      → i < length t.table.proc
      → is_sstop (at t i).stat ≡ true
      → ((j : ℕ) → is_szomb (at s j).stat ≡ true → (at s j).wchan ≢ ro)
      → Keeps s (resume ro i t)
  unfolding Keeps resume
  resume-Keeps i s t (len, self, same) h stop off = (
    ground (arith, (resume-at i t i h).0, len),
    self,
    λ j.
        let (_, epid, eppid, apart, stat) = resume-at i t j h in
        let not_dead = stopped_alive (at t i).stat stop in
        (
          ground (arith, epid, same j),
          ground (arith, eppid, same j),
          λ z.
              let k = (same j).2 z in
              let dead : is_szomb (at t j).stat ≡ true = ap (λ p. is_szomb p.stat) k ∙ z in
              let ne : i ≢ j =
                λ e. true≢false (sym dead ∙ ap (λ i. is_szomb (at t i).stat) (sym e) ∙ not_dead) in
              apart ne (λ c. off j z (ap (λ p. p.wchan) (sym k) ∙ c)) ∙ k,
          λ z. elim stat [
            | inl e ↦ (same j).3 (ap is_szomb (sym e) ∙ z)
            | inr e ↦ absurd (true≢false (sym z ∙ ap is_szomb e))
          ],
        ),
  )

  module _ (s : System) (off : (j : ℕ) → is_szomb (at s j).stat ≡ true → (at s j).wchan ≢ ro) where
    by_if :
        (c : Bool) (x y : Waited)
        → (c ≡ true → SyswaitOutcome s x)
        → (c ≡ false → SyswaitOutcome s y)
        → SyswaitOutcome s (if c then x else y)
    by_if true x y f g = f refl
    by_if false x y f g = g refl

    before : (i : ℕ) (P : ℕ → Type 0) → ((j : ℕ) → j < i → P j) → P i → (j : ℕ) → j < suc i → P j
    before i P f p j h = elim (Bool-cases (j == i)) [
      | inl same ↦ let e : i ≡ j = ground (arith, same) in subst P e p
      | inr less ↦ f j (ground (arith, less, h))
    ]

    is_child :
        (i : ℕ) (t : System)
        → Keeps s t
        → i < length s.table.proc
        → (at t i).ppid ≡ (at t t.self).pid
        → IsChild s i
    unfolding Keeps
    is_child i t (len, self, same) h e =
        (h, sym ((same i).1) ∙ e ∙ (same t.self).0 ∙ ap (λ k. (at s k).pid) self)

    is_parent : (i : ℕ) (t : System) → Keeps s t → IsChild s i → (at t i).ppid ≡ (at t t.self).pid
    unfolding Keeps
    is_parent i t (len, self, same) c =
        (same i).1 ∙ c.1 ∙ ap (λ k. (at s k).pid) (sym self) ∙ sym ((same t.self).0)

    quiet_next :
        (i : ℕ) (t : System)
        → Keeps s t
        → is_szomb (at t i).stat ≡ false
        → ((j : ℕ) → j < i → IsChild s j → is_szomb (at s j).stat ≡ false)
        → (j : ℕ) → j < suc i
        → IsChild s j
        → is_szomb (at s j).stat ≡ false
    unfolding Keeps
    quiet_next i t (len, self, same) nz quiet =
        before i (λ j. IsChild s j → is_szomb (at s j).stat ≡ false) quiet
          (λ _. elim (Bool-cases (is_szomb (at s i).stat)) [
            | inl z ↦
                absurd (true≢false (sym z ∙ ap (λ p. is_szomb p.stat) (sym ((same i).2 z)) ∙ nz))
            | inr e ↦ e
          ])

    from_lem :
        (n i : ℕ) (found : Bool) (t : System)
        → i + n ≡ length s.table.proc
        → Keeps s t
        → (found ≡ true → (j : ℕ) × IsChild s j)
        → (found ≡ false → (j : ℕ) → j < i → ¬ IsChild s j)
        → ((j : ℕ) → j < i → IsChild s j → is_szomb (at s j).stat ≡ false)
        → SyswaitOutcome s (wait_from ro n i found t)
    unfolding wait_from SyswaitOutcome Keeps
    from_lem zero i true t h keeps some_child none_seen quiet =
        (keeps, some_child refl, λ j c. quiet j (omega (arith, h, c.0)) c)
    from_lem zero i false t h keeps some_child none_seen quiet =
        (refl, keeps, λ j c. none_seen refl j (omega (arith, h, c.0)) c)
    from_lem (suc n) i found t h keeps some_child none_seen quiet =
        by_if ((at t i).ppid == (at t t.self).pid) _ _
          (λ m.
            let c = is_child i t keeps (omega (arith, h)) (ground (arith, m)) in
            by_if (is_szomb (at t i).stat) _ _
              (λ z.
                let (epid, _, same, dead) = keeps.2 i in
                (i, t, c, keeps, epid, inl (dead z, ap (λ p. p.status) (same (dead z)), refl)))
              (λ nz.
                let quiet' = quiet_next i t keeps nz quiet in
                by_if (is_sstop (at t i).stat) _ _
                  (λ stop.
                    by_if (at t i).swted _ _
                      (λ _.
                        from_lem n (suc i) true (resume ro i t) (omega arith)
                          (resume-Keeps i s t keeps (omega (arith, h, keeps.0)) stop off)
                          (λ _. (i, c)) (λ e. absurd (true≢false e)) quiet')
                      (λ _. (i, t, c, keeps, (keeps.2 i).0, inr (stop, refl, refl))))
                  (λ _.
                    from_lem n (suc i) true t (omega arith) keeps (λ _. (i, c))
                      (λ e. absurd (true≢false e)) quiet')))
          (λ no_child.
            let nc : ¬ IsChild s i = λ c. ground (arith, no_child, is_parent i t keeps c) in
            from_lem n (suc i) found t (omega arith) keeps some_child
              (λ e. before i (λ j. ¬ IsChild s j) (none_seen e) nc)
              (before i (λ j. IsChild s j → is_szomb (at s j).stat ≡ false) quiet
                (λ c. absurd (nc c))))

    -- syswait, where no dead process is on the swapper's channel: it reports a child that has died,
    -- which is reaped, or one that has stopped; it sleeps only if the caller has children and none
    -- of them has died, and fails with ECHILD only if it has none. On its way it changes neither
    -- the number nor the parent of a process, and nothing of a dead one.
    pub syswait-SyswaitOutcome : SyswaitOutcome s (syswait ro s)
    unfolding syswait Keeps
    syswait-SyswaitOutcome =
        from_lem (length s.table.proc) 0 false s (omega arith)
          (refl, refl, λ j. (refl, refl, λ _. refl, λ z. z)) (λ e. absurd (true≢false (sym e)))
          (λ _ j h. absurd (omega arith)) (λ j h. absurd (omega arith))
