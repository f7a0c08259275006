-- ===== src/Pipe/Rounds.antt =====
-- One round of the loop of `writep` of kernel/pipe.c.
use unix_v.Common.{
  ℕ, suc, ◌≤◌, ◌<◌, ◌≡◌, ◌≢◌, refl, arith, Bool, true, false, List, [], ◌∷◌, ◌++◌, ltb, ◌==◌,
  if◌then◌else◌, length, take, drop, inl, inr, Bool-cases, ◌⊎◌, length-take, length-drop,
  length-append,
}
use unix_v.Pipe.{
  Pipe, Chan, read_chan, pipsiz, prele, WriteEnd, written, write_broken, write_again, write_sleeps,
  write_waits, write_spins, room, store_some, writep_from,
}
use unix_v.Pipe.Queue.{queue, IsPipe, has, drop-append, drop-past}

-- a call that ends
abbrev ended : Pipe → Pipe
ended p = prele (record p { ilock = true })

-- Nothing but the lock has changed, and no wakeup is forgotten.
unfoldable pub Released : Pipe → Pipe → Type 0
Released p p' =
    (queue p' ≡ queue p)
    × (p'.bytes ≡ p.bytes)
    × IsPipe p'
    × (p'.iread ≡ p.iread)
    × (p'.iwrite ≡ p.iwrite)
    × (p'.count ≡ p.count)
    × ((c : Chan) → has c p.woken ≡ true → has c p'.woken ≡ true)

ended-Released : (p : Pipe) → IsPipe p → Released p (ended p)
unfolding Released queue IsPipe prele
ended-Released p ok = (
  ground arith,
  ground arith,
  (ground (arith, ok.0), ground (arith, ok.1), ground arith),
  ground arith,
  ground arith,
  ground arith,
  λ c h. ground (arith, h),
)

-- A round that writes takes what there is room for.
unfoldable pub Stored : List ℕ → Pipe → Pipe → Type 0
Stored l p p' =
    (queue p' ≡ queue p ++ take (room p) l)
    × IsPipe p'
    × (p'.iread ≡ false)
    × (p.iread ≡ true → has read_chan p'.woken ≡ true)
    × (p'.iwrite ≡ p.iwrite)
    × (p'.count ≡ p.count)
    × ((drop (room p) l ≡ []) ⊎ (length p'.bytes ≡ pipsiz))

pub empty_bytes : (l : List ℕ) → length l ≡ 0 → l ≡ []
empty_bytes [] e = refl
empty_bytes (x ∷ l) e = absurd (omega arith)

pub store_some-Stored :
    (l : List ℕ) (p : Pipe) → IsPipe p → Stored l p (store_some l (record p { ilock = true }))
unfolding Stored queue IsPipe prele store_some
store_some-Stored l p ok =
    let len = length-append p.bytes (take (room p) l) in
    let got = length-take (room p) l in
    (
      ground (arith, drop-append p.bytes (take (room p) l) p.head ok.0),
      (ground (arith, len, ok.0), ground (arith, len, got, ok.1), ground arith),
      ground arith,
      λ e. ground (arith, e),
      ground arith,
      ground arith,
      ground (arith, len, got, length-drop (room p) l, drop-past l (room p), ok.1),
    )

-- What a round that does not write comes to.
unfoldable pub EndOutcome : (nonblock : Bool) → List ℕ → Pipe → WriteEnd → Type 0
EndOutcome nonblock l p (written p') = (l ≡ []) × Released p p'
EndOutcome nonblock l p (write_broken p') = (l ≢ []) × (p.count < 2) × Released p p'
EndOutcome nonblock l p (write_again m p') =
    (m ≡ l) × (l ≢ []) × (nonblock ≡ true) × (length p.bytes ≡ pipsiz) × Released p p'
EndOutcome nonblock l p (write_sleeps m p') =
    (m ≡ l)
    × (l ≢ [])
    × (nonblock ≡ false)
    × (length p.bytes ≡ pipsiz)
    × Released (record p { iwrite = true }) p'
EndOutcome nonblock l p (write_waits m p') = ⊥
EndOutcome nonblock l p write_spins = ⊥

not_empty : (l : List ℕ) → length l == 0 ≡ false → l ≢ []
not_empty l e z = ground (arith, e, z)

module _ (nonblock : Bool) where
  pub round :
      (f : ℕ) (l : List ℕ) (p : Pipe)
      → IsPipe p
      → EndOutcome nonblock l p (writep_from nonblock (suc f) l p)
        ⊎ ((l ≢ [])
            × (2 ≤ p.count)
            × (length p.bytes ≢ pipsiz)
            × (writep_from nonblock (suc f) l p
                ≡ writep_from nonblock f
                    (drop (room p) l)
                    (store_some l (record p { ilock = true }))))
  unfolding writep_from EndOutcome IsPipe
  round f l p ok = by_lock p.ilock ok.2
    where
      next : WriteEnd
      next = writep_from nonblock f (drop (room p) l) (store_some l (record p { ilock = true }))

      full_end : (b : Bool) → WriteEnd
      full_end b =
          if b
          then write_again l (ended p)
          else write_sleeps l (prele (record p { ilock = true; iwrite = true }))

      body : WriteEnd
      body =
          if length l == 0
          then written (ended p)
          else if ltb p.count 2
          then write_broken (ended p)
          else if length p.bytes == pipsiz
          then full_end nonblock
          else next

      Goal : WriteEnd → Type 0
      Goal w =
          EndOutcome nonblock l p w
          ⊎ ((l ≢ []) × (2 ≤ p.count) × (length p.bytes ≢ pipsiz) × (w ≡ next))

      by_full :
          (b : Bool)
          → nonblock ≡ b
          → l ≢ []
          → length p.bytes ≡ pipsiz
          → EndOutcome nonblock l p (full_end b)
      by_full true e ne full = (refl, ne, e, full, ended-Released p ok)
      by_full false e ne full = (refl, ne, e, full, ended-Released (record p { iwrite = true }) ok)

      by_body : Goal body
      by_body = elim (Bool-cases (length l == 0)) [
        | inl none_left ↦
            rw none_left (inl (empty_bytes l (ground (arith, none_left)), ended-Released p ok))
        | inr more ↦ elim (Bool-cases (ltb p.count 2)) [
          | inl few ↦
              rw (more, few) (inl (not_empty l more, ground (arith, few), ended-Released p ok))
          | inr open' ↦ elim (Bool-cases (length p.bytes == pipsiz)) [
            | inl full ↦
                rw (more, open', full)
                  (inl (by_full nonblock refl (not_empty l more) (ground (arith, full))))
            | inr fits ↦
                rw (more, open', fits)
                  (inr (not_empty l more, ground (arith, open'), ground (arith, fits), refl))
          ]
        ]
      ]

      by_lock :
          (b : Bool)
          → b ≡ false
          → Goal (if b then write_waits l (record p { iwant = true }) else body)
      by_lock false e = by_body
      by_lock true e = ground (arith, e)
