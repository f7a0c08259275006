-- ===== src/Pipe/Writing.antt =====
-- `writep` of kernel/pipe.c.

use unix_v.Common.{
  ℕ, ◌≤◌, ◌<◌, ◌≡◌, ◌≢◌, refl, sym, ap, ◌∙◌, arith, Bool, true, false, List, [], ◌++◌, length, take,
  drop, inl, inr, ◌⊎◌, append-nil, take-append-drop, length-take,
}
use unix_v.Pipe.{
  Pipe, read_chan, pipsiz, WriteEnd, written, write_broken, write_again, write_sleeps, write_waits,
  write_spins, room, store_some, writep_from, writep,
}
use unix_v.Pipe.Queue.{queue, IsPipe, has}
use unix_v.Pipe.Rounds.{Released, Stored, EndOutcome, store_some-Stored, round, empty_bytes}

-- What `writep` of the bytes `l` may come to.
unfoldable pub WriteOutcome : (nonblock : Bool) → List ℕ → Pipe → WriteEnd → Type 0
WriteOutcome nonblock l p (written p') =
    (queue p' ≡ queue p ++ l)
    × IsPipe p'
    × (p'.iwrite ≡ p.iwrite)
    × (p'.count ≡ p.count)
    × ((l ≡ []) × (p'.iread ≡ p.iread) × (p'.bytes ≡ p.bytes)
        ⊎ (l ≢ []) × (p'.iread ≡ false) × (p.iread ≡ true → has read_chan p'.woken ≡ true))
WriteOutcome nonblock l p (write_broken p') =
    (l ≢ []) × (p.count < 2) × (queue p' ≡ queue p) × IsPipe p'
WriteOutcome nonblock l p (write_again m p') =
    (nonblock ≡ true)
    × (m ≢ [])
    × (length p'.bytes ≡ pipsiz)
    × IsPipe p'
    × (p'.iwrite ≡ p.iwrite)
    × (p'.count ≡ p.count)
    × ((k : List ℕ) × (l ≡ k ++ m)
        × (queue p' ≡ queue p ++ k)
        × ((k ≡ []) × (p'.iread ≡ p.iread) × (p'.bytes ≡ p.bytes)
            ⊎ (k ≢ []) × (p'.iread ≡ false) × (p.iread ≡ true → has read_chan p'.woken ≡ true)))
WriteOutcome nonblock l p (write_sleeps m p') =
    (nonblock ≡ false)
    × (m ≢ [])
    × (length p'.bytes ≡ pipsiz)
    × IsPipe p'
    × (p'.iwrite ≡ true)
    × (p'.count ≡ p.count)
    × ((k : List ℕ) × (l ≡ k ++ m)
        × (queue p' ≡ queue p ++ k)
        × ((k ≡ []) × (p'.iread ≡ p.iread) × (p'.bytes ≡ p.bytes)
            ⊎ (k ≢ []) × (p'.iread ≡ false) × (p.iread ≡ true → has read_chan p'.woken ≡ true)))
WriteOutcome nonblock l p (write_waits m p') = ⊥
WriteOutcome nonblock l p write_spins = ⊥

module _ (nonblock : Bool) where
  -- A call that ends in its first round.
  end_first :
      (l : List ℕ) (p : Pipe) (w : WriteEnd)
      → IsPipe p
      → EndOutcome nonblock l p w
      → WriteOutcome nonblock l p w
  unfolding EndOutcome WriteOutcome Released queue IsPipe
  end_first l p (written p') ok (e, (same, bytes, ok', iread, iwrite, count, keeps)) =
      (rw e (same ∙ sym (append-nil (queue p))), ok', iwrite, count, inl (e, iread, bytes))
  end_first l p (write_broken p') ok (ne, few, (same, bytes, ok', iread, iwrite, count, keeps)) =
      (ne, few, same, ok')
  end_first l p (write_again m p') ok
        (e, ne, n, full, (same, bytes, ok', iread, iwrite, count, keeps)) =
      (
        n,
        rw e ne,
        ap length bytes ∙ full,
        ok',
        iwrite,
        count,
        ([], sym e, same ∙ sym (append-nil (queue p)), inl (refl, iread, bytes)),
      )
  end_first l p (write_sleeps m p') ok
        (e, ne, n, full, (same, bytes, ok', iread, iwrite, count, keeps)) =
      (
        n,
        rw e ne,
        ap length bytes ∙ full,
        ok',
        iwrite,
        count,
        ([], sym e, same ∙ sym (append-nil (queue p)), inl (refl, iread, bytes)),
      )
  end_first l p (write_waits m p') ok e = absurd e
  end_first l p write_spins ok e = absurd e

  -- A call that ends in its second round, after the first has written.
  end_second :
      (l : List ℕ) (p q : Pipe) (w : WriteEnd)
      → Stored l p q
      → l ≢ []
      → 2 ≤ p.count
      → length p.bytes < pipsiz
      → EndOutcome nonblock (drop (room p) l) q w
      → WriteOutcome nonblock l p w
  unfolding EndOutcome WriteOutcome Released Stored queue IsPipe
  end_second l p q (written p') (st, _, st_iread, st_has, st_iwrite, st_count, st_end) ne open'
        some_room (e, (same, bytes, ok', iread, iwrite, count, keeps)) =
      (
        same
            ∙ st
            ∙ ap (λ m. queue p ++ m)
                (sym (append-nil (take (room p) l))
                  ∙ ap (λ m. take (room p) l ++ m) (sym e)
                  ∙ take-append-drop (room p) l),
        ok',
        iwrite ∙ st_iwrite,
        count ∙ st_count,
        inr (ne, iread ∙ st_iread, λ h. keeps read_chan (st_has h)),
      )
  end_second l p q (write_broken p') (st, _, st_iread, st_has, st_iwrite, st_count, st_end) ne open'
        some_room (_, few, _) =
      absurd (omega (arith, few, st_count))
  end_second l p q (write_again m p') (st, _, st_iread, st_has, st_iwrite, st_count, st_end) ne
        open' some_room (e, le, n, full, (same, bytes, ok', iread, iwrite, count, keeps)) =
      (
        n,
        rw e le,
        ap length bytes ∙ full,
        ok',
        iwrite ∙ st_iwrite,
        count ∙ st_count,
        (
          take (room p) l,
          sym (take-append-drop (room p) l) ∙ ap (λ m. take (room p) l ++ m) (sym e),
          same ∙ st,
          inr (
            λ z. ground (arith, z, length-take (room p) l, empty_bytes l, ne, some_room),
            iread ∙ st_iread,
            λ h. keeps read_chan (st_has h),
          ),
        ),
      )
  end_second l p q (write_sleeps m p') (st, _, st_iread, st_has, st_iwrite, st_count, st_end) ne
        open' some_room (e, le, n, full, (same, bytes, ok', iread, iwrite, count, keeps)) =
      (
        n,
        rw e le,
        ap length bytes ∙ full,
        ok',
        iwrite,
        count ∙ st_count,
        (
          take (room p) l,
          sym (take-append-drop (room p) l) ∙ ap (λ m. take (room p) l ++ m) (sym e),
          same ∙ st,
          inr (
            λ z. ground (arith, z, length-take (room p) l, empty_bytes l, ne, some_room),
            iread ∙ st_iread,
            λ h. keeps read_chan (st_has h),
          ),
        ),
      )
  end_second l p q (write_waits m p') st ne open' some_room e = absurd e
  end_second l p q write_spins st ne open' some_room e = absurd e

  -- writep to a pipe between calls, with the loop's fuel for two rounds: it ends with all the bytes
  -- at the end of the queue, in order; or it fails with EPIPE, and the queue is as it was, if the
  -- other end is closed; or the pipe is full, and what fitted is in the queue, and it sleeps, or
  -- fails with EAGAIN if it may not block. Where it wrote, a reader that waits is woken; where it wrote
  -- nothing, unless the other end is closed, the file and the flag of the readers stay as they were.
  pub writep-Outcome :
      (l : List ℕ) (p : Pipe) → IsPipe p → WriteOutcome nonblock l p (writep nonblock l p)
  unfolding writep Stored IsPipe
  writep-Outcome l p ok = elim (round nonblock 1 l p ok) [
    | inl e ↦ end_first l p (writep_from nonblock 2 l p) ok e
    | inr (ne, open', fits, e) ↦
        let st = store_some-Stored l p ok in
        let q = store_some l (record p { ilock = true }) in
        rw e (elim (round nonblock 0 (drop (room p) l) q st.1) [
          | inl f ↦
              end_second l p q (writep_from nonblock 1 (drop (room p) l) q) st ne open'
                (omega (arith, ok.1, fits)) f
          | inr (ne', _, fits', _) ↦ ground (arith, st.6, ne', fits')
        ])
  ]
