-- ===== src/Text/RoundTrip.antt =====
-- `xalloc` and then `xfree`, of kernel/text.c.
use unix_v.Common.{
  ℕ, ◌+◌, ◌<◌, ◌≡◌, ◌≢◌, refl, ◌∙◌, ap, ◌⊎◌, inl, inr, arith, true, Option, none, some, length,
  ◌==◌, subst, Bool-cases,
}
use unix_v.Inodes.{entry_at}
use unix_v.Inodes.Table.{IsTable}
use unix_v.Inodes.Steps.{IsTable-entry}
use unix_v.Text.{Texts, text_at, xalloc, xfree}
use unix_v.Text.Find.{IsShared, IsHeld}
use unix_v.Text.Xalloc.{XallocOutcome, xalloc-XallocOutcome}
use unix_v.Text.Xfree.{XfreeOutcome, xfree-XfreeOutcome}

-- The texts in use have what they had, and the inodes their references.
unfoldable pub IsRestored : Texts → Texts → Type 0
IsRestored s s' =
    ((l : ℕ) → (text_at s' l).iptr ≡ (text_at s l).iptr)
    × ((l : ℕ) → (text_at s l).iptr ≢ none → (text_at s' l).count ≡ (text_at s l).count)
    × ((j : ℕ) → (entry_at s'.store j).count ≡ (entry_at s.store j).count)

module _ (ip : ℕ) (s : Texts) (shared : IsShared s) (table : IsTable s.store)
    (used : (entry_at s.store ip).count ≢ 0) (few : (entry_at s.store ip).count < 255) (k : ℕ)
    (s' : Texts) (outcome : XallocOutcome ip s (some k, s')) where
  allocated-IsTable : IsTable s'.store
  unfolding XallocOutcome IsTable
  allocated-IsTable = elim outcome.2 [
    | inl (_, _, same) ↦ rw same table
    | inr (_, _, _, same, e) ↦
        IsTable-entry ip s.store s'.store table same (ap (λ e. e.imount) e ∙ table.2 ip)
          (λ z. absurd (omega (arith, z, ap (λ e. e.count) e)))
          (λ _. (used, ap (λ e. e.dev) e, ap (λ e. e.number) e))
  ]

  restored :
      (o : Option Texts) → XfreeOutcome k ip s' o → (t : Texts) × (o ≡ some t) × IsRestored s t
  unfolding XallocOutcome XfreeOutcome IsRestored IsShared IsHeld
  restored none (one, last, _) = absurd (elim outcome.2 [
    | inl (mine, count, same) ↦ ground (arith, one, count, shared.1 k ip mine)
    | inr (_, _, _, _, e) ↦ omega (arith, last, used, ap (λ e. e.count) e)
  ])
  restored (some t) (same, count, cases, _, _) = elim outcome.2 [
    | inl (mine, up, store) ↦ elim cases [
      | inl (_, iptr, store') ↦ (
        t,
        refl,
        (
          λ l. ground (arith, same l, outcome.1 l, iptr, mine, here l),
          λ l _. ground (arith, same l, outcome.1 l, count, up, here l),
          λ j. ap (λ s. (entry_at s j).count) (store' ∙ store),
        ),
      )
      | inr (one, _, _, _, _, _) ↦ absurd (ground (arith, one, up, shared.1 k ip mine))
    ]
    | inr (away, free, one, nodes, e) ↦ elim cases [
      | inl (more, _, _) ↦ absurd (more one)
      | inr (_, iptr, nodes', less, _, _) ↦ (
        t,
        refl,
        (
          λ l. ground (arith, same l, outcome.1 l, iptr, free, here l),
          λ l some_of. ground (arith, same l, outcome.1 l, free, some_of, here l),
          λ j. ground (arith, nodes j, nodes' j, less, e, this j),
        ),
      )
    ]
  ]
    where
      here : (l : ℕ) → (k ≡ l) ⊎ (k ≢ l)
      here l = elim (Bool-cases (k == l)) [
        | inl e ↦ inl (ground (arith, e))
        | inr e ↦ inr (ground (arith, e))
      ]

      this : (j : ℕ) → (ip ≡ j) ⊎ (ip ≢ j)
      this l = elim (Bool-cases (ip == l)) [
        | inl e ↦ inl (ground (arith, e))
        | inr e ↦ inr (ground (arith, e))
      ]

-- Where texts and inodes agree, every inode in use has one entry, nothing is mounted and the counts
-- have room for one more: if xalloc of an inode in use gives a text, then xfree of it does not wait,
-- and afterwards every text is of the inode it was of, the texts of inodes have the counts they
-- had, and every inode has as many references as before.
pub xfree-xalloc :
    (ip k : ℕ) (s s' : Texts)
    → IsShared s
    → IsTable s.store
    → ip < length s.store.inode
    → (entry_at s.store ip).count ≢ 0
    → (entry_at s.store ip).count < 255
    → ((k : ℕ) → (text_at s k).iptr ≡ some ip → (text_at s k).count < 255)
    → xalloc ip s ≡ (some k, s')
    → (t : Texts) × (xfree (some k) s' ≡ some t) × IsRestored s t
unfolding XallocOutcome
xfree-xalloc ip k s s' shared table inside used few small e =
    let outcome : XallocOutcome ip s (some k, s') =
      subst (XallocOutcome ip s) e (xalloc-XallocOutcome ip s shared inside used few small) in
    restored ip s shared table used few k s' outcome (xfree (some k) s') (
      xfree-XfreeOutcome k ip s' outcome.3
        (allocated-IsTable ip s shared table used few k s' outcome) outcome.0 (below outcome.2))
  where
    below :
        (((text_at s k).iptr ≡ some ip)
            × ((text_at s' k).count ≡ (text_at s k).count + 1)
            × (s'.store ≡ s.store)
          ⊎ ((l : ℕ) → (text_at s l).iptr ≢ some ip)
            × ((text_at s k).iptr ≡ none)
            × ((text_at s' k).count ≡ 1)
            × ((j : ℕ) → ip ≢ j → entry_at s'.store j ≡ entry_at s.store j)
            × (entry_at s'.store ip ≡ record (entry_at s.store ip) {
              itext = true;
              count = (entry_at s.store ip).count + 1;
            }))
        → (entry_at s'.store ip).count < 256
    below (inl (_, _, same)) = omega (arith, few, ap (λ s. (entry_at s ip).count) same)
    below (inr (_, _, _, _, e)) = omega (arith, few, ap (λ e. e.count) e)
