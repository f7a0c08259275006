-- ===== src/Nami/Balance.antt =====
-- The references to inodes in the steps of `namei` of kernel/fs/nami.c.
use unix_v.Common.{
  ℕ, ◌+◌, ◌-◌, ◌<◌, ◌≡◌, ◌≢◌, ◌∙◌, ap, sym, subst, arith, Bool, true, false, ◌&&◌, ◌==◌,
  if◌then◌else◌, Option, none, some, List, Bool-cases, inl, inr, length, get_or-set,
}
use unix_v.Inodes.{
  Entry, Store, no_entry, entry_at, put_entry, iput, Got, got, overflow, read_error, locked, no_imt,
  stuck, spins,
}
use unix_v.Inodes.Table.{IsTable, IgetOutcome, iget_from-IgetOutcome}
use unix_v.Inodes.Steps.{IsTable-entry, used_inside}
use unix_v.Inodes.Counts.{IputOutcome, iput-IputOutcome}
use unix_v.Nami.{
  Named, named, creates, deletes, failed, blocked, no_fuel, out, with_inode, with_parent,
  iget_mounted, name_missing, name_found,
}

abbrev pub one_at : (i k : ℕ) → ℕ
one_at i k = if i == k then 1 else 0

-- every count has room for two more
unfoldable pub HasRoom : Store → Type 0
HasRoom s = (k : ℕ) → (entry_at s k).count < 254

-- The references are those of the first state, and one to the entry; every inode in use has one
-- entry.
unfoldable pub Holds : (i : ℕ) → (before after : Store) → Type 0
Holds i s t = ((k : ℕ) → (entry_at t k).count ≡ (entry_at s k).count + one_at i k) × IsTable t

unfoldable pub Balanced : Store → Named → Type 0
Balanced s (named i t) = Holds i s t
Balanced s (creates i end t) = Holds i s t
Balanced s (deletes i j t) =
    ((k : ℕ) → (entry_at t k).count ≡ (entry_at s k).count + one_at i k + one_at j k) × IsTable t
Balanced s (failed errno t) = ((k : ℕ) → (entry_at t k).count ≡ (entry_at s k).count) × IsTable t
Balanced s blocked = Unit {0}
Balanced s no_fuel = ⊥

-- one reference more, where `iget` gives an entry
counted_up :
    (dev number i : ℕ) (s t : Store)
    → ((k : ℕ) → (entry_at s k).count < 255)
    → IgetOutcome (λ _ _. false) dev number s (got i t)
    → Holds i s t
unfolding IgetOutcome Holds
counted_up dev number i s t few (mine, lock, same, cases, table) =
    let up : (entry_at t i).count ≡ (entry_at s i).count + 1 = elim cases [
      | inl (_, _, _, count, _) ↦ omega (arith, count, few i)
      | inr (_, _, free, count, _) ↦ omega (arith, count, free)
    ] in
    (
      λ k. elim (Bool-cases (i == k)) [
        | inl e ↦ ground (arith, e, up)
        | inr e ↦ ground (arith, e, same k)
      ],
      table (omega (arith, up)),
    )

-- one reference less, where `iput` does not wait
unfoldable Released : (i : ℕ) → Store → Option Store → Type 0
Released i s none = Unit {0}
Released i s (some t) =
    ((k : ℕ) → (entry_at t k).count + one_at i k ≡ (entry_at s k).count) × IsTable t

iput-Released :
    (i : ℕ) (s : Store)
    → IsTable s
    → (entry_at s i).count ≢ 0
    → (entry_at s i).count < 256
    → Released i s (iput i s)
unfolding Released IputOutcome
iput-Released i s table used small =
    by_outcome (iput i s) (iput-IputOutcome i s (used_inside s i used) table used small)
  where
    by_outcome : (o : Option Store) → IputOutcome i s o → Released i s o
    by_outcome none h = tt
    by_outcome (some t) (same, _, _, table', cases) =
        let down : (entry_at t i).count + 1 ≡ (entry_at s i).count = ground (arith, cases) in
        (
          λ k. elim (Bool-cases (i == k)) [
            | inl e ↦ ground (arith, e, down)
            | inr e ↦ ground (arith, e, same k)
          ],
          table',
        )

-- the exit gives the directory back
pub out-Balanced :
    (errno i : ℕ) (s t : Store) → HasRoom s → Holds i s t → Balanced s (out errno i t)
unfolding HasRoom Holds Balanced Released
out-Balanced errno i s t room (counts, table) =
    by_put (iput i t)
      (iput-Released i t table (ground (arith, counts i)) (ground (arith, counts i, room i)))
  where
    by_put :
        (o : Option Store)
        → Released i t o
        → Balanced s (elim o as (λ _. Named) [ none ↦ blocked | some s' ↦ failed errno s' ])
    by_put none h = tt
    by_put (some t') (less, table') = (λ k. ground (arith, less k, counts k), table')

-- `iget` and what comes after it, from a state with the counts of the first
pub with_inode-Balanced :
    (next : ℕ → Store → Named) (dev ino : ℕ) (s t : Store)
    → HasRoom s
    → ((k : ℕ) → (entry_at t k).count ≡ (entry_at s k).count)
    → IsTable t
    → ino ≢ 0
    → ((i : ℕ) (t : Store) → Holds i s t → Balanced s (next i t))
    → Balanced s (with_inode next (iget_mounted (λ _ _. false) dev ino t))
unfolding HasRoom Balanced Holds IgetOutcome
with_inode-Balanced next dev ino s t room counts table nz continue =
    by_got (iget_mounted (λ _ _. false) dev ino t)
      (iget_from-IgetOutcome (λ _ _. false) (length t.mounts) dev ino t table nz)
  where
    by_got : (g : Got) → IgetOutcome (λ _ _. false) dev ino t g → Balanced s (with_inode next g)
    by_got (got i t') h =
        let (up, table') = counted_up dev ino i t t' (λ k. ground (arith, counts k, room k)) h in
        continue i t' (λ k. up k ∙ ap (λ n. n + one_at i k) (counts k), table')
    by_got (overflow t') (same, _) =
        (λ k. ap (λ s. (entry_at s k).count) same ∙ counts k, subst IsTable (sym same) table)
    by_got (read_error t') h = absurd (ground (arith, h))
    by_got (locked i t') h = tt
    by_got no_imt h = tt
    by_got stuck h = tt
    by_got spins h = h

with_parent-Balanced :
    (pdir dev ino : ℕ) (s t : Store)
    → HasRoom s
    → Holds pdir s t
    → ino ≢ 0
    → Balanced s (with_parent pdir (iget_mounted (λ _ _. false) dev ino t))
unfolding HasRoom Balanced Holds IgetOutcome
with_parent-Balanced pdir dev ino s t room (counts, table) nz =
    by_got (iget_mounted (λ _ _. false) dev ino t)
      (iget_from-IgetOutcome (λ _ _. false) (length t.mounts) dev ino t table nz)
  where
    by_got : (g : Got) → IgetOutcome (λ _ _. false) dev ino t g → Balanced s (with_parent pdir g)
    by_got (got i t') h =
        let (up, table') = counted_up dev ino i t t' (λ k. ground (arith, counts k, room k)) h in
        (λ k. up k ∙ ap (λ n. n + one_at i k) (counts k), table')
    by_got (overflow t') (same, _) =
        subst (λ t. Balanced s (out 23 pdir t)) (sym same)
          (out-Balanced 23 pdir s t room (counts, table))
    by_got (read_error t') h = absurd (ground (arith, h))
    by_got (locked i t') h = tt
    by_got no_imt h = tt
    by_got stuck h = tt
    by_got spins h = h

module _ (slot : Entry → ℕ → Option (ℕ × List ℕ)) (denied : Entry → ℕ → Option ℕ) (s : Store)
    (room : HasRoom s) where
  -- the directory may be written, or the lookup ends
  pub allowed-Balanced :
      (mode i : ℕ) (t : Store) (next : Named)
      → Holds i s t
      → Balanced s next
      → Balanced s (elim (denied (entry_at t i) mode) as (λ _. Named) [
        | some errno ↦ out errno i t
        | none ↦ next
      ])
  allowed-Balanced mode i t next held ok = by_errno (denied (entry_at t i) mode)
    where
      by_errno :
          (o : Option ℕ)
          → Balanced s (elim o as (λ _. Named) [ some errno ↦ out errno i t | none ↦ next ])
      by_errno (some errno) = out-Balanced errno i s t room held
      by_errno none = ok

  -- the directory is marked as changed
  marked-Holds :
      (i : ℕ) (t : Store)
      → Holds i s t
      → Holds i s (put_entry i (record (entry_at t i) { iupd = true }) t)
  unfolding Holds IsTable
  marked-Holds i t (counts, table) =
      let e = record (entry_at t i) { iupd = true } in
      let used : (entry_at t i).count ≢ 0 = ground (arith, counts i) in
      let at = λ (k : ℕ). get_or-set t.inode i k e no_entry (used_inside t i used) in
      (
        λ k. ground (arith, at k, counts k),
        IsTable-entry i t (put_entry i e t) table (λ k ne. ground (arith, at k, ne))
            (ground (arith, at i, table.2 i)) (λ z. ground (arith, at i, used, z))
            (λ _. (used, ground (arith, at i), ground (arith, at i))),
      )

  pub name_missing-Balanced :
      (flag : ℕ) (last : Bool) (eo : Option ℕ) (end i : ℕ) (t : Store)
      → Holds i s t
      → Balanced s (name_missing (λ _ _. false) slot denied flag last eo end i t)
  unfolding name_missing Balanced
  name_missing-Balanced flag last eo end i t held = by_flag (flag == 1 && last)
    where
      made : Option ℕ → Named
      made o = elim o as (λ _. Named) [
        | none ↦ creates i end (put_entry i (record (entry_at t i) { iupd = true }) t)
        | some k ↦ creates i (k - 16) t
      ]

      made-Balanced : (o : Option ℕ) → Balanced s (made o)
      made-Balanced none = marked-Holds i t held
      made-Balanced (some k) = held

      by_flag :
          (b : Bool)
          → Balanced s (
              if b
              then elim (denied (entry_at t i) 128) as (λ _. Named) [
                | some errno ↦ out errno i t
                | none ↦ made eo
              ]
              else out 2 i t)
      by_flag true = allowed-Balanced 128 i t (made eo) held (made-Balanced eo)
      by_flag false = out-Balanced 2 i s t room held

  pub name_found-Balanced :
      (next : ℕ → Store → Named) (flag : ℕ) (last : Bool) (ino i : ℕ) (t : Store)
      → Holds i s t
      → ino ≢ 0
      → ((j : ℕ) (t : Store) → Holds j s t → Balanced s (next j t))
      → Balanced s (name_found (λ _ _. false) slot denied next flag last ino i t)
  unfolding name_found Balanced Holds HasRoom Released
  name_found-Balanced next flag last ino i t held nz continue = by_flag (flag == 2 && last)
    where
      dev : ℕ
      dev = (entry_at t i).dev

      by_put :
          (o : Option Store)
          → Released i t o
          → Balanced s (elim o as (λ _. Named) [
            | none ↦ blocked
            | some t' ↦ with_inode next (iget_mounted (λ _ _. false) dev ino t')
          ])
      by_put none h = tt
      by_put (some t') (less, table') =
          with_inode-Balanced next dev ino s t' room (λ k. ground (arith, less k, held.0 k)) table'
            nz continue

      by_flag :
          (b : Bool)
          → Balanced s (
              if b
              then elim (denied (entry_at t i) 128) as (λ _. Named) [
                | some errno ↦ out errno i t
                | none ↦ with_parent i (iget_mounted (λ _ _. false) dev ino t)
              ]
              else elim (iput i t) as (λ _. Named) [
                | none ↦ blocked
                | some t' ↦ with_inode next (iget_mounted (λ _ _. false) dev ino t')
              ])
      by_flag true =
          allowed-Balanced 128 i t (with_parent i (iget_mounted (λ _ _. false) dev ino t)) held
            (with_parent-Balanced i dev ino s t room held nz)
      by_flag false =
          by_put (iput i t)
            (iput-Released i t held.1 (ground (arith, held.0 i)) (ground (arith, held.0 i, room i)))
