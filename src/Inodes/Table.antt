-- ===== src/Inodes/Table.antt =====
-- `iget` of kernel/fs/iget.c.
use unix_v.Common.{
  ℕ, zero, suc, ◌+◌, ◌<◌, ◌≡◌, ◌≢◌, refl, ap, arith, Bool, true, false, ◌&&◌, Option, none, some,
  List, [], ◌∷◌, ◌==◌, if◌then◌else◌, get_or, length, get_or-set, get_or-past, inl, inr, Bool-cases,
  ◌⊎◌, ltb,
}
use unix_v.Inodes.{
  Entry, no_entry, Store, entry_at, put_entry, find_inode, find_empty, inc8, Got, got, overflow,
  read_error, locked, no_imt, stuck, spins, load, hold, iget_from, iput,
}

-- Every inode in use has one entry, an entry that is not in use has the number 0, and nothing is
-- mounted on an inode.
unfoldable pub IsTable : Store → Type 0
IsTable s =
    ((i j : ℕ)
      → (entry_at s i).count ≢ 0
      → (entry_at s j).count ≢ 0
      → (entry_at s i).dev ≡ (entry_at s j).dev
      → (entry_at s i).number ≡ (entry_at s j).number
      → i ≡ j)
    × ((i : ℕ) → (entry_at s i).count ≡ 0 → (entry_at s i).number ≡ 0)
    × ((i : ℕ) → (entry_at s i).imount ≡ false)

-- the entry has the inode
abbrev pub names : (dev number : ℕ) → Entry → Bool
names dev number e = e.dev == dev && e.number == number

find_inode-finds :
    (dev number i : ℕ) (l : List Entry)
    → ((find_inode dev number i l ≡ none)
        × ((j : ℕ) → j < length l → names dev number (get_or l j no_entry) ≡ false))
      ⊎ ((k : ℕ) × (find_inode dev number i l ≡ some (i + k))
          × (k < length l)
          × (names dev number (get_or l k no_entry) ≡ true))
unfolding find_inode
find_inode-finds dev number i [] = inl (refl, λ j h. absurd (omega arith))
find_inode-finds dev number i (e ∷ l) = elim (Bool-cases (names dev number e)) [
  | inl here ↦ inr (0, rw here (ap some (omega arith)), omega arith, here)
  | inr away ↦ elim (find_inode-finds dev number (suc i) l) [
    | inl (none_found, all) ↦ inl (
      rw (away, none_found) refl,
      λ j h.
          elim j
              as (λ j. j < suc (length l) → names dev number (get_or (e ∷ l) j no_entry) ≡ false) [
                | zero ↦ λ _. away
                | suc (k → _) ↦ λ h. all k (omega arith)
              ]
            h,
    )
    | inr (k, found, h, v) ↦ inr (suc k, rw (away, found) (ap some (omega arith)), omega arith, v)
  ]
]

find_empty-finds :
    (i : ℕ) (l : List Entry)
    → ((find_empty i l ≡ none) × ((j : ℕ) → j < length l → (get_or l j no_entry).count ≢ 0))
      ⊎ ((k : ℕ) × (find_empty i l ≡ some (i + k))
          × (k < length l)
          × ((get_or l k no_entry).count ≡ 0))
unfolding find_empty
find_empty-finds i [] = inl (refl, λ j h. absurd (omega arith))
find_empty-finds i (e ∷ l) = elim (Bool-cases (e.count == 0)) [
  | inl here ↦ inr (0, rw here (ap some (omega arith)), omega arith, ground (arith, here))
  | inr used ↦ elim (find_empty-finds (suc i) l) [
    | inl (none_found, all) ↦ inl (
      rw (used, none_found) refl,
      λ j h.
          elim j as (λ j. j < suc (length l) → (get_or (e ∷ l) j no_entry).count ≢ 0) [
            | zero ↦ λ _. ground (arith, used)
            | suc (k → _) ↦ λ h. all k (omega arith)
          ]
            h,
    )
    | inr (k, found, h, v) ↦ inr (suc k, rw (used, found) (ap some (omega arith)), omega arith, v)
  ]
]

-- What `iget` may come to in the state `s`.
unfoldable pub IgetOutcome : (ℕ → ℕ → Bool) → (dev number : ℕ) → Store → Got → Type 0
IgetOutcome bad dev number s (got i s') =
    (names dev number (entry_at s' i) ≡ true)
    × ((entry_at s' i).ilock ≡ true)
    × ((j : ℕ) → i ≢ j → entry_at s' j ≡ entry_at s j)
    × (((names dev number (entry_at s i) ≡ true)
          × ((entry_at s i).ilock ≡ false)
          × ((entry_at s i).count ≢ 0)
          × ((entry_at s' i).count ≡ inc8 (entry_at s i).count)
          × ((entry_at s' i).node ≡ (entry_at s i).node))
        ⊎ ((bad dev number ≡ false)
            × ((j : ℕ) → j < length s.inode → names dev number (entry_at s j) ≡ false)
            × ((entry_at s i).count ≡ 0)
            × ((entry_at s' i).count ≡ 1)
            × ((entry_at s' i).node ≡ s.disk dev number)))
    × ((entry_at s' i).count ≢ 0 → IsTable s')
IgetOutcome bad dev number s (overflow s') =
    (s' ≡ s)
    × ((j : ℕ)
        → j < length s.inode
        → (names dev number (entry_at s j) ≡ false) × ((entry_at s j).count ≢ 0))
IgetOutcome bad dev number s (read_error s') = bad dev number ≡ true
IgetOutcome bad dev number s (locked i s') =
    (names dev number (entry_at s i) ≡ true)
    × ((entry_at s i).ilock ≡ true)
    × ((entry_at s' i).iwant ≡ true)
IgetOutcome bad dev number s no_imt = ⊥
IgetOutcome bad dev number s stuck = bad dev number ≡ true
IgetOutcome bad dev number s spins = ⊥

module _ (bad : ℕ → ℕ → Bool) (dev number : ℕ) (s : Store) (table : IsTable s) (nz : number ≢ 0)
    (i : ℕ) (inside : i < length s.inode) where
  put_entry-at :
      (e : Entry) (j : ℕ) → entry_at (put_entry i e s) j ≡ (if i == j then e else entry_at s j)
  put_entry-at e j = get_or-set s.inode i j e no_entry inside

  hold-Outcome :
      names dev number (entry_at s i) ≡ true
      → (entry_at s i).ilock ≡ false
      → IgetOutcome bad dev number s (hold i s)
  unfolding hold IgetOutcome IsTable
  hold-Outcome mine free =
      let e = record (entry_at s i) { count = inc8 (entry_at s i).count; ilock = true } in
      (
        ground (arith, put_entry-at e i, mine),
        ground (arith, put_entry-at e i),
        λ j ne. ground (arith, put_entry-at e j),
        inl (
          mine,
          free,
          λ z. ground (arith, mine, table.1 i z, nz),
          ground (arith, put_entry-at e i),
          ground (arith, put_entry-at e i),
        ),
        λ pos. (
          λ j k a b c d. ground (
            arith,
            put_entry-at e j,
            put_entry-at e k,
            table.0 j k,
            table.1 i,
            mine,
            nz,
            a,
            b,
            c,
            d,
          ),
          λ j z. ground (arith, put_entry-at e j, table.1 j, pos, z),
          λ j. ground (arith, put_entry-at e j, table.2 j),
        ),
      )

  load-Outcome :
      (entry_at s i).count ≡ 0
      → ((j : ℕ) → j < length s.inode → names dev number (entry_at s j) ≡ false)
      → IgetOutcome bad dev number s (load bad dev number i s)
  unfolding load IgetOutcome IsTable
  load-Outcome free away = by_bad (bad dev number) refl
    where
      e : Entry
      e = record (entry_at s i) {
        dev = dev;
        number = number;
        ilock = true;
        iupd = false;
        iacc = false;
        imount = false;
        itext = false;
        iwant = false;
        count = 1;
      }

      full : Entry
      full = record e { node = s.disk dev number }

      in_use : (j : ℕ) → (entry_at s j).count ≢ 0 → names dev number (entry_at s j) ≡ false
      in_use j used = elim (Bool-cases (ltb j (length s.inode))) [
        | inl h ↦ away j (ground (arith, h))
        | inr h ↦
            absurd (used (ap (λ e. e.count) (get_or-past s.inode j no_entry (ground (arith, h)))))
      ]

      by_iput :
          (o : Option Store)
          → bad dev number ≡ true
          → IgetOutcome bad dev number s
              (elim o as (λ _. Got) [ none ↦ stuck | some s' ↦ read_error s' ])
      by_iput none b = b
      by_iput (some s') b = b

      by_bad :
          (b : Bool)
          → bad dev number ≡ b
          → IgetOutcome bad dev number s (
              if b
              then elim (iput i (put_entry i e s)) as (λ _. Got) [
                | none ↦ stuck
                | some s' ↦ read_error s'
              ]
              else got i (put_entry i full s))
      by_bad true b = by_iput (iput i (put_entry i e s)) b
      by_bad false b = (
        ground (arith, put_entry-at full i),
        ground (arith, put_entry-at full i),
        λ j ne. ground (arith, put_entry-at full j),
        inr (
          b,
          away,
          free,
          ground (arith, put_entry-at full i),
          ground (arith, put_entry-at full i),
        ),
        λ pos. (
          λ j k a a' c d. ground (
            arith,
            put_entry-at full j,
            put_entry-at full k,
            table.0 j k,
            in_use j,
            in_use k,
            a,
            a',
            c,
            d,
          ),
          λ j z. ground (arith, put_entry-at full j, table.1 j, z),
          λ j. ground (arith, put_entry-at full j, table.2 j),
        ),
      )

  -- the inode has an entry
  found-Outcome :
      names dev number (entry_at s i) ≡ true
      → (lock mount : Bool) → (entry_at s i).ilock ≡ lock
      → (entry_at s i).imount ≡ mount
      → (root : Got)
      → IgetOutcome bad dev number s (
          if lock
          then locked i (put_entry i (record (entry_at s i) { iwant = true }) s)
          else if mount
          then root
          else hold i s)
  unfolding IgetOutcome IsTable
  found-Outcome mine true mount l m root =
      (mine, l, ground (arith, put_entry-at (record (entry_at s i) { iwant = true }) i))
  found-Outcome mine false true l m root = ground (arith, m, table.2 i)
  found-Outcome mine false false l m root = hold-Outcome mine l

-- iget of an inode whose number is not 0, where every inode in use has one entry and nothing is
-- mounted: it gives the entry of the inode, locked, and no other entry has changed; the entry was
-- in use and not locked and has one more reference, or the inode had no entry, and it has one
-- reference and what the disk has. In the table every inode in use has one entry again, unless the
-- count of 8 bits has come round to 0. It waits only for a locked entry of the inode, fails with
-- ENFILE only if no entry has the inode or is free, and fails otherwise only if the inode cannot be
-- read; its search ends.
pub iget_from-IgetOutcome :
    (bad : ℕ → ℕ → Bool) (fuel dev number : ℕ) (s : Store)
    → IsTable s
    → number ≢ 0
    → IgetOutcome bad dev number s (iget_from bad (suc fuel) dev number s)
unfolding iget_from IgetOutcome IsTable
iget_from-IgetOutcome bad fuel dev number s table nz =
    elim (find_inode-finds dev number 0 s.inode) [
      | inl (none_found, all) ↦ elim (find_empty-finds 0 s.inode) [
        | inl (full, used) ↦ rw (iget_from, none_found, full) (refl, λ j h. (all j h, used j h))
        | inr (k, found, h, free) ↦
            let z : 0 + k ≡ k = omega arith in
            rw (iget_from, none_found, found, z)
              (load-Outcome bad dev number s table nz k h free all)
      ]
      | inr (k, found, h, mine) ↦
          let z : 0 + k ≡ k = omega arith in
          rw (iget_from, found, z)
            (found-Outcome bad dev number s table nz k h mine (entry_at s k).ilock
              (entry_at s k).imount refl refl _)
    ]
