-- ===== src/Inodes/Steps.antt =====
-- The parts of `iput` of kernel/fs/iget.c: `forget`, `prele` and `discard`.
use unix_v.Common.{
  ℕ, ◌<◌, ◌≡◌, ◌≢◌, refl, ap, ◌∙◌, arith, Bool, true, false, not, ◌||◌, Option, none, some, ◌∷◌,
  ◌==◌, if◌then◌else◌, get_or, length, get_or-set, length-set, inl, inr, Bool-cases, get_or-past,
  ltb,
}
use unix_v.Alloc.{Volume}
use unix_v.Bmap.{Inode, itrunc}
use unix_v.Inodes.{
  Entry, no_entry, Store, entry_at, put_entry, prele, iupdat, map_of, truncated, discard, forget,
}
use unix_v.Inodes.Table.{IsTable}

module _ (i : ℕ) (s : Store) (inside : i < length s.inode) where
  pub put-at :
      (e : Entry) (j : ℕ) → entry_at (put_entry i e s) j ≡ (if i == j then e else entry_at s j)
  put-at e j = get_or-set s.inode i j e no_entry inside

  pub length-put : (e : Entry) → length (put_entry i e s).inode ≡ length s.inode
  length-put e = length-set s.inode i e

  -- `iupdat` leaves the table alone
  inode-iupdat : (iupdat i s).inode ≡ s.inode
  unfolding iupdat
  inode-iupdat =
      elim (Bool-cases
        (not ((entry_at s i).iupd || (entry_at s i).iacc) || s.ronly (entry_at s i).dev)) [
          | inl e ↦ rw e refl
          | inr e ↦ rw e refl
        ]

  woken-iupdat : (iupdat i s).woken ≡ s.woken
  unfolding iupdat
  woken-iupdat =
      elim (Bool-cases
        (not ((entry_at s i).iupd || (entry_at s i).iacc) || s.ronly (entry_at s i).dev)) [
          | inl e ↦ rw e refl
          | inr e ↦ rw e refl
        ]

-- an entry past the end is not in use
pub used_inside : (t : Store) (i : ℕ) → (entry_at t i).count ≢ 0 → i < length t.inode
used_inside t i used = elim (Bool-cases (ltb i (length t.inode))) [
  | inl h ↦ ground (arith, h)
  | inr h ↦ absurd (used (ap (λ e. e.count) (get_or-past t.inode i no_entry (ground (arith, h)))))
]

-- The entry is not in use after it has been forgotten.
pub forget-at :
    (i : ℕ) (s : Store) (j : ℕ)
    → i < length s.inode
    → ((i ≢ j → entry_at (forget i s) j ≡ entry_at s j)
        × ((entry_at (forget i s) i).count ≡ 0)
        × ((entry_at (forget i s) i).number ≡ 0)
        × ((entry_at (forget i s) i).ilock ≡ false)
        × ((entry_at (forget i s) i).iwant ≡ false)
        × ((entry_at (forget i s) i).imount ≡ false)
        × ((forget i s).woken ≡ s.woken))
unfolding forget
forget-at i s j h =
    let s' = iupdat i s in
    let e = record (entry_at s' i) {
      ilock = false;
      iupd = false;
      iacc = false;
      imount = false;
      itext = false;
      iwant = false;
      count = 0;
      number = 0;
    } in
    let k : i < length s'.inode = rw (ap length (inode-iupdat i s h)) h in
    let same = ap (λ l. get_or l j no_entry) (inode-iupdat i s h) in
    (
      λ ne. ground (arith, put-at i s' k e j, same),
      ground (arith, put-at i s' k e i),
      ground (arith, put-at i s' k e i),
      ground (arith, put-at i s' k e i),
      ground (arith, put-at i s' k e i),
      ground (arith, put-at i s' k e i),
      woken-iupdat i s h,
    )

-- `prele` unlocks, and wakes who waits
pub prele-at :
    (i : ℕ) (s : Store) (j : ℕ)
    → i < length s.inode
    → ((i ≢ j → entry_at (prele i s) j ≡ entry_at s j)
        × (entry_at (prele i s) i ≡ record (entry_at s i) { ilock = false; iwant = false })
        × (prele i s ≡ record s { inode = (prele i s).inode; woken = (prele i s).woken })
        × ((entry_at s i).iwant ≡ true → (prele i s).woken ≡ i ∷ s.woken)
        × ((entry_at s i).iwant ≡ false → (prele i s).woken ≡ s.woken))
unfolding prele
prele-at i s j h = by_want (entry_at s i).iwant refl
  where
    e : Entry
    e = record (entry_at s i) { ilock = false; iwant = false }

    unlocked :
        entry_at (put_entry i (record (entry_at s i) { ilock = false }) s) i
        ≡ record (entry_at s i) { ilock = false }
    unlocked = ground (arith, put-at i s h (record (entry_at s i) { ilock = false }) i)

    by_want :
        (b : Bool)
        → (entry_at s i).iwant ≡ b
        → (let t =
              if b
              then record (put_entry i e s) { woken = i ∷ s.woken }
              else put_entry i (record (entry_at s i) { ilock = false }) s in
            (i ≢ j → entry_at t j ≡ entry_at s j)
            × (entry_at t i ≡ e)
            × (t ≡ record s { inode = t.inode; woken = t.woken })
            × ((entry_at s i).iwant ≡ true → t.woken ≡ i ∷ s.woken)
            × ((entry_at s i).iwant ≡ false → t.woken ≡ s.woken))
    by_want true w = (
      λ ne. ground (arith, put-at i s h e j),
      ground (arith, put-at i s h e i),
      refl,
      λ _. refl,
      λ f. ground (arith, w, f),
    )
    by_want false w = (
      λ ne. ground (arith, put-at i s h (record (entry_at s i) { ilock = false }) j),
      unlocked ∙ ap (λ b. record (entry_at s i) { ilock = false; iwant = b }) w,
      refl,
      λ t. ground (arith, w, t),
      λ _. refl,
    )

-- the entry as `prele` leaves it
abbrev pub let_go : Entry → Entry
let_go e = record e { ilock = false; iwant = false }

-- Another state that differs in this entry and in what belongs to no entry.
unfoldable pub Discarded : (i : ℕ) → Store → Option Store → Type 0
Discarded i s none = Unit {0}
Discarded i s (some s') =
    (length s'.inode ≡ length s.inode)
    × ((j : ℕ) → i ≢ j → entry_at s' j ≡ entry_at s j)
    × (s'.woken ≡ s.woken)

pub discard-Discarded : (i : ℕ) (s : Store) → i < length s.inode → Discarded i s (discard i s)
unfolding discard Discarded
discard-Discarded i s h =
    by_trunc (itrunc (map_of (entry_at s i).node) (s.volume (entry_at s i).dev)) refl
  where
    by_trunc :
        (o : Option (Inode × Volume))
        → itrunc (map_of (entry_at s i).node) (s.volume (entry_at s i).dev) ≡ o
        → Discarded i s (discard i s)
    by_trunc none e = rw (discard, e) tt
    by_trunc (some (ip, v)) e =
        let t = truncated ip (entry_at s i) in
        let f = record t { node = record t.node { mode = 0 } } in
        rw (discard, e) (length-put i s h f, λ j ne. ground (arith, put-at i s h f j), refl)

-- The table after a change to one entry, which is free or has the inode that it had.
pub IsTable-entry :
    (i : ℕ) (s s' : Store)
    → IsTable s
    → ((j : ℕ) → i ≢ j → entry_at s' j ≡ entry_at s j)
    → (entry_at s' i).imount ≡ false
    → ((entry_at s' i).count ≡ 0 → (entry_at s' i).number ≡ 0)
    → ((entry_at s' i).count ≢ 0
        → ((entry_at s i).count ≢ 0)
          × ((entry_at s' i).dev ≡ (entry_at s i).dev)
          × ((entry_at s' i).number ≡ (entry_at s i).number))
    → IsTable s'
unfolding IsTable
IsTable-entry i s s' table same mount free used = (
  λ j k a b c d. elim (Bool-cases (i == j)) [
    | inl x ↦ elim (Bool-cases (i == k)) [
      | inl y ↦ ground (arith, x, y)
      | inr y ↦ ground (arith, x, same k, used, table.0 j k, a, b, c, d)
    ]
    | inr x ↦ elim (Bool-cases (i == k)) [
      | inl y ↦ ground (arith, y, same j, used, table.0 j k, a, b, c, d)
      | inr y ↦ ground (arith, same j, same k, table.0 j k, a, b, c, d)
    ]
  ],
  λ j z. ground (arith, same j, free, table.1 j, z),
  λ j. ground (arith, same j, mount, table.2 j),
)
