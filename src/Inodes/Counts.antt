-- ===== src/Inodes/Counts.antt =====
-- `iput` of kernel/fs/iget.c.
use unix_v.Common.{
  ℕ, ◌+◌, ◌<◌, ◌≡◌, ◌≢◌, refl, ap, sym, ◌∙◌, arith, Bool, true, false, Option, none, some, ◌∷◌,
  ◌==◌, if◌then◌else◌, length, inl, inr, ◌⊎◌,
}
use unix_v.Inodes.{Store, entry_at, put_entry, dec8, prele, discard, forget, iput}
use unix_v.Inodes.Table.{IsTable}
use unix_v.Inodes.Steps.{
  put-at, length-put, forget-at, prele-at, let_go, Discarded, discard-Discarded, IsTable-entry,
}

-- What `iput` of the entry `i` may come to in the state `s`.
unfoldable pub IputOutcome : (i : ℕ) → Store → Option Store → Type 0
IputOutcome i s none = ((entry_at s i).count ≡ 1) × ((entry_at s i).node.nlink ≡ 0)
IputOutcome i s (some s') =
    ((j : ℕ) → i ≢ j → entry_at s' j ≡ entry_at s j)
    × ((entry_at s' i).ilock ≡ false)
    × ((entry_at s' i).iwant ≡ false)
    × IsTable s'
    × (((entry_at s i).count ≢ 1)
          × ((entry_at s' i).count + 1 ≡ (entry_at s i).count)
          × ((entry_at s' i).number ≡ (entry_at s i).number)
          × ((entry_at s' i).node ≡ (entry_at s i).node)
          × ((entry_at s' i).itext ≡ (entry_at s i).itext)
          × (entry_at s' i ≡ record (entry_at s i) {
            ilock = false;
            iwant = false;
            count = (entry_at s' i).count;
          })
          × (s' ≡ record s { inode = s'.inode; woken = s'.woken })
          × ((entry_at s i).iwant ≡ true → s'.woken ≡ i ∷ s.woken)
          × ((entry_at s i).iwant ≡ false → s'.woken ≡ s.woken)
        ⊎ ((entry_at s i).count ≡ 1) × ((entry_at s' i).count ≡ 0) × (s'.woken ≡ s.woken))

module _ (i : ℕ) (s : Store) (inside : i < length s.inode) (table : IsTable s)
    (used : (entry_at s i).count ≢ 0) (small : (entry_at s i).count < 256) where
  -- the entry is locked first
  abbrev held : Store
  held = put_entry i (record (entry_at s i) { ilock = true }) s

  held-at : (j : ℕ) → i ≢ j → entry_at held j ≡ entry_at s j
  held-at j ne = ground (arith, put-at i s inside (record (entry_at s i) { ilock = true }) j)

  length-held : length held.inode ≡ length s.inode
  length-held = length-put i s inside (record (entry_at s i) { ilock = true })

  forgotten :
      (t : Store)
      → (entry_at s i).count ≡ 1
      → Discarded i held (some t)
      → IputOutcome i s (some (forget i t))
  unfolding IputOutcome Discarded
  forgotten t one (len, same, woken) =
      let k : i < length t.inode = rw len (rw length-held inside) in
      let others : (j : ℕ) → i ≢ j → entry_at (forget i t) j ≡ entry_at s j =
        λ j ne. (forget-at i t j k).0 ne ∙ same j ne ∙ held-at j ne in
      let (_, count, number, lock, want, mount, woken') = forget-at i t i k in
      (
        others,
        lock,
        want,
        IsTable-entry i s (forget i t) table others mount (λ _. number) (λ ne. absurd (ne count)),
        inr (one, count, woken' ∙ woken),
      )

  counted_down :
      (entry_at s i).count ≢ 1
      → IputOutcome i s (
          some (
            prele i (
              put_entry i
                (record (entry_at s i) { ilock = true; count = dec8 (entry_at s i).count })
                held)))
  unfolding IputOutcome IsTable
  counted_down ne =
      let e = record (entry_at s i) { ilock = true; count = dec8 (entry_at s i).count } in
      let k : i < length held.inode = rw length-held inside in
      let t = put_entry i e held in
      let m : i < length t.inode = rw (length-put i held k e) k in
      let here : entry_at t i ≡ e = ground (arith, put-at i held k e i) in
      let others : (j : ℕ) → i ≢ j → entry_at (prele i t) j ≡ entry_at s j =
        λ j n. (prele-at i t j m).0 n ∙ ground (arith, put-at i held k e j, n) ∙ held-at j n in
      let (_, mine, rest, wakes, quiet) = prele-at i t i m in
      let mine' : entry_at (prele i t) i ≡ let_go e = mine ∙ ap let_go here in
      (
        others,
        ap (λ x. x.ilock) mine',
        ap (λ x. x.iwant) mine',
        IsTable-entry i s (prele i t) table others (ap (λ x. x.imount) mine' ∙ table.2 i)
            (λ z. absurd (omega (arith, z, ap (λ x. x.count) mine', used, ne, small)))
            (λ _. (used, ap (λ x. x.dev) mine', ap (λ x. x.number) mine')),
        inl (
          ne,
          omega (arith, ap (λ x. x.count) mine', used, small),
          ap (λ x. x.number) mine',
          ap (λ x. x.node) mine',
          ap (λ x. x.itext) mine',
          mine' ∙ ap (λ c. record (let_go e) { count = c }) (sym (ap (λ x. x.count) mine')),
          rest,
          λ w. wakes (ap (λ x. x.iwant) here ∙ w),
          λ w. quiet (ap (λ x. x.iwant) here ∙ w),
        ),
      )

  -- iput of an entry in use with a count below 256, where every inode in use has one entry and
  -- nothing is mounted: it unlocks the entry and takes one reference,
  -- and wakes who waits for it, and nothing else of the entry and nothing on the volumes or on the
  -- disk changes; with the last
  -- reference the entry is free, and nobody is woken. It waits only where the inode has no link and
  -- its blocks are given back. No other entry changes, and in the table every inode in use still
  -- has one entry.
  pub iput-IputOutcome : IputOutcome i s (iput i s)
  unfolding iput IputOutcome Discarded
  iput-IputOutcome = by_count ((entry_at s i).count == 1) ((entry_at s i).node.nlink == 0) refl refl
    where
      gone : Option Store → Option Store
      gone o = elim o as (λ _. Option Store) [ none ↦ none | some t ↦ some (forget i t) ]

      by_discard :
          (o : Option Store)
          → (entry_at s i).count ≡ 1
          → (entry_at s i).node.nlink ≡ 0
          → Discarded i held o
          → IputOutcome i s (gone o)
      by_discard none one free d = (one, free)
      by_discard (some t) one free d = forgotten t one d

      by_count :
          (last unlinked : Bool)
          → (entry_at s i).count == 1 ≡ last
          → (entry_at s i).node.nlink == 0 ≡ unlinked
          → IputOutcome i s (
              if last
              then (if unlinked then gone (discard i held) else some (forget i held))
              else some (
                  prele i (
                    put_entry i
                      (record (entry_at s i) { ilock = true; count = dec8 (entry_at s i).count })
                      held)))
      by_count true true l u =
          by_discard (discard i held) (ground (arith, l)) (ground (arith, u))
            (discard-Discarded i held (rw length-held inside))
      by_count true false l u = forgotten held (ground (arith, l)) (refl, λ j ne. refl, refl)
      by_count false u l e = counted_down (ground (arith, l))
