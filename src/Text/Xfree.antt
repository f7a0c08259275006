-- ===== src/Text/Xfree.antt =====
-- `xfree` of kernel/text.c.
use unix_v.Common.{
  ℕ, ◌+◌, ◌<◌, ◌≡◌, ◌≢◌, refl, ◌∙◌, ap, ◌⊎◌, inl, inr, arith, Bool, true, false, Option, none, some,
  length, ◌==◌, if◌then◌else◌, length-set,
}
use unix_v.Inodes.{Store, entry_at, put_entry, dec8, iput}
use unix_v.Inodes.Table.{IsTable}
use unix_v.Inodes.Steps.{used_inside}
use unix_v.Inodes.Counts.{IputOutcome, iput-IputOutcome}
use unix_v.Text.{Text, Texts, text_at, put_text, detach, xfree}
use unix_v.Text.Find.{IsShared, IsHeld, IsShared-change, put_text-at, put_entry-at, text_inside}

-- What `xfree` of the text `k` of the inode may come to in the state `s`.
unfoldable pub XfreeOutcome : (k ip : ℕ) → Texts → Option Texts → Type 0
XfreeOutcome k ip s none =
    ((text_at s k).count ≡ 1)
    × ((entry_at s.store ip).count ≡ 1)
    × ((entry_at s.store ip).node.nlink ≡ 0)
XfreeOutcome k ip s (some s') =
    ((l : ℕ) → k ≢ l → text_at s' l ≡ text_at s l)
    × ((text_at s' k).count + 1 ≡ (text_at s k).count)
    × (((text_at s k).count ≢ 1) × ((text_at s' k).iptr ≡ some ip) × (s'.store ≡ s.store)
        ⊎ ((text_at s k).count ≡ 1)
          × ((text_at s' k).iptr ≡ none)
          × ((j : ℕ) → ip ≢ j → entry_at s'.store j ≡ entry_at s.store j)
          × ((entry_at s'.store ip).count + 1 ≡ (entry_at s.store ip).count)
          × ((entry_at s'.store ip).ilock ≡ false)
          × ((entry_at s'.store ip).count ≢ 0
              → ((entry_at s'.store ip).node ≡ (entry_at s.store ip).node)
                × ((entry_at s'.store ip).itext ≡ false)))
    × IsShared s'
    × IsTable s'.store

module _ (k ip : ℕ) (s : Texts) (shared : IsShared s) (table : IsTable s.store)
    (mine : (text_at s k).iptr ≡ some ip) (small : (entry_at s.store ip).count < 256) where
  -- the text with one reference less
  abbrev less : Text
  less = record (text_at s k) { count = dec8 (text_at s k).count }

  -- the inode without its mark
  abbrev bare : Store
  bare = put_entry ip (record (entry_at s.store ip) { itext = false }) s.store

  inside : k < length s.text
  inside = text_inside s k ip mine

  held : IsHeld s.store (text_at s k) ip
  unfolding IsShared
  held = shared.1 k ip mine

  counted : (text_at s k).count ≢ 1 → XfreeOutcome k ip s (some (put_text k less s))
  unfolding XfreeOutcome IsShared IsHeld
  counted more =
      let at = λ (l : ℕ). put_text-at k less s l inside in
      let others : (l : ℕ) → k ≢ l → text_at (put_text k less s) l ≡ text_at s l =
        λ l ne. ground (arith, at l, ne) in
      (
        others,
        ground (arith, at k, held),
        inl (more, ground (arith, at k, mine), refl),
        IsShared-change s (put_text k less s) k shared others
            (λ l i ne a b. ground (arith, at k, b, shared.0 k l i, a, ne))
            (λ i a. ground (arith, at k, a, shared.1 k i, more))
            (λ l i ne a. ground (arith, shared.1 l i, a)),
        table,
      )

  bare-at :
      (j : ℕ)
      → entry_at bare j
        ≡ (if ip == j then record (entry_at s.store ip) { itext = false } else entry_at s.store j)
  unfolding IsHeld
  bare-at j = put_entry-at ip (record (entry_at s.store ip) { itext = false }) s.store j held.0

  bare-IsTable : IsTable bare
  unfolding IsTable
  bare-IsTable = (
    λ i j a b c d. ground (arith, bare-at i, bare-at j, table.0 i j, a, b, c, d),
    λ i z. ground (arith, bare-at i, table.1 i, z),
    λ i. ground (arith, bare-at i, table.2 i),
  )

  put_bare : IputOutcome ip bare (iput ip bare)
  unfolding IsHeld
  put_bare =
      let len : length bare.inode ≡ length s.store.inode =
        length-set s.store.inode ip (record (entry_at s.store ip) { itext = false }) in
      iput-IputOutcome ip bare (omega (arith, len, held.0)) bare-IsTable
        (ground (arith, bare-at ip, held)) (ground (arith, bare-at ip, small))

  -- the state after the inode was put
  abbrev gone : Store → Texts
  gone t = record (put_text k (record less { iptr = none; caddr = 0 }) s) { store = t }

  -- the other texts have other inodes, which stay
  stay :
      (t : Store)
      → ((j : ℕ) → ip ≢ j → entry_at t j ≡ entry_at s.store j)
      → (l i : ℕ) → k ≢ l
      → (text_at s l).iptr ≡ some i
      → (i < length t.inode) × ((entry_at t i).count ≢ 0) × ((entry_at t i).itext ≡ true)
  unfolding IsShared IsHeld
  stay t nodes l i ne a =
      let away : ip ≢ i = λ e. ne (shared.0 k l i (mine ∙ ap some e) a) in
      let (_, _, _, used, marked) = shared.1 l i a in
      let used' : (entry_at t i).count ≢ 0 = ground (arith, nodes i away, used) in
      (used_inside t i used', used', ground (arith, nodes i away, marked))

  detached :
      (o : Option Store)
      → (text_at s k).count ≡ 1
      → IputOutcome ip bare o
      → XfreeOutcome k ip s (elim o as (λ _. Option Texts) [ none ↦ none | some t ↦ some (gone t) ])
  unfolding XfreeOutcome IputOutcome
  detached none one (last, unlinked) =
      (one, ground (arith, bare-at ip, last), ground (arith, bare-at ip, unlinked))
  detached (some t) one (same, unlocked, _, after, counts) =
      let x = record less { iptr = none; caddr = 0 } in
      let at = λ (l : ℕ). put_text-at k x s l inside in
      let others : (l : ℕ) → k ≢ l → text_at (gone t) l ≡ text_at s l =
        λ l ne. ground (arith, at l, ne) in
      let nodes : (j : ℕ) → ip ≢ j → entry_at t j ≡ entry_at s.store j =
        λ j ne. same j ne ∙ ground (arith, bare-at j, ne) in
      (
        others,
        ground (arith, at k, one),
        inr (
          one,
          ground (arith, at k),
          nodes,
          ground (arith, counts, bare-at ip),
          unlocked,
          λ pos. (ground (arith, counts, bare-at ip, pos), ground (arith, counts, bare-at ip, pos)),
        ),
        IsShared-change s (gone t) k shared others (λ l i ne a b. ground (arith, at k, b))
            (λ i a. ground (arith, at k, a)) (stay t nodes),
        after,
      )

-- xfree of a text that has an inode, where texts and inodes agree, every inode in use has one entry
-- and nothing is mounted: the text has one reference less. With the last one it is free, and its
-- inode has one reference less and is unlocked, and is not marked as a text if it stays in use; else the
-- inodes are as they were. No other text or inode changes. It waits only where the last reference to
-- an inode without links goes, whose blocks are given back. Texts and inodes agree
-- afterwards, and every inode in use has one entry.
pub xfree-XfreeOutcome :
    (k ip : ℕ) (s : Texts)
    → IsShared s
    → IsTable s.store
    → (text_at s k).iptr ≡ some ip
    → (entry_at s.store ip).count < 256
    → XfreeOutcome k ip s (xfree (some k) s)
unfolding xfree detach IsHeld
xfree-XfreeOutcome k ip s shared table mine small =
    let (_, some_count, few, used, _) = held k ip s shared table mine small in
    by_count some_count few used (dec8 (text_at s k).count == 0) refl
  where
    by_count :
        (text_at s k).count ≢ 0
        → (text_at s k).count < 256
        → (entry_at s.store ip).count ≢ 0
        → (last : Bool) → dec8 (text_at s k).count == 0 ≡ last
        → XfreeOutcome k ip s (
            if last
            then detach k (record (text_at s k) { count = dec8 (text_at s k).count }) s
            else some (put_text k (record (text_at s k) { count = dec8 (text_at s k).count }) s))
    by_count some_count few used true e = rw mine (
        detached k ip s shared table mine small _ (ground (arith, some_count, few, e))
          (put_bare k ip s shared table mine small))
    by_count some_count few used false e =
        counted k ip s shared table mine small (ground (arith, e))
