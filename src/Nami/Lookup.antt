-- ===== src/Nami/Lookup.antt =====
-- The loops of `namei` of kernel/fs/nami.c, and the whole call.
use unix_v.Common.{
  ℕ, zero, suc, ◌+◌, ◌*◌, ◌/◌, ◌^◌, ◌<◌, ◌≤◌, ◌≢◌, refl, sym, subst, arith, Bool, true, false, not,
  ◌&&◌, ◌==◌, if◌then◌else◌, Option, none, some, List, [], ◌∷◌, if_true, if_false, Bool-cases, inl,
  inr, length,
}
use unix_v.Inodes.{Entry, Store, entry_at}
use unix_v.Inodes.Table.{IsTable}
use unix_v.Nami.{
  Named, failed, out, with_inode, iget_mounted, Searched, found, missing, unreadable, search,
  searched, component, walk, started, namei, enxio, gather, skip_slashes, is_end, is_directory,
  same_name,
}
use unix_v.Nami.Balance.{
  HasRoom, Holds, Balanced, out-Balanced, with_inode-Balanced, allowed-Balanced,
  name_missing-Balanced, name_found-Balanced,
}

-- a name that is found has an inode
unfoldable IsNumbered : Searched → Type 0
IsNumbered (found ino) = ino ≢ 0
IsNumbered (missing eo end) = Unit {0}
IsNumbered unreadable = Unit {0}

search-IsNumbered :
    (slot : Entry → ℕ → Option (ℕ × List ℕ)) (n k : ℕ) (eo : Option ℕ) (dp : Entry) (name : List ℕ)
    → IsNumbered (search slot n k eo dp name)
unfolding search IsNumbered
search-IsNumbered slot zero k eo dp name = tt
search-IsNumbered slot (suc n) k eo dp name =
    by_slot (slot dp k) (λ eo. search-IsNumbered slot n (suc k) eo dp name)
  where
    by_slot :
        (o : Option (ℕ × List ℕ))
        → ((eo : Option ℕ) → IsNumbered (search slot n (suc k) eo dp name))
        → IsNumbered (elim o [
          | none ↦ unreadable
          | some (ino, d_name) ↦
              let first = elim eo as (λ _. Option ℕ) [
                | none ↦ some (16 * suc k)
                | some o ↦ some o
              ] in
              let rest = search slot n (suc k) (if ino == 0 then first else eo) dp name in
              if not (ino == 0) && same_name name d_name then found ino else rest
        ])
    by_slot none ih = tt
    by_slot (some (ino, d_name)) ih = elim (Bool-cases (not (ino == 0) && same_name name d_name)) [
      | inl e ↦ subst IsNumbered (sym (if_true _ _ _ e)) (ground (arith, e))
      | inr e ↦ subst IsNumbered (sym (if_false _ _ _ e)) (ih _)
    ]

-- A path does not become longer.
skip_slashes-length : (l : List ℕ) → length (skip_slashes l) ≤ length l
unfolding skip_slashes
skip_slashes-length [] = omega arith
skip_slashes-length (c ∷ l) = ground (arith, skip_slashes-length l)

gather-length : (n : ℕ) (l : List ℕ) → length (gather n l).1 ≤ length l
unfolding gather
gather-length n [] = omega arith
gather-length zero (c ∷ l) = elim (Bool-cases (c == 47)) [
  | inl e ↦
      subst (λ (r : List ℕ × List ℕ). length r.1 ≤ suc (length l)) (sym (if_true (c == 47) _ _ e))
        (omega arith)
  | inr e ↦
      subst (λ (r : List ℕ × List ℕ). length r.1 ≤ suc (length l)) (sym (if_false (c == 47) _ _ e))
        (omega (arith, gather-length zero l))
]
gather-length (suc n) (c ∷ l) = elim (Bool-cases (c == 47)) [
  | inl e ↦
      subst (λ (r : List ℕ × List ℕ). length r.1 ≤ suc (length l)) (sym (if_true (c == 47) _ _ e))
        (omega arith)
  | inr e ↦
      subst (λ (r : List ℕ × List ℕ). length r.1 ≤ suc (length l)) (sym (if_false (c == 47) _ _ e))
        (omega (arith, gather-length n l))
]

-- behind a name and its slashes less of the path is left
behind-length : (n c : ℕ) (l : List ℕ) → length (skip_slashes (gather (suc n) (c ∷ l)).1) ≤ length l
unfolding gather skip_slashes
behind-length n c l = elim (Bool-cases (c == 47)) [
  | inl e ↦
      subst (λ (r : List ℕ × List ℕ). length (skip_slashes r.1) ≤ length l)
        (sym (if_true (c == 47) _ _ e))
        (subst (λ (r : List ℕ). length r ≤ length l) (sym (if_true (c == 47) _ _ e))
          (skip_slashes-length l))
  | inr e ↦
      subst (λ (r : List ℕ × List ℕ). length (skip_slashes r.1) ≤ length l)
        (sym (if_false (c == 47) _ _ e))
        (omega (arith, skip_slashes-length (gather n l).1, gather-length n l))
]

module _ (slot : Entry → ℕ → Option (ℕ × List ℕ)) (denied : Entry → ℕ → Option ℕ) (s : Store)
    (room : HasRoom s) where
  component-Balanced :
      (next : List ℕ → ℕ → Store → Named) (flag : ℕ) (faulty : Bool) (l : List ℕ) (i : ℕ)
      (t : Store)
      → Holds i s t
      → ((j : ℕ) (t : Store) → Holds j s t → Balanced s (next (skip_slashes (gather 14 l).1) j t))
      → Balanced s (component (λ _ _. false) slot denied next flag faulty l i t)
  unfolding component searched IsNumbered
  component-Balanced next flag faulty l i t held continue = by_mode (is_directory e.node.mode)
    where
      e : Entry
      e = entry_at t i

      rest : List ℕ
      rest = skip_slashes (gather 14 l).1

      by_search :
          (r : Searched)
          → IsNumbered r
          → Balanced s (searched (λ _ _. false) slot denied (next rest) flag (is_end rest) r i t)
      by_search (found ino) nz =
          name_found-Balanced slot denied s room (next rest) flag (is_end rest) ino i t held nz
            continue
      by_search (missing eo end) h =
          name_missing-Balanced slot denied s room flag (is_end rest) eo end i t held
      by_search unreadable h = out-Balanced enxio i s t room held

      n : ℕ
      n = (e.node.size1 + e.node.size0 * 2 ^ 16) / 16

      r : Searched
      r = search slot n 0 none e (gather 14 l).0

      by_fault :
          (b : Bool)
          → Balanced s (
              if b
              then out 106 i t
              else searched (λ _ _. false) slot denied (next rest) flag (is_end rest) r i t)
      by_fault true = out-Balanced 106 i s t room held
      by_fault false = by_search r (search-IsNumbered slot n 0 none e (gather 14 l).0)

      by_mode :
          (b : Bool)
          → Balanced s (
              if b
              then elim (denied e 64) as (λ _. Named) [
                | some errno ↦ out errno i t
                | none ↦
                    if faulty && is_end rest
                    then out 106 i t
                    else searched (λ _ _. false) slot denied (next rest) flag (is_end rest) r i t
              ]
              else out 20 i t)
      by_mode true =
          allowed-Balanced slot denied s room 64 i t _ held (by_fault (faulty && is_end rest))
      by_mode false = out-Balanced 20 i s t room held

  walk-Balanced :
      (fuel flag : ℕ) (faulty : Bool) (l : List ℕ) (i : ℕ) (t : Store)
      → length l < fuel
      → Holds i s t
      → Balanced s (walk (λ _ _. false) slot denied fuel flag faulty l i t)
  unfolding walk Balanced
  walk-Balanced zero flag faulty l i t enough held = absurd (omega (arith, enough))
  walk-Balanced (suc fuel) flag true [] i t enough held = out-Balanced 106 i s t room held
  walk-Balanced (suc fuel) flag false [] i t enough held = held
  walk-Balanced (suc fuel) flag faulty (c ∷ l) i t enough held =
      component-Balanced (λ rest. walk (λ _ _. false) slot denied fuel flag faulty rest) flag faulty
        (c ∷ l) i t held
        (λ j t' h.
          walk-Balanced fuel flag faulty (skip_slashes (gather 14 (c ∷ l)).1) j t'
            (omega (arith, behind-length 13 c l, enough)) h)

  started-Balanced :
      (flag : ℕ) (faulty : Bool) (l : List ℕ) (i : ℕ) (t : Store)
      → Holds i s t
      → Balanced s (started (λ _ _. false) slot denied flag faulty l i t)
  unfolding started
  started-Balanced flag faulty l i t held =
      by_empty (is_end (skip_slashes l) && not faulty && not (flag == 0))
    where
      rest : List ℕ
      rest = skip_slashes l

      by_empty :
          (b : Bool)
          → Balanced s (
              if b
              then out 2 i t
              else walk (λ _ _. false) slot denied (suc (length rest)) flag faulty rest i t)
      by_empty true = out-Balanced 2 i s t room held
      by_empty false = walk-Balanced (suc (length rest)) flag faulty rest i t (omega arith) held

-- A directory to start from has a number other than 0.
unfoldable pub IsStart : Option (ℕ × ℕ) → Type 0
IsStart none = Unit {0}
IsStart (some (dev, number)) = number ≢ 0

-- namei of any path and flag, where every inode in use has one entry, nothing is mounted, every inode
-- can be read, every count has room for two more references, and the directories to start from have
-- numbers other than 0: its loops end; and it waits, or every inode in use has one entry afterwards
-- and the references are those from before, and one to the inode, if that is the result, or to the
-- directory, if a name can be made there, or to both, if a name is to be deleted; where it fails, the
-- references are those from before.
pub namei-Balanced :
    (slot : Entry → ℕ → Option (ℕ × List ℕ)) (denied : Entry → ℕ → Option ℕ) (flag : ℕ)
    (faulty : Bool) (l : List ℕ) (rootdir cdir : Option (ℕ × ℕ)) (s : Store)
    → HasRoom s
    → IsTable s
    → IsStart rootdir
    → IsStart cdir
    → Balanced s (namei (λ _ _. false) slot denied flag faulty l rootdir cdir s)
unfolding namei Balanced IsStart
namei-Balanced slot denied flag faulty l rootdir cdir s room table root current =
    by_start (if absolute then rootdir else cdir) (start absolute)
  where
    absolute : Bool
    absolute = elim l as (λ _. Bool) [ [] ↦ false | c ∷ _ ↦ c == 47 ]

    start : (b : Bool) → IsStart (if b then rootdir else cdir)
    start true = root
    start false = current

    by_start :
        (o : Option (ℕ × ℕ))
        → IsStart o
        → Balanced s (elim o [
          | none ↦ failed 2 s
          | some (dev, number) ↦
              with_inode
                (started (λ _ _. false) slot denied flag faulty l)
                (iget_mounted (λ _ _. false) dev number s)
        ])
    by_start none h = (λ k. refl, table)
    by_start (some (dev, number)) nz =
        with_inode-Balanced (started (λ _ _. false) slot denied flag faulty l) dev number s s room
          (λ k. refl) table nz
          (λ i t held. started-Balanced slot denied s room flag faulty l i t held)
