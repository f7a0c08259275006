-- ===== src/Nami.antt =====
-- The lookup of path names of kernel/fs/nami.c, over the table of inodes. What a directory has at a
-- position is a parameter, as the reading of files is, and so is what `access` says, as an error
-- number, and which inodes cannot be read. A path is the list of its characters other than NUL; one
-- that cannot be read to its end is faulty. A call that waits ends there.
pub mod Balance
pub mod Lookup
mod Tests
use unix_v.Common.{
  ℕ, zero, suc, ◌+◌, ◌-◌, ◌*◌, ◌/◌, ◌%◌, ◌^◌, Bool, true, false, not, ◌&&◌, ◌||◌, Option, none,
  some, List, [], ◌∷◌, ◌==◌, if◌then◌else◌, length, replicate,
}
use unix_v.Inodes.{
  Entry, Store, entry_at, put_entry, iput, Got, got, overflow, read_error, locked, no_imt, stuck,
  spins, iget_from,
}

-- What `namei` comes to: the inode; the directory in which the name can be made, with the offset of
-- the slot; the directory and the inode of a name to be deleted; an error; a
-- wait; the end of the fuel.
pub data Named : Type 0 where
  named : (ip : ℕ) → Store → Named
  creates : (pdir offset : ℕ) → Store → Named
  deletes : (pdir ip : ℕ) → Store → Named
  failed : (errno : ℕ) → Store → Named
  blocked : Named
  no_fuel : Named

unfoldable pub skip_slashes : List ℕ → List ℕ
skip_slashes [] = []
skip_slashes (c ∷ l) = let rest = skip_slashes l in if c == 47 then rest else c ∷ l

-- The first name of a path, of which `n` characters are kept and filled up with NUL, and what comes
-- behind it.
unfoldable pub gather : (n : ℕ) → List ℕ → List ℕ × List ℕ
gather n [] = (replicate n 0, [])
gather zero (c ∷ l) = let rest = gather zero l in if c == 47 then ([], c ∷ l) else rest
gather (suc n) (c ∷ l) =
    let (name, rest) = gather n l in
    if c == 47 then (replicate (suc n) 0, c ∷ l) else (c ∷ name, rest)

abbrev pub same_name : List ℕ → List ℕ → Bool
same_name [] [] = true
same_name (a ∷ l) (b ∷ m) = let rest = same_name l m in a == b && rest
same_name _ _ = false

-- What the search of a directory comes to: the inode number; the end of the first empty slot, if any,
-- and of the directory; a block that cannot be read.
pub data Searched : Type 0 where
  found : ℕ → Searched
  missing : Option ℕ → ℕ → Searched
  unreadable : Searched

abbrev pub is_directory : ℕ → Bool
is_directory mode = mode / 2 ^ 13 % 4 == 2

abbrev pub is_end : List ℕ → Bool
is_end [] = true
is_end (_ ∷ _) = false

module _ (slot : Entry → ℕ → Option (ℕ × List ℕ)) where
  -- `n` slots from number `k` on
  unfoldable pub search : (n k : ℕ) → Option ℕ → Entry → List ℕ → Searched
  search zero k eo dp name = missing eo (16 * k)
  search (suc n) k eo dp name = elim (slot dp k) [
    | none ↦ unreadable
    | some (ino, d_name) ↦
        let first = elim eo as (λ _. Option ℕ) [ none ↦ some (16 * suc k) | some o ↦ some o ] in
        let rest = search n (suc k) (if ino == 0 then first else eo) dp name in
        if not (ino == 0) && same_name name d_name then found ino else rest
  ]

-- the exit `out`
abbrev pub out : (errno i : ℕ) → Store → Named
out errno i s = elim (iput i s) as (λ _. Named) [ none ↦ blocked | some s' ↦ failed errno s' ]

-- `iget`, with fuel for the file systems that are mounted
abbrev pub iget_mounted : (ℕ → ℕ → Bool) → (dev ino : ℕ) → Store → Got
iget_mounted bad dev ino s = iget_from bad (suc (length s.mounts)) dev ino s

-- The errors of `iget`: the table is full, and, from `geterror` in `bread`, what a driver of
-- drivers/block sets for a block that lies outside of the disk.
abbrev enfile : ℕ
enfile = 23

abbrev pub enxio : ℕ
enxio = 6

-- `iget` has returned NULL, or the lookup goes on
abbrev pub with_inode : (ℕ → Store → Named) → Got → Named
with_inode next (got i s) = next i s
with_inode next (overflow s) = failed enfile s
with_inode next (read_error s) = failed enxio s
with_inode next (locked _ _) = blocked
with_inode next no_imt = blocked
with_inode next stuck = blocked
with_inode next spins = no_fuel

-- the same, where the directory is still held
abbrev pub with_parent : (pdir : ℕ) → Got → Named
with_parent pdir (got i s) = deletes pdir i s
with_parent pdir (overflow s) = out enfile pdir s
with_parent pdir (read_error s) = out enxio pdir s
with_parent pdir (locked _ _) = blocked
with_parent pdir no_imt = blocked
with_parent pdir stuck = blocked
with_parent pdir spins = no_fuel

module _ (bad : ℕ → ℕ → Bool) (slot : Entry → ℕ → Option (ℕ × List ℕ))
    (denied : Entry → ℕ → Option ℕ) where
  -- The name is not there: with the flag 1 its directory is the result, which is marked as changed
  -- where the new slot is behind its end.
  unfoldable pub name_missing : (flag : ℕ) (last : Bool) → Option ℕ → (end i : ℕ) → Store → Named
  name_missing flag last eo end i s =
      let e = entry_at s i in
      let behind = creates i end (put_entry i (record e { iupd = true }) s) in
      let made = elim eo as (λ _. Named) [ none ↦ behind | some o ↦ creates i (o - 16) s ] in
      let allowed = elim (denied e 128) as (λ _. Named) [
        | some errno ↦ out errno i s
        | none ↦ made
      ] in
      if flag == 1 && last then allowed else out 2 i s

  -- The name is there: with the flag 2 it is to be deleted, else the lookup goes on with its inode.
  unfoldable pub name_found :
      (next : ℕ → Store → Named) (flag : ℕ) (last : Bool) (ino i : ℕ) → Store → Named
  name_found next flag last ino i s =
      let e = entry_at s i in
      let removed = elim (denied e 128) as (λ _. Named) [
        | some errno ↦ out errno i s
        | none ↦ with_parent i (iget_mounted bad e.dev ino s)
      ] in
      let gone_on = elim (iput i s) as (λ _. Named) [
        | none ↦ blocked
        | some s' ↦ with_inode next (iget_mounted bad e.dev ino s')
      ] in
      if flag == 2 && last then removed else gone_on

  unfoldable pub searched :
      (next : ℕ → Store → Named) (flag : ℕ) (last : Bool) → Searched → (i : ℕ) → Store → Named
  searched next flag last (found ino) i s = name_found next flag last ino i s
  searched next flag last (missing eo end) i s = name_missing flag last eo end i s
  searched next flag last unreadable i s = out enxio i s

  -- the directory is searched for the first name of the path
  unfoldable pub component :
      (next : List ℕ → ℕ → Store → Named) (flag : ℕ) (faulty : Bool)
      → List ℕ
      → (i : ℕ) → Store
      → Named
  component next flag faulty l i s =
      let e = entry_at s i in
      let (name, behind) = gather 14 l in
      let rest = skip_slashes behind in
      let n = (e.node.size1 + e.node.size0 * 2 ^ 16) / 16 in
      let permitted =
        if faulty && is_end rest
        then out 106 i s
        else searched (next rest) flag (is_end rest) (search slot n 0 none e name) i s in
      let dir = elim (denied e 64) as (λ _. Named) [
        | some errno ↦ out errno i s
        | none ↦ permitted
      ] in
      if is_directory e.node.mode then dir else out 20 i s

  -- `cloop`, with fuel for the names of the path
  unfoldable pub walk : (fuel flag : ℕ) (faulty : Bool) → List ℕ → (i : ℕ) → Store → Named
  walk zero flag faulty l i s = no_fuel
  walk (suc fuel) flag faulty [] i s = if faulty then out 106 i s else named i s
  walk (suc fuel) flag faulty (c ∷ l) i s =
      component (λ rest. walk fuel flag faulty rest) flag faulty (c ∷ l) i s

  -- the start of `namei`, where the first directory is held
  unfoldable pub started : (flag : ℕ) (faulty : Bool) → List ℕ → (i : ℕ) → Store → Named
  started flag faulty l i s =
      let rest = skip_slashes l in
      let go = walk (suc (length rest)) flag faulty rest i s in
      if is_end rest && not faulty && not (flag == 0) then out 2 i s else go

  -- The directories are given by their device and number; NULL is `none`.
  unfoldable pub namei :
      (flag : ℕ) (faulty : Bool) → List ℕ → (rootdir cdir : Option (ℕ × ℕ)) → Store → Named
  namei flag faulty l rootdir cdir s =
      let absolute = elim l as (λ _. Bool) [ [] ↦ false | c ∷ _ ↦ c == 47 ] in
      elim (if absolute then rootdir else cdir) [
        | none ↦ failed 2 s
        | some (dev, number) ↦ with_inode (started flag faulty l) (iget_mounted bad dev number s)
      ]
