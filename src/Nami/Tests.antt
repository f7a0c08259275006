-- ===== src/Nami/Tests.antt =====
-- A root directory with one name: runs of `namei`, and the theorem at it.
use unix_v.Common.{
  ℕ, zero, suc, ◌^◌, ◌≡◌, ◌≢◌, refl, ◌∙◌, sym, Option, none, some, List, [], ◌∷◌, false, arith,
  ◌==◌, if◌then◌else◌, replicate,
}
use unix_v.Alloc.{Volume}
use unix_v.Inodes.{
  Entry, Store, Dinode, no_node, no_entry, entry_at, iget_from, find_inode, find_empty, load, hold,
  iput, prele, forget, iupdat,
}
use unix_v.Inodes.Table.{IsTable}
use unix_v.Nami.{
  Named, named, creates, deletes, failed, blocked, no_fuel, namei, started, walk, component,
  searched, search, name_found, name_missing, gather, skip_slashes,
}
use unix_v.Nami.Balance.{HasRoom, Balanced}
use unix_v.Nami.Lookup.{IsStart, namei-Balanced}

abbrev no_volume : Volume
no_volume = record {
  fs = record {
    isize = 0;
    fsize = 0;
    nfree = 0;
    free = λ _. 0;
    ninode = 0;
    inode = λ _. 0;
    flock = false;
    ilock = false;
    fmod = false;
  };
  block = λ _ _. 0;
}

-- the inode 1 is a directory of two slots, and all others are files
abbrev node_of : ℕ → Dinode
node_of n = record no_node {
  nlink = 1;
  mode = if n == 1 then 2 ^ 14 else 2 ^ 15;
  size1 = if n == 1 then 32 else 0;
}

abbrev store : Store
store = record {
  inode =
      record no_entry { dev = 1; number = 1; count = 1; node = node_of 1 }
      ∷ no_entry
      ∷ no_entry
      ∷ [];
  disk = λ v n. node_of n;
  volume = λ _. no_volume;
  ronly = λ _. false;
  mounts = [];
  woken = [];
}

-- an empty slot, and "a" with the inode 7
abbrev slots : Entry → ℕ → Option (ℕ × List ℕ)
slots e k = if k == 0 then some (0, replicate 14 0) else some (7, 97 ∷ replicate 13 0)

abbrev result_of : Named → List ℕ
result_of (named i s) = 1 ∷ (entry_at s i).number ∷ (entry_at s 0).count ∷ []
result_of (creates i end s) = 2 ∷ i ∷ end ∷ (entry_at s 0).count ∷ []
result_of (deletes i j s) = 3 ∷ i ∷ (entry_at s j).number ∷ (entry_at s 0).count ∷ []
result_of (failed e s) = 4 ∷ e ∷ (entry_at s 0).count ∷ []
result_of blocked = []
result_of no_fuel = 0 ∷ []

-- "/a"
run_namei :
    result_of
      (namei (λ _ _. false) slots (λ _ _. none) 0 false (47 ∷ 97 ∷ []) (some (1, 1)) none store)
    ≡ 1 ∷ 7 ∷ 1 ∷ []
unfolding namei started walk component searched search name_found gather skip_slashes iget_from
    find_inode find_empty load hold iput prele
run_namei = refl

-- "/a/b": a is no directory
run_namei-file :
    result_of (
      namei
        (λ _ _. false)
        slots
        (λ _ _. none)
        0
        false
        (47 ∷ 97 ∷ 47 ∷ 98 ∷ [])
        (some (1, 1))
        none
        store)
    ≡ 4 ∷ 20 ∷ 1 ∷ []
unfolding namei started walk component searched search name_found gather skip_slashes iget_from
    find_inode find_empty load hold iput prele forget iupdat
run_namei-file = refl

-- "/b" can be made in the first slot, and the directory stays held
run_namei-create :
    result_of
      (namei (λ _ _. false) slots (λ _ _. none) 1 false (47 ∷ 98 ∷ []) (some (1, 1)) none store)
    ≡ 2 ∷ 0 ∷ 0 ∷ 2 ∷ []
unfolding namei started walk component searched search name_missing gather skip_slashes iget_from
    find_inode find_empty load hold iput prele
run_namei-create = refl

in_use_first : (i : ℕ) → (entry_at store i).count ≢ 0 → i ≡ 0
in_use_first zero h = refl
in_use_first (suc zero) h = ground (arith, h)
in_use_first (suc (suc zero)) h = ground (arith, h)
in_use_first (suc (suc (suc i))) h = ground (arith, h)

free_number : (i : ℕ) → (entry_at store i).count ≡ 0 → (entry_at store i).number ≡ 0
free_number zero h = absurd (omega (arith, h))
free_number (suc zero) h = refl
free_number (suc (suc zero)) h = refl
free_number (suc (suc (suc i))) h = refl

not_mounted : (i : ℕ) → (entry_at store i).imount ≡ false
not_mounted zero = refl
not_mounted (suc zero) = refl
not_mounted (suc (suc zero)) = refl
not_mounted (suc (suc (suc i))) = refl

store-IsTable : IsTable store
unfolding IsTable
store-IsTable = (λ i j a b c d. in_use_first i a ∙ sym (in_use_first j b), free_number, not_mounted)

store-HasRoom : HasRoom store
unfolding HasRoom
store-HasRoom zero = omega arith
store-HasRoom (suc zero) = omega arith
store-HasRoom (suc (suc zero)) = omega arith
store-HasRoom (suc (suc (suc i))) = omega arith

root-IsStart : IsStart (some (1, 1))
unfolding IsStart
root-IsStart = omega arith

none-IsStart : IsStart none
unfolding IsStart
none-IsStart = tt

namei-Balanced_example :
    Balanced store
      (namei (λ _ _. false) slots (λ _ _. none) 2 false (47 ∷ 97 ∷ []) (some (1, 1)) none store)
namei-Balanced_example =
    namei-Balanced slots (λ _ _. none) 2 false (47 ∷ 97 ∷ []) (some (1, 1)) none store store-HasRoom
      store-IsTable root-IsStart none-IsStart
