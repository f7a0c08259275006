-- ===== src/Inodes/Tests.antt =====
-- A table of three entries: runs of `iget` and `iput`, and the theorems at it.
use unix_v.Common.{
  ℕ, ◌*◌, ◌∙◌, sym, zero, suc, ◌+◌, ◌≡◌, ◌≢◌, refl, false, Option, none, some, [], ◌∷◌, arith,
}
use unix_v.Alloc.{Volume}
use unix_v.Inodes.{
  Store, Got, got, no_node, no_entry, entry_at, iget_from, find_inode, find_empty, load, hold, iput,
  prele,
}
use unix_v.Inodes.Table.{IsTable, IgetOutcome, iget_from-IgetOutcome}
use unix_v.Inodes.Counts.{IputOutcome, iput-IputOutcome}

abbrev no_volume : Volume
no_volume = record {
  fs = record {
    isize = 0;
    fsize = 0;
    nfree = 0;
    free = λ _. 0;
    ninode = 0;
    inode = λ _. 0;
    flock = false;
    ilock = false;
    fmod = false;
  };
  block = λ _ _. 0;
}

-- inode 5 of device 1 is in use
abbrev some_store : Store
some_store = record {
  inode =
      record no_entry { dev = 1; number = 5; count = 2; node = record no_node { nlink = 1 } }
      ∷ no_entry
      ∷ no_entry
      ∷ [];
  disk = λ v n. record no_node { nlink = 1; uid = n };
  volume = λ _. no_volume;
  ronly = λ _. false;
  mounts = [];
  woken = [];
}

abbrev count_got : Got → ℕ
count_got (got i s) = 10 * i + (entry_at s i).count
count_got _ = 0

run_iget_from-held : count_got (iget_from (λ _ _. false) 1 1 5 some_store) ≡ 3
unfolding iget_from find_inode hold
run_iget_from-held = refl

run_iget_from-new : count_got (iget_from (λ _ _. false) 1 1 7 some_store) ≡ 11
unfolding iget_from find_inode find_empty load
run_iget_from-new = refl

abbrev count_put : Option Store → ℕ
count_put none = 100
count_put (some s) = (entry_at s 0).count

run_iput : count_put (iput 0 some_store) ≡ 1
unfolding iput prele
run_iput = refl

in_use_first : (i : ℕ) → (entry_at some_store i).count ≢ 0 → i ≡ 0
in_use_first zero h = refl
in_use_first (suc zero) h = ground (arith, h)
in_use_first (suc (suc zero)) h = ground (arith, h)
in_use_first (suc (suc (suc i))) h = ground (arith, h)

free_number : (i : ℕ) → (entry_at some_store i).count ≡ 0 → (entry_at some_store i).number ≡ 0
free_number zero h = absurd (omega (arith, h))
free_number (suc zero) h = refl
free_number (suc (suc zero)) h = refl
free_number (suc (suc (suc i))) h = refl

not_mounted : (i : ℕ) → (entry_at some_store i).imount ≡ false
not_mounted zero = refl
not_mounted (suc zero) = refl
not_mounted (suc (suc zero)) = refl
not_mounted (suc (suc (suc i))) = refl

some_store-IsTable : IsTable some_store
unfolding IsTable
some_store-IsTable =
    (λ i j a b c d. in_use_first i a ∙ sym (in_use_first j b), free_number, not_mounted)

iget_from-IgetOutcome_example :
    IgetOutcome (λ _ _. false) 1 7 some_store (iget_from (λ _ _. false) 1 1 7 some_store)
iget_from-IgetOutcome_example =
    iget_from-IgetOutcome (λ _ _. false) 0 1 7 some_store some_store-IsTable (omega arith)

iput-IputOutcome_example : IputOutcome 0 some_store (iput 0 some_store)
iput-IputOutcome_example =
    iput-IputOutcome 0 some_store (omega arith) some_store-IsTable (omega arith) (omega arith)
