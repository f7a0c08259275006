-- ===== src/Alloc/Tests.antt =====
-- A small file system: runs of the calls, and the theorems at its states.
use unix_v.Common.{
  ℕ, ◌≡◌, refl, false, List, [], ◌∷◌, arith, inr, Option, some, none, if◌then◌else◌, ◌==◌,
}
use unix_v.Alloc.{
  Slots, Volume, Mount, alloc_in, bfree_in, alloc, bfree, getfs, put_fs, sane, alloc_open,
  bfree_open, take_free, refill, badblock, with_sentinel, make_room, put_free,
}
use unix_v.Alloc.Chain.{Has, Gives, Frees, alloc_first, bfree_first}

abbrev no_words : Slots
no_words i = 0

-- blocks 4 to 99 hold data, and block 7 is free
abbrev free_list : Slots
free_list i = if i == 1 then 7 else 0

abbrev volume : Volume
volume = record {
  fs = record {
    isize = 2;
    fsize = 100;
    nfree = 2;
    free = free_list;
    ninode = 0;
    inode = no_words;
    flock = false;
    ilock = false;
    fmod = false;
  };
  block = λ b. no_words;
}

volume-Has : Has volume (7 ∷ [])
volume-Has = (
  omega arith,
  omega arith,
  refl,
  omega arith,
  λ e. ground (arith, e),
  λ ne. (omega arith, inr (refl, refl)),
)

alloc_first_example : Gives (7 ∷ []) (alloc_in volume)
unfolding badblock
alloc_first_example = alloc_first volume 7 [] refl refl volume-Has

bfree_first_example : Frees 9 (7 ∷ []) (bfree_in 9 volume)
unfolding badblock
bfree_first_example = bfree_first volume 9 (7 ∷ []) refl refl (omega arith, tt) volume-Has

abbrev exhausted : Volume
exhausted = record volume { fs = record volume.fs { nfree = 1 } }

abbrev table : List Mount
table = record { dev = 0; super = some volume } ∷ []

-- the block that a call of `alloc` on the device gives
abbrev given : Option (Option ℕ × ℕ × List Mount) → ℕ
given (some (some b, e, l)) = b
given _ = 0

-- the block that is freed is the next one that is given
abbrev table_of : Option (List Mount) → List Mount
table_of (some l) = l
table_of none = []

gives_freed : given (alloc 0 (table_of (bfree 0 9 table))) ≡ 9
unfolding alloc bfree getfs put_fs sane alloc_in bfree_in alloc_open bfree_open take_free refill
    badblock with_sentinel make_room put_free
gives_freed = refl
