-- ===== src/Bmap/Tests.antt =====
-- A small volume: a file with no blocks grows past its eight addresses.
use mathlib.Core.Option.{bind}
use unix_v.Alloc.{bfree_in, bfree_open, put_free, make_room, with_sentinel}
use unix_v.Alloc.Chain.{Has, Absent}
use unix_v.Bmap.{itrunc, itrunc_from, free_slot}
use unix_v.Bmap.Free.{Releasable}
use unix_v.Bmap.Tree.{reach}
use unix_v.Bmap.Trunc.{itrunc-Has}
use unix_v.Common.{
  ◌+◌, ltb, ◌<◌, if◌then◌else◌, none, some, Option, ℕ, ◌≡◌, refl, true, false, [], ◌∷◌, arith, inr,
  if◌then◌else◌, ◌==◌,
}
use unix_v.Alloc.{Volume, badblock, take_free, refill, alloc_in, alloc_open}
use unix_v.Bmap.{
  Inode, Mapped, bmap, bmap_large, bmap_indirect, bmap_word, with_block, mapped, unmapped,
}
use unix_v.Bmap.Tree.{lookup, IsTree, IsFresh}
use unix_v.Bmap.Pool.{Pool}
use unix_v.Bmap.Apart.{IsApart}
use unix_v.Bmap.Outcome.{Holds, WriteOutcome}
use unix_v.Bmap.Write.{bmap-WriteOutcome}
use unix_v.Bmap.Read.{ReadOutcome, bmap-ReadOutcome}

-- 30 and 20 are free
abbrev some_volume : Volume
some_volume = record {
  fs = record {
    isize = 3;
    fsize = 100;
    nfree = 3;
    free = λ i. if i == 1 then 20 else if i == 2 then 30 else 0;
    ninode = 0;
    inode = λ _. 0;
    flock = false;
    ilock = false;
    fmod = false;
  };
  block = λ _ _. 0;
}

abbrev empty_file : Inode
empty_file = record { large = false; device = false; addr = λ _. 0; size = 0 }

abbrev result : Mapped → ℕ
result (mapped x ip v) = x
result _ = 0

-- block 30 becomes the indirect block, and 20 the block of the file
run_bmap : result (bmap true 9 empty_file some_volume) ≡ 20
unfolding bmap bmap_large bmap_indirect bmap_word with_block alloc_in alloc_open take_free refill
    badblock
run_bmap = refl

run_bmap_hole : bmap false 9 empty_file some_volume ≡ unmapped empty_file some_volume
unfolding bmap
run_bmap_hole = refl

some_volume-Has : Has some_volume (30 ∷ 20 ∷ [])
some_volume-Has = (
  omega arith,
  omega arith,
  refl,
  omega arith,
  λ e. ground (arith, e),
  λ _. (
    omega arith,
    omega arith,
    refl,
    omega arith,
    λ e. ground (arith, e),
    λ _. (omega arith, inr (refl, refl)),
  ),
)

empty_file-Holds : Holds (λ _. 0) empty_file some_volume (30 ∷ 20 ∷ [])
unfolding Holds Pool IsTree IsFresh IsApart lookup badblock
empty_file-Holds = (
  (
    ((λ j k _ _ nz _. ground (arith, nz), λ j k e. ground (arith, e), λ j k e. ground (arith, e))),
    refl,
    some_volume-Has,
    (
      refl,
      (omega arith, λ j _. omega arith, λ k e. ground (arith, e)),
      (omega arith, tt),
      (refl, (omega arith, λ j _. omega arith, λ k e. ground (arith, e)), tt, tt),
    ),
  ),
  λ n r. ground arith,
  (
    λ n m r r' nz e. ground (arith, nz),
    λ n r nz. ground (arith, nz),
    λ n large r nz. ground (arith, nz),
  ),
)

bmap-WriteOutcome_example :
    WriteOutcome (λ _. 0) 9 (30 ∷ 20 ∷ []) (bmap true 9 empty_file some_volume)
bmap-WriteOutcome_example =
    bmap-WriteOutcome (λ _. 0) 9 (omega arith) empty_file some_volume (30 ∷ 20 ∷ [])
      empty_file-Holds

bmap-ReadOutcome_example :
    ReadOutcome 9
      (lookup empty_file some_volume.block 9)
      empty_file
      some_volume
      (bmap false 9 empty_file some_volume)
bmap-ReadOutcome_example = bmap-ReadOutcome empty_file some_volume 9

abbrev two_blocks : Inode
two_blocks = record empty_file { addr = λ i. if ltb i 2 then 40 + i else 0; size = 1000 }

abbrev nfree_of : Option (Inode × Volume) → ℕ
nfree_of none = 0
nfree_of (some (ip, v)) = v.fs.nfree

run_itrunc : nfree_of (itrunc two_blocks some_volume) ≡ 5
unfolding itrunc itrunc_from free_slot bind bfree_in bfree_open put_free make_room with_sentinel
    badblock
run_itrunc = refl

two_blocks-Releasable : Releasable some_volume.fs (40 ∷ 41 ∷ []) (30 ∷ 20 ∷ [])
unfolding badblock
two_blocks-Releasable = (
  refl,
  (omega arith, tt),
  (omega arith, (omega arith, tt)),
  (refl, tt, (omega arith, (omega arith, tt)), tt),
)

itrunc-Has_example :
    (ip' : Inode) × (w : Volume) × (itrunc two_blocks some_volume ≡ some (ip', w))
    × Has w (40 ∷ 41 ∷ 30 ∷ 20 ∷ [])
    × ((n : ℕ) → n < reach → lookup ip' w.block n ≡ 0)
    × (ip'.size ≡ 0)
    × ((y : ℕ) → Absent y (40 ∷ 41 ∷ 30 ∷ 20 ∷ []) → w.block y ≡ some_volume.block y)
itrunc-Has_example =
    itrunc-Has two_blocks some_volume (30 ∷ 20 ∷ []) refl refl some_volume-Has two_blocks-Releasable
