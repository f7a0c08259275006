-- ===== src/Alloc.antt =====
-- Free blocks of a file system, kernel/fs/alloc.c: the list of free blocks of which the superblock
-- has the first ones, and each block at its end the next ones; and the free inodes that the
-- superblock has. Blocks are read and written through the cache, so the state has what each block
-- holds. Counts are not negative. A wait for a lock ends the call.
pub mod Chain
mod Tests
use unix_v.Common.{
  ℕ, zero, suc, ◌+◌, ◌-◌, Bool, true, false, not, ◌&&◌, ◌||◌, Option, none, some, List, [], ◌∷◌,
  ltb, leb, ◌==◌, if◌then◌else◌,
}

-- `NICFREE` and `NICINOD`
abbrev pub nicfree : ℕ
nicfree = 50

abbrev pub nicinod : ℕ
nicinod = 50

abbrev pub enodev : ℕ
enodev = 19

abbrev pub enospc : ℕ
enospc = 28

-- an array, and a store into it
abbrev pub Slots : Type 0
Slots = ℕ → ℕ

abbrev pub store_slot : Slots → ℕ → ℕ → Slots
store_slot a i v j = if j == i then v else a j

-- `struct filsys`, the fields of the free lists
pub record Filsys : Type 0 where
  pub isize : ℕ
  pub fsize : ℕ
  pub nfree : ℕ
  pub free : Slots
  pub ninode : ℕ
  pub inode : Slots
  pub flock : Bool
  pub ilock : Bool
  pub fmod : Bool

-- a file system, with the words of each of its blocks
pub record Volume : Type 0 where
  pub fs : Filsys
  pub block : ℕ → Slots

unfoldable pub badblock : Filsys → ℕ → Bool
badblock fp bno = ltb bno (fp.isize + 2) || leb fp.fsize bno

-- The loop of `alloc`: the block that is taken, and the count that is left. No block is taken where
-- the list ends.
unfoldable pub take_free : (nfree : ℕ) → Filsys → Option (ℕ × ℕ)
take_free zero fp = none
take_free (suc n) fp =
    let next = take_free n fp in
    let bno = fp.free n in
    if bno == 0 then none else if badblock fp bno then next else some (bno, n)

-- The count and the blocks that block `bno` has, as words.
abbrev pub batch : Slots → Filsys → Filsys
batch b fp = record fp { nfree = b 0; free = λ i. if ltb i nicfree then b (i + 1) else fp.free i }

-- the list after the block `bno` has been taken and `n` are left
unfoldable pub refill : (bno n : ℕ) → Volume → Filsys
refill bno n v =
    if n == 0 then batch (v.block bno) (record v.fs { nfree = 0 }) else record v.fs { nfree = n }

-- What `alloc` comes to: a buffer of zeros for the block, an error, or a wait for the lock.
pub data Allocated : Type 0 where
  block_for : ℕ → Volume → Allocated
  no_space : Volume → Allocated
  locked : Allocated

-- `alloc`, once the list is not locked
unfoldable pub alloc_open : Volume → Allocated
alloc_open v = elim (take_free v.fs.nfree v.fs) [
  | none ↦ no_space (record v { fs = record v.fs { nfree = 0 } })
  | some (bno, n) ↦ block_for bno (record v { fs = record (refill bno n v) { fmod = true } })
]

unfoldable pub alloc_in : Volume → Allocated
alloc_in v = if v.fs.flock then locked else alloc_open v

-- The words that `bfree` writes to a block: the count and the list.
abbrev pub spill : Filsys → Slots → Slots
spill fp old i = if i == 0 then fp.nfree else if leb i nicfree then fp.free (i - 1) else old i

-- an empty list begins with the entry that ends it
unfoldable pub with_sentinel : Filsys → Filsys
with_sentinel fp =
    if fp.nfree == 0 then record fp { nfree = 1; free = store_slot fp.free 0 0 } else fp

-- a full list goes to the block that is freed
unfoldable pub make_room : ℕ → Volume → Volume
make_room bno v =
    if leb nicfree v.fs.nfree
    then record {
      fs = record v.fs { nfree = 0 };
      block = λ b. if b == bno then spill v.fs (v.block b) else v.block b;
    }
    else v

unfoldable pub put_free : ℕ → Volume → Volume
put_free bno v = record v {
  fs = record v.fs { nfree = v.fs.nfree + 1; free = store_slot v.fs.free v.fs.nfree bno };
}

-- `bfree`, once the list is not locked
unfoldable pub bfree_open : ℕ → Volume → Volume
bfree_open bno v =
    let v' = record v { fs = record v.fs { fmod = true } } in
    if badblock v.fs bno
    then v'
    else put_free bno (make_room bno (record v' { fs = with_sentinel v'.fs }))

-- `none` is a wait for the lock.
unfoldable pub bfree_in : ℕ → Volume → Option Volume
bfree_in bno v = if v.fs.flock then none else some (bfree_open bno v)

pub ifree_in : ℕ → Filsys → Filsys
ifree_in ino fp = if fp.ilock || leb nicinod fp.ninode then fp else record fp {
  inode = store_slot fp.inode fp.ninode ino;
  ninode = fp.ninode + 1;
  fmod = true;
}

-- the mount table; `super` is the superblock in the buffer `m_bufp`, if there is one
pub record Mount : Type 0 where
  pub dev : ℕ
  pub super : Option Volume

-- the check of the counts in `getfs`
pub sane : Filsys → Filsys
sane fp =
    if ltb nicfree fp.nfree || ltb nicinod fp.ninode
    then record fp { nfree = 0; ninode = 0 }
    else fp

-- is this the entry of the device?
abbrev pub mounted : ℕ → Mount → Option Volume
mounted dev m = if m.dev == dev then m.super else none

-- `getfs`: the file system of the device, with its counts checked
pub getfs : ℕ → List Mount → Option Volume
getfs dev [] = none
getfs dev (m ∷ l) = elim (mounted dev m) [
  | some v ↦ some (record v { fs = sane v.fs })
  | none ↦ getfs dev l
]

-- the table with another state of the file system of the device
pub put_fs : ℕ → Volume → List Mount → List Mount
put_fs dev v [] = []
put_fs dev v (m ∷ l) = elim (mounted dev m) [
  | some w ↦ record m { super = some v } ∷ l
  | none ↦ m ∷ put_fs dev v l
]

-- `alloc` of a device: the block, the error number and the table; `none` is a wait.
abbrev settle : ℕ → List Mount → Allocated → Option (Option ℕ × ℕ × List Mount)
settle dev l (block_for bno v) = some (some bno, 0, put_fs dev v l)
settle dev l (no_space v) = some (none, enospc, put_fs dev v l)
settle dev l locked = none

pub alloc : ℕ → List Mount → Option (Option ℕ × ℕ × List Mount)
alloc dev l = elim (getfs dev l) [
  | none ↦ some (none, enodev, l)
  | some v ↦ settle dev l (alloc_in v)
]

pub bfree : (dev bno : ℕ) → List Mount → Option (List Mount)
bfree dev bno l = elim (getfs dev l) [
  | none ↦ some l
  | some v ↦ elim (bfree_in bno v) [ none ↦ none | some w ↦ some (put_fs dev w l) ]
]

pub ifree : (dev ino : ℕ) → List Mount → List Mount
ifree dev ino l = elim (getfs dev l) [
  | none ↦ l
  | some v ↦ put_fs dev (record v { fs = ifree_in ino v.fs }) l
]
