-- ===== src/Bmap.antt =====
-- The block map of a file, `bmap` and `itrunc` of kernel/fs/iget.c, over the free blocks of Alloc.
-- An inode has its flag ILARG and its eight addresses. What a block holds is a function of the word,
-- and a call that would go on with a word past the end of a block, as the source does with a logical
-- block past the double indirect ones, ends there. A wait for the lock of the free list ends the call.
pub mod Tree
pub mod Steps
pub mod Pool
pub mod Apart
pub mod Outcome
pub mod Write
pub mod Read
pub mod Free
pub mod Trunc
mod Tests
use unix_v.Common.{
  ℕ, zero, suc, ◌+◌, ◌-◌, ◌*◌, ◌/◌, ◌%◌, Bool, true, false, not, ◌&&◌, ◌||◌, Option, none, some,
  ltb, leb, ◌==◌, if◌then◌else◌,
}
use mathlib.Core.Option.{bind}
use unix_v.Alloc.{
  Slots, store_slot, Volume, Allocated, block_for, no_space, locked, alloc_in, bfree_in,
}

-- `NINDIR`: the addresses in a block
abbrev pub nindir : ℕ
nindir = 128

-- `struct inode`, its map; `device` is set for the special files, and size is `i_size0` and `i_size1`
-- as one number
pub record Inode : Type 0 where
  pub large : Bool
  pub device : Bool
  pub addr : Slots
  pub size : ℕ

-- the block with zeros, as `alloc` leaves it
abbrev pub cleared : ℕ → Volume → Volume
cleared b v = record v { block = λ x. if x == b then (λ _. 0) else v.block x }

-- a word is stored in a block
abbrev pub store_word : (b i x : ℕ) → Volume → Volume
store_word b i x v = record v {
  block = λ y. if y == b then store_slot (v.block y) i x else v.block y;
}

-- What `bmap` comes to: a block number (0 for a hole), -1, a word beyond the buffer of the double
-- indirect block, or a wait.
pub data Mapped : Type 0 where
  mapped : ℕ → Inode → Volume → Mapped
  unmapped : Inode → Volume → Mapped
  beyond : Mapped
  waits : Mapped

-- A new block, with which the call goes on.
pub with_block : Inode → Volume → (ℕ → Volume → Mapped) → Mapped
with_block ip v next = elim (alloc_in v) [
  | block_for b w ↦ next b (cleared b w)
  | no_space w ↦ unmapped ip w
  | locked ↦ waits
]

-- the word `i` of the indirect block `nb`, which is filled if `rwflg` says so
pub bmap_word : (rwflg : Bool) → (nb i : ℕ) → Inode → Volume → Mapped
bmap_word rwflg nb i ip v =
    let x = v.block nb i in
    let fill = with_block ip v (λ b w. mapped b ip (store_word nb i b w)) in
    if x == 0 && rwflg then fill else mapped x ip v

-- from the indirect block `nb` of the inode's slot; `i` is the index past the first seven slots
pub bmap_double : (rwflg : Bool) → (nb i : ℕ) → Inode → Volume → Mapped
bmap_double rwflg nb i ip v =
    let x = v.block nb (i / nindir) in
    let fill =
      with_block ip v (λ b w. bmap_word rwflg b (i % nindir) ip (store_word nb (i / nindir) b w)) in
    if leb nindir (i / nindir)
    then beyond
    else if x == 0
    then (if rwflg then fill else unmapped ip v)
    else bmap_word rwflg x (i % nindir) ip v

pub bmap_indirect : (rwflg : Bool) → (bn nb : ℕ) → Inode → Volume → Mapped
bmap_indirect rwflg bn nb ip v =
    if ltb bn (nindir * 7)
    then bmap_word rwflg nb (bn % nindir) ip v
    else bmap_double rwflg nb (bn - nindir * 7) ip v

-- the slot of the inode for a block of a large file
abbrev pub slot_of : ℕ → ℕ
slot_of bn = if ltb bn (nindir * 7) then bn / nindir else 7

pub bmap_large : (rwflg : Bool) → (bn : ℕ) → Inode → Volume → Mapped
bmap_large rwflg bn ip v =
    let j = slot_of bn in
    let nb = ip.addr j in
    let fill =
      with_block ip v
        (λ b w. bmap_indirect rwflg bn b (record ip { addr = store_slot ip.addr j b }) w) in
    if nb == 0 then (if rwflg then fill else unmapped ip v) else bmap_indirect rwflg bn nb ip v

-- the inode and the new indirect block `b` of a file that becomes large
abbrev pub enlarged : ℕ → Inode → Inode
enlarged b ip = record ip {
  large = true;
  addr = λ i. if i == 0 then b else if ltb i 8 then 0 else ip.addr i;
}

abbrev pub moved : ℕ → Inode → Volume → Volume
moved b ip v = record v {
  block = λ x. if x == b then (λ i. if ltb i 8 then ip.addr i else v.block x i) else v.block x;
}

-- a block of a small file
pub bmap_direct : (rwflg : Bool) → (bn : ℕ) → Inode → Volume → Mapped
bmap_direct rwflg bn ip v =
    let nb = ip.addr bn in
    let fill = with_block ip v (λ b w. mapped b (record ip { addr = store_slot ip.addr bn b }) w) in
    if nb == 0 && rwflg then fill else mapped nb ip v

pub bmap : (rwflg : Bool) → (bn : ℕ) → Inode → Volume → Mapped
bmap rwflg bn ip v =
    let grow = with_block ip v (λ b w. bmap_large rwflg bn (enlarged b ip) (moved b ip w)) in
    if ip.large
    then bmap_large rwflg bn ip v
    else if ltb bn 8
    then bmap_direct rwflg bn ip v
    else (if rwflg then grow else unmapped ip v)

-- The loop of `itrunc` over the words of an indirect block, from the last down; `none` is a wait.
pub free_down : (free : ℕ → Volume → Option Volume) → (nb n : ℕ) → Volume → Option Volume
free_down free nb zero v = some v
free_down free nb (suc k) v =
    let skip = free_down free nb k v in
    let freed = bind (free (v.block nb k) v) (free_down free nb k) in
    if v.block nb k == 0 then skip else freed

-- an indirect block, after the blocks under it
pub free_under : (free : ℕ → Volume → Option Volume) → (nb : ℕ) → Volume → Option Volume
free_under free nb v = bind (free_down free nb nindir v) (bfree_in nb)

-- the block of the slot `i`
pub free_slot : (large : Bool) → (i bn : ℕ) → Volume → Option Volume
free_slot large i bn v =
    let double = free_under (free_under bfree_in) bn v in
    let single = free_under bfree_in bn v in
    let direct = bfree_in bn v in if large then (if i == 7 then double else single) else direct

-- the loop over the `n` first slots, from the last down
pub itrunc_from : (n : ℕ) → Inode → Volume → Option (Inode × Volume)
itrunc_from zero ip v = some (ip, v)
itrunc_from (suc i) ip v =
    let skip = itrunc_from i ip v in
    let freed =
      bind (free_slot ip.large i (ip.addr i) v)
        (itrunc_from i (record ip { addr = store_slot ip.addr i 0 })) in
    if ip.addr i == 0 then skip else freed

pub itrunc : Inode → Volume → Option (Inode × Volume)
itrunc ip v =
    let freed =
      bind (itrunc_from 8 ip v) (λ r. some (record (r.0) { large = false; size = 0 }, r.1)) in
    if ip.device then some (ip, v) else freed
