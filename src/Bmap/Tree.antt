-- ===== src/Bmap/Tree.antt =====
-- The block map of a file of kernel/fs/iget.c: the block under each of its logical blocks, the
-- indirect blocks, and the steps of `bmap` that add an indirect block.
use unix_v.Common.{ℕ, ◌-◌, ◌/◌, ◌%◌, ◌<◌, ◌≡◌, ◌≢◌, arith, true, false, ltb, ◌==◌, if◌then◌else◌}
use unix_v.Alloc.{Slots, store_slot}
use unix_v.Bmap.{Inode, slot_of, enlarged}

abbrev pub Blocks : Type 0
Blocks = ℕ → Slots

-- the logical blocks of the eight slots
abbrev pub reach : ℕ
reach = 17280

-- the word `i` of the block `nb`, or 0 where there is no block
abbrev pub word : Blocks → (nb i : ℕ) → ℕ
word block nb i = if nb == 0 then 0 else block nb i

-- The block that has the logical block `bn` of the file, or 0: a small file has its eight addresses;
-- a large file has 128 blocks under each of the first seven, and under the last 128 times 128.
unfoldable pub lookup : Inode → Blocks → ℕ → ℕ
lookup ip block bn =
    if ip.large
    then (if ltb bn 896
        then word block (ip.addr (bn / 128)) (bn % 128)
        else word block (word block (ip.addr 7) ((bn - 896) / 128)) ((bn - 896) % 128))
    else if ltb bn 8
    then ip.addr bn
    else 0

-- No block is under two slots, and no block of the double indirect block is under two of its words
-- or under a slot.
unfoldable pub IsTree : Inode → Blocks → Type 0
IsTree ip block =
    ((j k : ℕ) → j < 8 → k < 8 → ip.addr j ≢ 0 → ip.addr j ≡ ip.addr k → j ≡ k)
    × ((j k : ℕ)
        → ip.large ≡ true
        → ip.addr 7 ≢ 0
        → j < 128
        → k < 128
        → block (ip.addr 7) j ≢ 0
        → block (ip.addr 7) j ≡ block (ip.addr 7) k
        → j ≡ k)
    × ((j k : ℕ)
        → ip.large ≡ true
        → ip.addr 7 ≢ 0
        → j < 8
        → k < 128
        → block (ip.addr 7) k ≢ 0
        → ip.addr j ≢ block (ip.addr 7) k)

-- The block is not one that the map of the file is made of.
unfoldable pub IsFresh : ℕ → Inode → Blocks → Type 0
IsFresh x ip block =
    (x ≢ 0)
    × ((j : ℕ) → j < 8 → ip.addr j ≢ x)
    × ((k : ℕ) → ip.large ≡ true → ip.addr 7 ≢ 0 → k < 128 → block (ip.addr 7) k ≢ x)

-- The change takes the block `b` into the map, and what the file has stays.
unfoldable pub Extends : (b : ℕ) → (ip : Inode) → Blocks → (ip' : Inode) → Blocks → Type 0
Extends b ip block ip' block' =
    IsTree ip' block'
    × ((bn : ℕ) → bn < reach → lookup ip' block' bn ≡ lookup ip block bn)
    × ((x : ℕ) → x ≢ b → IsFresh x ip block → IsFresh x ip' block' × (block' x ≡ block x))

abbrev pub clear : ℕ → Blocks → Blocks
clear b block x = if x == b then (λ _. 0) else block x

abbrev pub store : (b i x : ℕ) → Blocks → Blocks
store b i x block y = if y == b then store_slot (block y) i x else block y

slot_of-lt : (bn : ℕ) → slot_of bn < 8
slot_of-lt bn = ground arith

module _ (ip : Inode) (block : Blocks) (tree : IsTree ip block) (b : ℕ)
    (fresh : IsFresh b ip block) where
  -- A new indirect block in an empty slot.
  pub slot-Extends :
      (j : ℕ)
      → j < 8
      → ip.large ≡ true
      → ip.addr j ≡ 0
      → Extends b ip block (record ip { addr = store_slot ip.addr j b }) (clear b block)
  unfolding Extends IsTree IsFresh lookup
  slot-Extends j h large hole = (
    (
      λ k k' l l' nz e. ground (arith, tree.0 k k', fresh.1 k, fresh.1 k'),
      λ k k' _ nz l l' nz' e. ground (arith, tree.1 k k', fresh.1 7),
      λ k k' _ nz l l' nz'. ground (arith, tree.2 k k', fresh.1 7, fresh.2 k'),
    ),
    λ bn r. ground (arith, large, slot_of-lt bn, fresh.1 (slot_of bn), fresh.2 ((bn - 896) / 128)),
    λ x ne f. (
      (f.0, λ k l. ground (arith, f.1 k l, ne), λ k _ nz l. ground (arith, f.2 k, fresh.1 7)),
      ground (arith, ne),
    ),
  )

  -- A new block under an empty word of the double indirect block.
  pub word-Extends :
      (k : ℕ)
      → k < 128
      → ip.large ≡ true
      → ip.addr 7 ≢ 0
      → block (ip.addr 7) k ≡ 0
      → Extends b ip block ip (store (ip.addr 7) k b (clear b block))
  unfolding Extends IsTree IsFresh lookup
  word-Extends k h large some_slot hole = (
    (
      tree.0,
      λ i j _ nz l l' nz' e. ground (arith, tree.1 i j, fresh.1 7, fresh.2 i, fresh.2 j),
      λ i j _ nz l l' nz'. ground (arith, tree.2 i j, fresh.1 i, fresh.1 7, fresh.2 j),
    ),
    λ bn r. ground (
      arith,
      large,
      slot_of-lt bn,
      tree.0 (slot_of bn) 7,
      fresh.1 7,
      fresh.1 (slot_of bn),
      fresh.2 ((bn - 896) / 128),
      tree.2 7 ((bn - 896) / 128),
    ),
    λ x ne f.
        ((f.0, f.1, λ j _ nz l. ground (arith, f.2 j, fresh.1 7, ne)), ground (arith, ne, f.1 7)),
  )

  -- A small file becomes large.
  pub enlarged-Extends :
      ip.large ≡ false
      → Extends b ip block
          (enlarged b ip)
          (λ x. if x == b then (λ i. if ltb i 8 then ip.addr i else 0) else block x)
  unfolding Extends IsTree IsFresh lookup
  enlarged-Extends small = (
    (
      λ i j l l' nz e. ground (arith, fresh.0),
      λ i j _ nz l l' nz' e. ground arith,
      λ i j _ nz l l' nz'. ground arith,
    ),
    λ bn r. ground (arith, small, slot_of-lt bn, fresh.0),
    λ x ne f. (
      (f.0, λ k l. ground (arith, f.1 k l, ne, f.0), λ k _ nz l. ground arith),
      ground (arith, ne),
    ),
  )
