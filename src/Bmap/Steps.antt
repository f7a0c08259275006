-- ===== src/Bmap/Steps.antt =====
-- The ways in which `bmap` of kernel/fs/iget.c puts a new data block under a logical block: in a slot
-- of a small file, in an indirect block, and in a block of the double indirect block.
use unix_v.Common.{ℕ, ◌-◌, ◌/◌, ◌%◌, ◌≤◌, ◌<◌, ◌≡◌, ◌≢◌, refl, arith, true, false}
use unix_v.Alloc.{store_slot}
use unix_v.Bmap.{Inode, slot_of}
use unix_v.Bmap.Tree.{Blocks, reach, lookup, IsTree, IsFresh, clear, store}

-- The block `b` is under `bn` afterwards, and under the others are the blocks that were.
unfoldable pub Fills : (b bn : ℕ) → (ip : Inode) → Blocks → (ip' : Inode) → Blocks → Type 0
Fills b bn ip block ip' block' =
    IsTree ip' block'
    × (lookup ip' block' bn ≡ b)
    × ((n : ℕ) → n < reach → n ≢ bn → lookup ip' block' n ≡ lookup ip block n)
    × ((x : ℕ) → x ≢ b → IsFresh x ip block → IsFresh x ip' block' × (block' x ≡ block x))
    × (ip'.large ≡ true → IsFresh b ip' block')
    × (ip'.large ≡ ip.large)

slot_of-lt : (bn : ℕ) → slot_of bn < 8
slot_of-lt bn = ground arith

module _ (ip : Inode) (block : Blocks) (tree : IsTree ip block) (b : ℕ) (fresh : IsFresh b ip block)
    (bn : ℕ) (inside : bn < reach) where
  pub direct-Fills :
      ip.large ≡ false
      → bn < 8
      → ip.addr bn ≡ 0
      → Fills b bn ip block (record ip { addr = store_slot ip.addr bn b }) (clear b block)
  unfolding Fills IsTree IsFresh lookup
  direct-Fills small h hole = (
    (
      λ k k' l l' nz e. ground (arith, tree.0 k k', fresh.1 k, fresh.1 k'),
      λ k k' lg nz l l' nz' e. ground (arith, lg, small),
      λ k k' lg nz l l' nz'. ground (arith, lg, small),
    ),
    ground arith,
    λ n r ne. ground arith,
    λ x ne f. (
      (f.0, λ k l. ground (arith, f.1 k l, ne), λ k lg nz l. ground (arith, lg, small)),
      ground (arith, ne),
    ),
    λ lg. ground (arith, lg, small),
    refl,
  )

  -- The indirect block stands in a slot below 7.
  pub single-Fills :
      bn < 896
      → ip.large ≡ true
      → ip.addr (slot_of bn) ≢ 0
      → block (ip.addr (slot_of bn)) (bn % 128) ≡ 0
      → Fills b bn ip block ip (store (ip.addr (slot_of bn)) (bn % 128) b (clear b block))
  unfolding Fills IsTree IsFresh lookup
  single-Fills low large some_slot hole =
      let other : ip.addr (slot_of bn) ≢ ip.addr 7 = ground (arith, tree.0 (slot_of bn) 7) in
      (
        (
          tree.0,
          λ i j _ nz l l' nz' e. ground (arith, tree.1 i j, fresh.1 7, other),
          λ i j _ nz l l' nz'. ground (arith, tree.2 i j, fresh.1 7, other),
        ),
        ground (arith, large, fresh.1 (slot_of bn)),
        λ n r ne. ground (
          arith,
          large,
          slot_of-lt n,
          slot_of-lt bn,
          tree.0 (slot_of n) (slot_of bn),
          fresh.1 (slot_of n),
          fresh.2 ((n - 896) / 128),
          tree.2 (slot_of bn) ((n - 896) / 128),
          other,
        ),
        λ x ne f. (
          (f.0, f.1, λ j _ nz l. ground (arith, f.2 j, fresh.1 7, other)),
          ground (arith, ne, f.1 (slot_of bn), slot_of-lt bn),
        ),
        λ _. (fresh.0, fresh.1, λ j _ nz l. ground (arith, fresh.2 j, fresh.1 7, other)),
        refl,
      )

  -- The block stands under a word of the double indirect block.
  pub double-Fills :
      896 ≤ bn
      → ip.large ≡ true
      → ip.addr 7 ≢ 0
      → block (ip.addr 7) ((bn - 896) / 128) ≢ 0
      → block (block (ip.addr 7) ((bn - 896) / 128)) ((bn - 896) % 128) ≡ 0
      → Fills b bn ip block ip
          (store (block (ip.addr 7) ((bn - 896) / 128)) ((bn - 896) % 128) b (clear b block))
  unfolding Fills IsTree IsFresh lookup
  double-Fills high large some_slot some_word hole =
      let k = (bn - 896) / 128 in
      let other : ip.addr 7 ≢ block (ip.addr 7) k = ground (arith, tree.2 7 k) in
      (
        (
          tree.0,
          λ i j _ nz l l' nz' e. ground (arith, tree.1 i j, fresh.1 7, other),
          λ i j _ nz l l' nz'. ground (arith, tree.2 i j, fresh.1 7, other),
        ),
        ground (arith, large, fresh.1 7, fresh.2 k, other),
        λ n r ne. ground (
          arith,
          large,
          slot_of-lt n,
          fresh.1 7,
          fresh.1 (slot_of n),
          fresh.2 ((n - 896) / 128),
          tree.1 ((n - 896) / 128) k,
          tree.2 (slot_of n) k,
          other,
        ),
        λ x ne f. (
          (f.0, f.1, λ j _ nz l. ground (arith, f.2 j, fresh.1 7, other)),
          ground (arith, ne, f.2 k),
        ),
        λ _. (fresh.0, fresh.1, λ j _ nz l. ground (arith, fresh.2 j, fresh.1 7, other)),
        refl,
      )
