-- ===== src/Bmap/Apart.antt =====
-- The data blocks of a file, its indirect blocks and the free blocks, as `bmap` of kernel/fs/iget.c
-- takes a free block.
use unix_v.Common.{
  ℕ, ◌<◌, ◌≡◌, ◌≢◌, sym, arith, true, List, ◌∷◌, ◌==◌, if◌then◌else◌, inl, inr, Bool-cases,
}
use unix_v.Alloc.Chain.{Absent}
use unix_v.Bmap.{Inode, enlarged}
use unix_v.Bmap.Tree.{Blocks, reach, IsFresh}

-- The logical blocks have the blocks `base`: no block is under two of them, none is in `l`, and none
-- is one that the map of a large file is made of.
unfoldable pub IsApart : (base : ℕ → ℕ) → Inode → Blocks → List ℕ → Type 0
IsApart base ip block l =
    ((n m : ℕ) → n < reach → m < reach → base n ≢ 0 → base n ≡ base m → n ≡ m)
    × ((n : ℕ) → n < reach → base n ≢ 0 → Absent (base n) l)
    × ((n : ℕ) → ip.large ≡ true → n < reach → base n ≢ 0 → IsFresh (base n) ip block)

module _ (base : ℕ → ℕ) (ip : Inode) (block : Blocks) (b : ℕ) (l : List ℕ)
    (apart : IsApart base ip block (b ∷ l)) where
  not_taken : (n : ℕ) → n < reach → base n ≢ 0 → base n ≢ b
  unfolding IsApart
  not_taken n r nz e = (apart.1 n r nz).0 (sym e)

  -- The block is taken into the map.
  pub IsApart-extend :
      (ip' : Inode) (block' : Blocks)
      → ip.large ≡ true
      → ((x : ℕ) → x ≢ b → IsFresh x ip block → IsFresh x ip' block' × (block' x ≡ block x))
      → IsApart base ip' block' l
  unfolding IsApart
  IsApart-extend ip' block' large old = (
    apart.0,
    λ n r nz. (apart.1 n r nz).1,
    λ n _ r nz. (old (base n) (not_taken n r nz) (apart.2 n large r nz)).0,
  )

  -- The block becomes the first indirect block.
  pub IsApart-enlarge : (block' : Blocks) → IsApart base (enlarged b ip) block' l
  unfolding IsApart IsFresh
  IsApart-enlarge block' = (
    apart.0,
    λ n r nz. (apart.1 n r nz).1,
    λ n _ r nz. (nz, λ j h. ground (arith, nz, not_taken n r nz), λ k _ z h. ground (arith, z)),
  )

  -- The block becomes the data block of `bn`, which had none.
  pub IsApart-fill :
      (ip' : Inode) (block' : Blocks) (bn : ℕ)
      → Absent b l
      → ip'.large ≡ ip.large
      → ((x : ℕ) → x ≢ b → IsFresh x ip block → IsFresh x ip' block' × (block' x ≡ block x))
      → (ip'.large ≡ true → IsFresh b ip' block')
      → IsApart (λ n. if n == bn then b else base n) ip' block' l
  unfolding IsApart
  IsApart-fill ip' block' bn away large old fresh = (
    λ n m r r' nz e. ground (arith, apart.0 n m r r', not_taken n r, not_taken m r'),
    λ n r nz. elim (Bool-cases (n == bn)) [
      | inl e ↦ rw e away
      | inr e ↦ rw e (apart.1 n r (ground (arith, nz, e))).1
    ],
    λ n lg r nz. elim (Bool-cases (n == bn)) [
      | inl e ↦ rw e (fresh lg)
      | inr e ↦
          let nz' : base n ≢ 0 = ground (arith, nz, e) in
          rw e (old (base n) (not_taken n r nz') (apart.2 n (ground (arith, large, lg)) r nz')).0
    ],
  )
