-- ===== src/Bmap/Outcome.antt =====
-- `bmap` of kernel/fs/iget.c on a write: what it may come to, and its calls of `alloc`.
use unix_v.Common.{
  ℕ, ◌<◌, ◌≡◌, ◌≢◌, refl, sym, ap, subst, ◌∙◌, arith, List, [], ◌∷◌, ◌++◌, ◌==◌, if◌then◌else◌, inl,
  inr, ◌⊎◌,
}
use unix_v.Alloc.{Filsys, Volume}
use unix_v.Alloc.Chain.{Absent}
use unix_v.Bmap.{Inode, cleared, Mapped, mapped, unmapped, beyond, waits, with_block}
use unix_v.Bmap.Tree.{Blocks, reach, lookup, IsTree, IsFresh}
use unix_v.Bmap.Steps.{Fills}
use unix_v.Bmap.Pool.{Pool, AllocOutcome, alloc-AllocOutcome, Pool-next}
use unix_v.Bmap.Apart.{IsApart, IsApart-fill}

-- A file on a volume with the free blocks `l`, whose logical blocks have the blocks `base`, all of
-- them apart.
unfoldable pub Holds : (base : ℕ → ℕ) → Inode → Volume → List ℕ → Type 0
Holds base ip v l =
    Pool v.fs ip v.block l
    × ((n : ℕ) → n < reach → lookup ip v.block n ≡ base n)
    × IsApart base ip v.block l

-- What `bmap` comes to on a write of the logical block `bn` where the file has the blocks `base` and
-- the blocks `l` are free: its block; or, where it had none, one of the free blocks, under `bn`,
-- with the others as before and the free blocks behind it; or no block, where it had none and none
-- is free.
unfoldable pub WriteOutcome : (base : ℕ → ℕ) → (bn : ℕ) → List ℕ → Mapped → Type 0
WriteOutcome base bn l (mapped x ip w) =
    (x ≢ 0)
    × (((x ≡ base bn) × Holds base ip w l)
        ⊎ ((base bn ≡ 0)
            × ((k : List ℕ) × (l' : List ℕ) × (l ≡ k ++ (x ∷ l'))
                × Holds (λ n. if n == bn then x else base n) ip w l')))
WriteOutcome base bn l (unmapped ip w) = (base bn ≡ 0) × Holds base ip w []
WriteOutcome base bn l beyond = ⊥
WriteOutcome base bn l waits = ⊥

module _ (base : ℕ → ℕ) (bn : ℕ) (inside : bn < reach) where
  -- with a free block before that the map took
  pub took :
      (b : ℕ) (l : List ℕ) (m : Mapped)
      → base bn ≡ 0
      → WriteOutcome base bn l m
      → WriteOutcome base bn (b ∷ l) m
  unfolding WriteOutcome
  took b l (mapped x ip w) hole (nz, inl (e, h)) = absurd (nz (e ∙ hole))
  took b l (mapped x ip w) hole (nz, inr (z, (k, l', e, h))) =
      (nz, inr (z, (b ∷ k, l', ap (λ m. b ∷ m) e, h)))
  took b l (unmapped ip w) hole h = h
  took b l beyond hole h = h
  took b l waits hole h = h

  -- A call that goes on with a new block, from what its two ends come to.
  pub with_block-Outcome :
      (ip : Inode) (v : Volume) (l : List ℕ) (next : ℕ → Volume → Mapped)
      → Holds base ip v l
      → base bn ≡ 0
      → ((b : ℕ) (l' : List ℕ) (fs : Filsys)
          → IsFresh b ip v.block
          → Absent b l'
          → IsApart base ip v.block (b ∷ l')
          → ((ip' : Inode) (block' : Blocks)
              → IsTree ip' block'
              → ((x : ℕ)
                  → x ≢ b
                  → IsFresh x ip v.block
                  → IsFresh x ip' block' × (block' x ≡ v.block x))
              → Pool fs ip' block' l')
          → WriteOutcome base bn (b ∷ l') (next b (cleared b (record v { fs = fs }))))
      → WriteOutcome base bn l (with_block ip v next)
  unfolding with_block Holds Pool WriteOutcome AllocOutcome
  with_block-Outcome ip v l next (pool, agrees, apart) hole good =
      elim (alloc-AllocOutcome v ip l pool) [
        | inl (b, l', fs, e, a, chain, i, f, k) ↦
            let p = subst (Pool v.fs ip v.block) e pool in
            let apart' = subst (IsApart base ip v.block) e apart in
            rw (with_block, a)
              (subst (λ l. WriteOutcome base bn l (next b (cleared b (record v { fs = fs }))))
                (sym e)
                (good b l' fs p.3.1 p.3.2 apart' (λ ip' block' tree same.
                  Pool-next v fs ip ip' block' b l' p chain i f k tree same)))
        | inr (fs, e, a, chain, k) ↦
            rw (with_block, a)
              (hole, ((pool.0, k, chain, tt), agrees, subst (IsApart base ip v.block) e apart))
      ]

  -- with a block filled in under `bn`
  pub filled :
      (ip ip' : Inode) (v : Volume) (block' : Blocks) (b : ℕ) (l' : List ℕ) (fs : Filsys)
      → ((n : ℕ) → n < reach → lookup ip v.block n ≡ base n)
      → base bn ≡ 0
      → IsFresh b ip v.block
      → Absent b l'
      → IsApart base ip v.block (b ∷ l')
      → ((ip' : Inode) (block' : Blocks)
          → IsTree ip' block'
          → ((x : ℕ) → x ≢ b → IsFresh x ip v.block → IsFresh x ip' block' × (block' x ≡ v.block x))
          → Pool fs ip' block' l')
      → Fills b bn ip v.block ip' block'
      → WriteOutcome base bn (b ∷ l') (mapped b ip' (record { fs = fs; block = block' }))
  unfolding WriteOutcome Holds Fills IsFresh
  filled ip ip' v block' b l' fs agrees hole fresh away apart pool
        (tree, new, old, same, own, large) =
      (
        fresh.0,
        inr (
          hole,
          (
            [],
            l',
            refl,
            (
              pool ip' block' tree same,
              λ n r. ground (arith, new, old n, agrees n),
              IsApart-fill base ip v.block b l' apart ip' block' bn away large same own,
            ),
          ),
        ),
      )

  -- the block that the logical block has
  pub kept :
      (x : ℕ) (ip : Inode) (v : Volume) (l : List ℕ)
      → Holds base ip v l
      → lookup ip v.block bn ≡ x
      → x ≢ 0
      → WriteOutcome base bn l (mapped x ip v)
  unfolding WriteOutcome Holds
  kept x ip v l holds here nz = (nz, inl (sym here ∙ holds.1 bn inside, holds))
