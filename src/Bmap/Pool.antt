-- ===== src/Bmap/Pool.antt =====
-- The calls of `alloc` of kernel/fs/alloc.c from `bmap` of kernel/fs/iget.c.
use unix_v.Common.{
  ℕ, ◌+◌, ◌-◌, ◌≡◌, ◌≢◌, refl, sym, ap, subst, ◌∙◌, Bool, true, false, Option, none, some, List, [],
  ◌∷◌, ◌==◌, if◌then◌else◌, inl, inr, Bool-cases, ◌⊎◌,
}
use unix_v.Alloc.{
  Slots, Filsys, Volume, badblock, take_free, refill, Allocated, block_for, no_space, locked,
  alloc_in, alloc_open,
}
use unix_v.Alloc.Chain.{IsChain, Absent, Has, Gives, alloc_first, alloc-none}
use unix_v.Bmap.{Inode}
use unix_v.Bmap.Tree.{Blocks, IsTree, IsFresh}

-- valid blocks, each once, that the file does not have
abbrev pub Usable : Filsys → Inode → Blocks → List ℕ → Type 0
Usable fs ip block [] = Unit
Usable fs ip block (x ∷ l) =
    (badblock fs x ≡ false) × IsFresh x ip block × Absent x l × Usable fs ip block l

-- `l` are the free blocks, apart from the file, whose indirect blocks are apart.
unfoldable pub Pool : Filsys → Inode → Blocks → List ℕ → Type 0
Pool fs ip block l =
    IsTree ip block × (fs.flock ≡ false) × IsChain block l fs.nfree fs.free × Usable fs ip block l

module _ (fs : Filsys) (ip ip' : Inode) (block block' : Blocks) (b : ℕ)
    (same : (x : ℕ)
      → x ≢ b
      → IsFresh x ip block
      → IsFresh x ip' block' × (block' x ≡ block x)) where
  stays-IsChain :
      (l : List ℕ) (n : ℕ) (a : Slots)
      → Absent b l
      → Usable fs ip block l
      → IsChain block l n a
      → IsChain block' l n a
  stays-IsChain [] n a away u c = c
  stays-IsChain (x ∷ l) n a (ne, away) (_, fresh, _, u) (small, lt, top, nz, link, more) = (
    small,
    lt,
    top,
    nz,
    λ e.
        rw (same x ne fresh).1 (stays-IsChain l (block x 0) (λ i. block x (i + 1)) away u (link e)),
    λ e. stays-IsChain l (n - 1) a away u (more e),
  )

  stays-Usable :
      (fs' : Filsys) (l : List ℕ)
      → fs'.isize ≡ fs.isize
      → fs'.fsize ≡ fs.fsize
      → Absent b l
      → Usable fs ip block l
      → Usable fs' ip' block' l
  unfolding badblock
  stays-Usable fs' [] i f away u = tt
  stays-Usable fs' (x ∷ l) i f (ne, away) (fine, fresh, apart, u) =
      (rw (i, f) fine, (same x ne fresh).0, apart, stays-Usable fs' l i f away u)

-- What `alloc` comes to where the free blocks are `l`: the first and a state with the others, or an
-- error, when there is none; no block is written, but for the list in the superblock.
unfoldable pub AllocOutcome : Volume → List ℕ → Allocated → Type 0
AllocOutcome v l a =
    ((b : ℕ) × (l' : List ℕ) × (fs : Filsys) × (l ≡ b ∷ l')
      × (a ≡ block_for b (record v { fs = fs }))
      × IsChain v.block l' fs.nfree fs.free
      × (fs.isize ≡ v.fs.isize)
      × (fs.fsize ≡ v.fs.fsize)
      × (fs.flock ≡ false))
    ⊎ ((fs : Filsys) × (l ≡ [])
        × (a ≡ no_space (record v { fs = fs }))
        × IsChain v.block [] fs.nfree fs.free
        × (fs.flock ≡ false))

-- `alloc` writes the superblock alone, and keeps its sizes and its lock
abbrev Frame : Volume → Allocated → Type 0
Frame v (block_for b w) =
    (fs : Filsys) × (w ≡ record v { fs = fs })
    × (fs.isize ≡ v.fs.isize)
    × (fs.fsize ≡ v.fs.fsize)
    × (fs.flock ≡ v.fs.flock)
Frame v (no_space w) = (fs : Filsys) × (w ≡ record v { fs = fs }) × (fs.flock ≡ v.fs.flock)
Frame v locked = Unit {0}

refill_frame :
    (b n : ℕ) (v : Volume)
    → ((refill b n v).isize ≡ v.fs.isize)
      × ((refill b n v).fsize ≡ v.fs.fsize)
      × ((refill b n v).flock ≡ v.fs.flock)
unfolding refill
refill_frame b n v = elim (Bool-cases (n == 0)) [
  | inl e ↦ rw e (refl, refl, refl)
  | inr e ↦ rw e (refl, refl, refl)
]

taken-Frame :
    (v : Volume) (o : Option (ℕ × ℕ)) → take_free v.fs.nfree v.fs ≡ o → Frame v (alloc_open v)
unfolding alloc_open
taken-Frame v none e = rw (alloc_open, e) (record v.fs { nfree = 0 }, refl, refl)
taken-Frame v (some (b, n)) e =
    let (i, f, k) = refill_frame b n v in
    rw (alloc_open, e) (record (refill b n v) { fmod = true }, refl, i, f, k)

alloc-Frame : (v : Volume) → Frame v (alloc_in v)
unfolding alloc_in
alloc-Frame v = locked_or v.fs.flock (taken-Frame v (take_free v.fs.nfree v.fs) refl)
  where
    locked_or :
        (lock : Bool) → Frame v (alloc_open v) → Frame v (if lock then locked else alloc_open v)
    locked_or true f = tt
    locked_or false f = f

both :
    (v : Volume) (l : List ℕ) (a : Allocated)
    → v.fs.flock ≡ false
    → Gives l a
    → Frame v a
    → AllocOutcome v l a
unfolding AllocOutcome
both v [] (no_space w) open' g (fs, e, k) =
    inr (fs, refl, ap no_space e, subst (λ u. Has u []) e g, k ∙ open')
both v (x ∷ l) (block_for b w) open' g (fs, e, i, f, k) = inl (
  b,
  l,
  fs,
  ap (λ y. y ∷ l) (sym g.0),
  ap (block_for b) e,
  subst (λ u. Has u l) e g.1,
  i,
  f,
  k ∙ open',
)
both v [] (block_for b w) open' g f = absurd g
both v [] locked open' g f = absurd g
both v (x ∷ l) (no_space w) open' g f = absurd g
both v (x ∷ l) locked open' g f = absurd g

-- With a list that is not locked and whose blocks are valid, `alloc` takes the first block or fails
-- for want of one.
pub alloc-AllocOutcome :
    (v : Volume) (ip : Inode) (l : List ℕ) → Pool v.fs ip v.block l → AllocOutcome v l (alloc_in v)
unfolding Pool
alloc-AllocOutcome v ip [] (tree, open', chain, u) =
    both v [] (alloc_in v) open' (alloc-none v open' chain) (alloc-Frame v)
alloc-AllocOutcome v ip (x ∷ l) (tree, open', chain, u) =
    both v (x ∷ l) (alloc_in v) open' (alloc_first v x l open' u.0 chain) (alloc-Frame v)

-- After the first block `b` has been taken, and the map of the file has changed with it, the other
-- blocks are free and apart from the file.
pub Pool-next :
    (v : Volume) (fs : Filsys) (ip ip' : Inode) (block' : Blocks) (b : ℕ) (l : List ℕ)
    → Pool v.fs ip v.block (b ∷ l)
    → IsChain v.block l fs.nfree fs.free
    → fs.isize ≡ v.fs.isize
    → fs.fsize ≡ v.fs.fsize
    → fs.flock ≡ false
    → IsTree ip' block'
    → ((x : ℕ) → x ≢ b → IsFresh x ip v.block → IsFresh x ip' block' × (block' x ≡ v.block x))
    → Pool fs ip' block' l
unfolding Pool
Pool-next v fs ip ip' block' b l (_, _, _, u) chain i f k tree same = (
  tree,
  k,
  stays-IsChain v.fs ip ip' v.block block' b same l fs.nfree fs.free u.2 u.3 chain,
  stays-Usable v.fs ip ip' v.block block' b same fs l i f u.2 u.3,
)
