-- ===== src/Alloc/Chain.antt =====
-- The list of free blocks of kernel/fs/alloc.c as a chain: `alloc`, `bfree`.
use unix_v.Common.{
  ℕ, zero, suc, ◌+◌, ◌-◌, ◌≤◌, ◌<◌, ◌≡◌, ◌≢◌, refl, Bool, true, false, Option, none, some, List, [],
  ◌∷◌, arith, leb, ◌==◌, if◌then◌else◌, inl, inr, Bool-cases, ◌⊎◌,
}
use unix_v.Alloc.{
  Slots, store_slot, Filsys, Volume, badblock, take_free, batch, refill, Allocated, block_for,
  no_space, locked, alloc_in, alloc_open, bfree_open, spill, with_sentinel, make_room, put_free,
  bfree_in, nicfree,
}

-- `l` are the free blocks of a list of `n` entries, the last first. The first entry is 0, where the
-- list ends, or a block that has the list that follows.
abbrev pub IsChain : (ℕ → Slots) → List ℕ → (n : ℕ) → Slots → Type 0
IsChain block [] n a = (n ≤ nicfree) × ((n ≡ 0) ⊎ ((n ≡ 1) × (a 0 ≡ 0)))
IsChain block (x ∷ l) n a =
    (n ≤ nicfree)
    × (0 < n)
    × (a (n - 1) ≡ x)
    × (x ≢ 0)
    × (n ≡ 1 → IsChain block l (block x 0) (λ i. block x (i + 1)))
    × (n ≢ 1 → IsChain block l (n - 1) a)

abbrev pub Absent : ℕ → List ℕ → Type 0
Absent b [] = Unit
Absent b (x ∷ l) = (x ≢ b) × Absent b l

IsChain-small :
    (block : ℕ → Slots) (l : List ℕ) (n : ℕ) (a : Slots) → IsChain block l n a → n ≤ nicfree
IsChain-small block [] n a c = c.0
IsChain-small block (x ∷ l) n a c = c.0

-- Only the entries in use count.
IsChain-slots :
    (block : ℕ → Slots) (l : List ℕ) (n : ℕ) (a a' : Slots)
    → ((i : ℕ) → i < n → a i ≡ a' i)
    → IsChain block l n a
    → IsChain block l n a'
IsChain-slots block [] n a a' same (small, c) = (small, ground (arith, c, same 0))
IsChain-slots block (x ∷ l) n a a' same (small, lt, top, nz, link, more) = (
  small,
  lt,
  ground (arith, top, same (n - 1), lt),
  nz,
  link,
  λ ne. IsChain-slots block l (n - 1) a a' (λ i h. same i (omega (arith, h))) (more ne),
)

-- A block that is not in the chain may change.
IsChain-block :
    (block block' : ℕ → Slots) (b : ℕ) (l : List ℕ) (n : ℕ) (a : Slots)
    → ((x : ℕ) → x ≢ b → block x ≡ block' x)
    → Absent b l
    → IsChain block l n a
    → IsChain block' l n a
IsChain-block block block' b [] n a same away c = c
IsChain-block block block' b (x ∷ l) n a same (ne, away) (small, lt, top, nz, link, more) = (
  small,
  lt,
  top,
  nz,
  λ e.
      rw⁻¹ (same x ne)
        (IsChain-block block block' b l (block x 0) (λ i. block x (i + 1)) same away (link e)),
  λ e. IsChain-block block block' b l (n - 1) a same away (more e),
)

abbrev pub Has : Volume → List ℕ → Type 0
Has v l = IsChain v.block l v.fs.nfree v.fs.free

-- The outcome of `alloc` where the free blocks are `l`: the first of them, and the others are free,
-- or an error, and none is.
abbrev pub Gives : List ℕ → Allocated → Type 0
Gives [] (no_space w) = Has w []
Gives (x ∷ l) (block_for b w) = (b ≡ x) × Has w l
Gives _ _ = ⊥

unlocked_alloc :
    (v : Volume) (l : List ℕ) (lock : Bool)
    → lock ≡ false
    → Gives l (alloc_open v)
    → Gives l (if lock then locked else alloc_open v)
unlocked_alloc v l false e g = g
unlocked_alloc v l true e g = ground (arith, e)

take_free_first :
    (fp : Filsys) (n x : ℕ)
    → 0 < n
    → fp.free (n - 1) ≡ x
    → x ≢ 0
    → badblock fp x ≡ false
    → take_free n fp ≡ some (x, n - 1)
unfolding take_free
take_free_first fp zero x lt top nz fine = ground (arith, lt)
take_free_first fp (suc n) x lt top nz fine = ground (arith, top, nz, fine)

refill-IsChain :
    (v : Volume) (x n : ℕ) (l : List ℕ)
    → (n ≡ 0 → IsChain v.block l (v.block x 0) (λ i. v.block x (i + 1)))
    → (n ≢ 0 → IsChain v.block l n v.fs.free)
    → IsChain v.block l (refill x n v).nfree (refill x n v).free
unfolding refill
refill-IsChain v x n l link more = elim (Bool-cases (n == 0)) [
  | inl e ↦
      let c = link (ground (arith, e)) in
      rw e (
        IsChain-slots v.block l (v.block x 0) (λ i. v.block x (i + 1)) (batch (v.block x) v.fs).free
          (λ i h.
            ground (arith, h, IsChain-small v.block l (v.block x 0) (λ i. v.block x (i + 1)) c))
          c)
  | inr e ↦ rw e (more (ground (arith, e)))
]

-- From an unlocked file system, `alloc` gives the first free block, if it is a valid one, and
-- leaves the others.
pub alloc_first :
    (v : Volume) (x : ℕ) (l : List ℕ)
    → v.fs.flock ≡ false
    → badblock v.fs x ≡ false
    → Has v (x ∷ l)
    → Gives (x ∷ l) (alloc_in v)
unfolding alloc_in alloc_open
alloc_first v x l unlocked fine (small, lt, top, nz, link, more) =
    unlocked_alloc v (x ∷ l) v.fs.flock unlocked (
      rw (take_free_first v.fs v.fs.nfree x lt top nz fine, alloc_open)
        (
          refl,
          refill-IsChain v x (v.fs.nfree - 1) l (λ e. link (omega (arith, e, lt)))
              (λ ne. more (omega (arith, ne))),
        ))

take_free-none :
    (fp : Filsys) (n : ℕ) → (n ≡ 0) ⊎ ((n ≡ 1) × (fp.free 0 ≡ 0)) → take_free n fp ≡ none
unfolding take_free
take_free-none fp zero c = refl
take_free-none fp (suc n) c = ground (arith, c)

-- Where no block is free, `alloc` from an unlocked file system is an error, and none is free after
-- it.
pub alloc-none : (v : Volume) → v.fs.flock ≡ false → Has v [] → Gives [] (alloc_in v)
unfolding alloc_in alloc_open
alloc-none v unlocked (small, c) =
    unlocked_alloc v [] v.fs.flock unlocked
      (rw (take_free-none v.fs v.fs.nfree c, alloc_open) (omega arith, inl refl))

-- The outcome of `bfree` of block `b` where the free blocks are `l`.
abbrev pub Frees : ℕ → List ℕ → Option Volume → Type 0
Frees b l none = ⊥
Frees b l (some w) = Has w (b ∷ l)

unlocked_bfree :
    (v : Volume) (b : ℕ) (l : List ℕ) (lock : Bool)
    → lock ≡ false
    → Has (bfree_open b v) (b ∷ l)
    → Frees b l (if lock then none else some (bfree_open b v))
unlocked_bfree v b l false e h = h
unlocked_bfree v b l true e h = ground (arith, e)

with_sentinel-IsChain :
    (block : ℕ → Slots) (l : List ℕ) (fp : Filsys)
    → IsChain block l fp.nfree fp.free
    → IsChain block l (with_sentinel fp).nfree (with_sentinel fp).free
      × (0 < (with_sentinel fp).nfree)
unfolding with_sentinel
with_sentinel-IsChain block [] fp (small, c) = ((ground arith, ground (arith, c)), ground arith)
with_sentinel-IsChain block (x ∷ l) fp c =
    let e : (fp.nfree == 0) ≡ false = ground (arith, c.1) in rw e (c, c.1)

-- The same list, from elsewhere, in blocks of which only `b` differs.
moved-IsChain :
    (v : Volume) (b : ℕ) (l : List ℕ) (block : ℕ → Slots) (n : ℕ) (a : Slots)
    → Absent b l
    → Has v l
    → ((x : ℕ) → x ≢ b → v.block x ≡ block x)
    → n ≡ v.fs.nfree
    → ((i : ℕ) → i < v.fs.nfree → v.fs.free i ≡ a i)
    → IsChain block l n a
moved-IsChain v b l block n a away c same e slots = rw e (
    IsChain-block v.block block b l v.fs.nfree a same away
      (IsChain-slots v.block l v.fs.nfree v.fs.free a slots c))

spilled : ℕ → Volume → Volume
spilled b v = record {
  fs = record v.fs { nfree = 0 };
  block = λ x. if x == b then spill v.fs (v.block x) else v.block x;
}

put_free-Has :
    (v : Volume) (b : ℕ) (l : List ℕ) (full : Bool)
    → leb nicfree v.fs.nfree ≡ full
    → b ≢ 0
    → Absent b l
    → 0 < v.fs.nfree
    → Has v l
    → Has (put_free b (if full then spilled b v else v)) (b ∷ l)
unfolding put_free spilled
put_free-Has v b l true full nz away pos c =
    let small = IsChain-small v.block l v.fs.nfree v.fs.free c in
    let block : ℕ → Slots = λ x. if x == b then spill v.fs (v.block x) else v.block x in
    (
      omega arith,
      omega arith,
      ground arith,
      nz,
      λ e.
          moved-IsChain v b l block (block b 0) (λ i. block b (i + 1)) away c
            (λ x ne. ground (arith, ne)) (ground arith) (λ i h. ground (arith, h, small)),
      λ ne. ground (arith, ne),
    )
put_free-Has v b l false full nz away pos c = (
  ground (arith, full),
  omega arith,
  ground arith,
  nz,
  λ e. ground (arith, e, pos),
  λ ne.
      moved-IsChain v b l v.block (v.fs.nfree + 1 - 1) (store_slot v.fs.free v.fs.nfree b) away c
        (λ x n. refl) (omega arith) (λ i h. ground (arith, h)),
)

valid_bfree :
    (v w : Volume) (l : List ℕ) (bad : Bool) → bad ≡ false → Has w l → Has (if bad then v else w) l
valid_bfree v w l false e h = h
valid_bfree v w l true e h = ground (arith, e)

-- In an unlocked file system, `bfree` of a valid block that is not free makes it the first free
-- block, before those that were free; also where the list is empty or full.
pub bfree_first :
    (v : Volume) (b : ℕ) (l : List ℕ)
    → v.fs.flock ≡ false
    → badblock v.fs b ≡ false
    → Absent b l
    → Has v l
    → Frees b l (bfree_in b v)
unfolding bfree_in bfree_open badblock make_room spilled
bfree_first v b l unlocked fine away c = unlocked_bfree v b l v.fs.flock unlocked (
    let (c', pos) = with_sentinel-IsChain v.block l (record v.fs { fmod = true }) c in
    let w = record v { fs = with_sentinel (record v.fs { fmod = true }) } in
    valid_bfree (record v { fs = record v.fs { fmod = true } }) (put_free b (make_room b w)) (b ∷ l)
      (badblock v.fs b) fine
      (put_free-Has w b l (leb nicfree w.fs.nfree) refl (ground (arith, fine)) away pos c'))
