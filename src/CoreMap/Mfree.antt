-- ===== src/CoreMap/Mfree.antt =====
-- `mfree` of kernel/malloc.c.
use unix_v.Common.{
  ℕ, suc, ◌+◌, ◌^◌, ◌≤◌, ◌<◌, ◌≡◌, true, ◌||◌, inl, inr, [], ◌∷◌, arith, leb, length, Bool-cases,
  leb→le,
}
use unix_v.CoreMap.{CoreMap, Entry, mfree, mfree_after, join, join_before, join_behind}
use unix_v.CoreMap.Cover.{within, covers, IsFrom, IsValid}

-- none of the `n` units from `a` on is free: every entry lies wholly below or above them
abbrev pub Apart : CoreMap → ℕ → ℕ → Type 0
Apart [] size addr = Unit {0}
Apart (e ∷ es) size addr =
    (leb (e.addr + e.size) addr || leb (addr + size) e.addr ≡ true) × Apart es size addr

module _ (size addr : ℕ) (pos : 0 < size) (high : addr + size < 2 ^ 32) where
  join_behind-covers :
      (m : CoreMap) (lo x : ℕ)
      → IsFrom lo m
      → addr < lo
      → Apart m size addr
      → covers (join_behind m size addr) x ≡ (covers m x || within addr size x)
  unfolding join_behind
  join_behind-covers [] lo x v below apart = ground arith
  join_behind-covers (b ∷ bs) lo x v below apart = ground arith

  join_before-covers :
      (p : Entry) (m : CoreMap) (lo x : ℕ)
      → p.addr + p.size ≡ addr
      → IsFrom lo m
      → addr < lo
      → Apart m size addr
      → covers (join_before p m size addr) x ≡ (covers (p ∷ m) x || within addr size x)
  unfolding join_before
  join_before-covers p [] lo x e v below apart = ground arith
  join_before-covers p (b ∷ bs) lo x e v below apart = ground arith

  join_behind-IsFrom :
      (m : CoreMap) (lo : ℕ)
      → lo ≤ addr
      → IsFrom (suc addr) m
      → Apart m size addr
      → IsFrom lo (join_behind m size addr)
  unfolding join_behind
  join_behind-IsFrom [] lo h v apart = ground arith
  join_behind-IsFrom (b ∷ bs) lo h v apart = ground arith

  join_before-IsFrom :
      (p : Entry) (m : CoreMap) (lo : ℕ)
      → p.addr + p.size ≡ addr
      → lo ≤ p.addr
      → IsFrom (suc (p.addr + p.size)) m
      → Apart m size addr
      → IsFrom lo (join_before p m size addr)
  unfolding join_before
  join_before-IsFrom p [] lo e h v apart = ground arith
  join_before-IsFrom p (b ∷ bs) lo e h v apart = ground arith

  join-covers :
      (p : Entry) (m : CoreMap) (lo x : ℕ)
      → IsFrom lo (p ∷ m)
      → p.addr ≤ addr
      → IsFrom (suc addr) m
      → Apart (p ∷ m) size addr
      → IsFrom lo (join p m size addr)
        × (covers (join p m size addr) x ≡ (covers (p ∷ m) x || within addr size x))
  unfolding join
  join-covers p m lo x v low above apart = ground (
    arith,
    join_before-IsFrom p m lo,
    join_behind-IsFrom m (suc (p.addr + p.size)),
    join_before-covers p m (suc addr) x,
    join_behind-covers m (suc addr) x,
  )

  mfree_after-covers :
      (p : Entry) (m : CoreMap) (lo x : ℕ)
      → IsFrom lo (p ∷ m)
      → p.addr ≤ addr
      → Apart (p ∷ m) size addr
      → IsFrom lo (mfree_after p m size addr)
        × (covers (mfree_after p m size addr) x ≡ (covers (p ∷ m) x || within addr size x))
  unfolding mfree_after
  mfree_after-covers p [] lo x v low apart = join-covers p [] lo x v low tt apart
  mfree_after-covers p (b ∷ bs) lo x v low apart = elim (Bool-cases (leb b.addr addr)) [
    | inl on ↦ ground (arith, mfree_after-covers b bs (suc (p.addr + p.size)) x v.3)
    | inr stop ↦ rw stop (join-covers p (b ∷ bs) lo x v low (ground arith) apart)
  ]

  mfree-covers_at :
      (m : CoreMap) (x : ℕ)
      → 0 < addr
      → IsValid m
      → Apart m size addr
      → IsValid (mfree m size addr)
        × (covers (mfree m size addr) x ≡ (covers m x || within addr size x))
  unfolding mfree
  mfree-covers_at [] x nz v apart =
      (join_behind-IsFrom [] 1 nz tt tt, join_behind-covers [] (suc addr) x tt (omega arith) tt)
  mfree-covers_at (b ∷ bs) x nz v apart = elim (Bool-cases (leb b.addr addr)) [
    | inl on ↦ rw on (mfree_after-covers b bs 1 x v (leb→le _ _ on) apart)
    | inr stop ↦ rw stop (
      join_behind-IsFrom (b ∷ bs) 1 nz (ground arith) apart,
      join_behind-covers (b ∷ bs) (suc addr) x (ground arith) (omega arith) apart,
    )
  ]

-- Freeing units that no entry of a well-formed map holds gives a well-formed map, whose free
-- units are exactly the old ones and these.
pub mfree-covers :
    (m : CoreMap) (size addr : ℕ)
    → IsValid m
    → 0 < size
    → 0 < addr
    → addr + size < 2 ^ 32
    → Apart m size addr
    → IsValid (mfree m size addr)
      × ((x : ℕ) → covers (mfree m size addr) x ≡ (covers m x || within addr size x))
mfree-covers m size addr v pos nz high apart = (
  (mfree-covers_at size addr pos high m 0 nz v apart).0,
  λ x. (mfree-covers_at size addr pos high m x nz v apart).1,
)

length-join : (p : Entry) (m : CoreMap) (size addr : ℕ) → length (join p m size addr) ≤ length m + 2
unfolding join
length-join p [] size addr = ground arith
length-join p (b ∷ bs) size addr = ground arith

length-mfree_after :
    (p : Entry) (m : CoreMap) (size addr : ℕ) → length (mfree_after p m size addr) ≤ length m + 2
unfolding mfree_after
length-mfree_after p [] size addr = length-join p [] size addr
length-mfree_after p (b ∷ bs) size addr =
    ground (arith, length-mfree_after b bs size addr, length-join p (b ∷ bs) size addr)

-- `mfree` uses at most one more place of the array than before.
pub length-mfree : (m : CoreMap) (size addr : ℕ) → length (mfree m size addr) ≤ length m + 1
unfolding mfree join_behind
length-mfree [] size addr = ground arith
length-mfree (b ∷ bs) size addr = ground (arith, length-mfree_after b bs size addr)
