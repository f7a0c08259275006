-- ===== src/CoreMap/Malloc.antt =====
-- `malloc` of kernel/malloc.c.
use unix_v.Common.{
  ℕ, suc, ◌+◌, ◌<◌, ◌≡◌, refl, Bool, true, false, not, ◌&&◌, ◌||◌, inl, inr, [], ◌∷◌, arith, leb,
  Bool-cases,
}
use unix_v.CoreMap.{CoreMap, malloc}
use unix_v.CoreMap.Cover.{within, covers, IsFrom, IsValid, IsFrom-mono, covers-below}

-- some entry holds `size` units
abbrev pub fits : CoreMap → ℕ → Bool
fits [] size = false
fits (e ∷ es) size = leb size e.size || fits es size

malloc-IsFrom : (lo : ℕ) (m : CoreMap) (size : ℕ) → IsFrom lo m → IsFrom lo (malloc m size).1
unfolding malloc
malloc-IsFrom lo [] size v = tt
malloc-IsFrom lo (e ∷ es) size v = elim (Bool-cases (leb size e.size)) [
  | inl enough ↦ ground (arith, IsFrom-mono lo (suc (e.addr + e.size)) es)
  | inr short ↦ ground (arith, malloc-IsFrom (suc (e.addr + e.size)) es size)
]

malloc-covers_from :
    (lo : ℕ) (m : CoreMap) (size x : ℕ)
    → IsFrom (suc lo) m
    → 0 < size
    → fits m size ≡ true
    → let (a, m') = malloc m size in
      (lo < a)
      × (covers m' x ≡ (covers m x && not (within a size x)))
      × (within a size x ≡ true → covers m x ≡ true)
unfolding malloc
malloc-covers_from lo [] size x v pos h = cc
malloc-covers_from lo (e ∷ es) size x v pos h = elim (Bool-cases (leb size e.size)) [
  | inl enough ↦ ground (arith, covers-below (suc (e.addr + e.size)) es x v.3)
  | inr short ↦ ground (arith, malloc-covers_from (e.addr + e.size) es size x v.3 pos)
]

-- From a well-formed map, `malloc` of a positive size that some entry can hold returns an address
-- other than 0 whose units were all free; afterwards exactly these units are no longer free, and
-- the map is well-formed.
pub malloc-covers :
    (m : CoreMap) (size : ℕ)
    → IsValid m
    → 0 < size
    → fits m size ≡ true
    → let (a, m') = malloc m size in
      (0 < a)
      × IsValid m'
      × ((x : ℕ) → covers m' x ≡ (covers m x && not (within a size x)))
      × ((x : ℕ) → within a size x ≡ true → covers m x ≡ true)
malloc-covers m size v pos h = (
  (malloc-covers_from 0 m size 0 v pos h).0,
  malloc-IsFrom 1 m size v,
  λ x. (malloc-covers_from 0 m size x v pos h).1,
  λ x. (malloc-covers_from 0 m size x v pos h).2,
)

-- If no entry is large enough, `malloc` returns 0 and leaves the map as it was.
pub malloc_fails : (m : CoreMap) (size : ℕ) → fits m size ≡ false → malloc m size ≡ (0, m)
unfolding malloc
malloc_fails [] size h = refl
malloc_fails (e ∷ es) size h = ground (arith, malloc_fails es size)
