-- ===== src/CoreMap/RoundTrip.antt =====
-- `malloc` and then `mfree`, of kernel/malloc.c.
use unix_v.Common.{ℕ, suc, ◌+◌, ◌^◌, ◌≤◌, ◌<◌, ◌≡◌, true, inl, inr, [], ◌∷◌, arith, leb, Bool-cases}
use unix_v.CoreMap.{CoreMap, malloc, mfree}
use unix_v.CoreMap.Cover.{IsFrom, IsValid}
use unix_v.CoreMap.Malloc.{fits, malloc-covers}
use unix_v.CoreMap.Mfree.{Apart, mfree-covers}
use unix_v.CoreMap.Canonical.{eq_of_covers}

Apart-above : (m : CoreMap) (lo size addr : ℕ) → IsFrom lo m → addr + size ≤ lo → Apart m size addr
Apart-above [] lo size addr v h = tt
Apart-above (e ∷ es) lo size addr v h =
    (ground arith, Apart-above es (suc (e.addr + e.size)) size addr v.3 (omega arith))

-- The units taken lie apart from what is left, and below the end of the address space.
Apart-malloc_from :
    (lo : ℕ) (m : CoreMap) (size : ℕ)
    → IsFrom lo m
    → 0 < size
    → fits m size ≡ true
    → let (a, m') = malloc m size in (lo ≤ a) × Apart m' size a × (a + size < 2 ^ 32)
unfolding malloc
Apart-malloc_from lo [] size v pos h = cc
Apart-malloc_from lo (e ∷ es) size v pos h = elim (Bool-cases (leb size e.size)) [
  | inl enough ↦ ground (arith, Apart-above es (suc (e.addr + e.size)) size e.addr v.3)
  | inr short ↦ ground (arith, Apart-malloc_from (suc (e.addr + e.size)) es size v.3 pos)
]

-- In a well-formed map with a large enough entry, freeing what `malloc` has just returned gives
-- back the very map from before, entry by entry.
pub mfree-malloc :
    (m : CoreMap) (size : ℕ)
    → IsValid m
    → 0 < size
    → fits m size ≡ true
    → let (a, m') = malloc m size in mfree m' size a ≡ m
mfree-malloc m size v pos h =
    let (nz, v', out, inside) = malloc-covers m size v pos h in
    let (low, apart, high) = Apart-malloc_from 1 m size v pos h in
    let (v'', back) = mfree-covers (malloc m size).1 size (malloc m size).0 v' pos nz high apart in
    eq_of_covers _ m 1 1 v'' v λ x. ground (arith, out x, inside x, back x)
