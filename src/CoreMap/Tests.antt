-- ===== src/CoreMap/Tests.antt =====
-- The map of a small machine: runs of `malloc` and `mfree`, and the theorems at it.
use unix_v.Common.{ℕ, ◌<◌, ◌≡◌, refl, true, not, ◌&&◌, ◌||◌, [], ◌∷◌, arith}
use unix_v.CoreMap.{CoreMap, entry, malloc, mfree}
use unix_v.CoreMap.Cover.{within, covers, IsValid}
use unix_v.CoreMap.Malloc.{malloc-covers}
use unix_v.CoreMap.Mfree.{mfree-covers}

abbrev small : CoreMap
small = entry 4 10 ∷ entry 8 20 ∷ []

-- the exact fit removes its entry
malloc_exact : malloc small 4 ≡ (10, entry 8 20 ∷ [])
unfolding malloc
malloc_exact = refl

malloc_first_fit : malloc small 6 ≡ (20, entry 4 10 ∷ entry 2 26 ∷ [])
unfolding malloc
malloc_first_fit = refl

-- a freed gap joins its neighbours on both sides
mfree_joins : mfree small 6 14 ≡ entry 18 10 ∷ []
unfolding mfree
mfree_joins = refl

malloc-covers_example :
    let (a, m') = malloc small 6 in
    (0 < a)
    × IsValid m'
    × ((x : ℕ) → covers m' x ≡ (covers small x && not (within a 6 x)))
    × ((x : ℕ) → within a 6 x ≡ true → covers small x ≡ true)
malloc-covers_example = malloc-covers small 6 (omega arith) (omega arith) refl

mfree-covers_example :
    IsValid (mfree small 6 14)
    × ((x : ℕ) → covers (mfree small 6 14) x ≡ (covers small x || within 14 6 x))
mfree-covers_example =
    mfree-covers small 6 14 (omega arith) (omega arith) (omega arith) (omega arith)
      (refl, (refl, tt))
