-- ===== src/Bio/Lists.antt =====
-- Occurrences in the available list.
use unix_v.Common.{ℕ, ◌+◌, ◌-◌, ◌≡◌, List, [], ◌∷◌, ◌++◌, arith, ◌==◌, if◌then◌else◌}
use unix_v.Bio.{remove}

abbrev pub count : ℕ → List ℕ → ℕ
count i [] = 0
count i (j ∷ l) = (if j == i then 1 else 0) + count i l

pub count-append : (i : ℕ) (l r : List ℕ) → count i (l ++ r) ≡ count i l + count i r
count-append i [] r = omega arith
count-append i (j ∷ l) r = omega (arith, count-append i l r)

pub count-remove :
    (i j : ℕ) (l : List ℕ) → count j (remove i l) ≡ (if i == j then count j l - 1 else count j l)
unfolding remove
count-remove i j [] = ground arith
count-remove i j (k ∷ l) = ground (arith, count-remove i j l)
