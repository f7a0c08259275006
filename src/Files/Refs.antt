-- ===== src/Files/Refs.antt =====
-- The descriptors that refer to a file of kernel/fs/fio.c, and their number.
use unix_v.Common.{
  ℕ, zero, suc, ◌+◌, ◌<◌, ◌≡◌, Option, none, some, List, [], ◌∷◌, arith, get_or, set, length, ◌==◌,
  if◌then◌else◌,
}

-- 1 if the descriptor refers to file `k`
abbrev pub hits : ℕ → Option ℕ → ℕ
hits k none = 0
hits k (some j) = if j == k then 1 else 0

abbrev pub refs : ℕ → List (Option ℕ) → ℕ
refs k [] = 0
refs k (o ∷ l) = hits k o + refs k l

pub refs-set :
    (k : ℕ) (l : List (Option ℕ)) (i : ℕ) (o : Option ℕ)
    → i < length l
    → refs k (set l i o) + hits k (get_or l i none) ≡ refs k l + hits k o
refs-set k [] i o h = absurd (omega arith)
refs-set k (x ∷ l) zero o h = omega arith
refs-set k (x ∷ l) (suc i) o h = omega (arith, refs-set k l i o (omega arith))

-- A descriptor that refers to a file makes its count positive.
pub refs-pos : (k : ℕ) (l : List (Option ℕ)) (i : ℕ) → get_or l i none ≡ some k → 0 < refs k l
refs-pos k [] i h = cc
refs-pos k (x ∷ l) zero h = ground arith
refs-pos k (x ∷ l) (suc i) h = omega (arith, refs-pos k l i h)
