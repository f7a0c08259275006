-- ===== src/CoreMap/Cover.antt =====
-- The free units of a map of kernel/malloc.c, and the well-formed maps: sorted, with entries
-- that are neither empty nor adjacent nor past the end of the address space.
use unix_v.Common.{
  ℕ, suc, ◌+◌, ◌^◌, ◌≤◌, ◌<◌, ◌≡◌, refl, Bool, false, ◌&&◌, ◌||◌, [], ◌∷◌, arith, leb, ltb,
}
use unix_v.CoreMap.{CoreMap}

-- the unit `x` lies in the `n` units from `a` on
abbrev pub within : ℕ → ℕ → ℕ → Bool
within a n x = leb a x && ltb x (a + n)

abbrev pub covers : CoreMap → ℕ → Bool
covers [] x = false
covers (e ∷ es) x = within e.addr e.size x || covers es x

-- Every entry begins at `lo` or above, and a gap stands between any two.
abbrev pub IsFrom : ℕ → CoreMap → Type 0
IsFrom lo [] = Unit {0}
IsFrom lo (e ∷ es) =
    (lo ≤ e.addr) × (0 < e.size) × (e.addr + e.size < 2 ^ 32) × IsFrom (suc (e.addr + e.size)) es

-- Address 0 is never free: `malloc` returns it when it fails.
abbrev pub IsValid : CoreMap → Type 0
IsValid m = IsFrom 1 m

pub IsFrom-mono : (lo hi : ℕ) (m : CoreMap) → lo ≤ hi → IsFrom hi m → IsFrom lo m
IsFrom-mono lo hi [] h v = tt
IsFrom-mono lo hi (e ∷ es) h v = (omega arith, v.1, v.2, v.3)

pub covers-below : (lo : ℕ) (m : CoreMap) (x : ℕ) → IsFrom lo m → x < lo → covers m x ≡ false
covers-below lo [] x v h = refl
covers-below lo (e ∷ es) x v h = ground (arith, covers-below (suc (e.addr + e.size)) es x v.3)
