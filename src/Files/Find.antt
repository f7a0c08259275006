-- ===== src/Files/Find.antt =====
-- The searches for a free descriptor and for an unused file entry.
use unix_v.Common.{
  ℕ, zero, suc, ◌+◌, ◌<◌, ◌≡◌, ◌≢◌, refl, Option, none, some, List, [], ◌∷◌, arith, get_or, length,
  Bool-cases, inl, inr, ◌==◌,
}
use unix_v.Files.{File, no_file, first_null, first_unused}

-- The search from index `i` on has found the first free place, the `j`-th of the list.
pub first_null-found :
    (l : List (Option ℕ)) (i n : ℕ)
    → first_null i l ≡ some n
    → (j : ℕ) × (n ≡ i + j)
      × (j < length l)
      × (get_or l j none ≡ none)
      × ((m : ℕ) → m < j → get_or l m none ≢ none)
unfolding first_null
first_null-found [] i n h = cc
first_null-found (none ∷ l) i n h = (0, ground arith, ground arith, refl, λ m lt. omega arith)
first_null-found (some k ∷ l) i n h =
    let (j, e, b, g, less) = first_null-found l (suc i) n h in
    (suc j, omega arith, omega arith, g, before less)
  where
    before :
        {j : ℕ}
        → ((m : ℕ) → m < j → get_or l m none ≢ none)
        → (m : ℕ) → m < suc j
        → get_or (some k ∷ l) m none ≢ none
    before less zero lt = cc
    before less (suc m) lt = less m (omega arith)

pub first_null-none :
    (l : List (Option ℕ)) (i : ℕ)
    → first_null i l ≡ none
    → (m : ℕ) → m < length l
    → get_or l m none ≢ none
unfolding first_null
first_null-none [] i h m b = absurd (omega arith)
first_null-none (none ∷ l) i h m b = cc
first_null-none (some k ∷ l) i h zero b = cc
first_null-none (some k ∷ l) i h (suc m) b = first_null-none l (suc i) h m (omega arith)

pub first_unused-found :
    (l : List File) (i n : ℕ)
    → first_unused i l ≡ some n
    → (j : ℕ) × (n ≡ i + j) × (j < length l) × ((get_or l j no_file).count ≡ 0)
unfolding first_unused
first_unused-found [] i n h = cc
first_unused-found (f ∷ l) i n h = elim (Bool-cases (f.count == 0)) [
  | inl free ↦ (0, ground arith, ground arith, ground arith)
  | inr used ↦
      let (j, e, b, g) = first_unused-found l (suc i) n (rw used at h) in
      (suc j, omega arith, omega arith, g)
]
