-- ===== src/Str/Search.antt =====
-- The loops of userland/Libraries/libc/src/string.c that look for a byte: `strchr`.
use unix_v.Common.{
  ℕ, zero, suc, ◌+◌, ◌-◌, ◌≤◌, ◌<◌, ◌≡◌, ◌≢◌, true, false, arith, ◌==◌, Option, none, some,
  Bool-cases, inl, inr,
}
use unix_v.Str.{Memory, byte, strchr}
use unix_v.Str.Strings.{IsString, IsString-tail}

-- `strchr` of a byte that is not NUL gives the first place of the byte in the string, and `NULL`
-- where the string does not have it.
abbrev pub FirstAt : (m : Memory) (s n c : ℕ) → Option ℕ → Type 0
FirstAt m s n c none = (k : ℕ) → k < n → m (s + k) ≢ c
FirstAt m s n c (some p) = (s ≤ p) × (p < s + n) × (m p ≡ c) × ((k : ℕ) → s + k < p → m (s + k) ≢ c)

abbrev pub Finds : (m : Memory) (s n c : ℕ) → Option (Option ℕ) → Type 0
Finds m s n c none = ⊥
Finds m s n c (some r) = FirstAt m s n c r

later :
    (m : Memory) (s n c : ℕ) (r : Option (Option ℕ))
    → m s ≢ c
    → Finds m (suc s) n c r
    → Finds m s (suc n) c r
later m s n c none ne f = elim f [ ]
later m s n c (some none) ne f = λ k lt. ground (arith, ne, f (k - 1), lt)
later m s n c (some (some p)) ne (lo, hi, at, first) =
    (omega (arith, lo), omega (arith, hi), at, λ k lt. ground (arith, ne, first (k - 1), lt))

pub strchr-Finds :
    (m : Memory) (s n c fuel : ℕ)
    → IsString m s n
    → byte c ≢ 0
    → n < fuel
    → Finds m s n (byte c) (strchr fuel s c m)
unfolding strchr
strchr-Finds m s n c zero v ne lt = ground (arith, lt)
strchr-Finds m s zero c (suc fuel) v ne lt =
    let e : (m s == 0) ≡ true = ground (arith, v.nul) in
    let e' : (m s == byte c) ≡ false = ground (arith, v.nul, ne) in
    rw (e, e') λ k lt. ground (arith, lt)
strchr-Finds m s (suc n) c (suc fuel) v ne lt =
    let e : (m s == 0) ≡ false = ground (arith, v.inside 0) in
    let rest = strchr-Finds m (suc s) n c fuel (IsString-tail v) ne (omega (arith, lt)) in
    elim (Bool-cases (m s == byte c)) [
      | inl h ↦ rw (e, h) (omega arith, omega arith, ground (arith, h), λ k lt. ground (arith, lt))
      | inr h ↦ rw (e, h) (later m s n (byte c) (strchr fuel (suc s) c m) (ground (arith, h)) rest)
    ]
