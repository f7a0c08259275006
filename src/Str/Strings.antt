-- ===== src/Str/Strings.antt =====
-- The loops of userland/Libraries/libc/src/string.c over a whole string.
use unix_v.Common.{
  ℕ, zero, suc, ◌+◌, ◌<◌, ◌≡◌, ◌≢◌, ◌⊎◌, true, false, arith, ◌==◌, Option, none, some, ap,
}
use unix_v.Str.{Memory, poke, ending, strlen, strcpy}
use unix_v.Str.Blocks.{copied}

-- The `n` bytes from `s` on are not NUL, and the one behind them is.
pub record IsString (m : Memory) (s n : ℕ) : Type 0 where
  pub inside : (k : ℕ) → k < n → m (s + k) ≢ 0
  pub nul : m (s + n) ≡ 0

pub IsString-tail : {m : Memory} {s n : ℕ} → IsString m s (suc n) → IsString m (suc s) n
IsString-tail {m} {s} {n} v = record {
  inside = λ k lt. ground (arith, v.inside (suc k), lt);
  nul = ground (arith, v.nul);
}

ending-exact :
    (m : Memory) (s n fuel : ℕ) → IsString m s n → n < fuel → ending fuel s m ≡ some (s + n)
unfolding ending
ending-exact m s n zero v lt = ground (arith, lt)
ending-exact m s zero (suc fuel) v lt = ground (arith, v.nul)
ending-exact m s (suc n) (suc fuel) v lt =
    ground (arith, v.inside 0, ending-exact m (suc s) n fuel (IsString-tail v))

-- `strlen` of a string of `n` bytes gives `n`.
pub strlen-exact :
    (m : Memory) (s n fuel : ℕ) → IsString m s n → n < fuel → strlen fuel s m ≡ some n
unfolding strlen
strlen-exact m s n fuel v lt = rw (ending-exact m s n fuel v lt) (ap some (omega arith))

poke-IsString :
    (m : Memory) (s n a v : ℕ) → (a < s) ⊎ (s + n < a) → IsString m s n → IsString (poke m a v) s n
poke-IsString m s n a v away i = record {
  inside = λ k lt. ground (arith, i.inside k, lt);
  nul = ground (arith, i.nul);
}

-- `t` is the outcome of a copy of the string
abbrev pub Copies : (d s n : ℕ) → Memory → Option Memory → Type 0
Copies d s n m none = ⊥
Copies d s n m (some t) = (x : ℕ) → t x ≡ copied d s (suc n) m x

-- the copy of the rest, and the first byte
first_byte :
    (d s n : ℕ) (m : Memory) (r : Option Memory)
    → (d < s) ⊎ (s + suc n < d)
    → Copies (suc d) (suc s) n (poke m d (m s)) r
    → Copies d s (suc n) m r
first_byte d s n m none away c = elim c [ ]
first_byte d s n m (some t) away c = λ x. ground (arith, c x)

-- `strcpy` of a string of `n` bytes copies it with its NUL, and changes nothing else, where the
-- destination does not begin within the source.
pub strcpy-Copies :
    (m : Memory) (d s n fuel : ℕ)
    → IsString m s n
    → (d < s) ⊎ (s + n < d)
    → n < fuel
    → Copies d s n m (strcpy fuel d s m)
unfolding strcpy
strcpy-Copies m d s n zero v away lt = ground (arith, lt)
strcpy-Copies m d s zero (suc fuel) v away lt =
    let e : (m s == 0) ≡ true = ground (arith, v.nul) in rw e λ x. ground arith
strcpy-Copies m d s (suc n) (suc fuel) v away lt =
    let e : (m s == 0) ≡ false = ground (arith, v.inside 0) in
    let m' = poke m d (m s) in
    let v' = poke-IsString m (suc s) n d (m s) (grind (arith, away)) (IsString-tail v) in
    rw e (
      first_byte d s n m (strcpy fuel (suc d) (suc s) m') away
        (strcpy-Copies m' (suc d) (suc s) n fuel v' (grind (arith, away)) (omega (arith, lt))))
