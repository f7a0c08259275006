-- ===== src/Str/Compare.antt =====
-- The comparison of strings of userland/Libraries/libc/src/string.c.
use unix_v.Common.{ℕ, zero, suc, ◌+◌, ◌-◌, ◌<◌, ◌≡◌, refl, arith, some, pos, ◌-ℤ◌, ◌↔◌, int_laws}
use unix_v.Str.{Memory, strcmp}
use unix_v.Str.Strings.{IsString, IsString-tail}

difference-zero : (x y : ℕ) → pos x -ℤ pos y ≡ pos 0 → x ≡ y
difference-zero x y e = grind (int_laws, e)

difference-same : (x y : ℕ) → x ≡ y → pos x -ℤ pos y ≡ pos 0
difference-same x y e = grind (int_laws, e)

equal_from :
    (m : Memory) (a n b k fuel : ℕ)
    → IsString m a n
    → IsString m b k
    → n < fuel
    → strcmp fuel a b m ≡ some (pos 0)
    → (n ≡ k) × ((j : ℕ) → j < n → m (a + j) ≡ m (b + j))
unfolding strcmp
equal_from m a n b k zero v w lt e = ground (arith, lt)
equal_from m a zero b zero (suc fuel) v w lt e = (refl, λ j l. ground (arith, l))
equal_from m a zero b (suc k) (suc fuel) v w lt e =
    ground (arith, e, v.nul, w.inside 0, difference-zero (m a) (m b))
equal_from m a (suc n) b zero (suc fuel) v w lt e =
    ground (arith, e, w.nul, v.inside 0, difference-zero (m a) (m b))
equal_from m a (suc n) b (suc k) (suc fuel) v w lt e =
    let same : m a ≡ m b = ground (arith, e, v.inside 0, difference-zero (m a) (m b)) in
    let rest =
      equal_from m (suc a) n (suc b) k fuel (IsString-tail v) (IsString-tail w) (omega (arith, lt))
        ground (arith, e, same, v.inside 0) in
    (omega (arith, rest), λ j l. ground (arith, same, rest.1 (j - 1), l))

equal_to :
    (m : Memory) (a n b fuel : ℕ)
    → IsString m a n
    → IsString m b n
    → n < fuel
    → ((j : ℕ) → j < n → m (a + j) ≡ m (b + j))
    → strcmp fuel a b m ≡ some (pos 0)
unfolding strcmp
equal_to m a n b zero v w lt e = ground (arith, lt)
equal_to m a zero b (suc fuel) v w lt e =
    ground (arith, v.nul, w.nul, difference-same (m a) (m b) (ground (arith, v.nul, w.nul)))
equal_to m a (suc n) b (suc fuel) v w lt e = ground (
  arith,
  e 0,
  v.inside 0,
  equal_to m (suc a) n (suc b) fuel (IsString-tail v) (IsString-tail w) (omega (arith, lt))
      (λ j l. ground (arith, e (suc j), l)),
)

-- `strcmp` of strings of `n` and `k` bytes gives 0 exactly when the strings are equal, and then
-- they have one length.
pub strcmp-zero :
    (m : Memory) (a n b k fuel : ℕ)
    → IsString m a n
    → IsString m b k
    → n < fuel
    → (strcmp fuel a b m ≡ some (pos 0)) ↔ ((n ≡ k) × ((j : ℕ) → j < n → m (a + j) ≡ m (b + j)))
strcmp-zero m a n b k fuel v w lt =
    (equal_from m a n b k fuel v w lt, λ (same, e). equal_to m a n b fuel v (rw same w) lt e)
