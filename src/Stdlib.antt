-- ===== src/Stdlib.antt =====
-- The numbers of userland/Libraries/libc/src/stdlib.c, over strings as lists of bytes. An `int` or
-- `long` is a word of 32 bits.
use unix_v.Common.{
  ℕ, ◌+◌, ◌-◌, ◌*◌, ◌%◌, ◌^◌, Bool, ◌&&◌, ◌||◌, List, [], ◌∷◌, ◌==◌, if◌then◌else◌, leb,
}

abbrev pub is_space : ℕ → Bool
is_space c = c == 32 || c == 9 || c == 10

abbrev pub is_digit : ℕ → Bool
is_digit c = leb 48 c && leb c 57

abbrev pub negate : ℕ → ℕ
negate w = (2 ^ 32 - w) % 2 ^ 32

unfoldable pub skip_space : List ℕ → List ℕ
skip_space [] = []
skip_space (c ∷ l) = let rest = skip_space l in if is_space c then rest else c ∷ l

unfoldable pub number_from : ℕ → List ℕ → ℕ
number_from result [] = result
number_from result (c ∷ l) =
    let rest = number_from ((result * 10 + (c - 48)) % 2 ^ 32) l in
    if is_digit c then rest else result

unfoldable pub signed_number : List ℕ → ℕ
signed_number [] = 0
signed_number (c ∷ l) =
    if c == 45 then negate (number_from 0 l) else number_from 0 (if c == 43 then l else c ∷ l)

abbrev pub atoi : List ℕ → ℕ
atoi l = signed_number (skip_space l)

abbrev pub abs : ℕ → ℕ
abs w = if leb (2 ^ 31) w then negate w else w
