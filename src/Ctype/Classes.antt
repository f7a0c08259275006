-- ===== src/Ctype/Classes.antt =====
-- The classes of userland/Libraries/libc/src/ctype.c on the ASCII characters, and the change of case.
use unix_v.Common.{ℕ, ◌+◌, ◌≡◌, Bool, true, false, ◌||◌, ◌==◌, if◌then◌else◌, arith}
use unix_v.Ctype.{
  isalpha, isdigit, isalnum, isspace, isupper, islower, isprint, isgraph, iscntrl, ispunct, isascii,
  toupper, tolower,
}

-- how many of four tests hold
abbrev pub number_of : (a b c d : Bool) → ℕ
number_of a b c d =
    (if a then 1 else 0) + (if b then 1 else 0) + (if c then 1 else 0) + (if d then 1 else 0)

-- Every ASCII character is a control character, the blank, a letter or digit, or a punctuation
-- mark, and only one of these; and a graphic character is a letter, a digit or a punctuation mark.
pub ctype-partition :
    (c : ℕ)
    → isascii c ≡ true
    → (number_of (iscntrl c) (c == 32) (isalnum c) (ispunct c) ≡ 1)
      × (isgraph c ≡ (isalnum c || ispunct c))
unfolding isascii iscntrl isalnum ispunct isgraph isprint isspace isalpha isdigit
ctype-partition c a = (ground (arith, a), ground (arith, a))

-- A letter changed to the other case and back is the same, and no other character changes.
pub toupper-tolower :
    (c : ℕ)
    → (isupper c ≡ true → toupper (tolower c) ≡ c)
      × (islower c ≡ true → tolower (toupper c) ≡ c)
      × (isalpha c ≡ false → (toupper c ≡ c) × (tolower c ≡ c))
unfolding toupper tolower isupper islower isalpha
toupper-tolower c =
    (λ e. ground (arith, e), λ e. ground (arith, e), λ e. (ground (arith, e), ground (arith, e)))
