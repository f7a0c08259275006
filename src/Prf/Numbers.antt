-- ===== src/Prf/Numbers.antt =====
-- The printing of numbers of kernel/prf.c, and `atoi` of userland/Libraries/libc/src/stdlib.c.
use unix_v.Common.{
  ℕ, zero, suc, ◌+◌, ◌-◌, ◌*◌, ◌/◌, ◌%◌, ◌^◌, ◌<◌, ◌≡◌, ◌≢◌, refl, ◌∙◌, ap, sym, arith, Bool, true,
  false, ◌==◌, if◌then◌else◌, leb, ltb, Bool-cases, inl, inr, ◌⊎◌, List, [], ◌∷◌, ◌++◌,
  append_assoc, append-nil, if_true, if_false,
}
use unix_v.Prf.{
  Console, vga_scroll, scroll_rows, put_at_cursor, next_row, vga_putchar, serial_putchar, put_both,
  put_all, digits, decimal, hex, print_int, print_hex,
}
use unix_v.Stdlib.{is_digit, negate, skip_space, number_from, signed_number, atoi}

scroll_rows-serial : (n : ℕ) (s : Console) → (scroll_rows n s).serial ≡ s.serial
unfolding scroll_rows vga_scroll
scroll_rows-serial zero s = refl
scroll_rows-serial (suc n) s =
    let s' = vga_scroll s in scroll_rows-serial n (record s' { row = s'.row - 1 })

-- The screen takes no part in what goes to the serial line.
pub vga_putchar-serial : (c : ℕ) (s : Console) → (vga_putchar c s).serial ≡ s.serial
unfolding vga_putchar put_at_cursor next_row
vga_putchar-serial c s =
    let t = next_row (put_at_cursor c s) in ground (arith, scroll_rows-serial (t.row - 24) t)

pub put_both-serial : (c : ℕ) (s : Console) → (put_both c s).serial ≡ s.serial ++ c ∷ []
unfolding serial_putchar
put_both-serial c s = vga_putchar-serial c (serial_putchar c s)

pub put_all-serial : (l : List ℕ) (s : Console) → (put_all l s).serial ≡ s.serial ++ l
unfolding put_all
put_all-serial [] s = sym (append-nil s.serial)
put_all-serial (c ∷ l) s =
    put_all-serial l (put_both c s)
    ∙ ap (λ t. t ++ l) (put_both-serial c s)
    ∙ append_assoc s.serial (c ∷ []) l

-- the number has no more digits than the fuel
Fits : (base fuel n : ℕ) → Type 0
Fits base zero n = n ≡ 0
Fits base (suc fuel) n = Fits base fuel (n / base)

-- A reader that takes one digit more as the printer takes one less, reads what was printed.
read-digits :
    (read : ℕ → List ℕ → ℕ) (digit : ℕ → ℕ) (base : ℕ)
    → ((n : ℕ) (l : List ℕ)
        → n < 2 ^ 32
        → (n / base < 2 ^ 32) × (read (n / base) (digit (n % base) ∷ l) ≡ read n l))
    → (fuel n : ℕ) (l : List ℕ) → n < 2 ^ 32
    → Fits base fuel n
    → read 0 (digits digit base fuel n l) ≡ read n l
unfolding digits Fits
read-digits read digit base step zero n l h fits = ap (λ k. read k l) (sym fits)
read-digits read digit base step (suc fuel) n l h fits =
    let (h', one) = step n l h in
    let rest = read-digits read digit base step fuel (n / base) (digit (n % base) ∷ l) h' fits in
    ground (arith, one, rest)

-- the text begins with a digit
StartsDigit : List ℕ → Type 0
StartsDigit [] = ⊥
StartsDigit (c ∷ l) = is_digit c ≡ true

digits-StartsDigit :
    (fuel n : ℕ) (l : List ℕ)
    → Fits 10 fuel n
    → (n ≢ 0) ⊎ StartsDigit l
    → StartsDigit (digits decimal 10 fuel n l)
unfolding digits Fits StartsDigit
digits-StartsDigit zero n l fits (inl some_digit) = absurd (some_digit fits)
digits-StartsDigit zero n l fits (inr starts) = starts
digits-StartsDigit (suc fuel) n l fits starts =
    let rest = digits-StartsDigit fuel (n / 10) (decimal (n % 10) ∷ l) fits (inr (ground arith)) in
    by_zero (n == 0) refl starts rest
  where
    by_zero :
        (b : Bool)
        → n == 0 ≡ b
        → (n ≢ 0) ⊎ StartsDigit l
        → StartsDigit (digits decimal 10 fuel (n / 10) (decimal (n % 10) ∷ l))
        → StartsDigit (if b then l else digits decimal 10 fuel (n / 10) (decimal (n % 10) ∷ l))
    by_zero true e (inl some_digit) rest = absurd (some_digit (ground (arith, e)))
    by_zero true e (inr starts) rest = starts
    by_zero false e _ rest = rest

decimal-step :
    (n : ℕ) (l : List ℕ)
    → n < 2 ^ 32
    → (n / 10 < 2 ^ 32) × (number_from (n / 10) (decimal (n % 10) ∷ l) ≡ number_from n l)
unfolding number_from
decimal-step n l h =
    let back : (n / 10 * 10 + (48 + n % 10 - 48)) % 2 ^ 32 ≡ n = omega (arith, h) in
    (
      omega (arith, h),
      if_true (is_digit (decimal (n % 10))) _ _ (ground arith) ∙ ap (λ k. number_from k l) back,
    )

-- text that begins with a digit has no sign
atoi-digits : (l : List ℕ) → StartsDigit l → atoi l ≡ number_from 0 l
unfolding StartsDigit skip_space signed_number
atoi-digits [] h = absurd h
atoi-digits (c ∷ l) h = ground (arith, h)

atoi-minus : (l : List ℕ) → atoi (45 ∷ l) ≡ negate (number_from 0 l)
unfolding skip_space signed_number
atoi-minus l = refl

ten_digits : (n : ℕ) → n < 2 ^ 32 → Fits 10 12 n
unfolding Fits
ten_digits n h = omega (arith, h)

read-decimal : (n : ℕ) → n < 2 ^ 32 → number_from 0 (digits decimal 10 12 n []) ≡ n
unfolding number_from
read-decimal n h = read-digits number_from decimal 10 decimal-step 12 n [] h (ten_digits n h)

atoi-zero : atoi (48 ∷ []) ≡ 0
unfolding skip_space signed_number number_from
atoi-zero = refl

-- an int that is not negative and not 0
print_int-positive :
    (w : ℕ) (s : Console)
    → w ≢ 0
    → w < 2 ^ 31
    → print_int w s ≡ put_all (digits decimal 10 12 w []) s
unfolding print_int
print_int-positive w s some_int h =
    let nz : w == 0 ≡ false = ground (arith, some_int) in
    let pos : leb (2 ^ 31) w ≡ false = ground (arith, h) in
    let small : ltb w (2 ^ 31) ≡ true = ground (arith, h) in rw (nz, pos) (rw small refl)

-- a negative int but the least
print_int-negative :
    (w : ℕ) (s : Console)
    → 2 ^ 31 < w
    → w < 2 ^ 32
    → print_int w s ≡ put_all (digits decimal 10 12 (2 ^ 32 - w) []) (put_both 45 s)
unfolding print_int
print_int-negative w s low h =
    let nz : w == 0 ≡ false = ground (arith, low) in
    let neg : leb (2 ^ 31) w ≡ true = ground (arith, low) in
    let small : ltb (2 ^ 32 - w) (2 ^ 31) ≡ true = ground (arith, low, h) in
    rw (nz, neg) (rw small refl)

-- print_int of any int but the least sends text to the serial line, after what was sent before, and
-- atoi of the text is the int.
pub atoi-print_int :
    (w : ℕ) (s : Console)
    → w < 2 ^ 32
    → w ≢ 2 ^ 31
    → (t : List ℕ) × ((print_int w s).serial ≡ s.serial ++ t) × (atoi t ≡ w)
unfolding print_int
atoi-print_int w s h least = elim (Bool-cases (w == 0)) [
  | inl z ↦ (
    48 ∷ [],
    ap (λ (s : Console). s.serial) (if_true (w == 0) _ _ z) ∙ put_both-serial 48 s,
    atoi-zero ∙ ground (arith, z),
  )
  | inr nz ↦ elim (Bool-cases (ltb w (2 ^ 31))) [
    | inl pos ↦
        let l = digits decimal 10 12 w [] in
        (
          l,
          ap (λ s. s.serial) (print_int-positive w s (ground (arith, nz)) (ground (arith, pos)))
              ∙ put_all-serial l s,
          atoi-digits l (digits-StartsDigit 12 w [] (ten_digits w h) (inl (ground (arith, nz))))
              ∙ read-decimal w h,
        )
    | inr neg ↦
        let n = 2 ^ 32 - w in
        let l = digits decimal 10 12 n [] in
        let low : 2 ^ 31 < w = ground (arith, neg, least) in
        (
          45 ∷ l,
          ap (λ s. s.serial) (print_int-negative w s low h)
              ∙ put_all-serial l (put_both 45 s)
              ∙ ap (λ t. t ++ l) (put_both-serial 45 s)
              ∙ append_assoc s.serial (45 ∷ []) l,
          atoi-minus l ∙ ap negate (read-decimal n (omega (arith, low))) ∙ omega (arith, low, h),
        )
  ]
]

-- the value of a text in hexadecimal digits
unfoldable pub hex_value : ℕ → List ℕ → ℕ
hex_value v [] = v
hex_value v (c ∷ l) = hex_value (v * 16 + (if ltb c 58 then c - 48 else c - 87)) l

-- print_hex of a word sends text to the serial line whose value in hexadecimal digits is the word.
pub hex_value-print_hex :
    (w : ℕ) (s : Console)
    → w < 2 ^ 32
    → (t : List ℕ) × ((print_hex w s).serial ≡ s.serial ++ t) × (hex_value 0 t ≡ w)
unfolding print_hex hex_value Fits
hex_value-print_hex w s h = elim (Bool-cases (w == 0)) [
  | inl z ↦ (
    48 ∷ [],
    ap (λ (s : Console). s.serial) (if_true (w == 0) _ _ z) ∙ put_both-serial 48 s,
    ground (arith, z),
  )
  | inr nz ↦
      let l = digits hex 16 9 w [] in
      (
        l,
        ap (λ (s : Console). s.serial) (if_false (w == 0) _ _ nz) ∙ put_all-serial l s,
        read-digits hex_value hex 16 step 9 w [] h (omega (arith, h)),
      )
]
  where
    step :
        (n : ℕ) (l : List ℕ)
        → n < 2 ^ 32
        → (n / 16 < 2 ^ 32) × (hex_value (n / 16) (hex (n % 16) ∷ l) ≡ hex_value n l)
    step n l h = (omega (arith, h), ap (λ v. hex_value v l) (ground arith))
