-- ===== src/Prf.antt =====
-- The console of kernel/prf.c: the screen of 25 rows of 80 characters, the serial line, and the
-- printing of numbers and formats. Where a framebuffer is active the screen is that of fb.c, and only
-- the characters that it is given are kept. The wait for the serial line is taken to end.
pub mod Screen
pub mod Numbers
pub mod Formats
mod Tests
use unix_v.Common.{
  ℕ, zero, suc, ◌+◌, ◌-◌, ◌*◌, ◌/◌, ◌%◌, ◌^◌, Bool, true, false, ◌&&◌, ◌||◌, Option, none, some,
  List, [], ◌∷◌, ◌++◌, ◌==◌, if◌then◌else◌, leb, ltb, get_or,
}

-- The cells of the screen, by row * 80 + column, the cursor, and what was sent to the framebuffer
-- and to the serial line.
pub record Console : Type 0 where
  pub framed : Bool
  pub sent : List ℕ
  pub cell : ℕ → ℕ
  pub row : ℕ
  pub col : ℕ
  pub serial : List ℕ

-- VGA_WHITE with a character
abbrev pub white : ℕ → ℕ
white c = 3840 + c % 256

abbrev pub write_cell : ℕ → ℕ → (ℕ → ℕ) → ℕ → ℕ
write_cell i v f j = if i == j then v else f j

unfoldable pub serial_putchar : ℕ → Console → Console
serial_putchar c s = record s { serial = s.serial ++ c ∷ [] }

unfoldable pub serial_puts : List ℕ → Console → Console
serial_puts [] s = s
serial_puts (c ∷ l) s =
    serial_puts l (serial_putchar c (if c == 10 then serial_putchar 13 s else s))

-- `n` cells from `i` on are taken from the row below
unfoldable pub move_up : (n i : ℕ) → (ℕ → ℕ) → ℕ → ℕ
move_up zero i f = f
move_up (suc n) i f = move_up n (suc i) (write_cell i (f (i + 80)) f)

-- `n` cells from `i` on are cleared
unfoldable pub blank : (n i : ℕ) → (ℕ → ℕ) → ℕ → ℕ
blank zero i f = f
blank (suc n) i f = blank n (suc i) (write_cell i (white 32) f)

unfoldable pub vga_scroll : Console → Console
vga_scroll s = record s { cell = blank 80 1920 (move_up 1920 0 s.cell) }

-- the rows beyond the last, one by one
unfoldable pub scroll_rows : ℕ → Console → Console
scroll_rows zero s = s
scroll_rows (suc n) s = let s' = vga_scroll s in scroll_rows n (record s' { row = s'.row - 1 })

unfoldable pub put_at_cursor : ℕ → Console → Console
put_at_cursor c s =
    if c == 10
    then record s { col = 0; row = s.row + 1 }
    else if c == 13
    then record s { col = 0 }
    else if c == 9
    then record s { col = (s.col + 8) / 8 * 8 }
    else record s { cell = write_cell (s.row * 80 + s.col) (white c) s.cell; col = s.col + 1 }

unfoldable pub next_row : Console → Console
next_row s = if leb 80 s.col then record s { col = 0; row = s.row + 1 } else s

-- The loop of `vga_putchar` scrolls while the row is 25 or more.
unfoldable pub vga_putchar : ℕ → Console → Console
vga_putchar c s =
    let t = next_row (put_at_cursor c s) in
    if s.framed then record s { sent = s.sent ++ c ∷ [] } else scroll_rows (t.row - 24) t

unfoldable pub vga_clear : Console → Console
vga_clear s = if s.framed then s else record s { cell = blank 2000 0 s.cell; row = 0; col = 0 }

unfoldable pub vga_puts : List ℕ → Console → Console
vga_puts [] s = s
vga_puts (c ∷ l) s = vga_puts l (vga_putchar c s)

abbrev pub console_puts : List ℕ → Console → Console
console_puts l s = serial_puts l (vga_puts l s)

-- to the serial line and the screen
abbrev pub put_both : ℕ → Console → Console
put_both c s = vga_putchar c (serial_putchar c s)

unfoldable pub put_all : List ℕ → Console → Console
put_all [] s = s
put_all (c ∷ l) s = put_all l (put_both c s)

-- The digits of a number, the last first in `buf`, and so before those already taken. The fuel is
-- for the places of `buf`.
unfoldable pub digits : (digit : ℕ → ℕ) (base fuel n : ℕ) → List ℕ → List ℕ
digits digit base zero n buf = buf
digits digit base (suc fuel) n buf =
    let rest = digits digit base fuel (n / base) (digit (n % base) ∷ buf) in
    if n == 0 then buf else rest

abbrev pub decimal : ℕ → ℕ
decimal k = 48 + k

abbrev pub hex : ℕ → ℕ
hex k = if ltb k 10 then 48 + k else 87 + k

-- A word stands for an `int`: from 2 ^ 31 on it is negative. The negation wraps around, and that of
-- the least number is again negative, so that no digit is printed.
unfoldable pub print_int : ℕ → Console → Console
print_int w s =
    let neg = leb (2 ^ 31) w in
    let n = if neg then 2 ^ 32 - w else w in
    let buf = if ltb n (2 ^ 31) then digits decimal 10 12 n [] else [] in
    if w == 0 then put_both 48 s else put_all buf (if neg then put_both 45 s else s)

unfoldable pub print_hex : ℕ → Console → Console
print_hex n s = if n == 0 then put_both 48 s else put_all (digits hex 16 9 n []) s

-- An argument of `kprintf`: a word, or a string or NULL.
pub data Arg : Type 0 where
  word : ℕ → Arg
  text : Option (List ℕ) → Arg

-- Where `kprintf` is in the format: in the text, after a `%`, or after its `-` and digits.
pub data Place : Type 0 where
  in_text : Place
  after_percent : Place
  in_width : Place

-- What `kprintf` comes to: the arguments that are left, a read beyond the end of the format, or an
-- argument that is missing or of another kind.
pub data Printed : Type 0 where
  printed : List Arg → Console → Printed
  past_end : Console → Printed
  bad_args : Printed

unfoldable pub print_s : List Arg → Console → Option (List Arg × Console)
print_s (text (some l) ∷ args) s = some (args, console_puts l s)
print_s (text none ∷ args) s = some (args, s)
print_s _ s = none

unfoldable pub print_word :
    (ℕ → Console → Console) → List Arg → Console → Option (List Arg × Console)
print_word f (word w ∷ args) s = some (args, f w s)
print_word f _ s = none

unfoldable pub directive : ℕ → List Arg → Console → Option (List Arg × Console)
directive c args s =
    if c == 100
    then print_word print_int args s
    else if c == 120
    then print_word print_hex args s
    else if c == 115
    then print_s args s
    else if c == 99
    then print_word (λ w. put_both (w % 256)) args s
    else if c == 37
    then some (args, put_both 37 s)
    else some (args, put_both c (put_both 37 s))

abbrev pub is_digit : ℕ → Bool
is_digit c = leb 48 c && leb c 57

unfoldable pub kprintf_from : Place → List ℕ → List Arg → Console → Printed
kprintf_from in_text [] args s = printed args s
kprintf_from _ [] args s = past_end (put_both 0 (put_both 37 s))
kprintf_from in_text (c ∷ l) args s =
    let s' = put_both c (if c == 10 then serial_putchar 13 s else s) in
    kprintf_from (if c == 37 then after_percent else in_text) l args (if c == 37 then s else s')
kprintf_from after_percent (c ∷ l) args s =
    let rest = kprintf_from in_width l args s in
    let next = elim (directive c args s) as (λ _. Printed) [
      | none ↦ bad_args
      | some (args', s') ↦ kprintf_from in_text l args' s'
    ] in
    if c == 45 || is_digit c then rest else next
kprintf_from in_width (c ∷ l) args s =
    let rest = kprintf_from in_width l args s in
    let next = elim (directive c args s) as (λ _. Printed) [
      | none ↦ bad_args
      | some (args', s') ↦ kprintf_from in_text l args' s'
    ] in
    if is_digit c then rest else next

abbrev pub kprintf : List ℕ → List Arg → Console → Printed
kprintf = kprintf_from in_text
