-- ===== src/Prf/Tests.antt =====
-- An empty console: runs and the theorems at it.
use unix_v.Common.{ℕ, ◌-◌, ◌^◌, ◌≡◌, refl, false, some, List, [], ◌∷◌, ◌++◌, arith}
use unix_v.Prf.{
  Console, Printed, printed, word, text, kprintf, kprintf_from, directive, print_word, print_s,
  print_int, print_hex, digits, put_all, serial_putchar, serial_puts, vga_puts, vga_putchar,
  put_at_cursor, next_row, scroll_rows, vga_scroll,
}
use unix_v.Prf.Screen.{IsOnScreen, Shows, vga_putchar-Shows}
use unix_v.Prf.Numbers.{atoi-print_int}
use unix_v.Stdlib.{atoi, skip_space, signed_number, number_from}

abbrev console : Console
console = record { framed = false; sent = []; cell = λ _. 3872; row = 24; col = 79; serial = [] }

-- the serial line after a format, or nothing where it is not printed
abbrev sent_by : Printed → List ℕ
sent_by (printed _ s) = s.serial
sent_by _ = []

abbrev state_by : Printed → Console
state_by (printed _ s) = s
state_by _ = console

-- "a%-5d\n" of -42
run_kprintf :
    sent_by (kprintf (97 ∷ 37 ∷ 45 ∷ 53 ∷ 100 ∷ 10 ∷ []) (word (2 ^ 32 - 42) ∷ []) console)
    ≡ 97 ∷ 45 ∷ 52 ∷ 50 ∷ 13 ∷ 10 ∷ []
unfolding kprintf_from directive print_word print_int digits put_all serial_putchar vga_putchar
    put_at_cursor next_row scroll_rows vga_scroll
run_kprintf = refl

run_kprintf-string :
    sent_by
      (kprintf (37 ∷ 115 ∷ 37 ∷ 120 ∷ []) (text (some (104 ∷ 105 ∷ [])) ∷ word 255 ∷ []) console)
    ≡ 104 ∷ 105 ∷ 102 ∷ 102 ∷ []
unfolding kprintf_from directive print_word print_s print_hex digits put_all serial_putchar
    serial_puts vga_puts vga_putchar put_at_cursor next_row scroll_rows vga_scroll
run_kprintf-string = refl

-- Of the least int only the sign is printed.
run_print_int-least : (print_int (2 ^ 31) console).serial ≡ 45 ∷ []
unfolding print_int digits put_all serial_putchar vga_putchar put_at_cursor next_row scroll_rows
    vga_scroll
run_print_int-least = refl

run_atoi : atoi (32 ∷ 9 ∷ 43 ∷ 55 ∷ 48 ∷ 120 ∷ []) ≡ 70
unfolding skip_space signed_number number_from
run_atoi = refl

console-IsOnScreen : IsOnScreen console
unfolding IsOnScreen
console-IsOnScreen = (omega arith, omega arith)

vga_putchar-Shows_example : Shows 65 console (vga_putchar 65 console)
vga_putchar-Shows_example = vga_putchar-Shows 65 console console-IsOnScreen refl

atoi-print_int_example :
    (t : List ℕ) × ((print_int (2 ^ 32 - 42) console).serial ≡ console.serial ++ t)
    × (atoi t ≡ 2 ^ 32 - 42)
atoi-print_int_example = atoi-print_int (2 ^ 32 - 42) console (omega arith) (omega arith)

some_printed :
    kprintf (97 ∷ 37 ∷ 100 ∷ []) (word 7 ∷ word 8 ∷ []) console
    ≡ printed (word 8 ∷ []) (state_by (kprintf (97 ∷ 37 ∷ 100 ∷ []) (word 7 ∷ word 8 ∷ []) console))
unfolding kprintf_from directive print_word
some_printed = refl
