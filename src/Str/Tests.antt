-- ===== src/Str/Tests.antt =====
-- The memory that holds "abc" at 10 and "abd" at 20: runs of the functions, and the theorems at it.
use unix_v.Common.{ℕ, ◌≡◌, refl, arith, none, some}
use unix_v.Str.{
  strstr, search_from, stands_at, Memory, poke, memset, memmove, copy_down, strchr, strrchr,
  last_match,
}
use unix_v.Str.Blocks.{copied, memmove-copied, filled, memset-filled}
use unix_v.Str.Strings.{IsString}

abbrev text : Memory
text = poke (poke (poke (poke (poke (poke (λ x. 0) 10 97) 11 98) 12 99) 20 97) 21 98) 22 100

abc : IsString text 10 3
abc = record { inside = λ k lt. ground (arith, lt); nul = refl }

abd : IsString text 20 3
abd = record { inside = λ k lt. ground (arith, lt); nul = refl }

-- "abc" moved one byte up over itself
overlapping : memmove 11 10 3 text 13 ≡ 99
unfolding memmove copy_down
overlapping = refl

memmove-copied_example : memmove 11 10 3 text 13 ≡ copied 11 10 3 text 13
memmove-copied_example = memmove-copied 11 10 3 text 13

memset-filled_example : memset 10 321 2 text 11 ≡ filled 10 321 2 text 11
memset-filled_example = memset-filled 10 321 2 text 11

strchr_second : strchr 4 10 98 text ≡ some (some 11)
unfolding strchr
strchr_second = refl

strrchr-none : strrchr 4 10 120 text ≡ some none
unfolding strrchr last_match
strrchr-none = refl

abbrev three : ℕ
three = 3

-- "bc" stands in "abc"
strstr_finds : strstr 9 10 11 text ≡ some (some 11)
unfolding strstr search_from stands_at
strstr_finds = refl
