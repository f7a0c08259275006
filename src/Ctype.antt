-- ===== src/Ctype.antt =====
-- The character classes of the C library, userland/Libraries/libc/src/ctype.c. A character is a
-- number; the argument is not negative.
pub mod Classes
mod Tests
use unix_v.Common.{ℕ, ◌+◌, ◌-◌, ◌%◌, Bool, true, false, not, ◌&&◌, ◌||◌, leb, ◌==◌, if◌then◌else◌}

abbrev pub between : (lo hi c : ℕ) → Bool
between lo hi c = leb lo c && leb c hi

pub isalpha : ℕ → Bool
isalpha c = between 65 90 c || between 97 122 c

pub isdigit : ℕ → Bool
isdigit c = between 48 57 c

pub isalnum : ℕ → Bool
isalnum c = isalpha c || isdigit c

pub isspace : ℕ → Bool
isspace c = c == 32 || c == 9 || c == 10 || c == 13 || c == 12 || c == 11

pub isupper : ℕ → Bool
isupper c = between 65 90 c

pub islower : ℕ → Bool
islower c = between 97 122 c

pub isprint : ℕ → Bool
isprint c = between 32 126 c

pub isgraph : ℕ → Bool
isgraph c = between 33 126 c

pub iscntrl : ℕ → Bool
iscntrl c = leb c 31 || c == 127

pub isxdigit : ℕ → Bool
isxdigit c = isdigit c || between 65 70 c || between 97 102 c

pub ispunct : ℕ → Bool
ispunct c = isprint c && not (isalnum c) && not (isspace c)

pub isascii : ℕ → Bool
isascii c = leb c 127

pub toupper : ℕ → ℕ
toupper c = if islower c then c - 32 else c

pub tolower : ℕ → ℕ
tolower c = if isupper c then c + 32 else c

pub toascii : ℕ → ℕ
toascii c = c % 128
