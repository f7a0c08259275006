-- ===== src/Ctype/Tests.antt =====
-- The classes at a few characters.
use unix_v.Common.{◌≡◌, true, false}
use unix_v.Ctype.{isupper, islower, isalpha, toupper, tolower}
use unix_v.Ctype.Classes.{toupper-tolower}

toupper-tolower_example :
    (isupper 65 ≡ true → toupper (tolower 65) ≡ 65)
    × (islower 65 ≡ true → tolower (toupper 65) ≡ 65)
    × (isalpha 65 ≡ false → (toupper 65 ≡ 65) × (tolower 65 ≡ 65))
toupper-tolower_example = toupper-tolower 65
