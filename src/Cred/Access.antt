-- ===== src/Cred/Access.antt =====
-- `access` of kernel/fs/fio.c, and the digits of the mode.
use unix_v.Common.{
  ℕ, ◌/◌, ◌%◌, ◌≡◌, ◌≢◌, ◌↔◌, Bool, true, false, not, ◌&&◌, ◌||◌, none, ◌==◌, if◌then◌else◌, arith,
}
use unix_v.Cred.{Wanted, iread, iwrite, iexec, is_write, is_exec, Inode, User, access, iaccess}

-- the octal digit of the mode for this user: the owner's, the group's or that of the others
abbrev pub digit : User → Inode → ℕ
digit u ip =
    if u.uid == ip.uid
    then ip.mode / 64 % 8
    else if u.gid == ip.gid
    then ip.mode / 8 % 8
    else ip.mode % 8

-- 4 is reading, 2 writing and 1 executing.
abbrev pub allows : ℕ → Wanted → Bool
allows d iread = d / 4 == 1
allows d iwrite = d / 2 % 2 == 1
allows d iexec = d % 2 == 1

-- the right that the mode gives: the user's digit has it, or the user is the superuser, for whom
-- executing takes some digit
abbrev pub permitted : User → Inode → Wanted → Bool
permitted u ip w =
    if u.uid == 0
    then not (is_exec w)
      || allows (ip.mode / 64 % 8) w
      || allows (ip.mode / 8 % 8) w
      || allows (ip.mode % 8) w
    else allows (digit u ip) w

-- The three bits of a digit are those of the mode.
digit-bits :
    (m : ℕ)
    → (m / 256 % 2 ≡ m / 64 % 8 / 4)
      × (m / 128 % 2 ≡ m / 64 % 8 / 2 % 2)
      × (m / 64 % 2 ≡ m / 64 % 8 % 2)
      × (m / 32 % 2 ≡ m / 8 % 8 / 4)
      × (m / 16 % 2 ≡ m / 8 % 8 / 2 % 2)
      × (m / 8 % 2 ≡ m / 8 % 8 % 2)
      × (m / 4 % 2 ≡ m % 8 / 4)
      × (m / 2 % 2 ≡ m % 8 / 2 % 2)
      × (m / 1 % 2 ≡ m % 8 % 2)
digit-bits m = (
  omega arith,
  omega arith,
  omega arith,
  omega arith,
  omega arith,
  omega arith,
  omega arith,
  omega arith,
  omega arith,
)

-- `access` lets a user read, write or execute exactly if the mode permits it and, for writing, the
-- file system is not read-only and the file is not the text of a running program.
pub access-exact :
    (ronly : Bool) (u : User) (ip : Inode) (w : Wanted)
    → (access ronly u ip w ≡ none)
      ↔ ((permitted u ip w ≡ true) × ((is_write w && (ronly || ip.text)) ≡ false))
unfolding access
access-exact ronly u ip iread =
    (λ e. ground (arith, digit-bits ip.mode, e), λ e. ground (arith, digit-bits ip.mode, e))
access-exact ronly u ip iwrite =
    (λ e. ground (arith, digit-bits ip.mode, e), λ e. ground (arith, digit-bits ip.mode, e))
access-exact ronly u ip iexec =
    (λ e. ground (arith, digit-bits ip.mode, e), λ e. ground (arith, digit-bits ip.mode, e))

-- the digit that `iaccess` looks at: that of the others for the owner, the owner's for the others
abbrev pub other_digit : User → Inode → ℕ
other_digit u ip =
    if u.uid == ip.uid
    then ip.mode % 8
    else if u.gid == ip.gid
    then ip.mode / 8 % 8
    else ip.mode / 64 % 8

-- `iaccess` gives the owner the rights of the others, and the others those of the owner, where the
-- user is not the superuser.
pub iaccess-swapped :
    (u : User) (ip : Inode) (w : Wanted)
    → u.uid ≢ 0
    → (iaccess u ip w ≡ none) ↔ (allows (other_digit u ip) w ≡ true)
unfolding iaccess
iaccess-swapped u ip iread nz =
    (λ e. ground (arith, digit-bits ip.mode, e, nz), λ e. ground (arith, digit-bits ip.mode, e, nz))
iaccess-swapped u ip iwrite nz =
    (λ e. ground (arith, digit-bits ip.mode, e, nz), λ e. ground (arith, digit-bits ip.mode, e, nz))
iaccess-swapped u ip iexec nz =
    (λ e. ground (arith, digit-bits ip.mode, e, nz), λ e. ground (arith, digit-bits ip.mode, e, nz))
