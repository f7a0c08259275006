-- ===== src/Cred.antt =====
-- Users and permissions: `access` and `suser` of kernel/fs/fio.c, and the calls of kernel/sys.c on
-- the user and group numbers and on `nice`. User numbers have 8 bits. The read-only flag of the
-- inode's file system, which `access` looks up by `getfs`, is an argument.
pub mod Access
pub mod Setuid
mod Tests
use unix_v.Common.{
  ℕ, ◌+◌, ◌-◌, ◌*◌, ◌/◌, ◌%◌, Bool, true, false, not, ◌&&◌, ◌||◌, Option, none, some, ◌==◌,
  if◌then◌else◌, ℤ, pos, negsuc,
}

-- the mode that `access` is asked for: IREAD, IWRITE or IEXEC
pub data Wanted : Type 0 where
  iread iwrite iexec : Wanted

abbrev pub wanted_bit : Wanted → ℕ
wanted_bit iread = 256
wanted_bit iwrite = 128
wanted_bit iexec = 64

abbrev pub is_write : Wanted → Bool
is_write iwrite = true
is_write _ = false

abbrev pub is_exec : Wanted → Bool
is_exec iexec = true
is_exec _ = false

-- the fields of an inode that `access` reads; `text` is ITEXT
pub record Inode : Type 0 where
  pub mode : ℕ
  pub uid : ℕ
  pub gid : ℕ
  pub text : Bool

-- the numbers in `u`, the `p_uid` and `p_nice` of the process, `u_error` and `u_ar0[EAX]`
pub record User : Type 0 where
  pub uid : ℕ
  pub gid : ℕ
  pub ruid : ℕ
  pub rgid : ℕ
  pub p_uid : ℕ
  pub p_nice : ℤ
  pub error : ℕ
  pub eax : ℕ

abbrev pub eperm : ℕ
eperm = 1

abbrev pub eacces : ℕ
eacces = 13

abbrev pub etxtbsy : ℕ
etxtbsy = 26

abbrev pub erofs : ℕ
erofs = 30

-- `i_mode & m`, for an `m` of one bit
abbrev pub has_mode : ℕ → ℕ → Bool
has_mode mode bit = mode / bit % 2 == 1

-- the bit that counts for this user: the owner's, the group's or that of the others
abbrev pub shifted : User → Inode → ℕ → ℕ
shifted u ip m = if u.uid == ip.uid then m else if u.gid == ip.gid then m / 8 else m / 8 / 8

-- `access`: `none` where it returns 0, else the error number that it sets.
pub access : (ronly : Bool) → User → Inode → Wanted → Option ℕ
access ronly u ip w =
    if is_write w && ronly
    then some erofs
    else if is_write w && ip.text
    then some etxtbsy
    else if u.uid == 0
    then (if is_exec w && not (has_mode ip.mode 64 || has_mode ip.mode 8 || has_mode ip.mode 1)
        then some eacces
        else none)
    else if has_mode ip.mode (shifted u ip (wanted_bit w))
    then none
    else some eacces

pub suser : User → Bool × User
suser u = if u.uid == 0 then (true, u) else (false, record u { error = eperm })

pub getuid : User → ℕ × User
getuid u = (u.ruid + u.uid * 256, record u { eax = u.ruid })

pub getgid : User → ℕ × User
getgid u = (u.rgid + u.gid * 256, record u { eax = u.rgid })

-- `true` is the return of 0, `false` of -1.
pub setuid : ℕ → User → Bool × User
setuid arg u =
    if u.ruid == arg || u.uid == 0
    then (true, record u { uid = arg % 256; ruid = arg % 256; p_uid = arg % 256 })
    else (false, record u { error = eperm })

pub setgid : ℕ → User → Bool × User
setgid arg u =
    if u.rgid == arg || u.uid == 0
    then (true, record u { gid = arg % 256; rgid = arg % 256 })
    else (false, record u { error = eperm })

abbrev is_negative : ℤ → Bool
is_negative (pos n) = false
is_negative (negsuc n) = true

-- the store of an `int` into an `int8_t`
abbrev pub to_int8 : ℤ → ℤ
to_int8 (pos n) = if n % 256 / 128 == 0 then pos (n % 256) else negsuc (255 - n % 256)
to_int8 (negsuc n) = if n % 256 / 128 == 0 then negsuc (n % 256) else pos (255 - n % 256)

pub nice : ℤ → User → User
nice n u = record u { p_nice = to_int8 (if is_negative n && not (u.uid == 0) then pos 0 else n) }

-- `iaccess` of kernel/fs/iget.c, the same test with the shifts the other way round
abbrev pub i_shifted : User → Inode → ℕ → ℕ
i_shifted u ip m = if u.uid == ip.uid then m / 64 else if u.gid == ip.gid then m / 8 else m

pub iaccess : User → Inode → Wanted → Option ℕ
iaccess u ip w =
    if u.uid == 0
    then none
    else if has_mode ip.mode (i_shifted u ip (wanted_bit w))
    then none
    else some eacces
