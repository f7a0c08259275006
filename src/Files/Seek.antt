-- ===== src/Files/Seek.antt =====
-- `seek` of kernel/sys.c.
use Prim.Native.Nat.{bit_or}
use unix_v.Common.{
  ℕ, ◌+◌, ◌*◌, ◌/◌, ◌%◌, ◌^◌, ◌-◌, Bool, not, ◌&&◌, ◌||◌, ltb, leb, ◌==◌, if◌then◌else◌, set,
}
use unix_v.Files.{File, Files, Ret, failed, done, file_at, set_error, with_file, getf}

-- `seek`: the words of an offset are 32-bit patterns, compared as signed numbers.
abbrev pub espipe : ℕ
espipe = 29

abbrev pub add_32 : ℕ → ℕ → ℕ
add_32 a b = (a + b) % 2 ^ 32

abbrev pub is_neg : ℕ → Bool
is_neg a = leb (2 ^ 31) a

abbrev pub less_signed : ℕ → ℕ → Bool
less_signed a b = ltb (add_32 a (2 ^ 31)) (add_32 b (2 ^ 31))

-- `n[0]` and `n[1]` before the switch; the source takes them from `u_arg[0]`.
unfoldable pub seek_start : (arg t : ℕ) → ℕ × ℕ
seek_start arg t =
    if ltb 2 t && not (is_neg t)
    then (if t == 3 then arg / 128 % 512 else arg / 128, arg * 512 % 2 ^ 32)
    else (if not (t == 0) && is_neg arg then 2 ^ 32 - 1 else 0, arg)

unfoldable pub seek_relative : File → ℕ × ℕ → ℕ × ℕ
seek_relative f (n0, n1) =
    let lo = add_32 n1 f.offset1 in
    let hi = add_32 n0 f.offset0 in (if less_signed lo f.offset1 then add_32 hi 1 else hi, lo)

unfoldable pub seek_from_end : (size0 size1 : ℕ) → ℕ × ℕ → ℕ × ℕ
seek_from_end size0 size1 (n0, n1) =
    let fsize = bit_or (size0 % 256 * 65536) size1 in
    (add_32 n0 (fsize / 65536), add_32 n1 (fsize % 65536))

-- the switch; the size of a file is that of its inode, `i_size0` and `i_size1`
unfoldable pub seek_target : (arg t size0 size1 : ℕ) → File → ℕ × ℕ
seek_target arg t size0 size1 f =
    let n = seek_start arg t in
    if t == 1 || t == 4
    then seek_relative f n
    else if t == 2 || t == 5
    then seek_from_end size0 size1 n
    else n

unfoldable pub seek : (fd t : ℕ) → (size : ℕ → ℕ × ℕ) → Files → Ret × Files
seek fd t size s = with_file (getf fd s) λ k s'.
    let f = file_at s' k in
    let n = seek_target fd t (size f.inode).0 (size f.inode).1 f in
    if f.flag.fpipe
    then (failed, set_error espipe s')
    else (done, record s' { file = set s'.file k (record f { offset0 = n.0; offset1 = n.1 }) })
