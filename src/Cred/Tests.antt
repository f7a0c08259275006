-- ===== src/Cred/Tests.antt =====
-- An owner, a guest and the superuser: the theorems at their requests.
use unix_v.Common.{◌≡◌, ◌↔◌, true, false, ◌&&◌, ◌||◌, none, some, refl, pos, negsuc}
use unix_v.Cred.{iaccess, User, Inode, iread, iwrite, access, eacces, is_write, nice}
use unix_v.Cred.Access.{permitted, access-exact}

abbrev guest : User
guest = record {
  uid = 7;
  gid = 1;
  ruid = 7;
  rgid = 1;
  p_uid = 7;
  p_nice = pos 0;
  error = 0;
  eax = 0;
}

-- mode 0640
abbrev report : Inode
report = record { mode = 416; uid = 3; gid = 1; text = false }

access-exact_example :
    (access false guest report iread ≡ none)
    ↔ ((permitted guest report iread ≡ true) × ((is_write iread && (false || false)) ≡ false))
access-exact_example = access-exact false guest report iread

group_reads : access false guest report iread ≡ none
unfolding access
group_reads = refl

group_does_not_write : access false guest report iwrite ≡ some eacces
unfolding access
group_does_not_write = refl

-- only the superuser may ask for a better priority
nice_floor : (nice (negsuc 9) guest).p_nice ≡ pos 0
unfolding nice
nice_floor = refl

-- the guest is neither the owner nor in the group
abbrev private_report : Inode
private_report = record report { gid = 2 }

-- which one test allows and the other refuses
tests_differ :
    (iaccess guest private_report iread ≡ none)
    × (access false guest private_report iread ≡ some eacces)
unfolding iaccess access
tests_differ = (refl, refl)
