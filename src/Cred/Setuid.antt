-- ===== src/Cred/Setuid.antt =====
-- `setuid` of kernel/sys.c.
use unix_v.Common.{ℕ, ◌≡◌, ◌≢◌, ◌⊎◌, ◌<◌, false, arith}
use unix_v.Cred.{User, eperm, setuid}

-- For a user who is not the superuser and whose real number has 8 bits, `setuid` keeps the real
-- number, and the effective one is as before or the real one; where it returns -1, it sets EPERM
-- and nothing else.
pub setuid-safety :
    (u : User) (arg : ℕ)
    → u.uid ≢ 0
    → u.ruid < 256
    → let (ok, u') = setuid arg u in
      (u'.ruid ≡ u.ruid)
      × ((u'.uid ≡ u.uid) ⊎ (u'.uid ≡ u.ruid))
      × (ok ≡ false → u' ≡ record u { error = eperm })
unfolding setuid
setuid-safety u arg nz small =
    (ground (arith, nz, small), ground (arith, nz, small), λ e. ground (arith, nz, e))
