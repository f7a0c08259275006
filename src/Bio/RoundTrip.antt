-- ===== src/Bio/RoundTrip.antt =====
-- `bdwrite` and a `bread` of the same block, of kernel/fs/bio.c.
use unix_v.Common.{ℕ, ◌<◌, ◌≡◌, true, false, arith}
use unix_v.Bio.{
  Block, Cache, Got, got, asleep, panicked, out_of_fuel, buf_at, ramdisk_blocks, bread, bdwrite,
}
use unix_v.Bio.Coherent.{IsCoherent, Caches, Holds}
use unix_v.Bio.Bread.{Reads, bread-Reads}
use unix_v.Bio.Update.{bdwrite-Updates}

given :
    (root b : ℕ) (s t : Cache) (g : Got) (k : ℕ) (c : Block)
    → b < ramdisk_blocks
    → Holds root s b c
    → Reads root b s g
    → g ≡ got k t
    → (buf_at t k).contents ≡ c
given root b s t (got i u) k c lt a r e = ground (arith, e, r.3 c lt a)
given root b s t (asleep u) k c lt a r e = ground (arith, e)
given root b s t panicked k c lt a r e = ground (arith, e)
given root b s t out_of_fuel k c lt a r e = ground (arith, e)

-- Where the cache is coherent, the busy buffer `i` is that of block `b` of the disk and has no
-- error, `bread` of the block after `bdwrite` of the buffer gives the data of the buffer, if it
-- gives a buffer at once.
pub bread-bdwrite :
    (root b : ℕ) (s : Cache)
    → IsCoherent root s
    → (i : ℕ) → Caches root s b i
    → (buf_at s i).busy ≡ true
    → (buf_at s i).error ≡ false
    → root < 256
    → b < ramdisk_blocks
    → (k : ℕ) (t : Cache) → bread root b (bdwrite i s) ≡ got k t
    → (buf_at t k).contents ≡ (buf_at s i).contents
bread-bdwrite root b s v i here taken fine small lt k t e =
    let u = bdwrite-Updates root b s v i here taken fine in
    let s' = bdwrite i s in
    given root b s' t (bread root b s') k (buf_at s i).contents lt u.here
      (bread-Reads root b s' u.coherent small) e
