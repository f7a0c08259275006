-- ===== src/Bio/Coherent.antt =====
-- The invariant of the cache over one device, and the content that it gives each block.
use unix_v.Common.{ℕ, ◌<◌, ◌≡◌, ◌≢◌, length, true, false}
use unix_v.Bio.{Block, Cache, nodev, buf_at}
use unix_v.Bio.Lists.{count}
use unix_v.Bio.Avail.{IsAvail}

-- buffer `i` holds the content of block `b` of the device
abbrev pub Caches : ℕ → Cache → ℕ → ℕ → Type 0
Caches root s b i = (i < length s.bufs) × ((buf_at s i).dev ≡ root) × ((buf_at s i).blkno ≡ b)

pub record IsCoherent (root : ℕ) (s : Cache) : Type 0 where
  pub avail : IsAvail s
  pub real : root ≢ nodev
  pub chained : (i : ℕ) → i < length s.bufs → (buf_at s i).dev ≡ root → 0 < count i s.chain
  pub unique : (b i j : ℕ) → Caches root s b i → Caches root s b j → i ≡ j
  pub dirty : (i : ℕ) → (buf_at s i).delwri ≡ true → (buf_at s i).done ≡ true
  pub own : (i : ℕ) → (buf_at s i).delwri ≡ true → (buf_at s i).dev ≡ root
  pub quiet : (i : ℕ) → (buf_at s i).busy ≡ false → (buf_at s i).async ≡ false
  pub clean :
      (b i : ℕ)
      → Caches root s b i
      → (buf_at s i).done ≡ true
      → (buf_at s i).delwri ≡ false
      → (buf_at s i).busy ≡ false
      → (buf_at s i).contents ≡ s.disk b

-- Block `b` has content `c`: that of the buffer that holds it and is done, or else the disk's.
pub record Holds (root : ℕ) (s : Cache) (b : ℕ) (c : Block) : Type 0 where
  pub cached : (i : ℕ) → Caches root s b i → (buf_at s i).done ≡ true → (buf_at s i).contents ≡ c
  pub on_disk : ((i : ℕ) → Caches root s b i → (buf_at s i).done ≡ false) → s.disk b ≡ c
