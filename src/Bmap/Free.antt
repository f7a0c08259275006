-- ===== src/Bmap/Free.antt =====
-- The loops of `itrunc` of kernel/fs/iget.c over the words of an indirect block.
use unix_v.Common.{
  ℕ, zero, suc, ◌≡◌, ◌≢◌, refl, sym, ap, subst, ◌∙◌, arith, Bool, true, false, Option, some, List,
  [], ◌∷◌, ◌++◌, ◌==◌, if◌then◌else◌, append_assoc, append-nil,
}
use mathlib.Core.Option.{bind}
use unix_v.Alloc.{
  Slots, Filsys, Volume, badblock, bfree_in, bfree_open, make_room, put_free, with_sentinel,
}
use unix_v.Alloc.Chain.{Absent, Has, Frees, bfree_first}
use unix_v.Bmap.{nindir, free_down, free_under}
use unix_v.Bmap.Tree.{Blocks}

-- valid blocks, each once, none of which is in `l`
abbrev pub Releasable : Filsys → List ℕ → List ℕ → Type 0
Releasable fs [] l = Unit
Releasable fs (x ∷ xs) l = (badblock fs x ≡ false) × Absent x xs × Absent x l × Releasable fs xs l

-- The free blocks are `l`, and the others hold what they held in `block`.
unfoldable pub IsReleasing : Filsys → Blocks → List ℕ → Volume → Type 0
IsReleasing fs block l v =
    Has v l
    × (v.fs.flock ≡ false)
    × (v.fs.isize ≡ fs.isize)
    × (v.fs.fsize ≡ fs.fsize)
    × ((y : ℕ) → Absent y l → v.block y ≡ block y)

pub Absent-append : (x : ℕ) (l m : List ℕ) → Absent x l → Absent x m → Absent x (l ++ m)
Absent-append x [] m a b = b
Absent-append x (y ∷ l) m (ne, a) b = (ne, Absent-append x l m a b)

Absent-left : (x : ℕ) (l m : List ℕ) → Absent x (l ++ m) → Absent x l
Absent-left x [] m a = tt
Absent-left x (y ∷ l) m (ne, a) = (ne, Absent-left x l m a)

Absent-right : (x : ℕ) (l m : List ℕ) → Absent x (l ++ m) → Absent x m
Absent-right x [] m a = a
Absent-right x (y ∷ l) m (ne, a) = Absent-right x l m a

-- the second part goes first
pub Releasable-append :
    (fs : Filsys) (xs ys l : List ℕ)
    → Releasable fs (xs ++ ys) l
    → Releasable fs ys l × Releasable fs xs (ys ++ l)
Releasable-append fs [] ys l g = (g, tt)
Releasable-append fs (x ∷ xs) ys l (fine, away, away', g) =
    let (gy, gx) = Releasable-append fs xs ys l g in
    (
      gy,
      (fine, Absent-left x xs ys away, Absent-append x ys l (Absent-right x xs ys away) away', gx),
    )

-- A call that gives back the blocks `xs`.
unfoldable pub Releases : Filsys → Blocks → (xs l : List ℕ) → Option Volume → Type 0
Releases fs block xs l o = (w : Volume) × (o ≡ some w) × IsReleasing fs block (xs ++ l) w

-- `bfree` writes no block but the one it is given
bfree_frame :
    (b : ℕ) (v : Volume)
    → ((bfree_open b v).fs.flock ≡ v.fs.flock)
      × ((bfree_open b v).fs.isize ≡ v.fs.isize)
      × ((bfree_open b v).fs.fsize ≡ v.fs.fsize)
      × ((y : ℕ) → b ≢ y → (bfree_open b v).block y ≡ v.block y)
unfolding bfree_open make_room put_free with_sentinel
bfree_frame b v = (ground arith, ground arith, ground arith, λ y ne. ground (arith, ne))

pub bfree-Releases :
    (fs : Filsys) (block : Blocks) (b : ℕ) (l : List ℕ) (v : Volume)
    → badblock fs b ≡ false
    → Absent b l
    → IsReleasing fs block l v
    → Releases fs block (b ∷ []) l (bfree_in b v)
unfolding Releases IsReleasing bfree_in badblock
bfree-Releases fs block b l v fine away (has, open', i, f, same) =
    let (fl, fi, ff, fb) = bfree_frame b v in
    let e : bfree_in b v ≡ some (bfree_open b v) = rw (bfree_in, open') refl in
    (
      bfree_open b v,
      e,
      (
        subst (Frees b l) e (bfree_first v b l open' (rw (i, f) fine) away has),
        fl ∙ open',
        fi ∙ i,
        ff ∙ f,
        λ y a. fb y a.0 ∙ same y a.1,
      ),
    )

-- the blocks that the loop gives back, in the order in which they are free afterwards; `under` has
-- those that go with a word
abbrev pub words : (under : ℕ → List ℕ) → Slots → (n : ℕ) → List ℕ
words under a zero = []
words under a (suc k) = words under a k ++ (if a k == 0 then [] else under (a k))

-- with an indirect block the blocks of its words
unfoldable pub with_words : (under : ℕ → List ℕ) → Blocks → ℕ → List ℕ
with_words under block nb = nb ∷ words under (block nb) nindir

module _ (fs : Filsys) (block : Blocks) (free : ℕ → Volume → Option Volume) (under : ℕ → List ℕ)
    (frees : (x : ℕ) (l : List ℕ) (v : Volume)
      → Releasable fs (under x) l
      → IsReleasing fs block l v
      → Releases fs block (under x) l (free x v)) where
  free_down-Releases :
      (nb n : ℕ) (l : List ℕ) (v : Volume)
      → Absent nb l
      → Absent nb (words under (block nb) n)
      → Releasable fs (words under (block nb) n) l
      → IsReleasing fs block l v
      → Releases fs block (words under (block nb) n) l (free_down free nb n v)
  unfolding free_down Releases IsReleasing bind
  free_down-Releases nb zero l v away apart good s = (v, refl, s)
  free_down-Releases nb (suc k) l v away apart good s =
      rw (s.4 nb away) (
        by_word (block nb k == 0) apart good (λ l v a a' g s. free_down-Releases nb k l v a a' g s))
    where
      x : ℕ
      x = block nb k

      by_word :
          (b : Bool)
          → Absent nb (words under (block nb) k ++ (if b then [] else under x))
          → Releasable fs (words under (block nb) k ++ (if b then [] else under x)) l
          → ((l : List ℕ) (v : Volume)
              → Absent nb l
              → Absent nb (words under (block nb) k)
              → Releasable fs (words under (block nb) k) l
              → IsReleasing fs block l v
              → Releases fs block (words under (block nb) k) l (free_down free nb k v))
          → Releases fs block
              (words under (block nb) k ++ (if b then [] else under x))
              l
              (if b then free_down free nb k v else bind (free x v) (free_down free nb k))
      by_word true apart' good' ih =
          let here = words under (block nb) k in
          subst (λ m. Releases fs block m l (free_down free nb k v)) (sym (append-nil here))
            (ih l v away (Absent-left nb here [] apart') (Releasable-append fs here [] l good').1 s)
      by_word false apart' good' ih =
          let here = words under (block nb) k in
          let (first, others) = Releasable-append fs here (under x) l good' in
          let (w, e, s') = frees x l v first s in
          let (w', e', s'') =
            ih (under x ++ l) w
              (Absent-append nb (under x) l (Absent-right nb here (under x) apart') away)
              (Absent-left nb here (under x) apart') others s' in
          (
            w',
            ap (λ o. bind o (free_down free nb k)) e ∙ e',
            subst (λ m. IsReleasing fs block m w') (sym (append_assoc here (under x) l)) s'',
          )

  -- an indirect block, which goes after its words
  pub free_under-Releases :
      (nb : ℕ) (l : List ℕ) (v : Volume)
      → Releasable fs (with_words under block nb) l
      → IsReleasing fs block l v
      → Releases fs block (with_words under block nb) l (free_under free nb v)
  unfolding free_under Releases bind with_words
  free_under-Releases nb l v (fine, apart, away, good) s =
      let here = words under (block nb) nindir in
      let (w, e, s') = free_down-Releases nb nindir l v away apart good s in
      let (w', e', s'') =
        bfree-Releases fs block nb (here ++ l) w fine (Absent-append nb here l apart away) s' in
      (w', ap (λ o. bind o (bfree_in nb)) e ∙ e', s'')
