-- ===== src/Text/Xalloc.antt =====
-- `xalloc` of kernel/text.c.
use unix_v.Common.{
  ℕ, ◌+◌, ◌<◌, ◌≡◌, ◌≢◌, refl, ◌∙◌, ◌⊎◌, inl, inr, arith, true, false, Option, none, some, length,
  length-set, ap,
}
use unix_v.Inodes.{entry_at, put_entry, inc8}
use unix_v.Text.{Texts, text_at, put_text, is_free, is_of, attach, xalloc}
use unix_v.Text.Find.{
  IsShared, IsHeld, IsShared-change, find_text-finds, put_text-at, put_entry-at, is_of-some,
  is_of_other, is_free-none, text_inside,
}

-- What `xalloc` of the inode may come to in the state `s`.
unfoldable pub XallocOutcome : (ip : ℕ) → Texts → Option ℕ × Texts → Type 0
XallocOutcome ip s (none, s') =
    (s' ≡ s)
    × ((k : ℕ)
        → k < length s.text
        → (is_free (text_at s k) ≡ false) × (is_of ip (text_at s k) ≡ false))
XallocOutcome ip s (some k, s') =
    ((text_at s' k).iptr ≡ some ip)
    × ((l : ℕ) → k ≢ l → text_at s' l ≡ text_at s l)
    × (((text_at s k).iptr ≡ some ip)
          × ((text_at s' k).count ≡ (text_at s k).count + 1)
          × (s'.store ≡ s.store)
        ⊎ ((l : ℕ) → (text_at s l).iptr ≢ some ip)
          × ((text_at s k).iptr ≡ none)
          × ((text_at s' k).count ≡ 1)
          × ((j : ℕ) → ip ≢ j → entry_at s'.store j ≡ entry_at s.store j)
          × (entry_at s'.store ip ≡ record (entry_at s.store ip) {
            itext = true;
            count = (entry_at s.store ip).count + 1;
          }))
    × IsShared s'

module _ (ip : ℕ) (s : Texts) (shared : IsShared s) (inside : ip < length s.store.inode)
    (used : (entry_at s.store ip).count ≢ 0) (few : (entry_at s.store ip).count < 255) (k : ℕ)
    (h : k < length s.text) where
  counted :
      (text_at s k).iptr ≡ some ip
      → (text_at s k).count < 255
      → XallocOutcome ip s
          (some k, put_text k (record (text_at s k) { count = inc8 (text_at s k).count }) s)
  unfolding XallocOutcome IsShared IsHeld
  counted mine small =
      let x = record (text_at s k) { count = inc8 (text_at s k).count } in
      let at = λ (l : ℕ). put_text-at k x s l h in
      let others : (l : ℕ) → k ≢ l → text_at (put_text k x s) l ≡ text_at s l =
        λ l ne. ground (arith, at l, ne) in
      (
        ground (arith, at k, mine),
        others,
        inl (mine, ground (arith, at k, small), refl),
        IsShared-change s (put_text k x s) k shared others
            (λ l i ne a b. ground (arith, at k, b, shared.0 k l i, a, ne))
            (λ i a. ground (arith, at k, a, shared.1 k i, small))
            (λ l i ne a. ground (arith, shared.1 l i, a)),
      )

  attached :
      (text_at s k).iptr ≡ none
      → ((l : ℕ) → (text_at s l).iptr ≢ some ip)
      → XallocOutcome ip s (some k, attach ip k s)
  unfolding XallocOutcome IsShared IsHeld attach
  attached free away =
      let x = record (text_at s k) { count = 1; iptr = some ip; ccount = 0; caddr = 0; size = 0 } in
      let e = record (entry_at s.store ip) {
        itext = true;
        count = inc8 (entry_at s.store ip).count;
      } in
      let at = λ (l : ℕ). put_text-at k x s l h in
      let node = λ (j : ℕ). put_entry-at ip e s.store j inside in
      let others : (l : ℕ) → k ≢ l → text_at (put_text k x s) l ≡ text_at s l =
        λ l ne. ground (arith, at l, ne) in
      let len : length (put_entry ip e s.store).inode ≡ length s.store.inode =
        length-set s.store.inode ip e in
      let node' : entry_at (put_entry ip e s.store) ip ≡ e = ground (arith, node ip) in
      let up : inc8 (entry_at s.store ip).count ≡ (entry_at s.store ip).count + 1 =
        omega (arith, few) in
      (
        ground (arith, at k),
        others,
        inr (
          away,
          free,
          ground (arith, at k),
          λ j ne. ground (arith, node j, ne),
          node' ∙ ap (λ c. record (entry_at s.store ip) { itext = true; count = c }) up,
        ),
        IsShared-change s (attach ip k s) k shared others
            (λ l i ne a b. ground (arith, at k, b, away l, a))
            (λ i a. ground (arith, at k, a, node i, len, inside, up))
            (λ l i ne a. ground (arith, shared.1 l i, a, away l, node i, len)),
      )

-- xalloc of an inode in use, where texts and inodes agree and the counts have room for one more: it
-- gives the text of the inode, with one more reference and the inodes as they were; or no text was
-- of the inode, and a free one becomes its text, with one reference, and the inode is marked and
-- has one more reference. It returns NULL only if every text is that of another inode, and then
-- nothing has changed. No other text or inode changes, and texts and inodes agree afterwards.
pub xalloc-XallocOutcome :
    (ip : ℕ) (s : Texts)
    → IsShared s
    → ip < length s.store.inode
    → (entry_at s.store ip).count ≢ 0
    → (entry_at s.store ip).count < 255
    → ((k : ℕ) → (text_at s k).iptr ≡ some ip → (text_at s k).count < 255)
    → XallocOutcome ip s (xalloc ip s)
unfolding xalloc XallocOutcome
xalloc-XallocOutcome ip s shared inside used few small =
    elim (find_text-finds (is_of ip) 0 s.text) [
      | inr (k, found, h, mine) ↦
          let z : 0 + k ≡ k = omega arith in
          let m = is_of-some ip (text_at s k) mine in
          rw (xalloc, found, z) (counted ip s shared inside used few k h m (small k m))
      | inl (none_found, all) ↦ elim (find_text-finds is_free 0 s.text) [
        | inl (full, taken) ↦ rw (xalloc, none_found, full) (refl, λ k h. (taken k h, all k h))
        | inr (k, found, h, free) ↦
            let z : 0 + k ≡ k = omega arith in
            rw (xalloc, none_found, found, z)
              (attached ip s shared inside used few k h (is_free-none (text_at s k) free)
                (λ l a. is_of_other ip (text_at s l) (all l (text_inside s l ip a)) a))
      ]
    ]
