-- ===== src/CoreMap/Canonical.antt =====
-- Well-formed maps of kernel/malloc.c and their free units.
use unix_v.Common.{ℕ, suc, ◌+◌, ◌≤◌, ◌≡◌, refl, [], ◌∷◌, arith, sym}
use unix_v.CoreMap.{CoreMap, Entry}
use unix_v.CoreMap.Cover.{covers, IsFrom, covers-below}

module _ (d e : Entry) (ds es : CoreMap) (lo hi : ℕ) (v : IsFrom lo (d ∷ ds))
    (w : IsFrom hi (e ∷ es)) (same : (x : ℕ) → covers (d ∷ ds) x ≡ covers (e ∷ es) x) where
  addr-le : e.addr ≤ d.addr
  addr-le = ground (arith, same d.addr, covers-below (suc (e.addr + e.size)) es d.addr w.3)

  end-le : e.addr ≡ d.addr → d.addr + d.size ≤ e.addr + e.size
  end-le p =
      ground (
        arith,
        same (e.addr + e.size),
        covers-below (suc (e.addr + e.size)) es (e.addr + e.size) w.3,
      )

module _ (d e : Entry) (ds es : CoreMap) (lo hi : ℕ) (v : IsFrom lo (d ∷ ds))
    (w : IsFrom hi (e ∷ es)) (same : (x : ℕ) → covers (d ∷ ds) x ≡ covers (e ∷ es) x) where
  head-eq : (d.addr ≡ e.addr) × (d.size ≡ e.size)
  head-eq =
      let p : e.addr ≤ d.addr = addr-le d e ds es lo hi v w same in
      let q : d.addr ≤ e.addr = addr-le e d es ds hi lo w v (λ x. sym (same x)) in
      let r = end-le d e ds es lo hi v w same (omega arith) in
      let s = end-le e d es ds hi lo w v (λ x. sym (same x)) (omega arith) in omega arith

  tail-same : (x : ℕ) → covers ds x ≡ covers es x
  tail-same x = ground (
    arith,
    head-eq,
    same x,
    covers-below (suc (d.addr + d.size)) ds x v.3,
    covers-below (suc (e.addr + e.size)) es x w.3,
  )

-- Two well-formed maps with the same free units are the same map.
pub eq_of_covers :
    (m m' : CoreMap) (lo hi : ℕ)
    → IsFrom lo m
    → IsFrom hi m'
    → ((x : ℕ) → covers m x ≡ covers m' x)
    → m ≡ m'
eq_of_covers [] [] lo hi v w same = refl
eq_of_covers [] (e ∷ es) lo hi v w same = ground (arith, same e.addr)
eq_of_covers (d ∷ ds) [] lo hi v w same = ground (arith, same d.addr)
eq_of_covers (d ∷ ds) (e ∷ es) lo hi v w same = ground (
  arith,
  head-eq d e ds es lo hi v w same,
  eq_of_covers ds es (suc (d.addr + d.size)) (suc (e.addr + e.size)) v.3 w.3
      (tail-same d e ds es lo hi v w same),
)
