-- ===== src/Pipe/Queue.antt =====
-- The queue of the bytes in a pipe of kernel/pipe.c, and `readp`.
use Prim.Native.Nat.{min}
use unix_v.Common.{
  ℕ, zero, suc, ◌+◌, ◌-◌, ◌≤◌, ◌<◌, ◌≡◌, ◌≢◌, refl, sym, ap, ◌∙◌, arith, Bool, true, false, ◌&&◌,
  ◌||◌, List, [], ◌∷◌, ◌++◌, ltb, ◌==◌, if◌then◌else◌, length, take, drop, take-append-drop,
  length-take, length-drop,
}
use unix_v.Pipe.{
  Pipe, Chan, read_chan, write_chan, lock_chan, pipsiz, prele, ReadEnd, read_bytes, read_nothing,
  read_again, read_sleeps, read_waits, reset, readp_empty, readp_some, readp_locked, readp,
}

-- the bytes that have been written and not read
unfoldable pub queue : Pipe → List ℕ
queue p = drop p.head p.bytes

-- A pipe between calls: the offset lies in the file, which is no longer than PIPSIZ, and it is not
-- locked.
unfoldable pub IsPipe : Pipe → Type 0
IsPipe p = (p.head ≤ length p.bytes) × (length p.bytes ≤ pipsiz) × (p.ilock ≡ false)

pub drop-past : (l : List ℕ) (n : ℕ) → length l ≤ n → drop n l ≡ []
drop-past [] zero h = refl
drop-past [] (suc n) h = refl
drop-past (x ∷ l) zero h = ground (arith, h)
drop-past (x ∷ l) (suc n) h = drop-past l n (omega arith)

pub drop-drop : (l : List ℕ) (n k : ℕ) → drop k (drop n l) ≡ drop (n + k) l
drop-drop l zero k = ground arith
drop-drop [] (suc n) k = drop-past [] k (omega arith) ∙ sym (drop-past [] (suc n + k) (omega arith))
drop-drop (x ∷ l) (suc n) k =
    let e : suc (n + k) ≡ suc n + k = omega arith in drop-drop l n k ∙ ap (λ m. drop m (x ∷ l)) e

pub drop-append : (l m : List ℕ) (n : ℕ) → n ≤ length l → drop n (l ++ m) ≡ drop n l ++ m
drop-append l m zero h = refl
drop-append [] m (suc n) h = absurd (omega arith)
drop-append (x ∷ l) m (suc n) h = drop-append l m n (omega arith)

-- was `wakeup` called on the channel?
abbrev pub is_chan : Chan → Chan → Bool
is_chan lock_chan lock_chan = true
is_chan write_chan write_chan = true
is_chan read_chan read_chan = true
is_chan _ _ = false

abbrev pub has : Chan → List Chan → Bool
has c [] = false
has c (d ∷ l) = is_chan c d || has c l

-- A reader has caught up: the file is empty, and the writers that want room are woken if the reader
-- had come up to here.
unfoldable pub Emptied : Pipe → Pipe → Type 0
Emptied p p' =
    (p'.bytes ≡ [])
    × (p'.head ≡ 0)
    × (p'.ilock ≡ false)
    × (p'.count ≡ p.count)
    × (p'.iwrite ≡ (p.iwrite && p.head == 0))
    × (p.iwrite ≡ true → p.head ≢ 0 → has write_chan p'.woken ≡ true)

-- What `readp` of `n` bytes may come to.
unfoldable pub ReadOutcome : (nonblock : Bool) → (n : ℕ) → Pipe → ReadEnd → Type 0
ReadOutcome nonblock n p (read_bytes l p') =
    (queue p ≢ [])
    × (length l ≡ min n (length (queue p)))
    × (queue p ≡ l ++ queue p')
    × IsPipe p'
    × (p'.bytes ≡ p.bytes)
    × (p'.iread ≡ p.iread)
    × (p'.iwrite ≡ p.iwrite)
    × (p'.count ≡ p.count)
ReadOutcome nonblock n p (read_nothing p') =
    (queue p ≡ []) × (p.count < 2) × (p'.iread ≡ p.iread) × Emptied p p'
ReadOutcome nonblock n p (read_again p') =
    (queue p ≡ []) × (2 ≤ p.count) × (nonblock ≡ true) × (p'.iread ≡ p.iread) × Emptied p p'
ReadOutcome nonblock n p (read_sleeps p') =
    (queue p ≡ []) × (2 ≤ p.count) × (nonblock ≡ false) × (p'.iread ≡ true) × Emptied p p'
ReadOutcome nonblock n p (read_waits p') = ⊥

pub queue-prele : (p : Pipe) → queue (prele p) ≡ queue p
unfolding queue prele
queue-prele p = ground arith

module _ (nonblock : Bool) (n : ℕ) (p : Pipe) (ok : IsPipe p) where
  abbrev held : Pipe
  held = record p { ilock = true }

  empty_bytes : (l : List ℕ) → length l ≡ 0 → l ≡ []
  empty_bytes [] e = refl
  empty_bytes (x ∷ l) e = absurd (omega arith)

  reset-Emptied : p.head ≡ length p.bytes → Emptied p (prele (reset held))
  unfolding prele reset Emptied
  reset-Emptied e = (
    ground (arith, e, empty_bytes p.bytes),
    ground arith,
    ground arith,
    ground arith,
    ground arith,
    ground arith,
  )

  same_count : (reset held).count ≡ p.count
  unfolding reset
  same_count = ground arith

  same_iread : (prele (reset held)).iread ≡ p.iread
  unfolding prele reset
  same_iread = ground arith

  -- What `prele` and `reset` leave to `readp_empty`.
  empty_outcome :
      p.head ≡ length p.bytes → ReadOutcome nonblock n p (readp_empty nonblock (reset held))
  unfolding readp_empty ReadOutcome Emptied queue
  empty_outcome e = by_end (ltb (reset held).count 2) nonblock refl refl
    where
      none_left : drop p.head p.bytes ≡ []
      none_left = drop-past p.bytes p.head (omega arith)

      by_end :
          (few again : Bool)
          → ltb (reset held).count 2 ≡ few
          → nonblock ≡ again
          → ReadOutcome nonblock n p (
              if few
              then read_nothing (prele (reset held))
              else if again
              then read_again (prele (reset held))
              else read_sleeps (record (prele (reset held)) { iread = true }))
      by_end true again f a =
          (none_left, ground (arith, f, same_count), same_iread, reset-Emptied e)
      by_end false true f a =
          (none_left, ground (arith, f, same_count), a, same_iread, reset-Emptied e)
      by_end false false f a = (none_left, ground (arith, f, same_count), a, refl, reset-Emptied e)

  some_outcome : p.head ≢ length p.bytes → ReadOutcome nonblock n p (readp_some n held)
  unfolding readp_some ReadOutcome queue IsPipe prele
  some_outcome ne =
      let k = min n (length p.bytes - p.head) in
      let len = length-drop p.head p.bytes in
      (
        λ e. ground (arith, ok.0, len, e),
        ground (arith, length-take k (drop p.head p.bytes), len),
        sym (take-append-drop k (drop p.head p.bytes))
            ∙ ap (λ m. take k (drop p.head p.bytes) ++ m)
                (drop-drop p.bytes p.head k
                  ∙ sym (queue-prele (record held { head = p.head + k }))),
        (ground (arith, ok.0), ground (arith, ok.1), ground arith),
        ground arith,
        ground arith,
        ground arith,
        ground arith,
      )

  -- readp from a pipe between calls: it takes bytes from the front of the queue, as many as it is
  -- asked for or all there are; or the queue is empty, and then it returns none if the other end
  -- is closed, fails with EAGAIN if it may not block, and sleeps otherwise, and wakes the writers
  -- that wait for room.
  pub readp-Outcome : ReadOutcome nonblock n p (readp nonblock n p)
  unfolding readp readp_locked ReadOutcome IsPipe
  readp-Outcome = unlocked p.ilock ok.2 (by_queue (p.head == length p.bytes) refl)
    where
      unlocked :
          (b : Bool)
          → b ≡ false
          → ReadOutcome nonblock n p (readp_locked nonblock n held)
          → ReadOutcome nonblock n p
              (if b then read_waits (record p { iwant = true }) else readp_locked nonblock n held)
      unlocked false e r = r
      unlocked true e r = ground (arith, e)

      by_queue :
          (b : Bool)
          → p.head == length p.bytes ≡ b
          → ReadOutcome nonblock n p
              (if b then readp_empty nonblock (reset held) else readp_some n held)
      by_queue true e = empty_outcome (ground (arith, e))
      by_queue false e = some_outcome (ground (arith, e))
