-- ===== src/Text/Tests.antt =====
-- A table of two texts, one of them free: runs and the theorems at it.
use unix_v.Common.{
  ℕ, zero, suc, ◌+◌, ◌*◌, ◌≡◌, ◌≢◌, refl, ◌∙◌, sym, Option, none, some, [], ◌∷◌, true, false, arith,
}
use unix_v.Alloc.{Volume}
use unix_v.Inodes.{no_node, no_entry, entry_at}
use unix_v.Inodes.Table.{IsTable}
use unix_v.Text.{
  Texts, no_text, text_at, find_text, attach, xalloc, xfree, xlock_text, xunlock, has_lock, Xlock,
  sleeps,
}
use unix_v.Text.Find.{IsShared, IsHeld}
use unix_v.Text.Xalloc.{XallocOutcome, xalloc-XallocOutcome}
use unix_v.Text.RoundTrip.{IsRestored, xfree-xalloc}

abbrev no_volume : Volume
no_volume = record {
  fs = record {
    isize = 0;
    fsize = 0;
    nfree = 0;
    free = λ _. 0;
    ninode = 0;
    inode = λ _. 0;
    flock = false;
    ilock = false;
    fmod = false;
  };
  block = λ _ _. 0;
}

-- inode 5 runs, inode 7 is open
abbrev some_texts : Texts
some_texts = record {
  text = record no_text { iptr = some 0; count = 2 } ∷ no_text ∷ [];
  store = record {
    inode =
        record no_entry { dev = 1; number = 5; count = 2; itext = true }
        ∷ record no_entry { dev = 1; number = 7; count = 1; node = record no_node { nlink = 1 } }
        ∷ [];
    disk = λ _ _. no_node;
    volume = λ _. no_volume;
    ronly = λ _. false;
    mounts = [];
    woken = [];
  };
  woken = [];
}

abbrev count_given : Option ℕ × Texts → ℕ
count_given (none, s) = 100
count_given (some k, s) = 10 * k + (text_at s k).count

abbrev state_given : Option ℕ × Texts → Texts
state_given (_, s) = s

run_xalloc-again : count_given (xalloc 0 some_texts) ≡ 3
unfolding xalloc find_text
run_xalloc-again = refl

run_xalloc-new : count_given (xalloc 1 some_texts) ≡ 11
unfolding xalloc find_text attach
run_xalloc-new = refl

abbrev want_of : Xlock → ℕ
want_of (has_lock s) = 1
want_of (sleeps s) = 2

abbrev state_of : Xlock → Texts
state_of (has_lock s) = s
state_of (sleeps s) = s

run_xlock-twice : want_of (xlock_text (some 0) (state_of (xlock_text (some 0) some_texts))) ≡ 2
unfolding xlock_text
run_xlock-twice = refl

run_xunlock :
    want_of (xlock_text (some 0) (xunlock (some 0) (state_of (xlock_text (some 0) some_texts)))) ≡ 1
unfolding xlock_text xunlock
run_xunlock = refl

first_text : (k i : ℕ) → (text_at some_texts k).iptr ≡ some i → (k ≡ 0) × (i ≡ 0)
first_text zero i h = (refl, ground (arith, h))
first_text (suc zero) i h = ground (arith, h)
first_text (suc (suc k)) i h = ground (arith, h)

some_texts-IsShared : IsShared some_texts
unfolding IsShared IsHeld
some_texts-IsShared = (
  λ k l i a b. (first_text k i a).0 ∙ sym (first_text l i b).0,
  λ k i a. ground (arith, first_text k i a),
)

one_entry :
    (i j : ℕ)
    → (entry_at some_texts.store i).count ≢ 0
    → (entry_at some_texts.store j).count ≢ 0
    → (entry_at some_texts.store i).dev ≡ (entry_at some_texts.store j).dev
    → (entry_at some_texts.store i).number ≡ (entry_at some_texts.store j).number
    → i ≡ j
one_entry zero zero a b c d = refl
one_entry zero (suc zero) a b c d = ground (arith, d)
one_entry (suc zero) zero a b c d = ground (arith, d)
one_entry (suc zero) (suc zero) a b c d = refl
one_entry (suc (suc i)) j a b c d = absurd (a refl)
one_entry zero (suc (suc i)) a b c d = absurd (b refl)
one_entry (suc zero) (suc (suc i)) a b c d = absurd (b refl)

free_number :
    (i : ℕ) → (entry_at some_texts.store i).count ≡ 0 → (entry_at some_texts.store i).number ≡ 0
free_number zero h = ground (arith, h)
free_number (suc zero) h = ground (arith, h)
free_number (suc (suc i)) h = refl

not_mounted : (i : ℕ) → (entry_at some_texts.store i).imount ≡ false
not_mounted zero = refl
not_mounted (suc zero) = refl
not_mounted (suc (suc i)) = refl

some_texts-IsTable : IsTable some_texts.store
unfolding IsTable
some_texts-IsTable = (one_entry, free_number, not_mounted)

xalloc-XallocOutcome_example : XallocOutcome 1 some_texts (xalloc 1 some_texts)
xalloc-XallocOutcome_example =
    xalloc-XallocOutcome 1 some_texts some_texts-IsShared (omega arith) (omega arith) (omega arith)
      (λ k a. ground (arith, first_text k 1 a))

some_allocated : xalloc 1 some_texts ≡ (some 1, state_given (xalloc 1 some_texts))
unfolding xalloc find_text attach
some_allocated = refl

xfree-xalloc_example :
    (t : Texts) × (xfree (some 1) (state_given (xalloc 1 some_texts)) ≡ some t)
    × IsRestored some_texts t
xfree-xalloc_example =
    xfree-xalloc 1 1 some_texts (state_given (xalloc 1 some_texts)) some_texts-IsShared
      some_texts-IsTable (omega arith) (omega arith) (omega arith)
      (λ k a. ground (arith, first_text k 1 a)) some_allocated
