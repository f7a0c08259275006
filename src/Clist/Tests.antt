-- ===== src/Clist/Tests.antt =====
-- The pool after `cinit` with `cfree` at 4096: runs and the theorems at it.
use unix_v.Common.{ℕ, ◌≡◌, refl, none, some, Option, List, [], ◌∷◌, arith, replicate}
use unix_v.Clist.{
  Cblocks, Clist, empty_clist, getc, putc, c_next, set_next, cinit_from, cinit_blocks,
}
use unix_v.Clist.Fifo.{IsBytes, put_list, get_list, get_list-put_list}
use unix_v.Clist.Leak.{echoed, putc-echoed}

-- two blocks, at 4108 and 4096
abbrev pool : Cblocks
pool = cinit_from 4096 2 0 (record { byte = λ _. 0; cfreelist = 0 })

run_cinit_from : pool.cfreelist ≡ 4108
unfolding cinit_from
run_cinit_from = refl

abbrev text_back : Option (Clist × Cblocks) → List ℕ
text_back none = []
text_back (some (p, m)) = get_list 9 p m

run_get_list : text_back (put_list (65 ∷ 66 ∷ 67 ∷ []) empty_clist pool) ≡ 65 ∷ 66 ∷ 67 ∷ []
unfolding cinit_from put_list get_list putc getc c_next set_next
run_get_list = refl

-- The block at 4108 holds 8 bytes, two of them behind `info`; then its first characters give way to
-- the link.
run_get_list-overrun :
    text_back (
      put_list
        (65 ∷ 66 ∷ 67 ∷ 68 ∷ 69 ∷ 70 ∷ 71 ∷ 72 ∷ 73 ∷ [])
        empty_clist
        (cinit_from 4096 4 0 (record { byte = λ _. 0; cfreelist = 0 })))
    ≡ 24 ∷ 16 ∷ 0 ∷ 0 ∷ 69 ∷ 70 ∷ 71 ∷ 72 ∷ 73 ∷ []
unfolding cinit_from put_list get_list putc getc c_next set_next
run_get_list-overrun = refl

get_list-put_list_example :
    (p : Clist) × (m' : Cblocks) × (put_list (65 ∷ 66 ∷ 67 ∷ []) empty_clist pool ≡ some (p, m'))
    × (get_list 3 p m' ≡ 65 ∷ 66 ∷ 67 ∷ [])
unfolding cinit_from c_next set_next IsBytes
get_list-put_list_example =
    get_list-put_list (65 ∷ 66 ∷ 67 ∷ []) pool (omega arith, (omega arith, (omega arith, tt)))
      (omega arith) (omega arith) (omega arith) (omega arith)

putc-echoed_example :
    putc 65 empty_clist
      (echoed (replicate 100 97) (cinit_blocks 4096 (record { byte = λ _. 0; cfreelist = 0 })))
    ≡ none
putc-echoed_example =
    putc-echoed 4096 (record { byte = λ _. 0; cfreelist = 0 }) (replicate 100 97) 65 empty_clist
      (omega arith) (omega arith) (omega arith)
