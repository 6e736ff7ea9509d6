-- ===== src/Queue/Tests.antt =====
-- qlist.h on a few nodes.
use libdill.Base.{◌≡◌, true, [], ◌∷◌, arith}
use libdill.Queue.{Qlist, qlist_init, qlist_empty}
use libdill.Queue.Fifo.{pop_all, push_all, pop_all-push_all}

abbrev memory : Qlist
memory = record { next = λ j. 0; last = 0 }

pop_all-push_all_example :
    let (popped, left) =
      pop_all 9 (4 ∷ 2 ∷ 7 ∷ []) (push_all 9 (4 ∷ 2 ∷ 7 ∷ []) (qlist_init 9 memory)) in
    (popped ≡ 4 ∷ 2 ∷ 7 ∷ []) × (qlist_empty 9 left ≡ true)
pop_all-push_all_example = pop_all-push_all 9 memory (4 ∷ 2 ∷ 7 ∷ []) (
  (λ e. omega (arith, e), (λ e. omega (arith, e), (λ e. omega (arith, e), tt))),
  ((λ e. omega (arith, e), (λ e. omega (arith, e), tt)), ((λ e. omega (arith, e), tt), (tt, tt))),
)
