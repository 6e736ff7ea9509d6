-- ===== src/Chan/Choose.antt =====
-- chan.c
-- `dill_choose`: the first clause that can go on does, or the caller waits on all of them.
use libdill.Base.{
  ℕ, suc, ◌&&◌, not, Option, none, some, List, [], ◌∷◌, length, ◌==◌, ltb, if◌then◌else◌, Errno,
  einval, emsgsize, epipe, etimedout, Result, ok, err,
}
use libdill.Sched.{Waiter, canblock, timer}
use libdill.Sched.Blocking.{wait_in}
use libdill.Chan.{Chans, wake, memcpy, in_of, out_of, other, no_wait}

-- `DILL_CHSEND`, `DILL_CHRECV` and any other number.
pub data Op : Type 0 where
  chsend_op chrecv_op unknown : Op

-- `struct chclause`; NULL is the address 0.
pub record ChClause : Type 0 where
  pub op : Op
  pub ch : ℕ
  pub val : ℕ
  pub len : ℕ

-- The index that is returned with `errno`, -1 with `errno`, or the call waits.
pub data Choice : Type 0 where
  picks : ℕ → Option Errno → Choice
  refuses : Errno → Choice
  suspends : Choice

abbrev pub Chosen : Type 0
Chosen = Option (Choice × Chans)

abbrev pub after : Choice → Option Chans → Chosen
after c none = none
after c (some s) = some (c, s)

-- A clause that meets the first waiter `x`; `to` and `from` are the buffers of the message.
unfoldable pub meet : (i len to from : ℕ) → Waiter → Chans → Chosen
meet i len to from x s =
    if not (len == x.len)
    then after (picks i (some emsgsize)) (wake x (some emsgsize) s)
    else after (picks i none) (wake x none (memcpy to from len s))

module _ (hquery : ℕ → Result ℕ) where
  -- The loop over the clauses; `none` at the end when all would have to wait.
  unfoldable pub attempt : (i : ℕ) → List ChClause → Chans → Option Chosen
  unfolding meet
  attempt i [] s = none
  attempt i (cl ∷ cls) s =
      let rest = attempt (suc i) cls s in
      elim (hquery cl.ch) as (λ _. Option Chosen) [
        | err e ↦ some (some (picks i (some e), s))
        | ok ch ↦
            if ltb 0 cl.len && cl.val == 0
            then some (some (picks i (some einval), s))
            else (elim (cl.op) as (λ _. Option Chosen) [
              | unknown ↦ some (some (picks i (some einval), s))
              | chsend_op ↦
                  if (s.halves (other s ch)).done
                  then some (some (picks i (some epipe), s))
                  else elim (s.world.lists (in_of (other s ch))) as (λ _. Option Chosen) [
                    | [] ↦ rest
                    | x ∷ _ ↦ some (meet i cl.len x.val cl.val x s)
                  ]
              | chrecv_op ↦
                  if (s.halves ch).done
                  then some (some (picks i (some epipe), s))
                  else elim (s.world.lists (out_of ch)) as (λ _. Option Chosen) [
                    | [] ↦ rest
                    | x ∷ _ ↦ some (meet i cl.len cl.val x.val x s)
                  ]
            ])
      ]

  -- The list that a clause waits in.
  abbrev pub waits_in : Op → ℕ → Chans → ℕ
  waits_in chrecv_op ch s = in_of ch
  waits_in chsend_op ch s = out_of (other s ch)
  waits_in unknown ch s = out_of (other s ch)

  -- The loop that adds a waiter for each clause.
  unfoldable pub wait_for_all : (i : ℕ) → List ChClause → Chans → Option Chans
  wait_for_all i [] s = some s
  wait_for_all i (cl ∷ cls) s = elim (hquery cl.ch) as (λ _. Option Chans) [
    | err e ↦ none
    | ok ch ↦
        wait_for_all (suc i) cls
          (record s { world = wait_in (waits_in cl.op ch s) i cl.val cl.len s.world })
  ]

  unfoldable pub choose : (clauses : List ChClause) → Option ℕ → Chans → Chosen
  unfolding canblock attempt wait_for_all
  choose clauses deadline s = elim (canblock s.world) as (λ _. Chosen) [
    | err e ↦ some (refuses e, s)
    | ok _ ↦ elim (attempt 0 clauses s) as (λ _. Chosen) [
      | some o ↦ o
      | none ↦
          if no_wait deadline
          then some (refuses etimedout, s)
          else elim (wait_for_all 0 clauses s) as (λ _. Chosen) [
            | none ↦ none
            | some s' ↦
                some (suspends, record s' { world = timer (length clauses) deadline s'.world })
          ]
    ]
  ]
