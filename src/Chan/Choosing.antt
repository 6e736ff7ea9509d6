-- ===== src/Chan/Choosing.antt =====
-- chan.c
-- `dill_choose` meets no failed assertion, and passes over no clause that could go on.
use libdill.Base.{
  All, ℕ, suc, ◌≡◌, refl, sym, subst, Bool, false, ◌&&◌, not, Option, none, some, List, [], ◌∷◌,
  length, Bool-cases, List-cases, Result-cases, Option-cases, inl, inr, ◌⊎◌, ◌==◌, ltb,
  if◌then◌else◌, arith, Errno, einval, emsgsize, epipe, etimedout, Result, ok,
}
use libdill.Sched.{Waiter, in_list, canblock, timer}
use libdill.Sched.Invariant.{Sound, Placed}
use libdill.Sched.Blocking.{wait_in, wait_in-Sound, waitfor-queued, timer-Sound}
use libdill.Chan.{Chans, memcpy, in_of, out_of, other, no_wait}
use libdill.Chan.Safety.{wake-some, first-Placed}
use libdill.Chan.Choose.{
  Op, chsend_op, chrecv_op, unknown, ChClause, Choice, Chosen, picks, refuses, suspends, meet,
  attempt, waits_in, wait_for_all, choose,
}

abbrev Fine : Chosen → Type 0
Fine none = ⊥
Fine (some (c, s)) = Sound s.world × (c ≡ suspends → ⊥)

picks-suspends : (i : ℕ) (e : Option Errno) → picks i e ≡ suspends → ⊥
picks-suspends i e h = ground arith

refuses-suspends : (e : Errno) → refuses e ≡ suspends → ⊥
refuses-suspends e h = ground arith

meet-Fine :
    (i len to from : ℕ) (x : Waiter) (p : ℕ) (s : Chans)
    → Sound s.world
    → Placed s.world p x
    → Fine (meet i len to from x s)
unfolding meet
meet-Fine i len to from x p s h placed = elim (Bool-cases (not (len == x.len))) [
  | inl e ↦
      let (woken, sound) = wake-some x p (some emsgsize) s h placed in
      rw (meet, e, woken) (sound, picks-suspends i (some emsgsize))
  | inr e ↦
      let (woken, sound) = wake-some x p none (memcpy to from len s) h placed in
      rw (meet, e, woken) (sound, picks-suspends i none)
]

-- A clause that would have to wait: its channel is open, and nobody waits on the other side.
abbrev pub Waits : (ℕ → Result ℕ) → Chans → ChClause → Type 0
Waits hquery s cl =
    (ch : ℕ) × (hquery cl.ch ≡ ok ch)
    × (((cl.op ≡ chsend_op)
          × ((s.halves (other s ch)).done ≡ false)
          × (s.world.lists (in_of (other s ch)) ≡ []))
        ⊎ ((cl.op ≡ chrecv_op) × ((s.halves ch).done ≡ false) × (s.world.lists (out_of ch) ≡ [])))

fine :
    (o : Chosen)
    → Fine o
    → (c : Choice) × (s' : Chans) × (o ≡ some (c, s')) × Sound s'.world × (c ≡ suspends → ⊥)
fine none h = absurd h
fine (some (c, s')) h = (c, s', refl, h.0, h.1)

-- What the loop over the clauses finds.
abbrev Tried : (ℕ → Result ℕ) → List ChClause → Chans → Option Chosen → Type 0
Tried hquery cls s none = All (Waits hquery s) cls
Tried hquery cls s (some o) = Fine o

Op-cases : (o : Op) → (o ≡ unknown) ⊎ ((o ≡ chsend_op) ⊎ (o ≡ chrecv_op))
Op-cases unknown = inl refl
Op-cases chsend_op = inr (inl refl)
Op-cases chrecv_op = inr (inr refl)

Tried-more :
    (hquery : ℕ → Result ℕ) (cl : ChClause) (cls : List ChClause) (s : Chans) (o : Option Chosen)
    → Waits hquery s cl
    → Tried hquery cls s o
    → Tried hquery (cl ∷ cls) s o
Tried-more hquery cl cls s none h k = (h, k)
Tried-more hquery cl cls s (some o) h k = k

-- One side of a channel: its flag, its list, and what a waiter there leads to.
module _ (hquery : ℕ → Result ℕ) (cl : ChClause) (cls : List ChClause) (s : Chans) (i p : ℕ)
    (done : Bool) (to from : Waiter → ℕ) (rest : Option Chosen) where
  abbrev side : Option Chosen
  side =
      if done
      then some (some (picks i (some epipe), s))
      else elim (s.world.lists p) as (λ _. Option Chosen) [
        | [] ↦ rest
        | x ∷ _ ↦ some (meet i cl.len (to x) (from x) x s)
      ]

  side-Tried :
      Sound s.world
      → (done ≡ false → s.world.lists p ≡ [] → Waits hquery s cl)
      → Tried hquery cls s rest
      → Tried hquery (cl ∷ cls) s side
  side-Tried h w k = elim (Bool-cases done) [
    | inl d ↦ rw d (h, picks-suspends i (some epipe))
    | inr d ↦ elim (List-cases (s.world.lists p)) [
      | inl l ↦ rw (d, l) (Tried-more hquery cl cls s rest (w d l) k)
      | inr (x, xs, l) ↦
          rw (d, l) (meet-Fine i cl.len (to x) (from x) x p s h (first-Placed s.world p x xs h l))
    ]
  ]

attempt-Tried :
    (hquery : ℕ → Result ℕ) (i : ℕ) (cls : List ChClause) (s : Chans)
    → Sound s.world
    → Tried hquery cls s (attempt hquery i cls s)
unfolding attempt
attempt-Tried hquery i [] s h = tt
attempt-Tried hquery i (cl ∷ cls) s h =
    let more = attempt-Tried hquery (suc i) cls s h in
    elim (Result-cases (hquery cl.ch)) [
      | inl (e, q) ↦ rw (attempt, q) (h, picks-suspends i (some e))
      | inr (ch, q) ↦ elim (Bool-cases (ltb 0 cl.len && cl.val == 0)) [
        | inl b ↦ rw (attempt, q, b) (h, picks-suspends i (some einval))
        | inr b ↦ elim (Op-cases cl.op) [
          | inl o ↦ rw (attempt, q, b, o) (h, picks-suspends i (some einval))
          | inr (inl o) ↦
              let rest = attempt hquery (suc i) cls s in
              let b' : Bool = (s.halves (other s ch)).done in
              let step : attempt hquery i (cl ∷ cls) s
                  ≡ side hquery cl cls s i (in_of (other s ch)) b' (λ x. x.val) (λ x. cl.val) rest =
                simp (attempt, q, b, o) in
              subst (Tried hquery (cl ∷ cls) s) (sym step) (
                side-Tried hquery cl cls s i (in_of (other s ch)) b' (λ x. x.val) (λ x. cl.val) rest
                  h (λ d l. (ch, q, inl (o, d, l))) more)
          | inr (inr o) ↦
              let rest = attempt hquery (suc i) cls s in
              let b' : Bool = (s.halves ch).done in
              let step : attempt hquery i (cl ∷ cls) s
                  ≡ side hquery cl cls s i (out_of ch) b' (λ x. cl.val) (λ x. x.val) rest =
                simp (attempt, q, b, o) in
              subst (Tried hquery (cl ∷ cls) s) (sym step) (
                side-Tried hquery cl cls s i (out_of ch) b' (λ x. cl.val) (λ x. x.val) rest h
                  (λ d l. (ch, q, inr (o, d, l))) more)
        ]
      ]
    ]

-- The loop that adds the waiters: no query fails.
wait_for_all-Sound :
    (hquery : ℕ → Result ℕ) (i : ℕ) (cls : List ChClause) (s s0 : Chans)
    → Sound s.world
    → (s.world.crs s.world.r).queued ≡ false
    → All (Waits hquery s0) cls
    → (s' : Chans) × (wait_for_all hquery i cls s ≡ some s')
      × Sound s'.world
      × ((s'.world.crs s'.world.r).queued ≡ false)
unfolding wait_for_all
wait_for_all-Sound hquery i [] s s0 h q k = (s, refl, h, q)
wait_for_all-Sound hquery i (cl ∷ cls) s s0 h q ((ch, found, _), k) =
    let p : ℕ = waits_in hquery cl.op ch s in
    let (s', ran, sound, run) =
      wait_for_all-Sound hquery (suc i) cls (record s { world = wait_in p i cl.val cl.len s.world })
        s0 (wait_in-Sound p i cl.val cl.len s.world h q) (waitfor-queued i (in_list p) s.world q)
        k in
    (s', rw (wait_for_all, found) ran, sound, run)

-- `dill_choose` of the running coroutine meets no failed assertion, also where it queries the handles
-- again, and leaves the scheduler sound; when it waits, every clause is an open channel of which nobody
-- waits on the other side.
pub choose-Sound :
    (hquery : ℕ → Result ℕ) (clauses : List ChClause) (deadline : Option ℕ) (s : Chans)
    → Sound s.world
    → (s.world.crs s.world.r).queued ≡ false
    → (c : Choice) × (s' : Chans) × (choose hquery clauses deadline s ≡ some (c, s'))
      × Sound s'.world
      × (c ≡ suspends → All (Waits hquery s) clauses)
unfolding choose
choose-Sound hquery clauses deadline s h q =
    let tried = attempt-Tried hquery 0 clauses s h in
    elim (Result-cases (canblock s.world)) [
      | inl (e, b) ↦ (refuses e, s, rw (choose, b) refl, h, λ f. absurd (refuses-suspends e f))
      | inr (_, b) ↦ elim (Option-cases (attempt hquery 0 clauses s)) [
        | inl a ↦
            let waits : All (Waits hquery s) clauses = subst (Tried hquery clauses s) a tried in
            elim (Bool-cases (no_wait deadline)) [
              | inl n ↦ (
                refuses etimedout,
                s,
                rw (choose, b, a, n) refl,
                h,
                λ f. absurd (refuses-suspends etimedout f),
              )
              | inr n ↦
                  let (s', ran, sound, run) = wait_for_all-Sound hquery 0 clauses s s h q waits in
                  (
                    suspends,
                    record s' { world = timer (length clauses) deadline s'.world },
                    rw (choose, b, a, n, ran) refl,
                    timer-Sound (length clauses) deadline s'.world sound run,
                    λ f. waits,
                  )
            ]
        | inr (o, a) ↦
            let (c, s', is, sound, unwaited) = fine o (subst (Tried hquery clauses s) a tried) in
            (c, s', rw (choose, b, a) is, sound, λ f. absurd (unwaited f))
      ]
    ]
