-- ===== src/Bundle.antt =====
-- cr.c: the start and the end of coroutines, and bundles, on the scheduler of Sched.
-- A bundle is its address. A stack is known by the coroutine on it.
pub mod Ending
pub mod Tests
use libdill.Base.{
  ℕ, zero, suc, ◌+◌, Bool, true, false, ◌&&◌, ◌||◌, not, Option, none, some, List, [], ◌∷◌, ◌++◌,
  ◌==◌, if◌then◌else◌, Errno, ecanceled, etimedout, Result, ok, err,
}
use libdill.Sched.{
  World, Cr, Kind, plain, canblock, put_cr, resume, cancel, trigger, waitfor, timer,
}

-- The bundles with their coroutines and `waiter`, which is a clause given by coroutine and id, and the
-- fields of `struct dill_cr` that only this file's functions use.
pub record Bundles : Type 0 where
  pub world : World
  pub members : ℕ → List ℕ
  pub waiter : ℕ → Option (ℕ × ℕ)
  pub bundle_of : ℕ → ℕ
  pub closer : ℕ → Option ℕ
  pub done : ℕ → Bool

abbrev pub erase : ℕ → List ℕ → List ℕ
erase c [] = []
erase c (x ∷ xs) = if x == c then erase c xs else x ∷ erase c xs

-- `dill_list_oneitem` of the bundle's list.
abbrev pub is_single : List ℕ → Bool
is_single [] = false
is_single (x ∷ []) = true
is_single (x ∷ _ ∷ _) = false

abbrev fresh : Cr
fresh = record {
  clauses = [];
  id = none;
  errno = none;
  queued = false;
  no_blocking1 = false;
  no_blocking2 = false;
}

-- The new coroutine `c` runs in the bundle `b`, and its parent is queued.
abbrev pub launched : (b c : ℕ) → Bundles → Bundles
launched b c s = record s {
  world = record (resume s.world.r (some 0) none (put_cr c fresh s.world)) { r = c };
  members = λ j. if j == b then s.members b ++ c ∷ [] else s.members j;
  bundle_of = λ j. if j == c then b else s.bundle_of j;
  closer = λ j. if j == c then none else s.closer j;
  done = λ j. if j == c then false else s.done j;
}

-- A call that returns or goes on to `dill_wait`.
pub data Call : Type 0 where
  returns : Result ℕ → Call
  waits : Call

module _ (hquery : ℕ → Result ℕ) where
  -- `dill_prologue`. With no bundle given, `make` is what `dill_bundle` gives; it is closed again on an
  -- error. `stack` is the coroutine that the new stack has room for, or the error.
  unfoldable pub prologue : (make stack : Result ℕ) (bndl : Option ℕ) → Bundles → Result ℕ × Bundles
  unfolding canblock
  prologue make stack bndl s = elim (canblock s.world) as (λ _. Result ℕ × Bundles) [
    | err e ↦ (err ecanceled, s)
    | ok _ ↦
        elim (elim bndl as (λ _. Result ℕ) [ none ↦ make | some h ↦ ok h ])
          as (λ _. Result ℕ × Bundles) [
            | err e ↦ (err e, s)
            | ok h ↦ elim (hquery h) as (λ _. Result ℕ × Bundles) [
              | err e ↦ (err e, s)
              | ok b ↦ elim stack as (λ _. Result ℕ × Bundles) [
                | err e ↦ (err e, s)
                | ok c ↦
                    (elim bndl as (λ _. Result ℕ) [ none ↦ ok h | some _ ↦ ok 0 ], launched b c s)
              ]
            ]
          ]
  ]

  -- `dill_bundle_wait` up to `dill_wait`.
  unfoldable pub bundle_wait : (h : ℕ) → Option ℕ → Bundles → Call × Bundles
  unfolding canblock
  bundle_wait h deadline s = elim (canblock s.world) as (λ _. Call × Bundles) [
    | err e ↦ (returns (err e), s)
    | ok _ ↦ elim (hquery h) as (λ _. Call × Bundles) [
      | err e ↦ (returns (err e), s)
      | ok b ↦ elim (s.members b) as (λ _. Call × Bundles) [
        | [] ↦ (returns (ok 0), s)
        | _ ∷ _ ↦ (
          waits,
          record s {
            waiter = λ j. if j == b then some (s.world.r, 0) else s.waiter j;
            world = timer 1 deadline (waitfor 0 plain s.world);
          },
        )
      ]
    ]
  ]

-- What `dill_bundle_wait` returns when `dill_wait` gives `id` and `errno`.
unfoldable pub bundle_resumed : Option ℕ × Option Errno → Result ℕ
bundle_resumed (none, none) = err ecanceled
bundle_resumed (none, some e) = err e
bundle_resumed (some i, e) = if i == 1 then err etimedout else ok 0

abbrev pub with_world : Bundles → Option World → Option Bundles
with_world s none = none
with_world s (some w) = some (record s { world = w })

-- The waiter of the bundle `b`, if there is one, is triggered.
abbrev pub wake_waiter : ℕ → Bundles → Option Bundles
wake_waiter b s = elim (s.waiter b) as (λ _. Option Bundles) [
  | none ↦ some s
  | some (c, i) ↦ with_world s (trigger c i none s.world)
]

-- The part of `dill_epilogue` for a coroutine that is not being closed.
unfoldable pub leave : ℕ → Bundles → Option Bundles
leave c s =
    let b = s.bundle_of c in
    elim (if is_single (s.members b) then wake_waiter b s else some s) as (λ _. Option Bundles) [
      | none ↦ none
      | some s' ↦
          some
            (record s' { members = λ j. if j == b then erase c (s'.members b) else s'.members j })
    ]

abbrev pub no_clauses : Bundles → Option Bundles
no_clauses s = elim ((s.world.crs s.world.r).clauses) as (λ _. Option Bundles) [
  | [] ↦ some s
  | _ ∷ _ ↦ none
]

-- The assertion that the coroutine has no clauses is checked last.
-- `dill_epilogue` up to `dill_wait`.
unfoldable pub epilogue : Bundles → Option Bundles
epilogue s =
    let c = s.world.r in
    let s1 = record s { done = λ j. if j == c then true else s.done j } in
    let s2 = elim (s.closer c) as (λ _. Option Bundles) [
      | none ↦ some s1
      | some k ↦ with_world s1 (cancel k none s.world)
    ] in
    elim s2 as (λ _. Option Bundles) [
      | none ↦ none
      | some s3 ↦
          elim (if (s.world.crs c).no_blocking1 then some s3 else leave c s3)
            as (λ _. Option Bundles) [ none ↦ none | some s4 ↦ no_clauses s4 ]
    ]

-- `dill_cr_close` of the coroutine `k` up to `dill_wait`; whether it waits.
unfoldable pub cr_close : ℕ → Bundles → Option (Bool × Bundles)
cr_close k s =
    let w = put_cr k (record (s.world.crs k) { no_blocking1 = true }) s.world in
    let woken : Option World = if (w.crs k).queued then some w else cancel k (some ecanceled) w in
    if s.done k then some (false, s) else elim woken as (λ _. Option (Bool × Bundles)) [
      | none ↦ none
      | some w' ↦
          some
            (true, record s { world = w'; closer = λ j. if j == k then some w'.r else s.closer j })
    ]
