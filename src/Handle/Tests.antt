-- ===== src/Handle/Tests.antt =====
-- The handle table of handle.c at concrete inputs.
use mathlib.Core.Option.{some-injective}
use libdill.Base.{
  arith, subst, sym, ◌∙◌, ℕ, ◌≡◌, ◌≢◌, refl, ◌⊎◌, true, false, Option, none, some, if◌then◌else◌,
  Result, ok, err, Errno, ebadf, ecanceled, enotsup, ◌==◌,
}
use libdill.Handle.{
  Hvfs, Ctx, ctx_handle_init, slot, is_open, hmake, hclose, hown, hquery, take_first, taken, grow,
}
use libdill.Handle.Invariant.{IsValid, init-IsValid}
use libdill.Handle.Make.{Made, Refused, hmake_outcome, take_grown-Made}
use libdill.Handle.Close.{closes_below, closes_below-Keeps, Keeps, hclose_lem, hown_outcome}
use libdill.Handle.Query.{IsFresh, hquery_lem, nothing_cached-IsFresh}

abbrev socket : Hvfs
socket = record { object = 7; has_query = true; has_close = true }

abbrev start : Ctx
start = ctx_handle_init false false

-- A table of 256 handles with the handle 0 open.
abbrev handle : ℕ
handle = 0

abbrev table : Ctx
table = taken socket handle (grow start)

table-Made : Made socket start handle table
unfolding ctx_handle_init take_first grow
table-Made =
    let (h, d, e, m) = take_grown-Made socket start (init-IsValid false false) refl in
    let r : take_first socket (grow start) ≡ some (handle, table) = refl in
    subst (λ t. Made socket start t.0 t.1) (some-injective _ _ (sym e ∙ r)) m

table-IsValid : IsValid table
table-IsValid = table-Made.valid

-- A `close` that does nothing to the table.
abbrev leave : Option Hvfs → Ctx → Ctx
leave o c = c

leave-Keeps : (h : ℕ) → Keeps leave h
leave-Keeps h o c v open_h flag = (v, open_h, refl)

-- A `close` that closes the handle below, whose number is 1.
abbrev stacked : Option Hvfs → Ctx → Ctx
stacked = closes_below leave 1

stacked-Keeps : Keeps stacked handle
stacked-Keeps =
    closes_below-Keeps leave 1 handle (λ e. absurd (ground arith)) (leave-Keeps 1)
      (leave-Keeps handle)

-- An object that answers to type 1 with the pointer 40.
abbrev answers : Option Hvfs → ℕ → Result ℕ
answers o t = if t == 1 then ok 40 else err enotsup

first_is_zero :
    elim (hmake true (some socket) start) as (λ _. Option ℕ) [
      | some (ok h, c) ↦ some h
      | some (err e, c) ↦ none
      | none ↦ none
    ]
    ≡ some 0
unfolding hmake ctx_handle_init
first_is_zero = refl

blocked :
    hmake true (some socket) (ctx_handle_init false true)
    ≡ some (err ecanceled, ctx_handle_init false true)
unfolding hmake ctx_handle_init
blocked = refl

hmake_outcome_example :
    ((o : Hvfs) × (h : ℕ) × (d : Ctx) × (some socket ≡ some o)
      × (hmake true (some socket) table ≡ some (ok h, d))
      × Made o table h d)
    ⊎ ((e : Errno) × (hmake true (some socket) table ≡ some (err e, table))
        × Refused true (some socket) table e)
hmake_outcome_example = hmake_outcome true (some socket) table table-IsValid

hclose_example :
    (d : Ctx) × (hclose stacked handle table ≡ some (ok tt, d))
    × IsValid d
    × (is_open d handle ≡ false)
    × (hclose stacked handle d ≡ some (err ebadf, d))
    × (d.no_blocking2 ≡ table.no_blocking2)
    × (d.nhandles ≡ table.nhandles)
    × ((j : ℕ)
        → j ≢ handle
        → is_open d j
          ≡ is_open
              (stacked (slot table.handles handle).vfs (record table { no_blocking2 = true }))
              j)
hclose_example = hclose_lem stacked handle table table-IsValid table-Made.is_new stacked-Keeps

hown_example :
    (r : Result ℕ) × (d : Ctx) × (hown leave true handle table ≡ some (r, d))
    × IsValid d
    × (is_open d handle ≡ false)
    × ((n : ℕ)
        → r ≡ ok n
        → (is_open table n ≡ false)
          × (is_open d n ≡ true)
          × ((slot d.handles n).vfs ≡ (slot table.handles handle).vfs))
hown_example =
    hown_outcome leave true handle table table-IsValid table-Made.is_new (leave-Keeps handle)

table-IsFresh : IsFresh answers table
unfolding ctx_handle_init grow taken
table-IsFresh = nothing_cached-IsFresh answers table refl

hquery_example :
    let (r, d) = hquery answers handle 1 table in
    (r ≡ (if is_open table handle then answers (slot table.handles handle).vfs 1 else err ebadf))
    × IsValid d
    × IsFresh answers d
    × ((j : ℕ) → is_open d j ≡ is_open table j)
hquery_example = hquery_lem answers handle 1 table table-IsValid table-IsFresh
