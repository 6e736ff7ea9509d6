-- ===== src/Handle.antt =====
-- handle.c: the table of handles and its pool of unused ones.
-- An object's virtual functions are other code: `Hvfs` names an object, and `hquery` and `hclose`
-- take what its `query` and `close` do as arguments.
pub mod Pool
pub mod Invariant
pub mod Make
pub mod Release
pub mod Close
pub mod Query
pub mod Tests
use libdill.Base.{
  ℕ, zero, suc, ◌+◌, ◌-◌, ◌*◌, Bool, true, false, ◌||◌, ◌&&◌, not, Option, none, some, List, [],
  ◌∷◌, ◌++◌, get_or, set, ltb, leb, ◌==◌, if◌then◌else◌, Errno, ebadf, ecanceled, einval, enomem,
  Result, ok, err,
}

-- `struct dill_hvfs*`: which object, and whether the two pointers that `dill_hmake` checks are set.
pub record Hvfs : Type 0 where
  pub object : ℕ
  pub has_query : Bool
  pub has_close : Bool

-- `dill_handle::next`: -1, an index, or -2.
pub data Next : Type 0 where
  end_of_list : Next
  link : ℕ → Next
  in_use : Next

-- `struct dill_handle`. `vfs` is `none` in a slot that was never used; `ptr` is `none` for NULL.
pub record Slot : Type 0 where
  pub vfs : Option Hvfs
  pub next : Next
  pub type : Option ℕ
  pub ptr : Option ℕ

-- `struct dill_ctx_handle`, with the two flags of the running coroutine that `dill_canblock` reads.
-- An index of -1 is `none`.
pub record Ctx : Type 0 where
  pub handles : List Slot
  pub nhandles : ℕ
  pub nused : ℕ
  pub first : Option ℕ
  pub last : Option ℕ
  pub no_blocking1 : Bool
  pub no_blocking2 : Bool

unfoldable pub ctx_handle_init : Bool → Bool → Ctx
ctx_handle_init b1 b2 = record {
  handles = [];
  nhandles = 0;
  nused = 0;
  first = none;
  last = none;
  no_blocking1 = b1;
  no_blocking2 = b2;
}

unfoldable pub canblock : Ctx → Result (Unit {0})
canblock c = if c.no_blocking1 || c.no_blocking2 then err ecanceled else ok tt

unfoldable pub no_blocking : Bool → Ctx → Bool × Ctx
no_blocking val c = (c.no_blocking2, record c { no_blocking2 = val })

-- What reads out of bounds finds.
abbrev pub no_slot : Slot
no_slot = record { vfs = none; next = in_use; type = none; ptr = none }

abbrev pub slot : List Slot → ℕ → Slot
slot hs h = get_or hs h no_slot

abbrev pub with_next : Slot → Next → Slot
with_next s n = record s { next = n }

abbrev pub is_used : Next → Bool
is_used in_use = true
is_used end_of_list = false
is_used (link _) = false

-- `DILL_CHECKHANDLE`, for a handle that is not negative.
abbrev pub is_open : Ctx → ℕ → Bool
is_open c h = ltb h c.nhandles && is_used (slot c.handles h).next

-- The `n` new slots from index `i` on, each linked to the one behind it.
unfoldable pub fresh_slots : ℕ → ℕ → List Slot
fresh_slots i zero = []
fresh_slots i (suc zero) = with_next no_slot end_of_list ∷ []
fresh_slots i (suc (suc n)) = with_next no_slot (link (i + 1)) ∷ fresh_slots (i + 1) (suc n)

-- The size after an expansion, and the expansion.
unfoldable pub grown_size : ℕ → ℕ
grown_size n = if n == 0 then 256 else n * 2

unfoldable pub grow_to : ℕ → Ctx → Ctx
unfolding fresh_slots
grow_to sz c = record c {
  handles = c.handles ++ fresh_slots c.nhandles (sz - c.nhandles);
  nhandles = sz;
  first = some c.nhandles;
  last = some (sz - 1);
}

unfoldable pub grow : Ctx → Ctx
unfolding grown_size grow_to
grow c = grow_to (grown_size c.nhandles) c

-- `ctx->handles[h].next` as the new `ctx->first`.
abbrev pub following : Next → Option ℕ
following end_of_list = none
following (link i) = some i
following in_use = none

-- The slot's values for a new object.
abbrev pub opened : Hvfs → Slot
opened v = record { vfs = some v; next = in_use; type = none; ptr = none }

-- The table once the unused handle `h`, the first one, is taken for a new object.
-- `dill_slow(x) == -1` compares 0 or 1 with -1, so `last` is never reset.
unfoldable pub taken : Hvfs → ℕ → Ctx → Ctx
taken v h c = record c {
  handles = set c.handles h (opened v);
  nused = c.nused + 1;
  first = following (slot c.handles h).next;
}

-- The end of `dill_hmake`. `none` is a read of `handles[-1]`.
unfoldable pub take_first : Hvfs → Ctx → Option (ℕ × Ctx)
unfolding taken
take_first v c = elim c.first [ none ↦ none | some h ↦ some (h, taken v h c) ]

abbrev pub needs_room : Ctx → Bool
needs_room c = leb (c.nhandles - c.nused) 8

-- The call's result and the new table, or `none` if memory outside the table was read.
abbrev pub Outcome : Type 0 → Type 0
Outcome A = Option (Result A × Ctx)

abbrev pub returned : Option (ℕ × Ctx) → Outcome ℕ
returned none = none
returned (some (h, c)) = some (ok h, c)

abbrev pub is_complete : Option Hvfs → Bool
is_complete none = false
is_complete (some v) = v.has_query && v.has_close

-- `dill_hmake`. `realloc_ok` is whether `realloc` gives memory.
unfoldable pub hmake : (realloc_ok : Bool) → Option Hvfs → Ctx → Outcome ℕ
unfolding canblock grow take_first
hmake realloc_ok none c = some (err einval, c)
hmake realloc_ok (some v) c =
    if not (v.has_query && v.has_close) then some (err einval, c) else elim (canblock c) [
      | err e ↦ some (err e, c)
      | ok _ ↦
          if needs_room c
          then if realloc_ok then returned (take_first v (grow c)) else some (err enomem, c)
          else returned (take_first v c)
    ]

-- The slot given back: its cached pointer is dropped, and it ends the pool.
abbrev pub freed : Slot → Slot
freed s = record s { ptr = none; next = end_of_list }

-- `ctx->handles[ctx->last].next = h`; a write to `handles[-1]` is outside the table.
abbrev pub link_last : Option ℕ → ℕ → List Slot → List Slot
link_last none h hs = hs
link_last (some l) h hs = set hs l (with_next (slot hs l) (link h))

-- The end of `dill_hown` and of `dill_hclose`: the handle goes to the end of the pool.
unfoldable pub release : ℕ → Ctx → Ctx
release h c =
    let hs = set c.handles h (freed (slot c.handles h)) in
    record c {
      handles = elim c.first [ none ↦ hs | some _ ↦ link_last c.last h hs ];
      nused = c.nused - 1;
      first = elim c.first [ none ↦ some h | some f ↦ some f ];
      last = some h;
    }

-- The end of `dill_hclose`, which writes through the pointer into the table of `n` handles that was
-- taken before the object's `close` ran. Where the table has been moved to a larger one since then,
-- that is memory outside the table.
unfoldable pub release_at : ℕ → ℕ → Ctx → Outcome (Unit {0})
release_at n h c = if c.nhandles == n then some (ok tt, release h c) else none

-- `dill_hclose`. `close` is the object's `close` function.
unfoldable pub hclose : (close : Option Hvfs → Ctx → Ctx) → ℕ → Ctx → Outcome (Unit {0})
unfolding no_blocking release_at
hclose close h c =
    if not (is_open c h)
    then some (err ebadf, c)
    else let (old, c') = no_blocking true c in
      let closed = close (slot c.handles h).vfs c' in
      let restored = (no_blocking old closed).1 in release_at c.nhandles h restored

-- The failure of `dill_hmake` in `dill_hown`, once the old handle is closed.
abbrev pub failed_with : Errno → Outcome (Unit {0}) → Outcome ℕ
failed_with e none = none
failed_with e (some (r, c)) = some (err e, c)

-- `dill_hown`. Where no new handle can be made the old one is closed.
unfoldable pub hown : (close : Option Hvfs → Ctx → Ctx) (realloc_ok : Bool) → ℕ → Ctx → Outcome ℕ
hown close realloc_ok h c =
    if not (is_open c h)
    then some (err ebadf, c)
    else elim (hmake realloc_ok (slot c.handles h).vfs c) [
      | none ↦ none
      | some (ok res, c') ↦ some (ok res, release h c')
      | some (err e, c') ↦ failed_with e (hclose close h c')
    ]

abbrev pub same_type : Option ℕ → ℕ → Bool
same_type none t = false
same_type (some t') t = t' == t

-- The cached pointer, if it is set and was asked for by this type.
abbrev pub cached : Slot → ℕ → Option ℕ
cached s t = if same_type s.type t then s.ptr else none

-- `dill_hquery`. `query` is the object's `query` function.
unfoldable pub hquery : (query : Option Hvfs → ℕ → Result ℕ) → ℕ → ℕ → Ctx → Result ℕ × Ctx
hquery query h t c =
    let s = slot c.handles h in
    if not (is_open c h) then (err ebadf, c) else elim (cached s t) [
      | some p ↦ (ok p, c)
      | none ↦ elim (query s.vfs t) [
        | err e ↦ (err e, c)
        | ok p ↦ (
          ok p,
          record c { handles = set c.handles h (record s { type = some t; ptr = some p }) },
        )
      ]
    ]
