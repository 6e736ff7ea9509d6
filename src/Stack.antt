-- ===== src/Stack.antt =====
-- stack.c: coroutine stacks and the cache of those that are not in use.
-- A stack is the address of its top; the cache is the list of the stacks in it, the last one put in
-- first, as a `dill_slist` keeps it. What the system answers to a call is an argument, and the pointers that go
-- back to the system are a result.
pub mod Cache
pub mod Tests
use libdill.Base.{
  ℕ, ◌+◌, ◌-◌, ◌%◌, Bool, ◌==◌, leb, if◌then◌else◌, List, [], ◌∷◌, Option, none, some, Errno,
  Result, ok, err,
}

pub record StackCtx : Type 0 where
  pub count : ℕ
  pub cache : List ℕ

-- `dill_align`
abbrev pub align : ℕ → ℕ → ℕ
align val unit = if val % unit == 0 then val else val + unit - val % unit

abbrev pub stack_init : StackCtx
stack_init = record { count = 0; cache = [] }

-- The sizes of a stack and of a page, and `dill_max_cached_stacks`.
module _ (stack_size page_size max_cached : ℕ) where
  -- What `malloc` has to give for a stack and its guard page.
  abbrev pub alloc_size : ℕ
  alloc_size = align stack_size page_size + page_size

  -- The memory that a stack stands in.
  abbrev pub base_of : ℕ → ℕ
  base_of top = top - stack_size - page_size

  -- The stack in new memory, if `posix_memalign` and `mprotect` succeed.
  unfoldable pub new_stack : Result ℕ → Result (Unit {0}) → Result ℕ × List ℕ
  new_stack (err e) guard = (err e, [])
  new_stack (ok ptr) (err e) = (err e, ptr ∷ [])
  new_stack (ok ptr) (ok _) = (ok (ptr + page_size + stack_size), [])

  unfoldable pub allocstack : Result ℕ → Result (Unit {0}) → StackCtx → Result ℕ × StackCtx × List ℕ
  unfolding new_stack
  allocstack memory guard ctx = elim (ctx.cache) [
    | [] ↦ let (r, freed) = new_stack memory guard in (r, ctx, freed)
    | top ∷ rest ↦ (ok top, record { count = ctx.count - 1; cache = rest }, [])
  ]

  -- One stack leaves a cache that is full. The cache of a full context is not empty.
  unfoldable pub make_room : StackCtx → StackCtx × List ℕ
  make_room ctx = elim (ctx.cache) [
    | [] ↦ (ctx, [])
    | old ∷ rest ↦ (record { count = ctx.count - 1; cache = rest }, base_of old ∷ [])
  ]

  unfoldable pub freestack : ℕ → StackCtx → StackCtx × List ℕ
  unfolding make_room
  freestack top ctx =
      let (ctx', freed) = if leb max_cached (ctx.count) then make_room ctx else (ctx, []) in
      (record { count = ctx'.count + 1; cache = top ∷ ctx'.cache }, freed)

  -- `dill_ctx_stack_term`: what goes back to the system.
  abbrev pub stack_term : List ℕ → List ℕ
  stack_term [] = []
  stack_term (top ∷ rest) = base_of top ∷ stack_term rest
