-- ===== src/Stack/Cache.antt =====
-- The cache stays within its bound and hands out each stack once.
use libdill.Base.{
  ℕ, ◌+◌, ◌≤◌, ◌≡◌, refl, Bool-cases, inl, inr, leb, List, [], ◌∷◌, length, arith, Result, ok,
}
use libdill.Queue.Links.{NotIn, Distinct}
use libdill.Stack.{StackCtx, allocstack, freestack, make_room}

module _ (stack_size page_size max_cached : ℕ) where
  -- The count is right and within the bound, and no stack is cached twice.
  abbrev pub IsValid : StackCtx → Type 0
  IsValid ctx = (ctx.count ≡ length (ctx.cache)) × (ctx.count ≤ max_cached) × Distinct (ctx.cache)

  make_room-IsValid :
      (top count : ℕ) (cache : List ℕ)
      → IsValid (record { count = count; cache = cache })
      → NotIn top cache
      → 1 ≤ max_cached
      → max_cached ≤ count
      → let (ctx', freed) =
          make_room stack_size page_size max_cached (record { count = count; cache = cache }) in
        (ctx'.count ≡ length (ctx'.cache))
        × (ctx'.count + 1 ≤ max_cached)
        × Distinct (ctx'.cache)
        × NotIn top (ctx'.cache)
        × (length freed ≤ 1)
  unfolding make_room
  make_room-IsValid top count [] (e, b, d) n one full = absurd (omega arith)
  make_room-IsValid top count (x ∷ xs) (e, b, d) n one full =
      (omega arith, omega arith, d.1, n.1, omega arith)

  -- A stack that is freed and was not in the cache goes into the cache, which stays within its bound of at
  -- least one and holds no stack twice. The next allocation gives that stack back without a call of the
  -- system, and leaves a valid cache that the stack is not in.
  pub freestack_lem :
      (memory : Result ℕ) (guard : Result (Unit {0})) (top : ℕ) (ctx : StackCtx)
      → IsValid ctx
      → NotIn top (ctx.cache)
      → 1 ≤ max_cached
      → let (ctx', freed) = freestack stack_size page_size max_cached top ctx in
        let (r, ctx2, freed2) = allocstack stack_size page_size max_cached memory guard ctx' in
        IsValid ctx'
        × (length freed ≤ 1)
        × (r ≡ ok top)
        × IsValid ctx2
        × NotIn top (ctx2.cache)
        × (freed2 ≡ [])
  unfolding freestack allocstack
  freestack_lem memory guard top ctx (e, b, d) n one =
      elim (Bool-cases (leb max_cached (ctx.count))) [
        | inl full ↦
            let (e', b', d', n', few) =
              make_room-IsValid top (ctx.count) (ctx.cache) (e, b, d) n one (ground arith) in
            rw full (
              (omega (arith, e'), b', (n', d')),
              few,
              refl,
              (omega (arith, e'), omega (arith, b'), d'),
              n',
              refl,
            )
        | inr room ↦ rw room (
          (omega arith, ground arith, (n, d)),
          omega arith,
          refl,
          (omega arith, ground arith, d),
          n,
          refl,
        )
      ]
