-- ===== src/Stack/Tests.antt =====
-- stack.c with a cache of two stacks that is full.
use libdill.Base.{◌≤◌, ◌≡◌, refl, [], ◌∷◌, length, arith, ok, err, enomem}
use libdill.Queue.Links.{NotIn}
use libdill.Stack.{StackCtx, allocstack, freestack}
use libdill.Stack.Cache.{IsValid, freestack_lem}

abbrev full : StackCtx
full = record { count = 2; cache = 9000 ∷ 5000 ∷ [] }

freestack_example :
    let (ctx', freed) = freestack 1000 100 2 7000 full in
    let (r, ctx2, freed2) = allocstack 1000 100 2 (err enomem) (ok tt) ctx' in
    IsValid 1000 100 2 ctx'
    × (length freed ≤ 1)
    × (r ≡ ok 7000)
    × IsValid 1000 100 2 ctx2
    × NotIn 7000 (ctx2.cache)
    × (freed2 ≡ [])
freestack_example =
    freestack_lem 1000 100 2 (err enomem) (ok tt) 7000 full
      (refl, omega arith, ((λ e. omega (arith, e), tt), (tt, tt)))
      (λ e. omega (arith, e), (λ e. omega (arith, e), tt)) (omega arith)
