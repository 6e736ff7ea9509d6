-- ===== src/Handle/Query.antt =====
-- `dill_hquery`: the cache changes no answer.
use native.Mathlib.Decide.{ℕ_discrete}
use libdill.Base.{
  false, Bool, zero, suc, ℕ, ◌<◌, ◌≡◌, refl, ◌≢◌, sym, ◌∙◌, true, Option, none, some, List, [], ◌∷◌,
  length, set, length-set, if◌then◌else◌, arith, Bool-cases, Option-cases, inl, inr, Result, ok,
  err, ebadf, get_or-set_self, get_or-set_ne,
}
use libdill.Handle.{Slot, Hvfs, slot, no_slot, is_used, is_open, Ctx, hquery, cached}
use libdill.Handle.Pool.{Pooled, Linked-set, NotIn-used}
use libdill.Handle.Invariant.{IsValid, count_used-set}

-- What is cached is what the object would answer.
abbrev pub IsFresh : (Option Hvfs → ℕ → Result ℕ) → Ctx → Type 0
IsFresh query c =
    (h t p : ℕ)
    → is_open c h ≡ true
    → cached (slot c.handles h) t ≡ some p
    → query (slot c.handles h).vfs t ≡ ok p

abbrev remember : ℕ → ℕ → Slot → Slot
remember t p s = record s { type = some t; ptr = some p }

abbrev remembered : ℕ → ℕ → ℕ → Ctx → Ctx
remembered h t p c = record c { handles = set c.handles h (remember t p (slot c.handles h)) }

hit : (t p : ℕ) (s : Slot) (t' p' : ℕ) → cached (remember t p s) t' ≡ some p' → (t ≡ t') × (p ≡ p')
hit t p s t' p' e = ground arith

module _ (h t p : ℕ) (c : Ctx) (o : is_open c h ≡ true) where
  in_use_h : is_used (slot c.handles h).next ≡ true
  in_use_h = ground arith

  Pooled-remembered :
      (free : List ℕ)
      → Pooled c.handles c.first c.last free
      → Pooled (remembered h t p c).handles c.first c.last free
  Pooled-remembered [] q = q
  Pooled-remembered (x ∷ xs) q = (
    q.0,
    Linked-set c.handles c.last h _ x xs q.1 (NotIn-used c.handles c.last h x xs q.1 in_use_h),
  )

  module _ (v : IsValid c) where
    within : h < length c.handles
    within = ground (arith, v.size)

    remembered-IsValid : IsValid (remembered h t p c)
    remembered-IsValid = record {
      free = v.free;
      size = length-set c.handles h _ ∙ v.size;
      count =
          omega
            (arith, count_used-set c.handles h (remember t p (slot c.handles h)) within, v.count);
      pooled = Pooled-remembered v.free v.pooled;
      lost = v.lost;
      sized = v.sized;
    }

    at_h : slot (remembered h t p c).handles h ≡ remember t p (slot c.handles h)
    at_h = get_or-set_self c.handles h _ no_slot within

    at_other : (j : ℕ) → h ≢ j → slot (remembered h t p c).handles j ≡ slot c.handles j
    at_other j ne = get_or-set_ne c.handles h j _ no_slot ne

    same_open : (j : ℕ) → is_open (remembered h t p c) j ≡ is_open c j
    same_open j = elim (ℕ_discrete h j) [ yes e ↦ rw (← e, at_h) | no ne ↦ rw (at_other j ne) ]

    remembered-IsFresh :
        (query : Option Hvfs → ℕ → Result ℕ)
        → IsFresh query c
        → query (slot c.handles h).vfs t ≡ ok p
        → IsFresh query (remembered h t p c)
    remembered-IsFresh query fresh answer j t' p' oj cj = elim (ℕ_discrete h j) [
      | yes e ↦
          let (et, ep) = hit t p (slot c.handles h) t' p' (rw (← e, at_h) at cj) in
          rw (← e, at_h, ← et, ← ep) answer
      | no ne ↦
          rw (at_other j ne) (fresh j t' p' (sym (same_open j) ∙ oj) (rw (at_other j ne) at cj))
    ]

-- On a valid table whose cache is right, `dill_hquery` answers what the object's own `query` answers,
-- or EBADF if the handle is not open; the table stays valid, its cache stays right, and every handle
-- is open or not as before.
pub hquery_lem :
    (query : Option Hvfs → ℕ → Result ℕ) (h t : ℕ) (c : Ctx)
    → IsValid c
    → IsFresh query c
    → let (r, d) = hquery query h t c in
      (r ≡ (if is_open c h then query (slot c.handles h).vfs t else err ebadf))
      × IsValid d
      × IsFresh query d
      × ((j : ℕ) → is_open d j ≡ is_open c j)
unfolding hquery
hquery_lem query h t c v fresh = elim (Bool-cases (is_open c h)) [
  | inr shut ↦ rw shut (refl, v, fresh, λ j. refl)
  | inl o ↦ elim (Option-cases (cached (slot c.handles h) t)) [
    | inr (p, hit) ↦ rw (o, hit) (sym (fresh h t p o hit), v, fresh, λ j. refl)
    | inl miss ↦ go o miss (query (slot c.handles h).vfs t) refl
  ]
]
  where
    go :
        is_open c h ≡ true
        → cached (slot c.handles h) t ≡ none
        → (r : Result ℕ) → query (slot c.handles h).vfs t ≡ r
        → let (r, d) = hquery query h t c in
          (r ≡ (if is_open c h then query (slot c.handles h).vfs t else err ebadf))
          × IsValid d
          × IsFresh query d
          × ((j : ℕ) → is_open d j ≡ is_open c j)
    go o miss (err e) q = rw (o, miss, q) (refl, v, fresh, λ j. refl)
    go o miss (ok p) q =
        rw (o, miss, q)
          (
            refl,
            remembered-IsValid h t p c o v,
            remembered-IsFresh h t p c o v query fresh q,
            same_open h t p c o v,
          )

-- A table with nothing cached is right.
abbrev pub nothing_cached : List Slot → Bool
nothing_cached [] = true
nothing_cached (s ∷ hs) = elim s.ptr [ none ↦ nothing_cached hs | some _ ↦ false ]

pub nothing_cached-IsFresh :
    (query : Option Hvfs → ℕ → Result ℕ) (c : Ctx)
    → nothing_cached c.handles ≡ true
    → IsFresh query c
nothing_cached-IsFresh query c empty h t p o e = absurd (no_ptr c.handles h empty (ground arith))
  where
    no_ptr : (hs : List Slot) (i : ℕ) → nothing_cached hs ≡ true → (slot hs i).ptr ≡ some p → ⊥
    no_ptr [] i k q = cc
    no_ptr (s ∷ hs) zero k q = ground arith
    no_ptr (s ∷ hs) (suc i) k q = no_ptr hs i (ground arith) q
