-- ===== src/Sched/Clauses.antt =====
-- What cancelling the clauses of a coroutine does to the lists and the timers.
use libdill.Base.{
  All, All-map, ℕ, ◌≡◌, refl, subst, sym, ◌∙◌, ap, Bool, true, false, ◌&&◌, ◌||◌, not, List, [],
  ◌∷◌, Bool-cases, inl, inr, ◌==◌, arith,
}
use libdill.Sched.{
  Kind, in_list, in_timers, plain, Clause, Timer, Waiter, World, drop_waiter, drop_timer,
  cancel_clause, cancel_all,
}

-- The clause `i` in the list at `p`, and the timer `i`, among a coroutine's clauses.
abbrev pub is_list : ℕ → Kind → Bool
is_list p (in_list q) = p == q
is_list p in_timers = false
is_list p plain = false

abbrev pub is_timer : Kind → Bool
is_timer (in_list q) = false
is_timer in_timers = true
is_timer plain = false

abbrev pub lists_it : (i p : ℕ) → List Clause → Bool
lists_it i p [] = false
lists_it i p (cl ∷ cls) = (i == cl.id && is_list p cl.kind) || lists_it i p cls

abbrev pub times_it : ℕ → List Clause → Bool
times_it i [] = false
times_it i (cl ∷ cls) = (i == cl.id && is_timer cl.kind) || times_it i cls

All-drop_waiter :
    (P : Waiter → Type 0) (c i : ℕ) (xs : List Waiter) → All P xs → All P (drop_waiter c i xs)
All-drop_waiter P c i [] h = tt
All-drop_waiter P c i (x ∷ xs) h = elim (Bool-cases (x.cr == c && x.id == i)) [
  | inl e ↦ rw e (All-drop_waiter P c i xs h.1)
  | inr e ↦ rw e (h.0, All-drop_waiter P c i xs h.1)
]

All-drop_timer :
    (P : Timer → Type 0) (c i : ℕ) (xs : List Timer) → All P xs → All P (drop_timer c i xs)
All-drop_timer P c i [] h = tt
All-drop_timer P c i (x ∷ xs) h = elim (Bool-cases (x.cr == c && x.id == i)) [
  | inl e ↦ rw e (All-drop_timer P c i xs h.1)
  | inr e ↦ rw e (h.0, All-drop_timer P c i xs h.1)
]

-- What is not one of the clauses stays.
cancel_clause-lists :
    (P : Waiter → Type 0) (c i : ℕ) (k : Kind) (w : World) (p : ℕ)
    → All P (w.lists p)
    → All P ((cancel_clause c (record { id = i; kind = k }) w).lists p)
cancel_clause-lists P c i (in_list q) w p h = elim (Bool-cases (p == q)) [
  | inl e ↦ rw e (All-drop_waiter P c i (w.lists p) h)
  | inr e ↦ rw e h
]
cancel_clause-lists P c i in_timers w p h = h
cancel_clause-lists P c i plain w p h = h

pub cancel_all-lists :
    (P : Waiter → Type 0) (c : ℕ) (cls : List Clause) (w : World) (p : ℕ)
    → All P (w.lists p)
    → All P ((cancel_all c cls w).lists p)
cancel_all-lists P c [] w p h = h
cancel_all-lists P c (cl ∷ cls) w p h =
    cancel_all-lists P c cls (cancel_clause c cl w) p
      (cancel_clause-lists P c (cl.id) (cl.kind) w p h)

cancel_clause-timers :
    (P : Timer → Type 0) (c i : ℕ) (k : Kind) (w : World)
    → All P w.timers
    → All P (cancel_clause c (record { id = i; kind = k }) w).timers
cancel_clause-timers P c i (in_list q) w h = h
cancel_clause-timers P c i in_timers w h = All-drop_timer P c i w.timers h
cancel_clause-timers P c i plain w h = h

pub cancel_all-timers :
    (P : Timer → Type 0) (c : ℕ) (cls : List Clause) (w : World)
    → All P w.timers
    → All P (cancel_all c cls w).timers
cancel_all-timers P c [] w h = h
cancel_all-timers P c (cl ∷ cls) w h =
    cancel_all-timers P c cls (cancel_clause c cl w)
      (cancel_clause-timers P c (cl.id) (cl.kind) w h)

-- Nothing else changes.
pub cancel_all-rest :
    (c : ℕ) (cls : List Clause) (w : World)
    → ((cancel_all c cls w).crs ≡ w.crs)
      × ((cancel_all c cls w).ready ≡ w.ready)
      × ((cancel_all c cls w).r ≡ w.r)
cancel_all-rest c [] w = (refl, refl, refl)
cancel_all-rest c (cl ∷ cls) w =
    let (a, b, d) = cancel_all-rest c cls (cancel_clause c cl w) in
    let (a', b', d') = one (cl.kind) in (a ∙ a', b ∙ b', d ∙ d')
  where
    one :
        (k : Kind)
        → ((cancel_clause c (record { id = cl.id; kind = k }) w).crs ≡ w.crs)
          × ((cancel_clause c (record { id = cl.id; kind = k }) w).ready ≡ w.ready)
          × ((cancel_clause c (record { id = cl.id; kind = k }) w).r ≡ w.r)
    one (in_list q) = (refl, refl, refl)
    one in_timers = (refl, refl, refl)
    one plain = (refl, refl, refl)

-- A waiter at `p` of the coroutine `c` is known by the clauses.
abbrev pub Known : ℕ → List Clause → ℕ → Waiter → Type 0
Known c cls p x = (not (x.cr == c) || lists_it x.id p cls) ≡ true

abbrev pub KnownTimer : ℕ → List Clause → Timer → Type 0
KnownTimer c cls t = (not (t.cr == c) || times_it t.id cls) ≡ true

keep_known :
    (c i id cr : ℕ) (this rest : Bool)
    → (cr == c && id == i) ≡ false
    → (not (cr == c) || ((id == i && this) || rest)) ≡ true
    → (not (cr == c) || rest) ≡ true
keep_known c i id cr this rest e h = ground arith

other_known :
    (c i id cr : ℕ) (rest : Bool)
    → (not (cr == c) || ((id == i && false) || rest)) ≡ true
    → (not (cr == c) || rest) ≡ true
other_known c i id cr rest h = ground arith

drop-Known :
    (c i p : ℕ) (cls : List Clause) (xs : List Waiter)
    → All (Known c (record { id = i; kind = in_list p } ∷ cls) p) xs
    → All (Known c cls p) (drop_waiter c i xs)
drop-Known c i p cls [] h = tt
drop-Known c i p cls (x ∷ xs) h = elim (Bool-cases (x.cr == c && x.id == i)) [
  | inl e ↦ rw e (drop-Known c i p cls xs h.1)
  | inr e ↦
      rw e
        (keep_known c i x.id x.cr (p == p) (lists_it x.id p cls) e h.0, drop-Known c i p cls xs h.1)
]

drop-KnownTimer :
    (c i : ℕ) (cls : List Clause) (xs : List Timer)
    → All (KnownTimer c (record { id = i; kind = in_timers } ∷ cls)) xs
    → All (KnownTimer c cls) (drop_timer c i xs)
drop-KnownTimer c i cls [] h = tt
drop-KnownTimer c i cls (x ∷ xs) h = elim (Bool-cases (x.cr == c && x.id == i)) [
  | inl e ↦ rw e (drop-KnownTimer c i cls xs h.1)
  | inr e ↦
      rw e (keep_known c i x.id x.cr true (times_it x.id cls) e h.0, drop-KnownTimer c i cls xs h.1)
]

cancel_clause-Known :
    (c i : ℕ) (k : Kind) (cls : List Clause) (w : World) (p : ℕ)
    → All (Known c (record { id = i; kind = k } ∷ cls) p) (w.lists p)
    → All (Known c cls p) ((cancel_clause c (record { id = i; kind = k }) w).lists p)
cancel_clause-Known c i (in_list q) cls w p h = elim (Bool-cases (p == q)) [
  | inl e ↦
      let same : p ≡ q = ground arith in
      rw e (
        drop-Known c i p cls (w.lists p) (
          subst (λ m. All (Known c (record { id = i; kind = in_list m } ∷ cls) p) (w.lists p))
            (sym same) h))
  | inr e ↦ rw e (
      All-map
        (λ x k.
          other_known c i x.id x.cr (lists_it x.id p cls)
            (ap (λ b. not (x.cr == c) || ((x.id == i && b) || lists_it x.id p cls)) (sym e) ∙ k))
        (w.lists p) h)
]
cancel_clause-Known c i in_timers cls w p h =
    All-map (λ x k. other_known c i x.id x.cr (lists_it x.id p cls) k) (w.lists p) h
cancel_clause-Known c i plain cls w p h =
    All-map (λ x k. other_known c i x.id x.cr (lists_it x.id p cls) k) (w.lists p) h

cancel_clause-KnownTimer :
    (c i : ℕ) (k : Kind) (cls : List Clause) (w : World)
    → All (KnownTimer c (record { id = i; kind = k } ∷ cls)) w.timers
    → All (KnownTimer c cls) (cancel_clause c (record { id = i; kind = k }) w).timers
cancel_clause-KnownTimer c i (in_list q) cls w h =
    All-map (λ x k. other_known c i x.id x.cr (times_it x.id cls) k) w.timers h
cancel_clause-KnownTimer c i in_timers cls w h = drop-KnownTimer c i cls w.timers h
cancel_clause-KnownTimer c i plain cls w h =
    All-map (λ x k. other_known c i x.id x.cr (times_it x.id cls) k) w.timers h

known_none : (b : Bool) → (not b || false) ≡ true → b ≡ false
known_none true h = sym h
known_none false h = refl

-- When all clauses of a coroutine are cancelled it waits nowhere.
pub cancel_all-gone :
    (c : ℕ) (cls : List Clause) (w : World) (p : ℕ)
    → All (Known c cls p) (w.lists p)
    → All (λ x. (x.cr == c) ≡ false) ((cancel_all c cls w).lists p)
cancel_all-gone c [] w p h = All-map (λ x k. known_none (x.cr == c) k) (w.lists p) h
cancel_all-gone c (cl ∷ cls) w p h =
    cancel_all-gone c cls (cancel_clause c cl w) p (cancel_clause-Known c cl.id cl.kind cls w p h)

pub cancel_all-no_timer :
    (c : ℕ) (cls : List Clause) (w : World)
    → All (KnownTimer c cls) w.timers
    → All (λ t. (t.cr == c) ≡ false) (cancel_all c cls w).timers
cancel_all-no_timer c [] w h = All-map (λ x k. known_none (x.cr == c) k) w.timers h
cancel_all-no_timer c (cl ∷ cls) w h =
    cancel_all-no_timer c cls (cancel_clause c cl w)
      (cancel_clause-KnownTimer c cl.id cl.kind cls w h)
