-- ===== src/Handle/Make.antt =====
-- `dill_hmake`: what it returns, and that the table stays valid.
use libdill.Base.{
  ℕ, zero, suc, ◌+◌, ◌-◌, ◌≤◌, ◌<◌, ◌≡◌, refl, ◌≢◌, sym, ◌∙◌, ap, ◌⊎◌, inl, inr, Bool, true, false,
  Option, none, some, List, [], ◌∷◌, ◌++◌, ◌&&◌, ◌||◌, length, set, length-set, length-append,
  get_or-set_self, get_or-set_ne, ltb, arith, Bool-cases, ok, err, Errno, einval, enomem, ecanceled,
}
use libdill.Handle.{
  Slot, Hvfs, slot, no_slot, is_used, is_open, fresh_slots, Ctx, grown_size, grow, grow_to,
  take_first, taken, is_complete, needs_room, hmake, returned, following, opened, canblock,
}
use libdill.Handle.Pool.{
  Pooled, Linked, Linked-set, Linked-unused, Linked-fresh, count_up, length-count_up, in_range,
}
use libdill.Handle.Invariant.{
  IsValid, one_if, count_used, count_used-set, count_used-append, count_used-fresh, count_used-le,
  length-fresh,
}

-- The table `d` is `c` with a new object at the handle `h`, which was not in use.
pub record Made (v : Hvfs) (c : Ctx) (h : ℕ) (d : Ctx) : Type 0 where
  pub valid : IsValid d
  pub was_free : is_open c h ≡ false
  pub is_new : is_open d h ≡ true
  pub object : slot d.handles h ≡ opened v
  pub room : c.nhandles ≤ d.nhandles
  pub others : (j : ℕ) → j ≢ h → j < c.nhandles → slot d.handles j ≡ slot c.handles j

slot-append : (hs ts : List Slot) (j : ℕ) → j < length hs → slot (hs ++ ts) j ≡ slot hs j
slot-append [] ts j h = absurd (omega arith)
slot-append (s ∷ hs) ts zero h = refl
slot-append (s ∷ hs) ts (suc j) h = slot-append hs ts j (omega arith)

grown : (n : ℕ) → (n ≡ 0) ⊎ (256 ≤ n) → (k : ℕ) × (grown_size n ≡ n + suc k) × (256 ≤ n + suc k)
unfolding grown_size
grown zero h = (255, refl, omega arith)
grown (suc n) h = (n, ground arith, omega arith)

-- The expansion leaves a valid table, with the new handles alone in its pool.
grow_to-IsValid :
    (c : Ctx) (k : ℕ)
    → IsValid c
    → c.nhandles ≤ c.nused + 8
    → 256 ≤ c.nhandles + suc k
    → IsValid (grow_to (c.nhandles + suc k) c)
unfolding grow_to
grow_to-IsValid c k v few big = record {
  free = count_up c.nhandles (suc k);
  size = omega (
    arith,
    length-append c.handles new,
    length-fresh c.nhandles (c.nhandles + suc k - c.nhandles),
    v.size,
  );
  count = rw (count_used-append c.handles new, v.count, count_used-fresh) (omega arith);
  pooled = (refl, linked);
  lost = omega (arith, length-count_up c.nhandles (suc k));
  sized = inr big;
}
  where
    new : List Slot
    new = fresh_slots c.nhandles (c.nhandles + suc k - c.nhandles)

    sz : c.nhandles + suc k - c.nhandles ≡ suc k
    sz = omega arith

    linked :
        Linked
          (c.handles ++ new)
          (some (c.nhandles + suc k - 1))
          c.nhandles
          (count_up (c.nhandles + 1) k)
    linked =
        rw (sz, (λ (q : c.nhandles + suc k - 1 ≡ c.nhandles + k). q) (omega arith))
          (Linked-fresh c.handles c.nhandles k v.size)

grow-IsValid : (c : Ctx) → IsValid c → c.nhandles ≤ c.nused + 8 → IsValid (grow c)
unfolding grow
grow-IsValid c v few =
    let (k, e, big) = grown c.nhandles v.sized in rw e (grow_to-IsValid c k v few big)

Pooled-taken :
    (hs : List Slot) (last : Option ℕ) (h : ℕ) (s : Slot) (xs : List ℕ)
    → Linked hs last h xs
    → Pooled (set hs h s) (following (slot hs h).next) last xs
Pooled-taken hs last h s [] l = rw l.0
Pooled-taken hs last h s (y ∷ ys) l = (rw l.0, Linked-set hs last h s y ys l.2 l.1)

taken-Made :
    (v : Hvfs) (c : Ctx) (h : ℕ) (xs : List ℕ)
    → length c.handles ≡ c.nhandles
    → count_used c.handles ≡ c.nused
    → Linked c.handles c.last h xs
    → c.nhandles ≤ c.nused + suc (length xs) + 8
    → (c.nhandles ≡ 0) ⊎ (256 ≤ c.nhandles)
    → Made v c h (taken v h c)
unfolding taken
taken-Made v c h xs size count l lost sized = record {
  valid = record {
    free = xs;
    size = rw (length-set c.handles h (opened v)) size;
    count = omega (arith, count_used-set c.handles h (opened v) lt, ap one_if unused, count);
    pooled = Pooled-taken c.handles c.last h (opened v) xs l;
    lost = omega arith;
    sized = sized;
  };
  was_free = rw unused (ground arith);
  is_new = rw (get_or-set_self c.handles h (opened v) no_slot lt) (ground (arith, lt, size));
  object = get_or-set_self c.handles h (opened v) no_slot lt;
  room = omega arith;
  others = λ j ne _. get_or-set_ne c.handles h j (opened v) no_slot (λ e. ne (sym e));
}
  where
    unused : is_used (slot c.handles h).next ≡ false
    unused = Linked-unused c.handles c.last h xs l

    lt : h < length c.handles
    lt = in_range c.handles h unused

-- While more than 8 handles are unused, one of them is in the pool.
take_first-Made :
    (v : Hvfs) (c : Ctx)
    → IsValid c
    → c.nused + 8 < c.nhandles
    → (h : ℕ) × (d : Ctx) × (take_first v c ≡ some (h, d)) × Made v c h d
take_first-Made v c valid room = go valid.free valid.pooled valid.lost
  where
    go :
        (free : List ℕ)
        → Pooled c.handles c.first c.last free
        → c.nhandles ≤ c.nused + length free + 8
        → (h : ℕ) × (d : Ctx) × (take_first v c ≡ some (h, d)) × Made v c h d
    go [] p lost = absurd (omega arith)
    go (h ∷ xs) p lost = (
      h,
      taken v h c,
      unfold take_first in rw (p.0),
      taken-Made v c h xs valid.size valid.count p.1 lost valid.sized,
    )

slot-grow : (c : Ctx) (j : ℕ) → j < length c.handles → slot (grow c).handles j ≡ slot c.handles j
unfolding grow
slot-grow c j h = slot-append c.handles _ j h

nhandles-grow : (c : Ctx) → IsValid c → c.nhandles + 8 < (grow c).nhandles
unfolding grow
nhandles-grow c v = ground (arith, v.sized)

nused-le : (c : Ctx) → IsValid c → c.nused ≤ c.nhandles
nused-le c v = omega (arith, v.size, v.count, count_used-le c.handles)

nused-grow : (c : Ctx) → (grow c).nused ≡ c.nused
unfolding grow
nused-grow c = refl

is_open-grow : (c : Ctx) (h : ℕ) → IsValid c → is_open (grow c) h ≡ false → is_open c h ≡ false
is_open-grow c h v shut = elim (Bool-cases (ltb h c.nhandles)) [
  | inl lt ↦
      let same : slot (grow c).handles h ≡ slot c.handles h =
        slot-grow c h (ground (arith, v.size)) in
      ground (arith, same, nhandles-grow c v)
  | inr ge ↦ rw ge
]

Made-grow : (v : Hvfs) (c : Ctx) (h : ℕ) (d : Ctx) → IsValid c → Made v (grow c) h d → Made v c h d
Made-grow v c h d valid m = record {
  valid = m.valid;
  was_free = is_open-grow c h valid m.was_free;
  is_new = m.is_new;
  object = m.object;
  room = omega (arith, m.room, nhandles-grow c valid);
  others = λ j ne lt.
      m.others j ne (omega (arith, nhandles-grow c valid))
      ∙ slot-grow c j (omega (arith, valid.size));
}

pub take_grown-Made :
    (v : Hvfs) (c : Ctx)
    → IsValid c
    → needs_room c ≡ true
    → (h : ℕ) × (d : Ctx) × (take_first v (grow c) ≡ some (h, d)) × Made v c h d
take_grown-Made v c valid full =
    let (h, d, e, m) =
      take_first-Made v (grow c) (grow-IsValid c valid (ground arith))
        (omega (arith, nhandles-grow c valid, nused-grow c, nused-le c valid)) in
    (h, d, e, Made-grow v c h d valid m)

-- Why `dill_hmake` refuses.
abbrev pub Refused : Bool → Option Hvfs → Ctx → Errno → Type 0
Refused realloc_ok v c einval = is_complete v ≡ false
Refused realloc_ok v c ecanceled = (c.no_blocking1 || c.no_blocking2) ≡ true
Refused realloc_ok v c enomem = (realloc_ok ≡ false) × (needs_room c ≡ true)
Refused realloc_ok v c _ = ⊥

-- `dill_hmake` on a valid table reads nothing outside the table. It makes a handle that was not in
-- use, for the given object, and leaves the table valid and all other handles as they were; or it
-- refuses for a reason that holds, and changes nothing.
pub hmake_outcome :
    (realloc_ok : Bool) (v : Option Hvfs) (c : Ctx)
    → IsValid c
    → ((o : Hvfs) × (h : ℕ) × (d : Ctx) × (v ≡ some o)
        × (hmake realloc_ok v c ≡ some (ok h, d))
        × Made o c h d)
      ⊎ ((e : Errno) × (hmake realloc_ok v c ≡ some (err e, c)) × Refused realloc_ok v c e)
unfolding hmake canblock
hmake_outcome realloc_ok none c valid = inr (einval, refl, refl)
hmake_outcome realloc_ok (some v) c valid = elim (Bool-cases (v.has_query && v.has_close)) [
  | inr no_vfs ↦ inr (einval, rw no_vfs, no_vfs)
  | inl vfs ↦ elim (Bool-cases (c.no_blocking1 || c.no_blocking2)) [
    | inl blocked ↦ inr (ecanceled, rw (vfs, blocked), blocked)
    | inr free ↦ elim (Bool-cases (needs_room c)) [
      | inr room ↦
          let (h, d, e, m) = take_first-Made v c valid (ground arith) in
          inl (v, h, d, refl, rw (vfs, free, room) (ap returned e), m)
      | inl full ↦ elim (Bool-cases realloc_ok) [
        | inr no_memory ↦ inr (enomem, rw (vfs, free, full, no_memory), (no_memory, full))
        | inl memory ↦
            let (h, d, e, m) = take_grown-Made v c valid full in
            inl (v, h, d, refl, rw (vfs, free, full, memory) (ap returned e), m)
      ]
    ]
  ]
]
