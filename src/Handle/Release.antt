-- ===== src/Handle/Release.antt =====
-- `dill_hclose` and `dill_hown`: how a handle goes back to the pool.
use native.Mathlib.Decide.{ℕ_discrete}
use libdill.Base.{
  ℕ, ◌+◌, ◌<◌, ◌≡◌, refl, ◌≢◌, sym, ◌∙◌, ap, Bool, true, false, Option, some, List, [], ◌∷◌, ◌++◌,
  ◌&&◌, length, set, length-set, length-append, get_or-set_self, get_or-set_ne, ltb, arith, subst,
}
use libdill.Handle.{
  Slot, end_of_list, link, slot, no_slot, is_used, is_open, Ctx, freed, link_last, release,
  with_next,
}
use libdill.Handle.Pool.{
  Pooled, Linked, Linked-snoc, Linked-set, NotIn-used, NotIn, in_range, last_unused,
}
use libdill.Handle.Invariant.{IsValid, one_if, count_used, count_used-set}

-- A write that keeps a part of the slot keeps that part of all slots.
set-keeps :
    {A : Type 0} (f : Slot → A) (hs : List Slot) (i : ℕ) (s : Slot)
    → i < length hs
    → f s ≡ f (slot hs i)
    → (j : ℕ) → f (slot (set hs i s) j) ≡ f (slot hs j)
set-keeps f hs i s lt e j = elim (ℕ_discrete i j) [
  | yes p ↦ rw (← p) (ap f (get_or-set_self hs i s no_slot lt) ∙ e)
  | no p ↦ ap f (get_or-set_ne hs i j s no_slot p)
]

-- The slots `new` are `hs` with the handle `h` no longer in use.
record Freed (hs : List Slot) (h : ℕ) (new : List Slot) : Type 0 where
  size : length new ≡ length hs
  count : count_used new + 1 ≡ count_used hs
  unused : is_used (slot new h).next ≡ false
  others : (j : ℕ) → j ≢ h → is_used (slot new j).next ≡ is_used (slot hs j).next
  objects : (j : ℕ) → (slot new j).vfs ≡ (slot hs j).vfs

and_false : (b : Bool) → (b && false) ≡ false
and_false true = refl
and_false false = refl

used_in_range : (hs : List Slot) (h n : ℕ) → (ltb h n && is_used (slot hs h).next) ≡ true → h < n
used_in_range hs h n o = ground arith

set-Freed :
    (hs : List Slot) (h : ℕ)
    → h < length hs
    → is_used (slot hs h).next ≡ true
    → Freed hs h (set hs h (freed (slot hs h)))
set-Freed hs h lt u = record {
  size = length-set hs h s;
  count = omega (arith, count_used-set hs h s lt, ap one_if u);
  unused = rw (get_or-set_self hs h s no_slot lt);
  others = λ j ne. ap (λ t. is_used t.next) (get_or-set_ne hs h j s no_slot (λ q. ne (sym q)));
  objects = set-keeps (λ t. t.vfs) hs h s lt refl;
}
  where
    s : Slot
    s = freed (slot hs h)

-- A change of a link makes no handle used or unused.
relink-Freed :
    (hs : List Slot) (h : ℕ) (new : List Slot) (l h' : ℕ)
    → Freed hs h new
    → is_used (slot new l).next ≡ false
    → Freed hs h (set new l (with_next (slot new l) (link h')))
relink-Freed hs h new l h' f u = record {
  size = length-set new l s ∙ f.size;
  count = omega (arith, count_used-set new l s lt, ap one_if u, f.count);
  unused = same h ∙ f.unused;
  others = λ j ne. same j ∙ f.others j ne;
  objects = λ j. set-keeps (λ t. t.vfs) new l s lt refl j ∙ f.objects j;
}
  where
    s : Slot
    s = with_next (slot new l) (link h')

    lt : l < length new
    lt = in_range new l u

    same : (j : ℕ) → is_used (slot (set new l s) j).next ≡ is_used (slot new j).next
    same = set-keeps (λ t. is_used t.next) new l s lt (sym u)

-- The table `d` is `c` with the handle `h` closed.
pub record Released (c : Ctx) (h : ℕ) (d : Ctx) : Type 0 where
  pub valid : IsValid d
  pub is_shut : is_open d h ≡ false
  pub others : (j : ℕ) → j ≢ h → is_open d j ≡ is_open c j
  pub objects : (j : ℕ) → (slot d.handles j).vfs ≡ (slot c.handles j).vfs
  pub same_flag : d.no_blocking2 ≡ c.no_blocking2

has_last :
    (hs : List Slot) (last : Option ℕ) (x : ℕ) (xs : List ℕ)
    → Linked hs last x xs
    → (l : ℕ) × (last ≡ some l)
has_last hs last x [] k = (x, k.1)
has_last hs last x (y ∷ ys) k = has_last hs last y ys k.2

Pooled-snoc :
    (hs : List Slot) (l h x : ℕ) (xs : List ℕ)
    → Linked hs (some l) x xs
    → NotIn h (x ∷ xs)
    → (slot hs h).next ≡ end_of_list
    → Pooled (link_last (some l) h hs) (some x) (some h) (x ∷ xs ++ h ∷ [])
Pooled-snoc hs l h x xs k n e = (refl, Linked-snoc hs l h x xs k n e)

module _ (c : Ctx) (h : ℕ) (v : IsValid c) (o : is_open c h ≡ true) where
  used : is_used (slot c.handles h).next ≡ true
  used = ground arith

  within : h < length c.handles
  within = omega (arith, v.size, used_in_range c.handles h c.nhandles o)

  hs : List Slot
  hs = set c.handles h (freed (slot c.handles h))

  at_h : slot hs h ≡ freed (slot c.handles h)
  unfolding hs
  at_h = get_or-set_self c.handles h _ no_slot within

  Freed-first : Freed c.handles h hs
  unfolding hs
  Freed-first = set-Freed c.handles h within used

  -- What `release` makes of the slots and of the pool.
  back :
      (free : List ℕ)
      → Pooled c.handles c.first c.last free
      → let d = release h c in
        Freed c.handles h d.handles × Pooled d.handles d.first d.last (free ++ h ∷ [])
  unfolding release hs
  back [] p = rw p (Freed-first, (refl, (ap (λ s. s.next) at_h, refl)))
  back (x ∷ xs) p =
      let (l, e) = has_last c.handles c.last x xs p.1 in
      let apart = NotIn-used c.handles c.last h x xs p.1 used in
      let k : Linked hs (some l) x xs =
        subst (λ o. Linked hs o x xs) e (Linked-set c.handles c.last h _ x xs p.1 apart) in
      rw (p.0, e)
        (
          relink-Freed c.handles h hs l h Freed-first (last_unused hs l x xs k),
          Pooled-snoc hs l h x xs k apart (ap (λ s. s.next) at_h),
        )

  pub release-Released : Released c h (release h c)
  release-Released = record {
    valid = record {
      free = v.free ++ h ∷ [];
      size = f.size ∙ v.size ∙ unfold release in refl;
      count = unfold release in omega (arith, f.count, v.count);
      pooled = b.1;
      lost =
          unfold release in omega (arith, length-append v.free (h ∷ []), v.lost, f.count, v.count);
      sized = unfold release in v.sized;
    };
    is_shut = unfold release in rw (f.unused) (and_false (ltb h c.nhandles));
    others = λ j ne. unfold release in ap (λ b. ltb j c.nhandles && b) (f.others j ne);
    objects = f.objects;
    same_flag = unfold release in refl;
  }
    where
      b :
          let d = release h c in
          Freed c.handles h d.handles × Pooled d.handles d.first d.last (v.free ++ h ∷ [])
      b = back v.free v.pooled

      f : Freed c.handles h (release h c).handles
      f = b.0
