-- ===== src/Handle/Close.antt =====
-- `dill_hclose` and `dill_hown` on a valid table.
use libdill.Base.{
  ℕ, ◌<◌, ◌≡◌, refl, ◌≢◌, ◌==◌, sym, ◌∙◌, ap, ◌⊎◌, inl, inr, none, Bool-cases, Bool, true, false,
  Option, some, subst, arith, Result, ok, err, Errno, ebadf,
}
use libdill.Handle.{Outcome, release_at, Hvfs, slot, is_open, Ctx, release, hclose, hown, hmake}
use libdill.Handle.Invariant.{IsValid}
use libdill.Handle.Make.{Made, hmake_outcome, Refused}
use libdill.Handle.Release.{Released, release-Released}

with_flag : (c : Ctx) (b : Bool) → IsValid c → IsValid (record c { no_blocking2 = b })
with_flag c b v = record {
  free = v.free;
  size = v.size;
  count = v.count;
  pooled = v.pooled;
  lost = v.lost;
  sized = v.sized;
}

-- What an object's `close` may do while blocking is off: close other handles, but not `h`, whose
-- object it is, and let no code run that makes the table larger.
abbrev pub Keeps : (Option Hvfs → Ctx → Ctx) → ℕ → Type 0
Keeps close h =
    (o : Option Hvfs) (c : Ctx)
    → IsValid c
    → is_open c h ≡ true
    → c.no_blocking2 ≡ true
    → IsValid (close o c) × (is_open (close o c) h ≡ true) × ((close o c).nhandles ≡ c.nhandles)

hclose-shut :
    (close : Option Hvfs → Ctx → Ctx) (h : ℕ) (c : Ctx)
    → is_open c h ≡ false
    → hclose close h c ≡ some (err ebadf, c)
unfolding hclose
hclose-shut close h c shut = rw shut

-- the state in which `close` runs, and the one that it leaves
abbrev after_close : (Option Hvfs → Ctx → Ctx) → ℕ → Ctx → Ctx
after_close close h c = record (close (slot c.handles h).vfs (record c { no_blocking2 = true })) {
  no_blocking2 = c.no_blocking2;
}

hclose-open :
    (close : Option Hvfs → Ctx → Ctx) (h : ℕ) (c : Ctx)
    → is_open c h ≡ true
    → (after_close close h c).nhandles ≡ c.nhandles
    → hclose close h c ≡ some (ok tt, release h (after_close close h c))
unfolding hclose release_at
hclose-open close h c o same =
    let equal : ((after_close close h c).nhandles == c.nhandles) ≡ true = ground arith in
    rw (o, equal) refl

-- Closing an open handle of a valid table succeeds and writes inside the table only, where the
-- object's `close`, run once with blocking off, keeps the table valid, the handle open and the size
-- of the table. The table stays valid, the handle is no longer in use, so closing it again fails
-- with EBADF and changes nothing, every other handle is as `close` left it, and blocking and the size
-- of the table are as they were.
pub hclose_lem :
    (close : Option Hvfs → Ctx → Ctx) (h : ℕ) (c : Ctx)
    → IsValid c
    → is_open c h ≡ true
    → Keeps close h
    → (d : Ctx) × (hclose close h c ≡ some (ok tt, d))
      × IsValid d
      × (is_open d h ≡ false)
      × (hclose close h d ≡ some (err ebadf, d))
      × (d.no_blocking2 ≡ c.no_blocking2)
      × (d.nhandles ≡ c.nhandles)
      × ((j : ℕ)
          → j ≢ h
          → is_open d j
            ≡ is_open (close (slot c.handles h).vfs (record c { no_blocking2 = true })) j)
hclose_lem close h c v o keeps = (
  release h (after_close close h c),
  hclose-open close h c o kept.2,
  r.valid,
  r.is_shut,
  hclose-shut close h _ r.is_shut,
  r.same_flag,
  unfold release in kept.2,
  r.others,
)
  where
    closed : Ctx
    closed = close (slot c.handles h).vfs (record c { no_blocking2 = true })

    kept : IsValid closed × (is_open closed h ≡ true) × (closed.nhandles ≡ c.nhandles)
    kept =
        keeps (slot c.handles h).vfs (record c { no_blocking2 = true }) (with_flag c true v) o refl

    r : Released (after_close close h c) h (release h (after_close close h c))
    r = release-Released (after_close close h c) h (with_flag closed c.no_blocking2 kept.0) kept.1

abbrev pub left_by : Ctx → Outcome (Unit {0}) → Ctx
left_by c none = c
left_by c (some (r, d)) = d

-- The `close` of an object that stands on the handle `l` and closes it.
abbrev pub closes_below : (Option Hvfs → Ctx → Ctx) → ℕ → Option Hvfs → Ctx → Ctx
closes_below close l o c = left_by c (hclose close l c)

-- Closing the handle below is something that a `close` may do.
pub closes_below-Keeps :
    (close : Option Hvfs → Ctx → Ctx) (l h : ℕ)
    → h ≢ l
    → Keeps close l
    → Keeps close h
    → Keeps (closes_below close l) h
closes_below-Keeps close l h ne below other o c v open_h flag = elim (Bool-cases (is_open c l)) [
  | inr e ↦ subst Good (sym (hclose-shut close l c e)) (v, open_h, refl)
  | inl e ↦
      let (d, ran, valid, _, _, _, size, others) = hclose_lem close l c v e below in
      let kept =
        other (slot c.handles l).vfs (record c { no_blocking2 = true }) (with_flag c true v) open_h
          refl in
      subst Good (sym ran) (valid, others h ne ∙ kept.1, size)
]
  where
    Good : Outcome (Unit {0}) → Type 0
    Good r =
        IsValid (left_by c r)
        × (is_open (left_by c r) h ≡ true)
        × ((left_by c r).nhandles ≡ c.nhandles)

still_open :
    (p : Hvfs) (c : Ctx) (n : ℕ) (d : Ctx) (h : ℕ)
    → Made p c n d
    → is_open c h ≡ true
    → is_open d h ≡ true
still_open p c n d h m o =
    let lt : h < c.nhandles = ground arith in
    let ne : h ≢ n = λ q. cc (m.was_free, o, q) in ground (arith, m.others h ne lt, m.room)

-- `dill_hown` of an open handle whose object's `close` keeps the table valid, the handle open and the
-- size of the table: in every case the old handle is no longer in use and the table stays valid. Where it succeeds the new handle was not in use before, and stands for the same object.
pub hown_outcome :
    (close : Option Hvfs → Ctx → Ctx) (realloc_ok : Bool) (h : ℕ) (c : Ctx)
    → IsValid c
    → is_open c h ≡ true
    → Keeps close h
    → (r : Result ℕ) × (d : Ctx) × (hown close realloc_ok h c ≡ some (r, d))
      × IsValid d
      × (is_open d h ≡ false)
      × ((n : ℕ)
          → r ≡ ok n
          → (is_open c n ≡ false)
            × (is_open d n ≡ true)
            × ((slot d.handles n).vfs ≡ (slot c.handles h).vfs))
hown_outcome close realloc_ok h c v o keeps =
    go (hmake_outcome realloc_ok (slot c.handles h).vfs c v)
  where
    Goal : Type 0
    Goal =
        (r : Result ℕ) × (d : Ctx) × (hown close realloc_ok h c ≡ some (r, d))
        × IsValid d
        × (is_open d h ≡ false)
        × ((n : ℕ)
            → r ≡ ok n
            → (is_open c n ≡ false)
              × (is_open d n ≡ true)
              × ((slot d.handles n).vfs ≡ (slot c.handles h).vfs))

    go :
        ((p : Hvfs) × (n : ℕ) × (d : Ctx) × ((slot c.handles h).vfs ≡ some p)
            × (hmake realloc_ok (slot c.handles h).vfs c ≡ some (ok n, d))
            × Made p c n d)
          ⊎ ((e : Errno) × (hmake realloc_ok (slot c.handles h).vfs c ≡ some (err e, c))
              × Refused realloc_ok (slot c.handles h).vfs c e)
        → Goal
    go (inl (p, n, d, same, made, m)) = (
      ok n,
      release h d,
      unfold hown in rw (o, made),
      r.valid,
      r.is_shut,
      λ k e.
          let q : n ≡ k = cc in
          subst Got q (
            m.was_free,
            r.others n ne ∙ m.is_new,
            r.objects n ∙ ap (λ s. s.vfs) m.object ∙ sym same,
          ),
    )
      where
        Got : ℕ → Type 0
        Got k =
            (is_open c k ≡ false)
            × (is_open (release h d) k ≡ true)
            × ((slot (release h d).handles k).vfs ≡ (slot c.handles h).vfs)

        ne : n ≢ h
        ne q = cc (m.was_free, o, q)

        open_still : is_open d h ≡ true
        open_still = still_open p c n d h m o

        r : Released d h (release h d)
        r = release-Released d h m.valid open_still
    go (inr (e, made, why)) =
        let (d, closed, valid, shut, again, flag, size, others) = hclose_lem close h c v o keeps in
        (err e, d, unfold hown in rw (o, made, closed), valid, shut, λ k q. cc)
