-- ===== src/Iol/Copy.antt =====
-- `dill_iolto` and `dill_iolfrom`: scattering bytes over buffers, and gathering them.
use libdill.Base.{
  ℕ, zero, suc, ◌+◌, ◌-◌, ◌≤◌, ◌<◌, ◌≡◌, refl, ◌≢◌, sym, ◌∙◌, ap, ap₂, inl, inr, true, false,
  Option, none, some, List, [], ◌∷◌, ◌++◌, ◌==◌, length, length-drop, leb, ltb, arith, take, drop,
  take-all, Bool-cases, Option-cases,
}
use libdill.Iol.{Ptr, Heap, Memory, memcpy, copy_to, store, iolto, iolfrom, read_bytes, returns}
use libdill.Iol.Chain.{Chain, total}
use libdill.Iol.Trim.{cells, addresses, length-addresses}

-- The bytes one by one to the addresses one by one, as long as there are both.
unfoldable pub write_cells : Memory → List (Option ℕ) → List ℕ → Memory
write_cells m [] vs = m
write_cells m (c ∷ cs) [] = m
write_cells m (c ∷ cs) (v ∷ vs) = write_cells (elim c [ none ↦ m | some a ↦ store m a v ]) cs vs

-- A buffer that the bytes fill.
write_cells-full :
    (n : ℕ) (m : Memory) (b : Option ℕ) (rest : List (Option ℕ)) (vs : List ℕ)
    → n ≤ length vs
    → write_cells m (cells b n ++ rest) vs ≡ write_cells (copy_to m b (take n vs)) rest (drop n vs)
unfolding write_cells cells memcpy
write_cells-full zero m none rest vs h = refl
write_cells-full zero m (some a) rest vs h = refl
write_cells-full (suc n) m b rest [] h = absurd (omega arith)
write_cells-full (suc n) m none rest (v ∷ vs) h = write_cells-full n m none rest vs (omega arith)
write_cells-full (suc n) m (some a) rest (v ∷ vs) h =
    write_cells-full n (store m a v) (some (a + 1)) rest vs (omega arith)

nothing_left : (m : Memory) (cs : List (Option ℕ)) → write_cells m cs [] ≡ m
unfolding write_cells
nothing_left m [] = refl
nothing_left m (c ∷ cs) = refl

-- A buffer in which the bytes end.
write_cells-last :
    (n : ℕ) (m : Memory) (b : Option ℕ) (rest : List (Option ℕ)) (vs : List ℕ)
    → length vs ≤ n
    → write_cells m (cells b n ++ rest) vs ≡ copy_to m b vs
unfolding write_cells cells memcpy
write_cells-last zero m none rest [] h = nothing_left m rest
write_cells-last zero m (some a) rest [] h = nothing_left m rest
write_cells-last (suc n) m none rest [] h = refl
write_cells-last (suc n) m (some a) rest [] h = refl
write_cells-last zero m b rest (v ∷ vs) h = absurd (omega arith)
write_cells-last (suc n) m none rest (v ∷ vs) h = write_cells-last n m none rest vs (omega arith)
write_cells-last (suc n) m (some a) rest (v ∷ vs) h =
    write_cells-last n (store m a v) (some (a + 1)) rest vs (omega arith)

iolto-last :
    (fuel : ℕ) (h : Heap) (first x : Ptr) (xs : List Ptr) (v : ℕ) (vs : List ℕ) (m : Memory)
    → Chain h first (x ∷ xs)
    → leb (length (v ∷ vs)) (h x).len ≡ true
    → iolto (suc fuel) h first (v ∷ vs) (length (v ∷ vs)) m
      ≡ returns (true, copy_to m (h x).base (v ∷ vs))
unfolding iolto
iolto-last fuel h first x xs v vs m c le =
    let nz : (x == 0) ≡ false = ground arith in
    rw (c.0, nz, le, take-all (length vs) vs (omega arith)) (ground arith)

iolto-further :
    (fuel : ℕ) (h : Heap) (first x : Ptr) (xs : List Ptr) (v : ℕ) (vs : List ℕ) (m : Memory)
    → Chain h first (x ∷ xs)
    → leb (length (v ∷ vs)) (h x).len ≡ false
    → let n = (h x).len in
      iolto (suc fuel) h first (v ∷ vs) (length (v ∷ vs)) m
      ≡ iolto fuel h
          (h x).next
          (drop n (v ∷ vs))
          (length (drop n (v ∷ vs)))
          (copy_to m (h x).base (take n (v ∷ vs)))
unfolding iolto
iolto-further fuel h first x xs v vs m c gt =
    let nz : (x == 0) ≡ false = ground arith in
    rw (c.0, nz, gt, length-drop (h x).len (v ∷ vs)) (ground arith)

-- On a well-formed list the bytes of `src` go to the buffers' addresses in order, NULL buffers skipping
-- theirs; the call reports success exactly if there is room for all, and otherwise has filled every
-- buffer.
pub iolto_lem :
    (fuel : ℕ) (h : Heap) (first : Ptr) (xs : List Ptr) (src : List ℕ) (m : Memory)
    → length xs < fuel
    → Chain h first xs
    → iolto fuel h first src (length src) m
      ≡ returns (leb (length src) (total h xs), write_cells m (addresses h xs) src)
iolto_lem zero h first xs src m f c = absurd (omega arith)
iolto_lem (suc fuel) h first xs [] m f c =
    unfold iolto in
    ap₂ (λ b k. returns (b, k)) (ground arith) (sym (nothing_left m (addresses h xs)))
iolto_lem (suc fuel) h first [] (v ∷ vs) m f c =
    unfold iolto total addresses write_cells in rw c (ground arith)
iolto_lem (suc fuel) h first (x ∷ xs) (v ∷ vs) m f c =
    elim (Bool-cases (leb (length (v ∷ vs)) (h x).len)) [
      | inl le ↦
          let fits : true ≡ leb (length (v ∷ vs)) (total h (x ∷ xs)) =
            unfold total in ground arith in
          let same : write_cells m (addresses h (x ∷ xs)) (v ∷ vs) ≡ copy_to m (h x).base (v ∷ vs) =
            unfold addresses in
            write_cells-last (h x).len m (h x).base (addresses h xs) (v ∷ vs) (ground arith) in
          iolto-last fuel h first x xs v vs m c le ∙ ap₂ (λ b k. returns (b, k)) fits (sym same)
      | inr gt ↦
          let n = (h x).len in
          let m' = copy_to m (h x).base (take n (v ∷ vs)) in
          let fits : leb (length (drop n (v ∷ vs))) (total h xs)
              ≡ leb (length (v ∷ vs)) (total h (x ∷ xs)) =
            unfold total in ground (arith, length-drop (h x).len (v ∷ vs)) in
          let same : write_cells m (addresses h (x ∷ xs)) (v ∷ vs)
              ≡ write_cells m' (addresses h xs) (drop n (v ∷ vs)) =
            unfold addresses in
            write_cells-full (h x).len m (h x).base (addresses h xs) (v ∷ vs) (ground arith) in
          iolto-further fuel h first x xs v vs m c gt
          ∙ iolto_lem fuel h (h x).next xs (drop n (v ∷ vs)) m' (omega arith) c.3
          ∙ ap₂ (λ b k. returns (b, k)) fits (sym same)
    ]

-- Every buffer has memory.
abbrev pub Based : Heap → List Ptr → Type 0
Based h [] = Unit
Based h (x ∷ xs) = ((h x).base ≢ none) × Based h xs

-- The bytes at the addresses.
unfoldable pub read_cells : Memory → List (Option ℕ) → List ℕ
read_cells m [] = []
read_cells m (none ∷ cs) = read_cells m cs
read_cells m (some a ∷ cs) = m a ∷ read_cells m cs

read_cells-full :
    (n : ℕ) (m : Memory) (a : ℕ) (rest : List (Option ℕ))
    → read_cells m (cells (some a) n ++ rest) ≡ read_bytes m a n ++ read_cells m rest
unfolding read_cells cells read_bytes
read_cells-full zero m a rest = refl
read_cells-full (suc n) m a rest = ap (λ t. m a ∷ t) (read_cells-full n m (a + 1) rest)

-- On a well-formed list of buffers with memory whose bytes fit in `dst`, `dst` receives the buffers'
-- bytes in order.
pub iolfrom_lem :
    (fuel : ℕ) (h : Heap) (first : Ptr) (xs : List Ptr) (dstlen : ℕ) (m : Memory)
    → length xs < fuel
    → Chain h first xs
    → Based h xs
    → total h xs ≤ dstlen
    → iolfrom fuel h first dstlen m ≡ returns (true, read_cells m (addresses h xs))
unfolding iolfrom total addresses
iolfrom_lem zero h first xs dstlen m f c b fits = absurd (omega arith)
iolfrom_lem (suc fuel) h first [] dstlen m f c b fits = unfold read_cells in rw c
iolfrom_lem (suc fuel) h first (x ∷ xs) dstlen m f c b fits =
    let nz : (x == 0) ≡ false = ground arith in
    let room : ltb dstlen (h x).len ≡ false = ground arith in
    let ih =
      iolfrom_lem fuel h (h x).next xs (dstlen - (h x).len) m (omega arith) c.3 b.1 (omega arith) in
    elim (Option-cases (h x).base) [
      | inl no_base ↦ absurd (b.0 no_base)
      | inr (a, base) ↦
          (λ i. iolfrom (suc fuel) h (c.0 i) dstlen m)
          ∙ rw (nz, room, base, ih)
              (ap (λ t. returns (true, t)) (sym (read_cells-full (h x).len m a (addresses h xs))))
    ]

abbrev pub NoneIs : ℕ → List (Option ℕ) → Type 0
NoneIs a [] = Unit
NoneIs a (c ∷ cs) = (c ≢ some a) × NoneIs a cs

-- No address twice, and none missing: the buffers do not overlap.
abbrev pub Apart : List (Option ℕ) → Type 0
Apart [] = Unit
Apart (none ∷ cs) = ⊥
Apart (some a ∷ cs) = NoneIs a cs × Apart cs

write_cells-other :
    (m : Memory) (a : ℕ) (cs : List (Option ℕ)) (vs : List ℕ)
    → NoneIs a cs
    → write_cells m cs vs a ≡ m a
unfolding write_cells
write_cells-other m a [] vs n = refl
write_cells-other m a (c ∷ cs) [] n = refl
write_cells-other m a (none ∷ cs) (v ∷ vs) n = write_cells-other m a cs vs n.1
write_cells-other m a (some b ∷ cs) (v ∷ vs) n =
    write_cells-other (store m b v) a cs vs n.1 ∙ ground (arith, n.0)

read_cells-write_cells :
    (m : Memory) (cs : List (Option ℕ)) (vs : List ℕ)
    → Apart cs
    → length vs ≡ length cs
    → read_cells (write_cells m cs vs) cs ≡ vs
unfolding read_cells write_cells
read_cells-write_cells m [] [] ap e = refl
read_cells-write_cells m [] (v ∷ vs) ap e = absurd (omega arith)
read_cells-write_cells m (c ∷ cs) [] ap e = absurd (omega arith)
read_cells-write_cells m (none ∷ cs) (v ∷ vs) d e = absurd d
read_cells-write_cells m (some a ∷ cs) (v ∷ vs) d e =
    ap₂ (λ x t. x ∷ t) (write_cells-other (store m a v) a cs vs d.0 ∙ ground arith)
      (read_cells-write_cells (store m a v) cs vs d.1 (omega arith))

-- Round trip: on a well-formed list of buffers that do not overlap, what `dill_iolto` scatters over
-- all of them `dill_iolfrom` gathers again.
pub iolfrom-iolto :
    (fuel : ℕ) (h : Heap) (first : Ptr) (xs : List Ptr) (src : List ℕ) (m : Memory)
    → length xs < fuel
    → Chain h first xs
    → Based h xs
    → Apart (addresses h xs)
    → length src ≡ total h xs
    → (m' : Memory) × (iolto fuel h first src (length src) m ≡ returns (true, m'))
      × (iolfrom fuel h first (length src) m' ≡ returns (true, src))
iolfrom-iolto fuel h first xs src m f c b d e = (
  write_cells m (addresses h xs) src,
  iolto_lem fuel h first xs src m f c
      ∙ ap (λ k. returns (k, write_cells m (addresses h xs) src)) (ground arith),
  iolfrom_lem fuel h first xs (length src) _ f c b (omega arith)
      ∙ ap (λ t. returns (true, t))
          (read_cells-write_cells m (addresses h xs) src d (omega (arith, length-addresses h xs))),
)
