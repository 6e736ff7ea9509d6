-- ===== src/Fd/Refill.antt =====
-- fd.c: the loop of `dill_fd_recv` that receives by way of the buffer.
use mathlib.Core.List.{append_assoc, nil≢cons}
use libdill.Base.{
  ℕ, ◌+◌, ◌-◌, ◌≤◌, ◌<◌, ◌^◌, none, some, List, [], ◌∷◌, ◌++◌, drop, length, ◌≡◌, ◌⊎◌, inl, inr,
  refl, sym, ap, subst, ◌∙◌, arith, Option-cases, List-cases, Result, ok, Step, done, again,
  iterate, iterate-ends, Progresses, returns, length-append, length-drop, append-split, take-all,
}
use libdill.Iol.{Memory}
use libdill.Fd.{Kernel, moved, would_block, Iov, miss, scatter}
use libdill.Fd.Buffer.{
  Cache, Chunk, Rxbuf, Rx, alloc_from, allocbuf, copy_all, refill_wait, copied, refill,
  refill_alloc, refill_turn,
}
use libdill.Fd.Scatter.{scatter_end}
use libdill.Fd.Stream.{Delivers}
use libdill.Fd.Copy.{Sound, pending}
use libdill.Fd.CopyAll.{copy_all_lem}

-- The buffer behind a `recv`.
abbrev pub received : ℕ → List ℕ → Rxbuf
received p got = record { len = length got; pos = 0; buf = some (record { ptr = p; bytes = got }) }

abbrev with_received : ℕ → List ℕ → Rx → Rx
with_received p got r = record r { rxbuf = received p got }

received-Sound : (p : ℕ) (got : List ℕ) → length got < 2 ^ 64 → Sound (received p got)
received-Sound p got h = record { order = omega arith; size = h; holds = omega arith }

pending-received : (p : ℕ) (got : List ℕ) → pending (received p got) ≡ got
pending-received p got = take-all (length got - 0) got (omega arith)

module _ {S : Type 0} (kernel : Kernel S) where
  open kernel use {fdin, recvmsg, malloc}

  refill_wait-end : (r : Rx) (st : S) → refill_wait kernel [] r st ≡ done (ok tt, r, st)
  unfolding refill_wait
  refill_wait-end r st = refl

  refill_wait-ok :
      (b : Iov) (iov : List Iov) (r : Rx) (st : S)
      → (fdin st).0 ≡ ok tt
      → refill_wait kernel (b ∷ iov) r st ≡ again (b ∷ iov, r, (fdin st).1)
  unfolding refill_wait
  refill_wait-ok b iov r st e = rw (refill_wait, e) refl

  refill-would_block :
      (b : Chunk) (iov : List Iov) (r : Rx) (st : S)
      → (recvmsg 1984 st).0 ≡ would_block
      → refill kernel b iov r st ≡ copied kernel b.ptr [] iov r (recvmsg 1984 st).1
  unfolding refill
  refill-would_block b iov r st e = rw (refill, e) refl

  refill-moved :
      (b : Chunk) (iov : List Iov) (r : Rx) (st : S) (v : ℕ) (vs : List ℕ)
      → (recvmsg 1984 st).0 ≡ moved (v ∷ vs)
      → refill kernel b iov r st ≡ copied kernel b.ptr (v ∷ vs) iov r (recvmsg 1984 st).1
  unfolding refill
  refill-moved b iov r st v vs e = rw (refill, e) refl

  refill_turn-buffer :
      (b : Chunk) (iov : List Iov) (r : Rx) (st : S)
      → r.rxbuf.buf ≡ some b
      → refill_turn kernel (iov, r, st) ≡ refill kernel b iov r st
  unfolding refill_turn
  refill_turn-buffer b iov r st e = simp (e)

  -- The buffer that is made, from the cache or from `malloc`.
  abbrev fresh : ℕ → Cache → Rx → Rx
  fresh p c r = record r {
    cache = c;
    rxbuf = record r.rxbuf { buf = some (record { ptr = p; bytes = [] }) };
  }

  refill_turn-fresh :
      (iov : List Iov) (r : Rx) (st st' : S) (p : ℕ) (c : Cache)
      → r.rxbuf.buf ≡ none
      → allocbuf kernel r.cache st ≡ (some p, c, st')
      → refill_turn kernel (iov, r, st)
        ≡ refill kernel (record { ptr = p; bytes = [] }) iov (fresh p c r) st'
  unfolding refill_turn refill_alloc
  refill_turn-fresh iov r st st' p c e a =
      let at_none : refill_turn kernel (iov, r, st)
          ≡ refill_alloc kernel iov r (allocbuf kernel r.cache st) =
        simp (e) in
      at_none ∙ ap (refill_alloc kernel iov r) a

  allocbuf-spare :
      (c : Cache) (p : ℕ) (ps : List ℕ) (st : S)
      → c.spare ≡ p ∷ ps
      → allocbuf kernel c st ≡ (some p, record c { count = c.count - 1; spare = ps }, st)
  unfolding allocbuf alloc_from
  allocbuf-spare c p ps st e = ap (alloc_from kernel c st) e

  allocbuf-malloc :
      (c : Cache) (st : S) → c.spare ≡ [] → allocbuf kernel c st ≡ ((malloc st).0, c, (malloc st).1)
  unfolding allocbuf alloc_from
  allocbuf-malloc c st e = ap (alloc_from kernel c st) e

module _ {S : Type 0} (kernel : Kernel S) (content : S → List ℕ) (patience : S → ℕ)
    (delivers : Delivers kernel content patience) (target : Memory) (rest : List ℕ) (most : ℕ) where
  open kernel use {recvmsg, fdin}
  open delivers use {arrives, waits, allocates}

  -- Nothing is pending, and the bytes that are still to come complete what has been filled.
  abbrev pub Refilling : List Iov × Rx × S → Type 0
  Refilling (iov, r, st) =
      (bytes : List ℕ) × (content st ≡ bytes ++ rest)
      × (length bytes ≡ miss iov)
      × (0 < miss iov)
      × (scatter iov bytes r.mem ≡ target)
      × (patience st ≤ most)

  abbrev pub Refilled : Result (Unit {0}) × Rx × S → Type 0
  Refilled (x, r, st) =
      (x ≡ ok tt)
      × (r.mem ≡ target)
      × Sound r.rxbuf
      × (pending r.rxbuf ++ content st ≡ rest)
      × (patience st ≤ most)

  abbrev pub left : List Iov × Rx × S → ℕ
  left (iov, r, st) = miss iov + patience st

  abbrev Turns : List Iov × Rx × S → Step (List Iov × Rx × S) (Result (Unit {0}) × Rx × S) → Type 0
  Turns x step =
      ((r : Result (Unit {0}) × Rx × S) × (step ≡ done r) × Refilled r)
      ⊎ ((x' : List Iov × Rx × S) × (step ≡ again x') × Refilling x' × (left x' < left x))

  -- The end of a turn, when the copies have left `iov'` and `r'`.
  wait-Turns :
      (x : List Iov × Rx × S) (iov' : List Iov) (r' : Rx) (st : S) (later : List ℕ)
      → pending r'.rxbuf ++ content st ≡ later ++ rest
      → length later ≡ miss iov'
      → scatter iov' later r'.mem ≡ target
      → Sound r'.rxbuf
      → (iov' ≡ []) ⊎ ((pending r'.rxbuf ≡ []) × (0 < miss iov'))
      → patience st ≤ most
      → (0 < miss iov' → miss iov' + patience st < left x)
      → Turns x (refill_wait kernel iov' r' st)
  wait-Turns x [] r' st [] c l t s o p h = inl (
    (ok tt, r', st),
    refill_wait-end kernel r' st,
    (refl, sym (scatter_end [] r'.mem) ∙ t, s, c, p),
  )
  wait-Turns x [] r' st (v ∷ vs) c l t s o p h = absurd (omega arith)
  wait-Turns x (b ∷ iov) r' st later c l t s (inl e) p h = absurd (nil≢cons (sym e))
  wait-Turns x (b ∷ iov) r' st later c l t s (inr (e, n)) p h =
      let (w, same, less) = waits st in
      inr (
        (b ∷ iov, r', (fdin st).1),
        refill_wait-ok kernel b iov r' st w,
        (later, same ∙ sym (ap (λ l. l ++ content st) e) ∙ c, l, n, t, omega arith),
        omega (arith, h n),
      )

  copied-Turns :
      (x : List Iov × Rx × S) (p : ℕ) (got : List ℕ) (iov : List Iov) (r : Rx) (st : S)
      (bytes : List ℕ)
      → got ++ content st ≡ bytes ++ rest
      → length bytes ≡ miss iov
      → scatter iov bytes r.mem ≡ target
      → length got < 2 ^ 64
      → patience st ≤ most
      → miss iov + patience st < length got + left x
      → Turns x (copied kernel p got iov r st)
  unfolding copied refill_wait
  copied-Turns x p got iov r st bytes c l t s m h =
      let (us, split, n, f, s', o) =
        copy_all_lem iov (with_received p got r) (received-Sound p got s) in
      let later = drop (length us) bytes in
      let r' = (copy_all iov (with_received p got r)).1 in
      let came : got ≡ us ++ pending r'.rxbuf = sym (pending-received p got) ∙ split in
      let (whole, after) =
        append-split us (pending r'.rxbuf ++ content st) bytes rest
          (sym (append_assoc us (pending r'.rxbuf) (content st))
            ∙ sym (ap (λ l. l ++ content st) came)
            ∙ c)
          (omega arith) in
      wait-Turns x (copy_all iov (with_received p got r)).0 r' st later after
        (length-drop (length us) bytes ∙ omega arith)
        (f later ∙ ap (λ l. scatter iov l r.mem) (sym whole) ∙ t) s' o m
        (λ q. elim o [
          | inl e ↦ absurd (omega (arith, ap miss e))
          | inr (e, _) ↦
              omega (arith, ap length came, length-append us (pending r'.rxbuf), ap length e)
        ])

  refill-Turns :
      (x : List Iov × Rx × S) (b : Chunk) (iov : List Iov) (r : Rx) (st : S) (bytes : List ℕ)
      → content st ≡ bytes ++ rest
      → length bytes ≡ miss iov
      → 0 < miss iov
      → scatter iov bytes r.mem ≡ target
      → patience st ≤ most
      → miss iov + patience st ≤ left x
      → Turns x (refill kernel b iov r st)
  refill-Turns x b iov r st bytes c l n t m h =
      let after = (recvmsg 1984 st).1 in
      elim (arrives 1984 st (omega arith)) [
        | inl (e, same, less) ↦ subst (Turns x) (sym (refill-would_block kernel b iov r st e)) (
            copied-Turns x b.ptr [] iov r after bytes (same ∙ c) l t (omega arith) (omega arith)
              (omega arith))
        | inr (inl (v, vs, e, fits, next, less)) ↦
            subst (Turns x) (sym (refill-moved kernel b iov r st v vs e)) (
              copied-Turns x b.ptr (v ∷ vs) iov r after bytes (sym next ∙ c) l t (omega arith)
                (omega arith) (omega arith))
        | inr (inr (e, empty, same)) ↦
            absurd (omega (arith, ap length (sym empty ∙ c), length-append bytes rest))
      ]

  allocbuf_lem :
      (c : Cache) (st : S)
      → (p : ℕ) × (c' : Cache) × (st' : S) × (allocbuf kernel c st ≡ (some p, c', st'))
        × (content st' ≡ content st)
        × (patience st' ≤ patience st)
  allocbuf_lem c st = elim (List-cases c.spare) [
    | inr (p, ps, e) ↦ (p, _, st, allocbuf-spare kernel c p ps st e, refl, omega arith)
    | inl e ↦
        let (p, a, same, less) = allocates st in
        (
          p,
          c,
          (kernel.malloc st).1,
          allocbuf-malloc kernel c st e ∙ ap (λ o. (o, c, (kernel.malloc st).1)) a,
          same,
          less,
        )
  ]

  refill_turn-Refilling :
      (x : List Iov × Rx × S)
      → Refilling x
      → Progresses (refill_turn kernel) Refilling left Refilled x
  refill_turn-Refilling (iov, r, st) (bytes, c, l, n, t, m) = elim (Option-cases r.rxbuf.buf) [
    | inr (b, e) ↦
        subst (Turns (iov, r, st)) (sym (refill_turn-buffer kernel b iov r st e))
          (refill-Turns (iov, r, st) b iov r st bytes c l n t m (omega arith))
    | inl e ↦
        let (p, c', st', a, same, less) = allocbuf_lem r.cache st in
        subst (Turns (iov, r, st)) (sym (refill_turn-fresh kernel iov r st st' p c' e a)) (
          refill-Turns (iov, r, st) (record { ptr = p; bytes = [] }) iov (fresh kernel p c' r) st'
            bytes (same ∙ c) l n t (omega arith) (omega arith))
  ]

-- The loop fills the buffers with the next bytes; what else it has received stays in the buffer.
pub refill_lem :
    {S : Type 0} (kernel : Kernel S) (content : S → List ℕ) (patience : S → ℕ)
    → Delivers kernel content patience
    → (fuel : ℕ) (iov : List Iov) (r : Rx) (st : S) (bytes rest : List ℕ)
    → content st ≡ bytes ++ rest
    → length bytes ≡ miss iov
    → 0 < miss iov
    → miss iov + patience st < fuel
    → (r' : Rx) × (st' : S) × (iterate (refill_turn kernel) fuel (iov, r, st)
        ≡ returns (ok tt, r', st'))
      × (r'.mem ≡ scatter iov bytes r.mem)
      × Sound r'.rxbuf
      × (pending r'.rxbuf ++ content st' ≡ rest)
      × (patience st' ≤ patience st)
refill_lem kernel content patience d fuel iov r st bytes rest c l n f =
    let target = scatter iov bytes r.mem in
    let most = patience st in
    let ((x, r', st'), e, (a, b, s, k, p)) =
      iterate-ends (refill_turn kernel) (Refilling kernel content patience d target rest most)
        (left kernel content patience d target rest most)
        (Refilled kernel content patience d target rest most)
        (refill_turn-Refilling kernel content patience d target rest most) fuel (iov, r, st)
        (bytes, c, l, n, refl, omega arith) f in
    (r', st', e ∙ ap (λ y. returns (y, r', st')) a, b, s, k, p)
