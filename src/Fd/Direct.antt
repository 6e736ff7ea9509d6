-- ===== src/Fd/Direct.antt =====
-- fd.c: `dill_fd_recv_` and `dill_fd_skip`.
use libdill.Base.{
  ℕ, zero, suc, ◌+◌, ◌-◌, ◌≤◌, ◌<◌, false, none, some, List, [], ◌∷◌, ◌++◌, take, drop, length,
  ◌==◌, ◌≡◌, ◌⊎◌, inl, inr, refl, sym, ap, take-append-drop, length-take, ◌∙◌, arith, Result, ok,
  err, epipe, done, again, iterate-ends, Progresses, returns, length-append, append-split,
  length-drop, ap₂,
}
use mathlib.Core.List.{append_assoc}
use libdill.Iol.{Memory}
use libdill.Fd.{
  Kernel, moved, would_block, Iov, miss, scatter, filled, recv_turn, recv_wait, recv_direct,
  fd_skip, to_recv,
}
use libdill.Fd.Scatter.{scatter-filled, miss-filled, scatter_end, Nonzero, filled-Nonzero}
use libdill.Fd.Stream.{Delivers}

module _ {S : Type 0} (kernel : Kernel S) where
  open kernel use {recvmsg, fdin}

  -- A turn by what the kernel says.
  pub recv_turn-would_block :
      (iov : List Iov) (m : Memory) (st : S)
      → (recvmsg (miss iov) st).0 ≡ would_block
      → recv_turn kernel (iov, m, st) ≡ recv_wait kernel iov m (recvmsg (miss iov) st).1
  unfolding recv_turn
  recv_turn-would_block iov m st e = rw (recv_turn, e) refl

  pub recv_turn-moved :
      (iov : List Iov) (v : ℕ) (vs : List ℕ) (m : Memory) (st : S)
      → (recvmsg (miss iov) st).0 ≡ moved (v ∷ vs)
      → recv_turn kernel (iov, m, st)
        ≡ recv_wait kernel
            (filled (length (v ∷ vs)) iov)
            (scatter iov (v ∷ vs) m)
            (recvmsg (miss iov) st).1
  unfolding recv_turn
  recv_turn-moved iov v vs m st e = rw (recv_turn, e) refl

  pub recv_turn-end :
      (iov : List Iov) (m : Memory) (st : S)
      → (recvmsg (miss iov) st).0 ≡ moved []
      → recv_turn kernel (iov, m, st) ≡ done (err epipe, m, (recvmsg (miss iov) st).1)
  unfolding recv_turn
  recv_turn-end iov m st e = rw (recv_turn, e) refl

  pub recv_wait-ok :
      (iov : List Iov) (m : Memory) (st : S)
      → 0 < miss iov
      → (fdin st).0 ≡ ok tt
      → recv_wait kernel iov m st ≡ again (iov, m, (fdin st).1)
  unfolding recv_wait
  recv_wait-ok [] m st p e = absurd (omega arith)
  recv_wait-ok (b ∷ iov) m st p e = rw (recv_wait, e) refl

  recv_wait-end : (m : Memory) (st : S) → recv_wait kernel [] m st ≡ done (ok tt, m, st)
  unfolding recv_wait
  recv_wait-end m st = refl

module _ {S : Type 0} (kernel : Kernel S) (content : S → List ℕ) (patience : S → ℕ)
    (delivers : Delivers kernel content patience) (target : Memory) (rest : List ℕ) (most : ℕ) where
  open kernel use {recvmsg, fdin}
  open delivers use {arrives, waits}

  -- The bytes that are still to come complete what has been filled.
  abbrev Filling : List Iov × Memory × S → Type 0
  Filling (iov, m, st) =
      (bytes : List ℕ) × (content st ≡ bytes ++ rest)
      × (length bytes ≡ miss iov)
      × Nonzero iov
      × (0 < miss iov)
      × (scatter iov bytes m ≡ target)
      × (patience st ≤ most)

  abbrev Filled : Result (Unit {0}) × Memory × S → Type 0
  Filled (r, m, st) = (r ≡ ok tt) × (m ≡ target) × (content st ≡ rest) × (patience st ≤ most)

  abbrev left : List Iov × Memory × S → ℕ
  left (iov, m, st) = miss iov + patience st

  wait-Filling :
      (iov : List Iov) (m : Memory) (st : S) (bytes : List ℕ)
      → content st ≡ bytes ++ rest
      → length bytes ≡ miss iov
      → Nonzero iov
      → scatter iov bytes m ≡ target
      → patience st ≤ most
      → ((r : Result (Unit {0}) × Memory × S) × (recv_wait kernel iov m st ≡ done r) × Filled r)
        ⊎ ((x : List Iov × Memory × S) × (recv_wait kernel iov m st ≡ again x)
            × Filling x
            × (left x ≤ miss iov + patience st))
  wait-Filling [] m st [] c l z t p =
      inl ((ok tt, m, st), recv_wait-end kernel m st, (refl, sym (scatter_end [] m) ∙ t, c, p))
  wait-Filling [] m st (v ∷ vs) c l z t p = absurd (omega arith)
  wait-Filling (b ∷ iov) m st bytes c l (n, z) t p =
      let (e, same, less) = waits st in
      let some_room : 0 < miss (b ∷ iov) = omega arith in
      inr (
        (b ∷ iov, m, (fdin st).1),
        recv_wait-ok kernel (b ∷ iov) m st some_room e,
        (bytes, same ∙ c, l, (n, z), some_room, t, omega arith),
        omega arith,
      )

  -- The same of a turn that goes on to wait with less to do.
  turn-Progresses :
      (x : List Iov × Memory × S) (iov : List Iov) (m : Memory) (st : S) (bytes : List ℕ)
      → recv_turn kernel x ≡ recv_wait kernel iov m st
      → miss iov + patience st < left x
      → content st ≡ bytes ++ rest
      → length bytes ≡ miss iov
      → Nonzero iov
      → scatter iov bytes m ≡ target
      → patience st ≤ most
      → Progresses (recv_turn kernel) Filling left Filled x
  turn-Progresses x iov m st bytes e lt c l z t p = elim (wait-Filling iov m st bytes c l z t p) [
    | inl (r, e', f) ↦ inl (r, e ∙ e', f)
    | inr (x', e', f, le) ↦ inr (x', e ∙ e', f, omega arith)
  ]

  recv_turn-Filling :
      (x : List Iov × Memory × S) → Filling x → Progresses (recv_turn kernel) Filling left Filled x
  recv_turn-Filling (iov, m, st) (bytes, c, l, z, n, t, p) =
      let after = (recvmsg (miss iov) st).1 in
      elim (arrives (miss iov) st n) [
        | inl (e, same, less) ↦
            turn-Progresses (iov, m, st) iov m after bytes (recv_turn-would_block kernel iov m st e)
              (omega arith) (same ∙ c) l z t (omega arith)
        | inr (inl (v, vs, e, fits, next, less)) ↦
            let xs = v ∷ vs in
            let (whole, later) =
              append-split xs (content after) bytes rest (sym next ∙ c) (omega arith) in
            let smaller = miss-filled (length xs) iov fits in
            turn-Progresses (iov, m, st) (filled (length xs) iov) (scatter iov xs m) after
              (drop (length xs) bytes) (recv_turn-moved kernel iov v vs m st e) (omega arith) later
              (length-drop (length xs) bytes ∙ omega arith) (filled-Nonzero (length xs) iov z)
              (scatter-filled iov xs (drop (length xs) bytes) m fits
                ∙ ap (λ l. scatter iov l m) (sym whole)
                ∙ t)
              (omega arith)
        | inr (inr (e, empty, same)) ↦
            absurd (omega (arith, ap length (sym empty ∙ c), length-append bytes rest))
      ]

-- `dill_fd_recv_` fills all buffers with the next bytes of the stream.
pub recv_direct_lem :
    {S : Type 0} (kernel : Kernel S) (content : S → List ℕ) (patience : S → ℕ)
    → Delivers kernel content patience
    → (fuel : ℕ) (iov : List Iov) (m : Memory) (st : S) (bytes rest : List ℕ) → Nonzero iov
    → 0 < miss iov
    → content st ≡ bytes ++ rest
    → length bytes ≡ miss iov
    → miss iov + patience st < fuel
    → (st' : S) × (recv_direct kernel fuel iov m st ≡ returns (ok tt, scatter iov bytes m, st'))
      × (content st' ≡ rest)
      × (patience st' ≤ patience st)
unfolding recv_direct
recv_direct_lem kernel content patience d fuel iov m st bytes rest z n c l f =
    let target = scatter iov bytes m in
    let ((r, m', st'), e, (a, b, k, p)) =
      iterate-ends (recv_turn kernel) (Filling kernel content patience d target rest (patience st))
        (left kernel content patience d target rest (patience st))
        (Filled kernel content patience d target rest (patience st))
        (recv_turn-Filling kernel content patience d target rest (patience st)) fuel (iov, m, st)
        (bytes, c, l, z, n, refl, omega arith) f in
    (st', e ∙ ap₂ (λ r m. returns (r, m, st')) a b, k, p)

module _ {S : Type 0} (kernel : Kernel S) where
  fd_skip_none :
      (turns fuel : ℕ) (m : Memory) (st : S)
      → fd_skip kernel (suc turns) fuel (some 0) m st ≡ returns (ok tt, st)
  unfolding fd_skip
  fd_skip_none turns fuel m st = refl

  fd_skip-again :
      (turns fuel n : ℕ) (m m' : Memory) (st st' : S)
      → 0 < n
      → recv_direct kernel fuel (record { base = none; len = to_recv (some n) } ∷ []) m st
        ≡ returns (ok tt, m', st')
      → fd_skip kernel (suc turns) fuel (some n) m st
        ≡ fd_skip kernel turns fuel (some (n - to_recv (some n))) m st'
  unfolding fd_skip
  fd_skip-again turns fuel n m m' st st' p e =
      let some_left : (n == 0) ≡ false = ground arith in rw (some_left, e) refl

-- `dill_fd_skip` drops as many bytes as it is told.
pub fd_skip_lem :
    {S : Type 0} (kernel : Kernel S) (content : S → List ℕ) (patience : S → ℕ)
    → Delivers kernel content patience
    → (turns fuel n : ℕ) (m : Memory) (st : S) (bytes rest : List ℕ) → content st ≡ bytes ++ rest
    → length bytes ≡ n
    → n < turns
    → n + patience st < fuel
    → (st' : S) × (fd_skip kernel turns fuel (some n) m st ≡ returns (ok tt, st'))
      × (content st' ≡ rest)
      × (patience st' ≤ patience st)
fd_skip_lem kernel content patience d zero fuel n m st bytes rest c l t f = absurd (omega arith)
fd_skip_lem kernel content patience d (suc turns) fuel zero m st [] rest c l t f =
    (st, fd_skip_none kernel turns fuel m st, c, omega arith)
fd_skip_lem kernel content patience d (suc turns) fuel zero m st (v ∷ vs) rest c l t f =
    absurd (omega arith)
fd_skip_lem kernel content patience d (suc turns) fuel (suc n) m st bytes rest c l t f =
    let k = to_recv (some (suc n)) in
    let some_bytes : 0 < k = ground arith in
    let fits : k ≤ suc n = ground arith in
    let taken : length (take k bytes) ≡ miss (record { base = none; len = k } ∷ []) =
      omega (arith, length-take k bytes) in
    let (st', e, c', p) =
      recv_direct_lem kernel content patience d fuel (record { base = none; len = k } ∷ []) m st
        (take k bytes) (drop k bytes ++ rest) (some_bytes, tt) (omega arith)
        (c
          ∙ ap (λ l. l ++ rest) (sym (take-append-drop k bytes))
          ∙ append_assoc (take k bytes) (drop k bytes) rest)
        taken (omega arith) in
    let (st'', e', c'', p') =
      fd_skip_lem kernel content patience d turns fuel (suc n - k) m st' (drop k bytes) rest c'
        (length-drop k bytes ∙ ap (λ x. x - k) l) (omega arith) (omega arith) in
    (
      st'',
      rw
          (fd_skip-again kernel turns fuel (suc n) m
            (scatter (record { base = none; len = k } ∷ []) (take k bytes) m) st st' (omega arith)
            e)
          e',
      c'',
      omega arith,
    )
