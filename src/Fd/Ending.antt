-- ===== src/Fd/Ending.antt =====
-- fd.c: the end of the stream, and skipping up to it.
use libdill.Base.{
  ℕ, zero, suc, ◌+◌, ◌≤◌, ◌<◌, none, List, [], ◌∷◌, take, drop, length, ltb, ◌≡◌, inl, inr, refl,
  sym, ap, ◌∙◌, arith, Bool-cases, Result, ok, err, epipe, iterate-ends, Progresses, returns,
  length-append, length-take, length-drop, take-append-drop,
}
use libdill.Iol.{Memory}
use libdill.Fd.{Kernel, Iov, miss, scatter, filled, recv_turn, recv_wait, recv_direct, fd_skip}
use libdill.Fd.Scatter.{miss-filled}
use libdill.Fd.Stream.{Delivers}
use libdill.Fd.Direct.{
  recv_turn-would_block, recv_turn-moved, recv_turn-end, recv_wait-ok, recv_direct_lem,
}

module _ {S : Type 0} (kernel : Kernel S) (content : S → List ℕ) (patience : S → ℕ)
    (delivers : Delivers kernel content patience) where
  open kernel use {recvmsg, fdin}
  open delivers use {arrives, waits}

  abbrev Starving : List Iov × Memory × S → Type 0
  Starving (iov, m, st) = length (content st) < miss iov

  abbrev Starved : Result (Unit {0}) × Memory × S → Type 0
  Starved (r, m, st) = (r ≡ err epipe) × (content st ≡ [])

  abbrev left : List Iov × Memory × S → ℕ
  left (iov, m, st) = miss iov + patience st

  wait-Starving :
      (x : List Iov × Memory × S) (iov : List Iov) (m : Memory) (st : S)
      → recv_turn kernel x ≡ recv_wait kernel iov m st
      → length (content st) < miss iov
      → left (iov, m, st) < left x
      → Progresses (recv_turn kernel) Starving left Starved x
  wait-Starving x iov m st e h l =
      let (w, same, less) = waits st in
      inr (
        (iov, m, (fdin st).1),
        e ∙ recv_wait-ok kernel iov m st (omega arith) w,
        omega (arith, ap length same),
        omega arith,
      )

  recv_turn-Starving :
      (x : List Iov × Memory × S)
      → Starving x
      → Progresses (recv_turn kernel) Starving left Starved x
  recv_turn-Starving (iov, m, st) h =
      let after = (recvmsg (miss iov) st).1 in
      elim (arrives (miss iov) st (omega arith)) [
        | inl (e, same, less) ↦
            wait-Starving (iov, m, st) iov m after (recv_turn-would_block kernel iov m st e)
              (omega (arith, ap length same)) (omega arith)
        | inr (inl (v, vs, e, fits, next, less)) ↦
            let smaller = miss-filled (length (v ∷ vs)) iov fits in
            wait-Starving (iov, m, st) (filled (length (v ∷ vs)) iov) (scatter iov (v ∷ vs) m) after
              (recv_turn-moved kernel iov v vs m st e)
              (omega (arith, ap length next, length-append (v ∷ vs) (content after))) (omega arith)
        | inr (inr (e, empty, same)) ↦
            inl ((err epipe, m, after), recv_turn-end kernel iov m st e, (refl, same))
      ]

  -- A receive of more than the stream still has ends with EPIPE.
  pub recv_direct-Starved :
      (fuel : ℕ) (iov : List Iov) (m : Memory) (st : S)
      → length (content st) < miss iov
      → miss iov + patience st < fuel
      → (m' : Memory) × (st' : S) × (recv_direct kernel fuel iov m st
          ≡ returns (err epipe, m', st'))
        × (content st' ≡ [])
  unfolding recv_direct
  recv_direct-Starved fuel iov m st h f =
      let ((r, m', st'), e, (x, c)) =
        iterate-ends (recv_turn kernel) Starving left Starved recv_turn-Starving fuel (iov, m, st) h
          f in
      (m', st', e ∙ ap (λ y. returns (y, m', st')) x, c)

  skip_on :
      (turns fuel : ℕ) (m m' : Memory) (st st' : S)
      → recv_direct kernel fuel (record { base = none; len = 512 } ∷ []) m st
        ≡ returns (ok tt, m', st')
      → fd_skip kernel (suc turns) fuel none m st ≡ fd_skip kernel turns fuel none m st'
  unfolding fd_skip
  skip_on turns fuel m m' st st' e = rw (fd_skip, e) refl

  skip_end :
      (turns fuel : ℕ) (m m' : Memory) (st st' : S)
      → recv_direct kernel fuel (record { base = none; len = 512 } ∷ []) m st
        ≡ returns (err epipe, m', st')
      → fd_skip kernel (suc turns) fuel none m st ≡ returns (err epipe, st')
  unfolding fd_skip
  skip_end turns fuel m m' st st' e = rw (fd_skip, e) refl

  -- Skipping without a length drops all that is left of the stream and ends with EPIPE.
  pub fd_skip-ends :
      (turns fuel : ℕ) (m : Memory) (st : S)
      → length (content st) < turns
      → 512 + patience st < fuel
      → (st' : S) × (fd_skip kernel turns fuel none m st ≡ returns (err epipe, st'))
        × (content st' ≡ [])
  fd_skip-ends zero fuel m st t f = absurd (omega arith)
  fd_skip-ends (suc turns) fuel m st t f =
      let buf : Iov = record { base = none; len = 512 } in
      elim (Bool-cases (ltb (length (content st)) 512)) [
        | inl h ↦
            let (m', st', e, c) =
              recv_direct-Starved fuel (buf ∷ []) m st (ground arith) (omega arith) in
            (st', skip_end turns fuel m m' st st' e, c)
        | inr h ↦
            let long : 512 ≤ length (content st) = ground arith in
            let bytes = take 512 (content st) in
            let (st', e, c, p) =
              recv_direct_lem kernel content patience delivers fuel (buf ∷ []) m st bytes
                (drop 512 (content st)) (omega arith, tt) (omega arith)
                (sym (take-append-drop 512 (content st)))
                (omega (arith, length-take 512 (content st))) (omega arith) in
            let (st'', e', c') =
              fd_skip-ends turns fuel m st'
                (omega (arith, ap length c, length-drop 512 (content st))) (omega arith) in
            (st'', skip_on turns fuel m (scatter (buf ∷ []) bytes m) st st' e ∙ e', c')
      ]
