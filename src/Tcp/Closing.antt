-- ===== src/Tcp/Closing.antt =====
-- tcp.c: closing a connection.
use libdill.Base.{
  ℕ, ◌+◌, ◌<◌, true, false, ◌||◌, List, [], length, ◌≡◌, refl, ap, ap₂, none, Bool-cases, inl, inr,
  if◌then◌else◌, ◌∙◌, arith, if-true, if-false, epipe, Result, ok, err, Run, returns,
}
use libdill.Fd.{Kernel, fd_skip}
use libdill.Fd.Buffer.{Rx, fd_recv, termrxbuf}
use libdill.Fd.Stream.{Delivers}
use libdill.Fd.Ending.{fd_skip-ends}
use libdill.Tcp.{Conn, received_by, shut_by, brecvl, tcp_done, drained, close_done, tcp_close}

-- What fd.c and the kernel have to do so that a close can succeed: SHUT_WR succeeds and leaves what comes
-- in as it is.
pub record Shuts {S : Type 0} (shutdown : S → Result (Unit {0}) × S) (content : S → List ℕ)
    (patience : S → ℕ) : Type 0 where
  pub shuts :
      (st : S)
      → ((shutdown st).0 ≡ ok tt)
        × (content (shutdown st).1 ≡ content st)
        × (patience (shutdown st).1 ≡ patience st)

fd_recv-skip :
    {S : Type 0} (kernel : Kernel S) (fuel : ℕ) (r : Rx) (st st' : S)
    → fd_skip kernel fuel fuel none r.mem st ≡ returns (err epipe, st')
    → fd_recv kernel fuel true [] r st ≡ returns (err epipe, r, st')
unfolding fd_recv
fd_recv-skip kernel fuel r st st' e = rw (fd_recv, e) refl

module _ {S : Type 0} (kernel : Kernel S) (shutdown : S → Result (Unit {0}) × S)
    (fd_close : S → S) where
  close_live :
      (fuel : ℕ) (c : Conn) (st : S)
      → c.inerr ≡ false
      → c.outerr ≡ false
      → tcp_close kernel shutdown fd_close fuel c st ≡ (
          if c.outdone
          then drained kernel shutdown fd_close (brecvl kernel shutdown fd_close fuel [] c st)
          else close_done kernel shutdown fd_close fuel (tcp_done kernel shutdown fd_close c st))
  unfolding tcp_close
  close_live fuel c st r w =
      let live : (c.inerr || c.outerr) ≡ false = ap₂ (λ x y. x || y) r w in if-false _ _ live

  done_live :
      (c : Conn) (st : S)
      → c.outdone ≡ false
      → c.outerr ≡ false
      → (shutdown st).0 ≡ ok tt
      → tcp_done kernel shutdown fd_close c st
        ≡ returns (ok tt, record c { outdone = true }, (shutdown st).1)
  unfolding tcp_done shut_by
  done_live c st o w e =
      if-false _ _ o ∙ if-false _ _ w ∙ ap (λ x. shut_by c (x, (shutdown st).1)) e

module _ {S : Type 0} (kernel : Kernel S) (shutdown : S → Result (Unit {0}) × S) (fd_close : S → S)
    (content : S → List ℕ) (patience : S → ℕ) (delivers : Delivers kernel content patience) where
  -- Receiving without a list of buffers drops what is left of the stream.
  drains :
      (fuel : ℕ) (c : Conn) (st : S)
      → c.rbusy ≡ false
      → c.indone ≡ false
      → c.inerr ≡ false
      → 512 + length (content st) + patience st < fuel
      → (st' : S) × (drained kernel shutdown fd_close (brecvl kernel shutdown fd_close fuel [] c st)
          ≡ returns (ok tt, termrxbuf c.rx.rxbuf c.rx.cache, fd_close st'))
        × (content st' ≡ [])
  unfolding brecvl received_by drained
  drains fuel c st b i r f =
      let (st', e, k) =
        fd_skip-ends kernel content patience delivers fuel fuel c.rx.mem st (omega arith)
          (omega arith) in
      let live = λ (run : Run (Result (Unit {0}) × Rx × S)).
        drained kernel shutdown fd_close (received_by (record c { rbusy = true }) run) in
      (
        st',
        ap (drained kernel shutdown fd_close) (if-false _ _ b ∙ if-false _ _ i ∙ if-false _ _ r)
            ∙ ap live (fd_recv-skip kernel fuel c.rx st st' e),
        k,
      )

-- dill_tcp_close on a live connection drops what the peer still sends, up to the end of the stream, and
-- succeeds; the descriptor is closed and the buffer given back.
pub tcp_close_lem :
    {S : Type 0} (kernel : Kernel S) (shutdown : S → Result (Unit {0}) × S) (fd_close : S → S)
    (content : S → List ℕ) (patience : S → ℕ)
    → Delivers kernel content patience
    → Shuts shutdown content patience
    → (fuel : ℕ) (c : Conn) (st : S) → c.rbusy ≡ false
    → c.indone ≡ false
    → c.inerr ≡ false
    → c.outerr ≡ false
    → 512 + length (content st) + patience st < fuel
    → (st' : S) × (tcp_close kernel shutdown fd_close fuel c st
        ≡ returns (ok tt, termrxbuf c.rx.rxbuf c.rx.cache, fd_close st'))
      × (content st' ≡ [])
unfolding close_done
tcp_close_lem kernel shutdown fd_close content patience d s fuel c st b i r w f =
    elim (Bool-cases c.outdone) [
      | inl o ↦
          let (st', e, k) = drains kernel shutdown fd_close content patience d fuel c st b i r f in
          (st', close_live kernel shutdown fd_close fuel c st r w ∙ if-true _ _ o ∙ e, k)
      | inr o ↦
          let (x, same, still) = s.shuts st in
          let (st', e, k) =
            drains kernel shutdown fd_close content patience d fuel (record c { outdone = true })
              (shutdown st).1 b i r (omega (arith, ap length same)) in
          (
            st',
            close_live kernel shutdown fd_close fuel c st r w
                ∙ if-false _ _ o
                ∙ ap (close_done kernel shutdown fd_close fuel)
                    (done_live kernel shutdown fd_close c st o w x)
                ∙ e,
            k,
          )
    ]
