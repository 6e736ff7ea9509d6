-- ===== src/Tcp/Errors.antt =====
-- tcp.c: a connection that has failed stays failed.
use libdill.Base.{
  ℕ, true, false, List, ◌≡◌, ◌⊎◌, inl, inr, refl, sym, ap, subst, ◌∙◌, arith, Bool-cases, if-true,
  if-false, if◌then◌else◌, Errno, epipe, econnreset, Result, ok, err, Run, returns, fault,
  out_of_fuel,
}
use libdill.Fd.{Kernel, Iov, fd_send}
use libdill.Fd.Buffer.{Rx, fd_recv}
use libdill.Tcp.{Conn, Called, sent_by, received_by, receive_failed, bsendl, brecvl, tcp_done}

-- The connection that a call leaves.
abbrev conn_of : {S : Type 0} → Conn → Called S → Conn
conn_of c (returns (r, c', st)) = c'
conn_of c x = c

-- Why a connection takes nothing more to send: it is closed for sending, or has failed.
abbrev Refusing : Conn → Type 0
Refusing c = (c.sbusy ≡ false) × ((c.outdone ≡ true) ⊎ ((c.outdone ≡ false) × (c.outerr ≡ true)))

-- The error that such a connection gives.
abbrev pub refusal : Conn → Errno
refusal c = if c.outdone then epipe else econnreset

sent_by-Refusing :
    {S : Type 0} (c : Conn) (run : Run (Result (Unit {0}) × S)) (e : Errno) (c' : Conn) (st' : S)
    → c.outdone ≡ false
    → sent_by c run ≡ returns (err e, c', st')
    → Refusing c'
unfolding sent_by
sent_by-Refusing c (returns (ok _, st)) e c' st' o q = absurd (ground arith)
sent_by-Refusing c (returns (err x, st)) e c' st' o q =
    subst Refusing (ap (conn_of c) q) (refl, inr (o, refl))
sent_by-Refusing c fault e c' st' o q = absurd (ground arith)
sent_by-Refusing c out_of_fuel e c' st' o q = absurd (ground arith)

module _ {S : Type 0} (kernel : Kernel S) (shutdown : S → Result (Unit {0}) × S)
    (fd_close : S → S) where
  abbrev send : ℕ → List (List ℕ) → Conn → S → Called S
  send = bsendl kernel shutdown fd_close

  bsendl-Refusing :
      (fuel : ℕ) (bufs : List (List ℕ)) (c c' : Conn) (st st' : S) (e : Errno)
      → c.sbusy ≡ false
      → send fuel bufs c st ≡ returns (err e, c', st')
      → Refusing c'
  unfolding bsendl
  bsendl-Refusing fuel bufs c c' st st' e b q = elim (Bool-cases c.outdone) [
    | inl o ↦ subst Refusing (ap (conn_of c) (sym (if-false _ _ b ∙ if-true _ _ o) ∙ q)) (b, inl o)
    | inr o ↦ elim (Bool-cases c.outerr) [
      | inl r ↦
          subst Refusing
            (ap (conn_of c) (sym (if-false _ _ b ∙ if-false _ _ o ∙ if-true _ _ r) ∙ q))
            (b, inr (o, r))
      | inr r ↦
          sent_by-Refusing (record c { sbusy = true }) (fd_send kernel fuel bufs st) e c' st' o
            (sym (if-false _ _ b ∙ if-false _ _ o ∙ if-false _ _ r) ∙ q)
    ]
  ]

  Refusing-bsendl :
      (fuel : ℕ) (bufs : List (List ℕ)) (c : Conn) (st : S)
      → Refusing c
      → send fuel bufs c st ≡ returns (err (refusal c), c, st)
  unfolding bsendl
  Refusing-bsendl fuel bufs c st (b, inl o) =
      if-false _ _ b ∙ if-true _ _ o ∙ ap (λ e. returns (err e, c, st)) (sym (if-true _ _ o))
  Refusing-bsendl fuel bufs c st (b, inr (o, r)) =
      if-false _ _ b
      ∙ if-false _ _ o
      ∙ if-true _ _ r
      ∙ ap (λ e. returns (err e, c, st)) (sym (if-false _ _ o))

  Refusing-tcp_done :
      (c : Conn) (st : S)
      → Refusing c
      → tcp_done kernel shutdown fd_close c st ≡ returns (err (refusal c), c, st)
  unfolding tcp_done
  Refusing-tcp_done c st (b, inl o) =
      if-true _ _ o ∙ ap (λ e. returns (err e, c, st)) (sym (if-true _ _ o))
  Refusing-tcp_done c st (b, inr (o, r)) =
      if-false _ _ o ∙ if-true _ _ r ∙ ap (λ e. returns (err e, c, st)) (sym (if-false _ _ o))

-- Why a connection gives nothing more: the stream has ended, or it has failed.
abbrev Dead : Conn → Type 0
Dead c = (c.rbusy ≡ false) × ((c.indone ≡ true) ⊎ ((c.indone ≡ false) × (c.inerr ≡ true)))

abbrev pub end_error : Conn → Errno
end_error c = if c.indone then epipe else econnreset

receive_failed-Dead :
    (e : Errno) (c : Conn) → c.rbusy ≡ false → c.indone ≡ false → Dead (receive_failed e c)
receive_failed-Dead epipe c b i = (b, inl refl)
receive_failed-Dead e c b i = (b, inr (i, refl))

received_by-Dead :
    {S : Type 0} (c : Conn) (run : Run (Result (Unit {0}) × Rx × S)) (e : Errno) (c' : Conn)
    (st' : S)
    → c.indone ≡ false
    → received_by c run ≡ returns (err e, c', st')
    → Dead c'
unfolding received_by
received_by-Dead c (returns (ok _, r, st)) e c' st' i q = absurd (ground arith)
received_by-Dead c (returns (err x, r, st)) e c' st' i q =
    subst Dead (ap (conn_of c) q)
      (receive_failed-Dead x (record c { rx = r; rbusy = false }) refl i)
received_by-Dead c fault e c' st' i q = absurd (ground arith)
received_by-Dead c out_of_fuel e c' st' i q = absurd (ground arith)

module _ {S : Type 0} (kernel : Kernel S) (shutdown : S → Result (Unit {0}) × S)
    (fd_close : S → S) where
  abbrev receive : ℕ → List Iov → Conn → S → Called S
  receive = brecvl kernel shutdown fd_close

  brecvl-Dead :
      (fuel : ℕ) (iov : List Iov) (c c' : Conn) (st st' : S) (e : Errno)
      → c.rbusy ≡ false
      → receive fuel iov c st ≡ returns (err e, c', st')
      → Dead c'
  unfolding brecvl
  brecvl-Dead fuel iov c c' st st' e b q = elim (Bool-cases c.indone) [
    | inl o ↦ subst Dead (ap (conn_of c) (sym (if-false _ _ b ∙ if-true _ _ o) ∙ q)) (b, inl o)
    | inr o ↦ elim (Bool-cases c.inerr) [
      | inl r ↦
          subst Dead (ap (conn_of c) (sym (if-false _ _ b ∙ if-false _ _ o ∙ if-true _ _ r) ∙ q))
            (b, inr (o, r))
      | inr r ↦
          received_by-Dead (record c { rbusy = true }) (fd_recv kernel fuel true iov c.rx st) e c'
            st' o (sym (if-false _ _ b ∙ if-false _ _ o ∙ if-false _ _ r) ∙ q)
    ]
  ]

  Dead-brecvl :
      (fuel : ℕ) (iov : List Iov) (c : Conn) (st : S)
      → Dead c
      → receive fuel iov c st ≡ returns (err (end_error c), c, st)
  unfolding brecvl
  Dead-brecvl fuel iov c st (b, inl o) =
      if-false _ _ b ∙ if-true _ _ o ∙ ap (λ e. returns (err e, c, st)) (sym (if-true _ _ o))
  Dead-brecvl fuel iov c st (b, inr (o, r)) =
      if-false _ _ b
      ∙ if-false _ _ o
      ∙ if-true _ _ r
      ∙ ap (λ e. returns (err e, c, st)) (sym (if-false _ _ o))

-- After a send that failed every send and dill_tcp_done fail and change nothing.
pub bsendl-sticky :
    {S : Type 0} (kernel : Kernel S) (shutdown : S → Result (Unit {0}) × S) (fd_close : S → S)
    (fuel fuel' : ℕ) (bufs bufs' : List (List ℕ)) (c c' : Conn) (st st' later : S) (e : Errno)
    → c.sbusy ≡ false
    → bsendl kernel shutdown fd_close fuel bufs c st ≡ returns (err e, c', st')
    → (bsendl kernel shutdown fd_close fuel' bufs' c' later ≡ returns (err (refusal c'), c', later))
      × (tcp_done kernel shutdown fd_close c' later ≡ returns (err (refusal c'), c', later))
bsendl-sticky kernel shutdown fd_close fuel fuel' bufs bufs' c c' st st' later e b q =
    let r = bsendl-Refusing kernel shutdown fd_close fuel bufs c c' st st' e b q in
    (
      Refusing-bsendl kernel shutdown fd_close fuel' bufs' c' later r,
      Refusing-tcp_done kernel shutdown fd_close c' later r,
    )

-- After a receive that failed every receive fails and changes nothing.
pub brecvl-sticky :
    {S : Type 0} (kernel : Kernel S) (shutdown : S → Result (Unit {0}) × S) (fd_close : S → S)
    (fuel fuel' : ℕ) (iov iov' : List Iov) (c c' : Conn) (st st' later : S) (e : Errno)
    → c.rbusy ≡ false
    → brecvl kernel shutdown fd_close fuel iov c st ≡ returns (err e, c', st')
    → brecvl kernel shutdown fd_close fuel' iov' c' later ≡ returns (err (end_error c'), c', later)
brecvl-sticky kernel shutdown fd_close fuel fuel' iov iov' c c' st st' later e b q =
    Dead-brecvl kernel shutdown fd_close fuel' iov' c' later
      (brecvl-Dead kernel shutdown fd_close fuel iov c c' st st' e b q)
