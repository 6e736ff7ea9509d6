-- ===== src/Tcp.antt =====
-- tcp.c: a connection over a descriptor. Its calls other than `dill_fd_send` and `dill_fd_recv` (Fd) are
-- parameters: `shutdown` with SHUT_WR, and `dill_fd_close`.
pub mod Errors
pub mod Closing
pub mod Tests
use libdill.Base.{
  ℕ, Bool, true, false, ◌||◌, List, [], if◌then◌else◌, Errno, ebusy, epipe, econnreset, enomem,
  enotconn, enobufs, Result, ok, err, Run, returns, fault, out_of_fuel,
}
use libdill.Fd.{Kernel, Iov, fd_send}
use libdill.Fd.Buffer.{Cache, Rx, termrxbuf, fd_recv}

-- `struct dill_tcp_conn` without the descriptor; the buffer is a part of `rx`.
pub record Conn : Type 0 where
  pub rx : Rx
  pub rbusy : Bool
  pub sbusy : Bool
  pub indone : Bool
  pub outdone : Bool
  pub inerr : Bool
  pub outerr : Bool

-- `if(errno == EPIPE) self->indone = 1; else self->inerr = 1;`
abbrev pub receive_failed : Errno → Conn → Conn
receive_failed epipe c = record c { indone = true }
receive_failed e c = record c { inerr = true }

-- What a call does to the connection and to the kernel's state.
abbrev pub Called : Type 0 → Type 0
Called S = Run (Result (Unit {0}) × Conn × S)

module _ {S : Type 0} where
  -- The end of `dill_tcp_bsendl` and of `dill_tcp_brecvl`.
  unfoldable pub sent_by : Conn → Run (Result (Unit {0}) × S) → Called S
  sent_by c (returns (ok _, st)) = returns (ok tt, record c { sbusy = false }, st)
  sent_by c (returns (err e, st)) = returns (err e, record c { sbusy = false; outerr = true }, st)
  sent_by c fault = fault
  sent_by c out_of_fuel = out_of_fuel

  unfoldable pub received_by : Conn → Run (Result (Unit {0}) × Rx × S) → Called S
  received_by c (returns (ok _, r, st)) = returns (ok tt, record c { rx = r; rbusy = false }, st)
  received_by c (returns (err e, r, st)) =
      returns (err e, receive_failed e (record c { rx = r; rbusy = false }), st)
  received_by c fault = fault
  received_by c out_of_fuel = out_of_fuel

  -- The end of `dill_tcp_done`, by what `shutdown` returns.
  unfoldable pub shut_by : Conn → Result (Unit {0}) × S → Called S
  shut_by c (ok _, st) = returns (ok tt, record c { outdone = true }, st)
  shut_by c (err enotconn, st) = returns (err econnreset, record c { outerr = true }, st)
  shut_by c (err enobufs, st) = returns (err enomem, record c { outerr = true }, st)
  shut_by c (err e, st) = fault

module _ {S : Type 0} (kernel : Kernel S) (shutdown : S → Result (Unit {0}) × S)
    (fd_close : S → S) where
  unfoldable pub bsendl : ℕ → List (List ℕ) → Conn → S → Called S
  bsendl fuel bufs c st =
      if c.sbusy
      then returns (err ebusy, c, st)
      else if c.outdone
      then returns (err epipe, c, st)
      else if c.outerr
      then returns (err econnreset, c, st)
      else sent_by (record c { sbusy = true }) (fd_send kernel fuel bufs st)

  unfoldable pub brecvl : ℕ → List Iov → Conn → S → Called S
  brecvl fuel iov c st =
      if c.rbusy
      then returns (err ebusy, c, st)
      else if c.indone
      then returns (err epipe, c, st)
      else if c.inerr
      then returns (err econnreset, c, st)
      else received_by (record c { rbusy = true }) (fd_recv kernel fuel true iov c.rx st)

  unfoldable pub tcp_done : Conn → S → Called S
  tcp_done c st =
      if c.outdone
      then returns (err epipe, c, st)
      else if c.outerr
      then returns (err econnreset, c, st)
      else shut_by c (shutdown st)

  -- `dill_tcp_hclose`, behind which the call returns `r`.
  abbrev pub tcp_hclose : Result (Unit {0}) → Conn → S → Result (Unit {0}) × Cache × S
  tcp_hclose r c st = (r, termrxbuf c.rx.rxbuf c.rx.cache, fd_close st)

  -- What `dill_tcp_close` does with the errors of `dill_tcp_brecvl`, which here never succeeds.
  unfoldable pub drained : Called S → Run (Result (Unit {0}) × Cache × S)
  drained (returns (err epipe, c, st)) = returns (tcp_hclose (ok tt) c st)
  drained (returns (err e, c, st)) = returns (tcp_hclose (err e) c st)
  drained (returns (ok _, c, st)) = fault
  drained fault = fault
  drained out_of_fuel = out_of_fuel

  unfoldable pub close_done : ℕ → Called S → Run (Result (Unit {0}) × Cache × S)
  close_done fuel (returns (ok _, c, st)) = drained (brecvl fuel [] c st)
  close_done fuel (returns (err e, c, st)) = returns (tcp_hclose (err e) c st)
  close_done fuel fault = fault
  close_done fuel out_of_fuel = out_of_fuel

  -- `dill_tcp_close` of a connection.
  unfoldable pub tcp_close : ℕ → Conn → S → Run (Result (Unit {0}) × Cache × S)
  tcp_close fuel c st =
      if c.inerr || c.outerr
      then returns (tcp_hclose (err econnreset) c st)
      else if c.outdone
      then drained (brecvl fuel [] c st)
      else close_done fuel (tcp_done c st)
