-- ===== src/Tcp/Tests.antt =====
-- tcp.c on concrete connections over a kernel that plays a script.
use libdill.Base.{
  ◌≡◌, refl, true, false, none, [], ◌∷◌, ok, err, econnreset, epipe, arith, returns, Result,
  iterate,
}
use libdill.Fd.{
  Kernel, failed, fd_send, send_turn, send_some, skip_empty, recv_turn, recv_direct, fd_skip,
}
use libdill.Fd.Buffer.{initrxbuf, termrxbuf, fd_recv}
use libdill.Fd.Script.{Script, script, script-Delivers, coming, stops}
use libdill.Tcp.{Conn, bsendl, brecvl, tcp_done, tcp_close, sent_by, received_by}
use libdill.Tcp.Errors.{bsendl-sticky, brecvl-sticky}
use libdill.Tcp.Closing.{Shuts, tcp_close_lem}

abbrev conn : Conn
conn = record {
  rx = record {
    rxbuf = initrxbuf;
    cache = record { count = 0; spare = []; freed = [] };
    mem = λ a. 0;
  };
  rbusy = false;
  sbusy = false;
  indone = false;
  outdone = false;
  inerr = false;
  outerr = false;
}

abbrev peer : Script
peer = record { chunks = (1 ∷ 2 ∷ []) ∷ [] ∷ (3 ∷ []) ∷ []; busy = 0; accepted = [] }

abbrev shut : Script → Result (Unit {0}) × Script
shut s = (ok tt, s)

abbrev closed : Script → Script
closed s = s

shut-Shuts : Shuts shut coming stops
shut-Shuts = record { shuts = λ s. (refl, refl, refl) }

tcp_close_example :
    (st' : Script) × (tcp_close script shut closed 600 conn peer
      ≡ returns (ok tt, termrxbuf conn.rx.rxbuf conn.rx.cache, st'))
    × (coming st' ≡ [])
tcp_close_example =
    tcp_close_lem script shut closed coming stops script-Delivers shut-Shuts 600 conn peer refl refl
      refl refl (omega arith)

-- A kernel whose connection has been reset.
abbrev reset : Kernel Script
reset = record script { sendmsg = λ bufs s. (failed epipe, s) }

bsendl-sticky_example :
    (bsendl reset shut closed 3 ((7 ∷ []) ∷ []) (record conn { outerr = true }) peer
      ≡ returns (err econnreset, record conn { outerr = true }, peer))
    × (tcp_done reset shut closed (record conn { outerr = true }) peer
        ≡ returns (err econnreset, record conn { outerr = true }, peer))
unfolding bsendl sent_by fd_send send_turn send_some skip_empty iterate
bsendl-sticky_example =
    bsendl-sticky reset shut closed 2 3 ((1 ∷ []) ∷ []) ((7 ∷ []) ∷ []) conn
      (record conn { outerr = true }) peer peer peer econnreset refl refl

abbrev silent : Script
silent = record { chunks = []; busy = 0; accepted = [] }

abbrev ended : Conn
ended = record conn { indone = true }

brecvl-sticky_example :
    brecvl script shut closed 5 (record { base = none; len = 1 } ∷ []) ended peer
    ≡ returns (err epipe, ended, peer)
unfolding brecvl received_by fd_recv fd_skip recv_direct recv_turn iterate
brecvl-sticky_example =
    brecvl-sticky script shut closed 2 5 [] (record { base = none; len = 1 } ∷ []) conn ended silent
      silent peer epipe refl refl
