-- ===== src/Fd/Tests.antt =====
-- fd.c on a kernel that plays a script.
use libdill.Base.{iterate, ◌≡◌, refl, true, false, none, some, List, [], ◌∷◌, ok, arith, returns}
use libdill.Fd.{Iov, fd_send, fd_skip, skip_then, recv_large, recv_turn, recv_direct}
use libdill.Fd.Buffer.{Rx, initrxbuf, recv_missing, fd_recv}
use libdill.Fd.Copy.{init-Sound}
use libdill.Fd.Script.{Script, script, script-Delivers, script-Accepts, coming, stops}
use libdill.Fd.Receive.{Delivered, fd_recv-Delivered}
use libdill.Fd.Send.{fd_send_lem}

abbrev rx : Rx
rx = record {
  rxbuf = initrxbuf;
  cache = record { count = 0; spare = []; freed = [] };
  mem = λ a. 0;
}

-- Three chunks with a pause before each of the last two.
abbrev arriving : Script
arriving = record {
  chunks = (1 ∷ 2 ∷ 3 ∷ []) ∷ [] ∷ (4 ∷ []) ∷ [] ∷ (5 ∷ 6 ∷ 7 ∷ []) ∷ [];
  busy = 1;
  accepted = [];
}

abbrev into : List Iov
into =
    record { base = some 10; len = 2 }
    ∷ record { base = none; len = 1 }
    ∷ record { base = some 20; len = 2 }
    ∷ []

fd_recv-Delivered_example :
    Delivered coming stops true into rx arriving
      (1 ∷ 2 ∷ 3 ∷ 4 ∷ 5 ∷ [])
      (6 ∷ 7 ∷ [])
      (fd_recv script 10 true into rx arriving)
fd_recv-Delivered_example =
    fd_recv-Delivered script coming stops script-Delivers 10 true
      (record { base = some 10; len = 2 })
      (record { base = none; len = 1 } ∷ record { base = some 20; len = 2 } ∷ []) rx arriving
      (1 ∷ 2 ∷ 3 ∷ 4 ∷ 5 ∷ []) (6 ∷ 7 ∷ []) init-Sound refl refl (omega arith)

fd_send_example :
    (st' : Script) × (fd_send script 10 ([] ∷ (1 ∷ 2 ∷ 3 ∷ []) ∷ [] ∷ (4 ∷ []) ∷ []) arriving
      ≡ returns (ok tt, st'))
    × (st'.accepted ≡ 1 ∷ 2 ∷ 3 ∷ 4 ∷ [])
fd_send_example =
    fd_send_lem script (λ s. s.accepted) (λ s. s.busy) script-Accepts 10
      ([] ∷ (1 ∷ 2 ∷ 3 ∷ []) ∷ [] ∷ (4 ∷ []) ∷ []) arriving (omega arith)

abbrev ended : Script
ended = record { chunks = []; busy = 0; accepted = [] }

-- The stream has ended, so the skip fails, and the receive into NULL returns 0.
skip_fails_test :
    fd_recv script 3 false (record { base = none; len = 4 } ∷ []) rx ended
    ≡ returns (ok tt, rx, ended)
unfolding fd_recv recv_missing recv_large skip_then fd_skip recv_direct recv_turn iterate
skip_fails_test = refl
