-- ===== src/Ws/Tests.antt =====
-- ws.c on concrete messages.
use libdill.Base.{
  ℕ, ◌≡◌, refl, Bool, true, false, Option, none, some, List, [], ◌∷◌, arith, inr, Result, ok, err,
  epipe,
}
use libdill.Bsock.{pipe, pipe-Carries, concat}
use libdill.Ws.{WsSock, sendl_base}
use libdill.Ws.Receive.{
  recvl_base, recv_frames, recv_frame, recv_opened, recv_sized, recv_rest, recv_payload, recv_here,
  recv_mask, recv_len, on_opcode,
}
use libdill.Ws.Calls.{ws_done, ws_status}
use libdill.Ws.Messages.{recvl_base-sendl_base}
use libdill.Ws.Closing.{ws_status-ws_done}

abbrev client : WsSock
client = record {
  u = 1;
  text = true;
  indone = false;
  outdone = false;
  server = false;
  mem = true;
  status = 0;
  msglen = 0;
  msg = [];
}

abbrev server : WsSock
server = record client { u = 2; server = true }

abbrev mask : List ℕ
mask = 1 ∷ 2 ∷ 3 ∷ 4 ∷ []

abbrev message : List (List ℕ)
message = (65 ∷ 66 ∷ []) ∷ [] ∷ (67 ∷ []) ∷ []

recvl_base_example :
    (st1 st2 : List ℕ) × (sendl_base pipe (ok mask) 1 message client [] ≡ some (ok tt, st1))
    × (recvl_base pipe 1 8 [] server st1 ≡ some (ok 3, some true, concat message ∷ [], server, st2))
    × (st2 ≡ [])
recvl_base_example =
    recvl_base-sendl_base pipe (λ q. q) pipe-Carries mask true message 8 [] client server [] refl
      refl (omega arith, (omega arith, (omega arith, tt))) (omega arith) (inr (omega arith))
      (omega arith) refl refl refl

ws_status_example :
    (st1 st2 : List ℕ) × (b' : WsSock) × (bufs : List (List ℕ)) × (ws_done pipe
        (ok mask)
        1000
        (some (79 ∷ 75 ∷ []))
        2
        server
        []
      ≡ some (ok tt, record server { outdone = true }, st1))
    × (recvl_base pipe 1 8 [] client st1 ≡ some (err epipe, none, bufs, b', st2))
    × (ws_status true 8 b' ≡ ok (1000, 2, 79 ∷ 75 ∷ []))
    × (st2 ≡ [])
ws_status_example =
    ws_status-ws_done pipe (λ q. q) pipe-Carries mask 1000 (79 ∷ 75 ∷ []) 8 8 [] server client []
      refl (omega arith) (omega arith) (omega arith, (omega arith, tt)) (omega arith) (omega arith)
      refl refl refl refl

abbrev buffers_of :
    Option (Result ℕ × Option Bool × List (List ℕ) × WsSock × List ℕ) → List (List ℕ)
buffers_of none = []
buffers_of (some (r, flags, bufs, self, st)) = bufs

-- A client closes with the status 1000 and the bytes 79 and 75. The mask starts again in the second
-- buffer, and the server finds other bytes there.
garbled :
    buffers_of (recvl_base pipe 1 8 [] server (136 ∷ 132 ∷ 1 ∷ 2 ∷ 3 ∷ 4 ∷ 2 ∷ 234 ∷ 76 ∷ 79 ∷ []))
    ≡ (3 ∷ 232 ∷ []) ∷ (77 ∷ 77 ∷ []) ∷ []
unfolding recvl_base recv_frames recv_frame recv_opened recv_sized recv_rest recv_payload recv_here
    recv_mask recv_len on_opcode
garbled = refl

-- A message of two fragments, 1 2 and 3, received into one buffer: the second fragment is stored over the
-- first.
overwritten :
    buffers_of (recvl_base pipe 2 8 [] client (1 ∷ 2 ∷ 1 ∷ 2 ∷ 128 ∷ 1 ∷ 3 ∷ []))
    ≡ (3 ∷ 2 ∷ []) ∷ []
unfolding recvl_base recv_frames recv_frame recv_opened recv_sized recv_rest recv_payload recv_here
    recv_mask recv_len on_opcode
overwritten = refl
