-- ===== src/Ws/Closing.antt =====
-- ws.c
-- The closing handshake: the status and the message that a server sends reach the client.
use libdill.Base.{
  ℕ, ◌+◌, ◌≤◌, ◌≡◌, refl, ◌∙◌, ap, ap₂, Bool, true, false, not, Option, none, some, List, [], ◌∷◌,
  ◌++◌, take, length, ltb, ◌==◌, if-false, arith, Result, ok, err, epipe, inl,
}
use mathlib.Core.List.{append-nil}
use libdill.Utils.Bytes.{gets, puts}
use libdill.Utils.Bytes.RoundTrip.{gets-puts, length-puts, All-puts}
use libdill.Bsock.{Bsock, Carries, concat}
use libdill.Ws.{WsSock, sendl_base}
use libdill.Ws.Receive.{Into, Recv, recvl_base, buffers, first_of, second_of}
use libdill.Ws.Payload.{IsBytes, frame}
use libdill.Ws.Reading.{start_of}
use libdill.Ws.CloseFrame.{closing, recv_end-closed, recv_close}
use libdill.Ws.Messages.{mask_of, sendl_base-content}
use libdill.Ws.Calls.{close_bufs, ws_done, ws_status, bad_status}

-- The status of a socket that a close frame has reached.
status_read :
    (b : WsSock) (status : ℕ) (m : List ℕ) (room : ℕ)
    → b.indone ≡ true
    → b.status ≡ status
    → b.msglen ≡ length m
    → length m ≤ room
    → take (length m) b.msg ≡ m
    → ws_status true room b ≡ ok (status, length m, m)
unfolding ws_status
status_read b status m room closed code len fits taken =
    let done : not b.indone ≡ false = ap not closed in
    let roomy : ltb room b.msglen ≡ false = ground arith in
    let all : take b.msglen b.msg ≡ m = ap (λ n. take n b.msg) len ∙ taken in
    rw (ws_status, done, roomy) (join code len all)
  where
    join :
        b.status ≡ status
        → b.msglen ≡ length m
        → take b.msglen b.msg ≡ m
        → Path
            (Result (ℕ × ℕ × List ℕ))
            (ok (b.status, b.msglen, take b.msglen b.msg))
            (ok (status, length m, m))
    join h k l = λ i. ok (h i, k i, l i)

close_payload :
    (status : ℕ) (m : List ℕ)
    → 1000 ≤ status
    → concat (close_bufs status m) ≡ puts (0 ∷ 0 ∷ []) status ++ m
close_payload status m lo =
    let some_status : (status == 0) ≡ false = ground arith in
    rw (some_status) (ap (λ k. puts (0 ∷ 0 ∷ []) status ++ k) (append-nil m))

module _ {S : Type 0} (below : Bsock S) (content : S → List ℕ)
    (carries : Carries below content) where
  -- `dill_ws_done` of a server with a status from 1000 to 4999 and a message of at most 123 bytes, on a
  -- connection with nothing on the way: the client's next receive fails with EPIPE, and `dill_ws_status`
  -- then gives that status and that message.
  pub ws_status-ws_done :
      (random : List ℕ) (status : ℕ) (m : List ℕ) (len room : ℕ) (lens : List ℕ) (a b : WsSock)
      (st : S)
      → content st ≡ []
      → 1000 ≤ status
      → status ≤ 4999
      → IsBytes m
      → length m ≤ 123
      → length m ≤ room
      → a.server ≡ true
      → a.outdone ≡ false
      → b.indone ≡ false
      → b.server ≡ false
      → (st1 st2 : S) × (b' : WsSock) × (bufs : List (List ℕ)) × (ws_done below
            (ok random)
            status
            (some m)
            (length m)
            a
            st
          ≡ some (ok tt, record a { outdone = true }, st1))
        × (recvl_base below 1 len lens b st1 ≡ some (err epipe, none, bufs, b', st2))
        × (ws_status true room b' ≡ ok (status, length m, m))
        × (content st2 ≡ [])
  unfolding ws_done
  ws_status-ws_done random status m len room lens a b st empty lo hi bytes short fits server going
        going' client =
      let s : List ℕ = puts (0 ∷ 0 ∷ []) status in
      let (st1, sent, left) =
        sendl_base-content below content carries random 8 (close_bufs status m) a st (inl server)
          going in
      let on_wire =
        left
        ∙ ap₂ (λ k l. k ++ frame 8 l (concat (close_bufs status m))) empty
            (ap (λ c. mask_of c random) server)
        ∙ ap (λ k. frame 8 none k) (close_payload status m lo) in
      let (q, is, ended) =
        recv_close below content carries s m len lens b st1 (length-puts 0 0 status) short
          (All-puts 0 0 status) bytes going' client on_wire in
      let r : Recv = record (closing (start_of len lens b)) { res = 2 + length m; into = q.1 } in
      let code : gets (first_of (buffers q.1)) ≡ status =
        ap gets ended.1 ∙ gets-puts 0 0 status [] (omega (arith, hi)) in
      let done = recv_end-closed r status (length m) refl code lo hi refl short in
      let b' : WsSock = record (record b { indone = true }) {
        status = status;
        msglen = length m;
        msg = second_of b.msg (buffers q.1);
      } in
      (
        st1,
        q.2,
        b',
        buffers q.1,
        done_sent st1 sent,
        is ∙ ap (λ e. end_with q e) done,
        status_read b' status m room refl refl refl fits ended.2,
        ended.3,
      )
    where
      end_with :
          Result (Unit {0}) × Into × S
          → Result ℕ × WsSock
          → Option (Result ℕ × Option Bool × List (List ℕ) × WsSock × S)
      end_with q e = some (e.0, none, buffers q.1, e.1, q.2)

      valid : bad_status status ≡ false
      valid = ground arith

      done_sent :
          (st1 : S)
          → sendl_base below (ok random) 8 (close_bufs status m) a st ≡ some (ok tt, st1)
          → ws_done below (ok random) status (some m) (length m) a st
            ≡ some (ok tt, record a { outdone = true }, st1)
      done_sent st1 sent = rw (ws_done, valid) (if-false _ _ going ∙ rw (sent) refl)
