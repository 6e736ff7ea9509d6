-- ===== src/Ws/Calls.antt =====
-- ws.c: the calls of a message socket, the closing handshake and the status. `none` is a run that
-- is out of fuel, or a send that writes outside its buffer.
use libdill.Base.{
  ℕ, zero, suc, ◌-◌, ◌^◌, Bool, true, false, not, ◌&&◌, ◌||◌, Option, none, some, List, [], ◌∷◌,
  take, ltb, ◌==◌, if◌then◌else◌, einval, epipe, eproto, eagain, emsgsize, Result, ok, err,
}
use libdill.Utils.Bytes.{puts}
use libdill.Bsock.{Bsock}
use libdill.Ws.{WsSock, sendl_base}
use libdill.Ws.Receive.{recvl_base}

-- `(flags & DILL_WS_TEXT) ? 0x1 : 0x2`
abbrev pub data_type : Bool → ℕ
data_type text = if text then 1 else 2

-- The two buffers of a close frame: the status, unless it is 0, and the caller's.
abbrev pub close_bufs : (status : ℕ) → List ℕ → List (List ℕ)
close_bufs status buf = (if status == 0 then [] else puts (0 ∷ 0 ∷ []) status) ∷ buf ∷ []

-- The caller's buffer is `none` for NULL, of the length `len` then.
abbrev pub no_buf : (buf : Option (List ℕ)) (len : ℕ) → Bool
no_buf none len = ltb 0 len
no_buf (some b) len = false

abbrev pub bytes_of : Option (List ℕ) → List ℕ
bytes_of none = []
bytes_of (some b) = b

abbrev pub bad_status : ℕ → Bool
bad_status status = not (status == 0) && (ltb status 1000 || ltb 4999 status)

-- `dill_ws_status`; a NULL `buf` is `none`, otherwise it has room for `len` bytes.
unfoldable pub ws_status : (buf : Bool) (len : ℕ) → WsSock → Result (ℕ × ℕ × List ℕ)
ws_status buf len self =
    if not buf && ltb 0 len
    then err einval
    else if not self.indone
    then err eagain
    else if buf
    then if ltb len self.msglen
      then err emsgsize
      else ok (self.status, self.msglen, take self.msglen self.msg)
    else ok (self.status, self.msglen, [])

module _ {S : Type 0} (below : Bsock S) where
  -- `dill_ws_send` and `dill_ws_sendl`; `dill_ws_msendl` takes the socket's own flags.
  unfoldable pub ws_sendl :
      Result (List ℕ) → Bool → List (List ℕ) → WsSock → S → Option (Result (Unit {0}) × S)
  unfolding sendl_base
  ws_sendl random text bufs self st = sendl_base below random (data_type text) bufs self st

  unfoldable pub msendl :
      Result (List ℕ) → List (List ℕ) → WsSock → S → Option (Result (Unit {0}) × S)
  unfolding sendl_base
  msendl random bufs self st = sendl_base below random (data_type self.text) bufs self st

  -- `dill_ws_mrecvl`; `stale` is what `flags` holds when no frame has set it.
  unfoldable pub mrecvl :
      (fuel : ℕ) (stale : Bool) (len : ℕ) (rest : List ℕ)
      → WsSock
      → S
      → Option (Result ℕ × List (List ℕ) × WsSock × S)
  unfolding recvl_base
  mrecvl fuel stale len rest self st = elim (recvl_base below fuel len rest self st) [
    | none ↦ none
    | some (err e, flags, bufs, self', st') ↦ some (err e, bufs, self', st')
    | some (ok sz, flags, bufs, self', st') ↦
        let text : Bool = elim flags [ none ↦ stale | some t ↦ t ] in
        if (if text then self'.text else not self'.text)
        then some (ok sz, bufs, self', st')
        else some (err eproto, bufs, self', st')
  ]

  -- `dill_ws_done`
  unfoldable pub ws_done :
      Result (List ℕ)
      → (status : ℕ) (buf : Option (List ℕ)) (len : ℕ) → WsSock
      → S
      → Option (Result (Unit {0}) × WsSock × S)
  unfolding sendl_base
  ws_done random status buf len self st =
      let sent = sendl_base below random 8 (close_bufs status (bytes_of buf)) self st in
      if bad_status status || no_buf buf len
      then some (err einval, self, st)
      else if self.outdone
      then some (err epipe, self, st)
      else elim sent [
        | none ↦ none
        | some (err e, st') ↦ some (err e, self, st')
        | some (ok _, st') ↦ some (ok tt, record self { outdone = true }, st')
      ]

  -- The loop of `dill_ws_detach` that drops messages up to the close frame.
  unfoldable pub drop_all : (fuel frames : ℕ) → WsSock → S → Option (Result (Unit {0}) × WsSock × S)
  unfolding recvl_base
  drop_all zero frames self st = none
  drop_all (suc fuel) frames self st = elim (recvl_base below frames (2 ^ 64 - 1) [] self st) [
    | none ↦ none
    | some (ok sz, _, _, self', st') ↦ drop_all fuel frames self' st'
    | some (err epipe, _, _, self', st') ↦ some (ok tt, self', st')
    | some (err e, _, _, self', st') ↦ some (err e, self', st')
  ]

  -- `dill_ws_detach`, up to the handle that it gives back.
  unfoldable pub ws_detach :
      (fuel frames : ℕ)
      → Result (List ℕ)
      → (status : ℕ) (buf : Option (List ℕ)) (len : ℕ) → WsSock
      → S
      → Option (Result ℕ × WsSock × S)
  unfolding ws_done drop_all
  ws_detach fuel frames random status buf len self st =
      let done =
        if self.outdone then some (ok tt, self, st) else ws_done random status buf len self st in
      elim done [
        | none ↦ none
        | some (err e, self', st') ↦ some (err e, self', st')
        | some (ok _, self', st') ↦ elim (drop_all fuel frames self' st') [
          | none ↦ none
          | some (err e, self2, st2) ↦ some (err e, self2, st2)
          | some (ok _, self2, st2) ↦ some (ok self2.u, self2, st2)
        ]
      ]
