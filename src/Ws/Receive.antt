-- ===== src/Ws/Receive.antt =====
-- ws.c: the receive.
use libdill.Base.{
  ℕ, zero, suc, ◌+◌, ◌-◌, ◌/◌, ◌%◌, ◌^◌, min, Bool, true, false, not, ◌&&◌, ◌||◌, Option, none,
  some, List, [], ◌∷◌, ◌++◌, drop, get_or, ltb, leb, ◌==◌, if◌then◌else◌, epipe, eproto, emsgsize,
  Result, ok, err,
}
use libdill.Utils.Bytes.{gets, getll}
use libdill.Bsock.{Bsock}
use libdill.Ws.{WsSock, masked}

-- Where a receive writes: the buffers that are full, what the current one holds, its length and the
-- lengths of those that follow.
pub record Into : Type 0 where
  pub full : List (List ℕ)
  pub cur : List ℕ
  pub len : ℕ
  pub rest : List ℕ

-- A receive between two frames; `flags` is what has been stored there, `res` a `size_t`.
pub record Recv : Type 0 where
  pub sock : WsSock
  pub into : Into
  pub flags : Option Bool
  pub res : ℕ

-- The bytes of the buffers.
abbrev pub buffers : Into → List (List ℕ)
buffers i = i.full ++ i.cur ∷ []

abbrev pub first_of : List (List ℕ) → List ℕ
first_of [] = []
first_of (x ∷ xs) = x

abbrev pub second_of : List ℕ → List (List ℕ) → List ℕ
second_of d (x ∷ y ∷ xs) = y
second_of d xs = d

-- The checks and effects of an opcode. A close frame is received into `status`, which is still 0, and `msg`.
unfoldable pub on_opcode : (opcode : ℕ) → Recv → Result (Unit {0}) × Recv
on_opcode opcode r =
    if opcode == 0
    then (ok tt, r)
    else if opcode == 1
    then (ok tt, record r { flags = some true })
    else if opcode == 2
    then (ok tt, record r { flags = some false })
    else if opcode == 8
    then (
      ok tt,
      record r {
        sock = record r.sock { indone = true };
        into = record { full = []; cur = 0 ∷ 0 ∷ []; len = 2; rest = 128 ∷ [] };
      },
    )
    else (err eproto, r)

-- The end of `dill_ws_recvl_base`, behind the last frame.
unfoldable pub recv_end : Recv → Result ℕ × WsSock
recv_end r =
    let code = gets (first_of (buffers r.into)) in
    let closed = record r.sock {
      status = code;
      msglen = (r.res % 256 + 254) % 256;
      msg = second_of r.sock.msg (buffers r.into);
    } in
    if not r.sock.indone
    then (ok r.res, r.sock)
    else if r.res == 1
    then (err eproto, r.sock)
    else if leb 2 r.res
    then if ltb code 1000 || ltb 4999 code
      then (err eproto, record r.sock { status = code })
      else (err epipe, closed)
    else (err epipe, record r.sock { msglen = 0 })

abbrev pub unmask : Option (List ℕ) → List ℕ → List ℕ
unmask none bytes = bytes
unmask (some mask) bytes = masked mask 0 bytes

module _ {S : Type 0} (below : Bsock S) where
  open below use {brecvl}

  -- The longer forms of the length.
  unfoldable pub recv_len : ℕ → S → Result ℕ × S
  recv_len sz st =
      let two = brecvl (2 ∷ []) st in
      let eight = brecvl (8 ∷ []) st in
      if sz == 126
      then (elim (two.0) [ err e ↦ err e | ok b ↦ ok (gets b) ], two.1)
      else if sz == 127
      then (elim (eight.0) [ err e ↦ err e | ok b ↦ ok (getll b) ], eight.1)
      else (ok sz, st)

  unfoldable pub recv_mask : (server : Bool) → S → Result (Option (List ℕ)) × S
  recv_mask false st = (ok none, st)
  recv_mask true st =
      let (r, st') = brecvl (4 ∷ []) st in
      elim r [ err e ↦ (err e, st') | ok m ↦ (ok (some m), st') ]

  -- `dill_brecv` of `toread` bytes, where there are any.
  abbrev pub recv_part : (toread : ℕ) → S → Result (List ℕ) × S
  recv_part zero st = (ok [], st)
  recv_part (suc n) st = brecvl (suc n ∷ []) st

  -- A part of a frame into one buffer, which starts with the mask's first byte.
  unfoldable pub recv_here :
      (toread : ℕ) → Option (List ℕ) → (cur : List ℕ) → S → Result (List ℕ) × S
  recv_here toread mask cur st =
      let (r, st') = recv_part toread st in
      elim r [ err e ↦ (err e, st') | ok bytes ↦ (ok (unmask mask bytes ++ drop toread cur), st') ]

  -- The loop that reads a frame into the buffers.
  unfoldable pub recv_payload :
      (sz : ℕ)
      → Option (List ℕ)
      → List (List ℕ)
      → (cur : List ℕ) (len : ℕ) (rest : List ℕ) → S
      → Result (Unit {0}) × Into × S
  recv_payload sz mask full cur len [] st =
      let (r, st') = recv_here (min sz len) mask cur st in
      elim r [
        | err e ↦ (err e, record { full = full; cur = cur; len = len; rest = [] }, st')
        | ok now ↦ (
          if sz - min sz len == 0 then ok tt else err emsgsize,
          record { full = full; cur = now; len = len; rest = [] },
          st',
        )
      ]
  recv_payload sz mask full cur len (len' ∷ rest) st =
      let (r, st') = recv_here (min sz len) mask cur st in
      elim r [
        | err e ↦ (err e, record { full = full; cur = cur; len = len; rest = len' ∷ rest }, st')
        | ok now ↦
            let more = recv_payload (sz - min sz len) mask (full ++ now ∷ []) [] len' rest st' in
            if sz - min sz len == 0
            then (ok tt, record { full = full; cur = now; len = len; rest = len' ∷ rest }, st')
            else more
      ]

  -- A frame behind its length: the mask and the payload; whether it is the last of the message.
  unfoldable pub recv_rest : (fin : Bool) (sz : ℕ) → Recv → S → Result Bool × Recv × S
  recv_rest fin sz r st =
      let (m, st1) = recv_mask r.sock.server st in
      elim m [
        | err e ↦ (err e, r, st1)
        | ok mask ↦
            let (p, into, st2) =
              recv_payload sz mask r.into.full r.into.cur r.into.len r.into.rest st1 in
            elim p [
              | err e ↦ (err e, record r { into = into }, st2)
              | ok _ ↦ (ok fin, record r { into = into }, st2)
            ]
      ]

  -- A frame behind the checks of its first two bytes.
  unfoldable pub recv_sized : (fin control : Bool) (code : ℕ) → Recv → S → Result Bool × Recv × S
  recv_sized fin control code r st =
      let (l, st1) = recv_len code st in
      elim l [
        | err e ↦ (err e, r, st1)
        | ok sz ↦
            let r' = record r { res = (r.res + sz) % 2 ^ 64 } in
            if control && (ltb 125 sz || not fin)
            then (err eproto, r', st1)
            else recv_rest fin sz r' st1
      ]

  -- A frame; `h0` and `h1` are its first two bytes.
  unfoldable pub recv_opened : (h0 h1 : ℕ) → Recv → S → Result Bool × Recv × S
  recv_opened h0 h1 r st =
      let (o, r') = on_opcode (h0 % 16) r in
      if not (h0 / 16 % 8 == 0) then (err eproto, r, st) else elim o [
        | err e ↦ (err e, r', st)
        | ok _ ↦
            if (if leb 128 h1 then not r'.sock.server else r'.sock.server)
            then (err eproto, r', st)
            else recv_sized (leb 128 h0) (leb 8 (h0 % 16)) (h1 % 128) r' st
      ]

  unfoldable pub recv_frame : Recv → S → Result Bool × Recv × S
  recv_frame r st =
      let (h, st') = brecvl (2 ∷ []) st in
      elim h [
        | err e ↦ (err e, r, st')
        | ok hdr ↦ recv_opened (get_or hdr 0 0) (get_or hdr 1 0) r st'
      ]

  -- The loop over the frames of a message; without fuel there is no result.
  unfoldable pub recv_frames : (fuel : ℕ) → Recv → S → Option (Result (Unit {0}) × Recv × S)
  recv_frames zero r st = none
  recv_frames (suc fuel) r st =
      let (h, r', st') = recv_frame r st in
      elim h [
        | err e ↦ some (err e, r', st')
        | ok fin ↦ if fin then some (ok tt, r', st') else recv_frames fuel r' st'
      ]

  -- `dill_ws_recvl_base`: its result, the flags, what the buffers hold and the socket.
  unfoldable pub recvl_base :
      (fuel len : ℕ) (rest : List ℕ)
      → WsSock
      → S
      → Option (Result ℕ × Option Bool × List (List ℕ) × WsSock × S)
  recvl_base fuel len rest self st =
      let start : Recv = record {
        sock = self;
        into = record { full = []; cur = []; len = len; rest = rest };
        flags = none;
        res = 0;
      } in
      if self.indone
      then some (err epipe, none, [], self, st)
      else elim (recv_frames fuel start st) [
        | none ↦ none
        | some (err e, r, st') ↦ some (err e, r.flags, buffers r.into, r.sock, st')
        | some (ok _, r, st') ↦ some ((recv_end r).0, r.flags, buffers r.into, (recv_end r).1, st')
      ]
