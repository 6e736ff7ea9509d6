-- ===== src/Ws.antt =====
-- ws.c: WebSocket frames over a bytestream.
-- A socket is its record and the state of the bytestream below. A message is sent from the bytes of its
-- buffers; for a receive the buffers are given by their lengths and there is one at least. A list that
-- `dill_iolcheck` refuses is not in the model. What `dill_random` gives is an argument.
pub mod Receive
pub mod Calls
pub mod Mask
pub mod Frame
pub mod Payload
pub mod Reading
pub mod Messages
pub mod CloseFrame
pub mod Closing
pub mod Tests
use libdill.Base.{
  ℕ, zero, suc, ◌+◌, ◌-◌, ◌*◌, ◌/◌, ◌%◌, ◌^◌, min, Bool, true, false, not, ◌&&◌, ◌||◌, Option, none,
  some, List, [], ◌∷◌, ◌++◌, map, length, drop, get_or, ltb, leb, ◌==◌, if◌then◌else◌, Errno, epipe,
  eproto, emsgsize, einval, Result, ok, err,
}
use libdill.Utils.Bytes.{gets, puts, getll, putll}
use libdill.Bsock.{Bsock, total, concat}

pub record WsSock : Type 0 where
  pub u : ℕ
  pub text : Bool
  pub indone : Bool
  pub outdone : Bool
  pub server : Bool
  pub mem : Bool
  pub status : ℕ
  pub msglen : ℕ
  pub msg : List ℕ

-- `^` on numbers of `n` bits.
abbrev pub xor_bits : (n a b : ℕ) → ℕ
xor_bits zero a b = 0
xor_bits (suc n) a b = 2 * xor_bits n (a / 2) (b / 2) + (if a % 2 == b % 2 then 0 else 1)

abbrev pub xor : ℕ → ℕ → ℕ
xor = xor_bits 8

-- The payload from the position `pos` on, masked or unmasked.
abbrev pub masked : (mask : List ℕ) (pos : ℕ) → List ℕ → List ℕ
masked mask pos [] = []
masked mask pos (b ∷ bs) = xor b (get_or mask (pos % 4) 0) ∷ masked mask (suc pos) bs

-- The second byte of a frame without its mask bit, and the longer forms of the length.
unfoldable pub put_len : ℕ → ℕ × List ℕ
put_len len =
    if ltb 0xffff len
    then (127, putll (0 ∷ 0 ∷ 0 ∷ 0 ∷ 0 ∷ 0 ∷ 0 ∷ 0 ∷ []) len)
    else if ltb 125 len
    then (126, puts (0 ∷ 0 ∷ []) (len % 2 ^ 16))
    else (len, [])

-- The header that is sent; a server sends no mask. That it fits into `buf` is looked at in
-- `send_frame`.
unfoldable pub frame_header : (type len : ℕ) → Option (List ℕ) → List ℕ
unfolding put_len
frame_header type len none = (128 + type) ∷ (put_len len).0 ∷ (put_len len).1
frame_header type len (some mask) =
    (128 + type) ∷ ((put_len len).0 + 128) ∷ ((put_len len).1 ++ mask)

module _ {S : Type 0} (below : Bsock S) where
  open below use {bsendl, brecvl}

  -- The loop that sends the masked payload byte by byte.
  unfoldable pub send_bytes : List ℕ → S → Result (Unit {0}) × S
  send_bytes [] st = (ok tt, st)
  send_bytes (b ∷ bs) st =
      let (r, st') = bsendl ((b ∷ []) ∷ []) st in
      let rest = send_bytes bs st' in elim r [ err e ↦ (err e, st') | ok _ ↦ rest ]

  -- The header and the payload go out.
  unfoldable pub send_parts :
      (header : List ℕ) → Option (List ℕ) → List (List ℕ) → S → Result (Unit {0}) × S
  unfolding send_bytes
  send_parts header mask bufs st =
      let (r, st') = bsendl (header ∷ []) st in
      elim r [
        | err e ↦ (err e, st')
        | ok _ ↦ elim mask [
          | none ↦ bsendl bufs st'
          | some m ↦ send_bytes (masked m 0 (concat bufs)) st'
        ]
      ]

  -- `dill_ws_sendl_base` behind the mask's generation. `none` is a write past the 12 bytes of `buf`.
  unfoldable pub send_frame :
      (type : ℕ) → Option (List ℕ) → List (List ℕ) → S → Option (Result (Unit {0}) × S)
  unfolding frame_header send_parts
  send_frame type mask bufs st =
      let header = frame_header type (total (map length bufs)) mask in
      if leb (length header) 12 then some (send_parts header mask bufs st) else none

  -- `dill_ws_sendl_base`
  unfoldable pub sendl_base :
      (random : Result (List ℕ)) (type : ℕ)
      → List (List ℕ)
      → WsSock
      → S
      → Option (Result (Unit {0}) × S)
  unfolding send_frame
  sendl_base random type bufs self st =
      if self.outdone
      then some (err epipe, st)
      else if self.server
      then send_frame type none bufs st
      else elim random [ err e ↦ some (err e, st) | ok mask ↦ send_frame type (some mask) bufs st ]
