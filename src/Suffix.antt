-- ===== src/Suffix.antt =====
-- suffix.c: messages that a fixed sequence of bytes ends.
-- A message to send is given by its buffers. `buf` and `suffix` are the first `suffixlen` bytes of the
-- socket's arrays. A receive is given by the first buffer of the caller's list: whether its address is
-- not NULL, and its length.
pub mod Messages
pub mod Attach
pub mod Tests
use libdill.Base.{
  ℕ, zero, suc, ◌+◌, ◌-◌, Bool, true, false, ◌&&◌, ◌||◌, Option, none, some, List, [], ◌∷◌, ◌++◌,
  length, drop, ltb, ◌==◌, same_bytes, get_or, if◌then◌else◌, Errno, econnreset, emsgsize, Result,
  ok, err,
}
use libdill.Bsock.{Bsock}

pub record SuffixSock : Type 0 where
  pub u : ℕ
  pub buf : List ℕ
  pub suffix : List ℕ
  pub inerr : Bool
  pub outerr : Bool
  pub mem : Bool

-- The caller's first buffer as the receive leaves it: the bytes in front are written, `room` are left.
-- The loop tests the length of the first buffer as it was, and moves to the next one only where that
-- is 0, so every byte goes to the first buffer or is dropped.
abbrev pub put : Bool → ℕ → ℕ → List ℕ → List ℕ × ℕ
put base room c written =
    if base && ltb 0 room then (written ++ c ∷ [], room - 1) else (written, room)

module _ {S : Type 0} (below : Bsock S) where
  open below use {bsendl, brecvl}

  -- `msendl` on a socket that has not failed yet.
  unfoldable pub send_open : List (List ℕ) → SuffixSock → S → Result (Unit {0}) × SuffixSock × S
  send_open bufs self st =
      let (r, st') = bsendl (bufs ++ self.suffix ∷ []) st in
      elim r [ err e ↦ (err e, record self { outerr = true }, st') | ok _ ↦ (ok tt, self, st') ]

  unfoldable pub msendl : List (List ℕ) → SuffixSock → S → Result (Unit {0}) × SuffixSock × S
  unfolding send_open
  msendl bufs self st = if self.outerr then (err econnreset, self, st) else send_open bufs self st

  -- The loop that reads byte by byte: the number of bytes of the message, and those of them that are in
  -- the caller's buffer. `none` is the end of the fuel.
  unfoldable pub recv_loop :
      (fuel : ℕ) (base : Bool) (len room sz : ℕ) (written : List ℕ)
      → SuffixSock
      → S
      → Option (Result (ℕ × List ℕ) × SuffixSock × S)
  recv_loop zero base len room sz written self st = none
  recv_loop (suc fuel) base len room sz written self st =
      let (r, st') = brecvl (1 ∷ []) st in
      let (written', room') = put base room (get_or (self.buf) 0 0) written in
      let rest : Option (Result (ℕ × List ℕ) × SuffixSock × S) = elim r [
        | err e ↦ some (err e, record self { inerr = true }, st')
        | ok bytes ↦
            recv_loop fuel base len room' (suc sz) written'
              (record self { buf = drop 1 (self.buf) ++ bytes }) st'
      ] in
      if same_bytes (self.buf) (self.suffix)
      then some (ok (sz, written), self, st)
      else if len == 0
      then some (err emsgsize, record self { inerr = true }, st)
      else rest

  unfoldable pub recv_open :
      (fuel : ℕ) (base : Bool) (len : ℕ)
      → SuffixSock
      → S
      → Option (Result (ℕ × List ℕ) × SuffixSock × S)
  unfolding recv_loop
  recv_open fuel base len self st =
      let (r, st') = brecvl (length (self.suffix) ∷ []) st in
      elim r [
        | err e ↦ some (err e, record self { inerr = true }, st')
        | ok bytes ↦ recv_loop fuel base len len 0 [] (record self { buf = bytes }) st'
      ]

  unfoldable pub mrecvl :
      (fuel : ℕ) (base : Bool) (len : ℕ)
      → SuffixSock
      → S
      → Option (Result (ℕ × List ℕ) × SuffixSock × S)
  unfolding recv_open
  mrecvl fuel base len self st =
      if self.inerr then some (err econnreset, self, st) else recv_open fuel base len self st
