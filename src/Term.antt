-- ===== src/Term.antt =====
-- term.c: the end of a sequence of messages, marked by a terminal message.
-- `buf` is the first `len` bytes of the socket's array. A receive is given by the number of bytes that
-- the caller's buffers hold; its result is the length that is returned and those bytes of the message
-- that are in the buffers. The rest of the buffers is not kept.
pub mod Messages
pub mod Attach
pub mod Tests
use libdill.Base.{
  ℕ, zero, suc, ◌+◌, ◌-◌, ◌^◌, Bool, true, false, ◌&&◌, Option, none, some, List, [], ◌∷◌, length,
  take, ltb, ◌==◌, same_bytes, if◌then◌else◌, Errno, epipe, Result, ok, err,
}
use libdill.Msock.{Msock}

pub record TermSock : Type 0 where
  pub u : ℕ
  pub buf : List ℕ
  pub indone : Bool
  pub outdone : Bool
  pub mem : Bool

-- The room for a message: the array `buf`, and behind it the caller's list less its first `len` bytes if
-- `dill_ioltrim` finds that many.
abbrev pub room : (len first : ℕ) → ℕ
room len first = if ltb first len then len else len + (first - len)

-- `errno == EPIPE`
abbrev pub is_epipe : Errno → Bool
is_epipe epipe = true
is_epipe _ = false

module _ {S : Type 0} (below : Msock S) where
  open below use {msend, mrecv}

  -- `dill_term_msendl` passes the message on.
  unfoldable pub msendl : List ℕ → TermSock → S → Result (Unit {0}) × TermSock × S
  msendl m self st = let (r, st') = msend m st in (r, self, st')

  -- What `mrecvl` does where the terminal message is the empty one.
  unfoldable pub recv_empty : ℕ → TermSock → S → Result (ℕ × List ℕ) × TermSock × S
  recv_empty first self st =
      let (r, st') = mrecv first st in
      elim r [
        | err e ↦ (err e, self, st')
        | ok m ↦
            if length m == 0
            then (err epipe, record self { indone = true }, st')
            else (ok (length m, m), self, st')
      ]

  -- What it does where the terminal message has bytes.
  unfoldable pub recv_marked : ℕ → TermSock → S → Result (ℕ × List ℕ) × TermSock × S
  recv_marked first self st =
      let (r, st') = mrecv (room (length (self.buf)) first) st in
      elim r [
        | err e ↦ (err e, self, st')
        | ok m ↦
            if length m == length (self.buf) && same_bytes (self.buf) (take (length (self.buf)) m)
            then (err epipe, record self { indone = true }, st')
            else (ok (length m, take first m), self, st')
      ]

  unfoldable pub mrecvl : ℕ → TermSock → S → Result (ℕ × List ℕ) × TermSock × S
  unfolding recv_empty recv_marked
  mrecvl first self st =
      if length (self.buf) == 0 then recv_empty first self st else recv_marked first self st

  -- `dill_term_done` on a socket.
  unfoldable pub done : TermSock → S → Result (Unit {0}) × TermSock × S
  done self st =
      let (r, st') = msend (self.buf) st in
      if self.outdone then (err epipe, self, st) else elim r [
        | err e ↦ (err e, self, st')
        | ok _ ↦ (ok tt, record self { outdone = true }, st')
      ]

  -- The loop of `dill_term_detach` that drops messages until the terminal one; `none` is the end of the
  -- fuel.
  unfoldable pub drain : (fuel : ℕ) → TermSock → S → Option (Result (Unit {0}) × TermSock × S)
  drain zero self st = none
  drain (suc fuel) self st =
      let (r, self', st') = mrecvl (2 ^ 64 - 1) self st in
      let rest = drain fuel self' st' in
      elim r [
        | err e ↦ if is_epipe e then some (ok tt, self', st') else some (err e, self', st')
        | ok _ ↦ rest
      ]

  -- The half of `dill_term_detach` behind the send of the terminal message.
  unfoldable pub detach_in : (fuel : ℕ) → TermSock → S → Option (Result ℕ × TermSock × S)
  detach_in fuel self st =
      let drained : Option (Result ℕ × TermSock × S) =
        elim (drain fuel self st) as (λ _. Option (Result ℕ × TermSock × S)) [
          | none ↦ none
          | some (err e, self', st') ↦ some (err e, self', st')
          | some (ok _, self', st') ↦ some (ok (self'.u), self', st')
        ] in
      if self.indone then some (ok (self.u), self, st) else drained

  -- `dill_term_detach`: the result is the underlying socket; on an error the caller closes the handle.
  unfoldable pub detach : (fuel : ℕ) → TermSock → S → Option (Result ℕ × TermSock × S)
  detach fuel self st =
      let (r, self', st') = done self st in
      let sent : Option (Result ℕ × TermSock × S) = elim r [
        | err e ↦ some (err e, self', st')
        | ok _ ↦ detach_in fuel self' st'
      ] in
      if self.outdone then detach_in fuel self st else sent
