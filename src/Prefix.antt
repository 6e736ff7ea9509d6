-- ===== src/Prefix.antt =====
-- prefix.c: messages as a length of `hdrlen` bytes and the bytes themselves.
-- A socket is its record and the state of the bytestream below. A message is given by its buffers, and
-- a receive without buffers (`first` is NULL) by `none`.
pub mod Header
pub mod Messages
pub mod Attach
pub mod Tests
use libdill.Base.{
  ℕ, zero, suc, ◌+◌, ◌-◌, ◌*◌, ◌/◌, ◌%◌, ◌^◌, Bool, true, false, not, ◌&&◌, ◌||◌, Option, none,
  some, List, [], ◌∷◌, ◌++◌, map, length, leb, ◌==◌, if◌then◌else◌, Errno, econnreset, emsgsize,
  einval, Result, ok, err,
}
use libdill.Bsock.{Bsock, total}

pub record PrefixSock : Type 0 where
  pub u : ℕ
  pub hdrlen : ℕ
  pub bigendian : Bool
  pub inerr : Bool
  pub outerr : Bool
  pub mem : Bool

abbrev pub reverse : List ℕ → List ℕ
reverse [] = []
reverse (x ∷ xs) = reverse xs ++ x ∷ []

-- The low byte first; `sz` is a `size_t`.
abbrev pub little : ℕ → ℕ → List ℕ
little zero sz = []
little (suc n) sz = (sz % 256) ∷ little n (sz / 256)

-- The loop that fills `szbuf`.
unfoldable pub put_header : Bool → ℕ → ℕ → List ℕ
put_header big hdrlen sz = if big then reverse (little hdrlen sz) else little hdrlen sz

-- `sz <<= 8; sz |= c;` on a `uint64_t`, for each byte.
abbrev pub shift_in : ℕ → List ℕ → ℕ
shift_in sz [] = sz
shift_in sz (c ∷ cs) = shift_in (sz * 256 % 2 ^ 64 + c) cs

unfoldable pub get_header : Bool → List ℕ → ℕ
get_header big szbuf = shift_in 0 (if big then szbuf else reverse szbuf)

-- The walk to the buffer where a message of `rmn` bytes ends, and the list cut there.
unfoldable pub trim : ℕ → List ℕ → Option (List ℕ)
trim rmn [] = none
trim rmn (len ∷ lens) =
    let rest = trim (rmn - len) lens in
    if leb rmn len
    then some (rmn ∷ [])
    else elim rest [ none ↦ none | some lens' ↦ some (len ∷ lens') ]

module _ {S : Type 0} (below : Bsock S) where
  open below use {bsendl, brecvl}

  -- `msendl` on a socket that has not failed yet.
  unfoldable pub send_open : List (List ℕ) → PrefixSock → S → Result (Unit {0}) × PrefixSock × S
  unfolding put_header
  send_open bufs self st =
      let (r, st') =
        bsendl (put_header (self.bigendian) (self.hdrlen) (total (map length bufs) % 2 ^ 64) ∷ bufs)
          st in
      elim r [ err e ↦ (err e, record self { outerr = true }, st') | ok _ ↦ (ok tt, self, st') ]

  unfoldable pub msendl : List (List ℕ) → PrefixSock → S → Result (Unit {0}) × PrefixSock × S
  unfolding send_open
  msendl bufs self st = if self.outerr then (err econnreset, self, st) else send_open bufs self st

  -- The receive of the message's bytes into the trimmed list.
  unfoldable pub recv_body : List ℕ → PrefixSock → S → Result (List ℕ) × PrefixSock × S
  recv_body lens self st =
      let (r, st') = brecvl lens st in
      elim r [
        | err e ↦ (err e, record self { inerr = true }, st')
        | ok bytes ↦ (ok bytes, self, st')
      ]

  -- `mrecvl` behind the header.
  unfoldable pub recv_sized :
      ℕ → Option (List ℕ) → PrefixSock → S → Result (List ℕ) × PrefixSock × S
  unfolding trim recv_body
  recv_sized sz none self st = recv_body (sz ∷ []) self st
  recv_sized sz (some lens) self st = elim (trim sz lens) [
    | none ↦ (err emsgsize, record self { inerr = true }, st)
    | some trimmed ↦ recv_body trimmed self st
  ]

  -- `mrecvl` on a socket that has not failed yet.
  unfoldable pub recv_open : Option (List ℕ) → PrefixSock → S → Result (List ℕ) × PrefixSock × S
  unfolding get_header recv_sized
  recv_open first self st =
      let (r, st') = brecvl (self.hdrlen ∷ []) st in
      elim r [
        | err e ↦ (err e, record self { inerr = true }, st')
        | ok szbuf ↦ recv_sized (get_header (self.bigendian) szbuf) first self st'
      ]

  unfoldable pub mrecvl : Option (List ℕ) → PrefixSock → S → Result (List ℕ) × PrefixSock × S
  unfolding recv_open
  mrecvl first self st = if self.inerr then (err econnreset, self, st) else recv_open first self st
