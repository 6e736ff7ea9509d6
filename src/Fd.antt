-- ===== src/Fd.antt =====
-- fd.c: sending and receiving on a non-blocking descriptor, with a buffer for small receives and a cache
-- of such buffers. Lists of buffers are those that `dill_iolcheck` accepts (Iol), written as lists.
-- The kernel's calls, the waits of the scheduler and `malloc` are parameters.
pub mod Buffer
pub mod Scatter
pub mod Stream
pub mod Direct
pub mod Large
pub mod Copy
pub mod CopyAll
pub mod Refill
pub mod Receive
pub mod Send
pub mod Ending
pub mod Script
pub mod Tests
use mathlib.Core.Option
use libdill.Base.{
  ℕ, zero, suc, ◌+◌, ◌-◌, ◌%◌, ◌^◌, Bool, true, false, not, ◌||◌, ◌&&◌, Option, none, some, List,
  [], ◌∷◌, ◌++◌, map, take, drop, length, ltb, leb, ◌==◌, if◌then◌else◌, Errno, epipe, enomem,
  econnreset, Result, ok, err, Step, done, again, aborts, Run, returns, fault, out_of_fuel, iterate,
}
use libdill.Iol.{Memory, copy_to, advance}

-- What a system call moves: something, nothing for now (EAGAIN or EWOULDBLOCK), or an error.
pub data Moved (A : Type 0) : Type 0 where
  moved : A → Moved A
  would_block : Moved A
  failed : Errno → Moved A

-- `sendmsg` takes the bytes of the buffers and says how many of them it sent. `recvmsg` and `recv` take
-- how much room there is and give the bytes, none at the end of the stream.
pub record Kernel (S : Type 0) : Type 0 where
  pub sendmsg : List (List ℕ) → S → Moved ℕ × S
  pub recvmsg : ℕ → S → Moved (List ℕ) × S
  pub fdin : S → Result (Unit {0}) × S
  pub fdout : S → Result (Unit {0}) × S
  pub malloc : S → Option ℕ × S

-- `if(errno == EPIPE) errno = ECONNRESET;`
abbrev pub broken : Errno → Errno
broken epipe = econnreset
broken e = e

-- The loop `while(hdr.msg_iovlen && !hdr.msg_iov[0].iov_len)`.
unfoldable pub skip_empty : List (List ℕ) → List (List ℕ)
skip_empty [] = []
skip_empty ([] ∷ iov) = skip_empty iov
skip_empty ((b ∷ bs) ∷ iov) = (b ∷ bs) ∷ iov

-- The loop `while(sz)` of `dill_fd_send`; the empty list is its `return 0`.
unfoldable pub sent : ℕ → List (List ℕ) → List (List ℕ)
sent sz [] = []
sent sz (b ∷ iov) =
    let rest = sent (sz - length b) iov in
    if sz == 0 then b ∷ iov else if ltb sz (length b) then drop sz b ∷ iov else rest

-- A buffer to receive into; NULL drops what it receives.
pub record Iov : Type 0 where
  pub base : Option ℕ
  pub len : ℕ

abbrev pub miss : List Iov → ℕ
miss [] = 0
miss (b ∷ iov) = b.len + miss iov

-- What the kernel does with the bytes that it gives: they fill the buffers in their order.
unfoldable pub scatter : List Iov → List ℕ → Memory → Memory
scatter [] bytes m = m
scatter (b ∷ iov) bytes m = scatter iov (drop b.len bytes) (copy_to m b.base (take b.len bytes))

-- `head->iov_base += sz; head->iov_len -= sz;`
abbrev pub behind : ℕ → Iov → Iov
behind sz b = record { base = advance sz b.base; len = b.len - sz }

-- The loop `while(sz)` of `dill_fd_recv_`.
unfoldable pub filled : ℕ → List Iov → List Iov
filled sz [] = []
filled sz (b ∷ iov) =
    let rest = filled (sz - b.len) iov in
    if sz == 0 then b ∷ iov else if ltb sz b.len then behind sz b ∷ iov else rest

abbrev pub Sent : Type 0 → Type 0
Sent S = Step (List (List ℕ) × S) (Result (Unit {0}) × S)

-- A receive without the buffer: what is left to fill, the memory and the kernel's state.
abbrev pub Received : Type 0 → Type 0
Received S = Step (List Iov × Memory × S) (Result (Unit {0}) × Memory × S)

-- `dill_assert`
abbrev pub asserted : {A : Type 0} → Bool → Run A → Run A
asserted true r = r
asserted false r = fault

abbrev pub is_null : Option ℕ → Bool
is_null none = true
is_null (some p) = false

-- `it == end || !it->iol_next->iol_base || !it->iol_next->iol_len`
abbrev pub ends_run : List Iov → Bool
ends_run [] = true
ends_run (b ∷ iov) = is_null b.base || b.len == 0

-- `!len`
abbrev pub skipped : Option ℕ → Bool
skipped none = false
skipped (some n) = n == 0

-- `len < 0 || len > sizeof(buf) ? sizeof(buf) : len`
abbrev pub to_recv : Option ℕ → ℕ
to_recv none = 512
to_recv (some n) = if ltb 512 n then 512 else n

-- `if(len >= 0) len -= to_recv;`
abbrev pub less_skipped : Option ℕ → Option ℕ
less_skipped none = none
less_skipped (some n) = some (n - to_recv (some n))

-- What follows a `dill_fd_skip` whose result is not used, and a `dill_fd_recv_`.
module _ {S : Type 0} (next : Memory → S → Run (Result (Unit {0}) × Memory × S)) where
  unfoldable pub skip_then :
      Run (Result (Unit {0}) × S) → Memory → Run (Result (Unit {0}) × Memory × S)
  skip_then (returns (r, st)) m = next m st
  skip_then fault m = fault
  skip_then out_of_fuel m = out_of_fuel

  unfoldable pub recv_then :
      Run (Result (Unit {0}) × Memory × S) → Run (Result (Unit {0}) × Memory × S)
  recv_then (returns (ok _, m, st)) = next m st
  recv_then (returns (err e, m, st)) = returns (err e, m, st)
  recv_then fault = fault
  recv_then out_of_fuel = out_of_fuel

module _ {S : Type 0} (kernel : Kernel S) where
  open kernel use {sendmsg, recvmsg, fdin, fdout}

  -- The end of a turn of the loop: `iov` is what is still to be sent.
  unfoldable pub send_wait : List (List ℕ) → S → Sent S
  send_wait [] st = done (ok tt, st)
  send_wait (b ∷ iov) st =
      let (r, st') = fdout st in elim r [ err e ↦ done (err e, st') | ok _ ↦ again (b ∷ iov, st') ]

  unfoldable pub send_some : List (List ℕ) → S → Sent S
  send_some [] st = done (ok tt, st)
  send_some (b ∷ iov) st =
      let (r, st') = sendmsg (b ∷ iov) st in
      elim r [
        | moved sz ↦ if sz == 0 then aborts else send_wait (sent sz (b ∷ iov)) st'
        | would_block ↦ send_wait (b ∷ iov) st'
        | failed e ↦ done (err (broken e), st')
      ]

  unfoldable pub send_turn : List (List ℕ) × S → Sent S
  send_turn (iov, st) = send_some (skip_empty iov) st

  unfoldable pub fd_send : ℕ → List (List ℕ) → S → Run (Result (Unit {0}) × S)
  fd_send fuel iov st = iterate send_turn fuel (iov, st)

  unfoldable pub recv_wait : List Iov → Memory → S → Received S
  recv_wait [] m st = done (ok tt, m, st)
  recv_wait (b ∷ iov) m st =
      let (r, st') = fdin st in
      elim r [ err e ↦ done (err e, m, st') | ok _ ↦ again (b ∷ iov, m, st') ]

  unfoldable pub recv_turn : List Iov × Memory × S → Received S
  recv_turn (iov, m, st) =
      let (r, st') = recvmsg (miss iov) st in
      elim r [
        | moved [] ↦ done (err epipe, m, st')
        | moved (b ∷ bytes) ↦
            recv_wait (filled (length (b ∷ bytes)) iov) (scatter iov (b ∷ bytes) m) st'
        | would_block ↦ recv_wait iov m st'
        | failed e ↦ done (err (broken e), m, st')
      ]

  -- `dill_fd_recv_`
  unfoldable pub recv_direct : ℕ → List Iov → Memory → S → Run (Result (Unit {0}) × Memory × S)
  recv_direct fuel iov m st = iterate recv_turn fuel (iov, m, st)

  -- `dill_fd_skip`; its buffer is local. `none` is a negative length, which skips until an error. The
  -- caller's length is a `size_t`: one of 2 ^ 63 or more, which is negative here, is not in the model.
  unfoldable pub fd_skip : (turns fuel : ℕ) → Option ℕ → Memory → S → Run (Result (Unit {0}) × S)
  fd_skip zero fuel len m st = out_of_fuel
  fd_skip (suc turns) fuel len m st =
      if skipped len
      then returns (ok tt, st)
      else elim (recv_direct fuel (record { base = none; len = to_recv len } ∷ []) m st) [
        | returns (err e, m', st') ↦ returns (err e, st')
        | returns (ok _, m', st') ↦ fd_skip turns fuel (less_skipped len) m st'
        | fault ↦ fault
        | out_of_fuel ↦ out_of_fuel
      ]

  -- The loop of `dill_fd_recv` that receives into the caller's buffers. `begin` are those from `begin` up to,
  -- and without, `it`; the list from `it` is never empty but behind `end`. The result of `dill_fd_skip` is
  -- not used.
  unfoldable pub recv_large :
      ℕ → (begin iov : List Iov) → Memory → S → Run (Result (Unit {0}) × Memory × S)
  recv_large fuel begin [] m st = returns (ok tt, m, st)
  recv_large fuel begin (b ∷ iov) m st =
      let next = recv_large fuel [] iov in
      let longer = recv_large fuel (begin ++ b ∷ []) iov m st in
      if b.len == 0
      then asserted (length begin == 0) (next m st)
      else if is_null b.base
      then asserted (length begin == 0) (skip_then next (fd_skip fuel fuel (some b.len) m st) m)
      else if ends_run iov
      then recv_then next (recv_direct fuel (begin ++ b ∷ []) m st)
      else longer
