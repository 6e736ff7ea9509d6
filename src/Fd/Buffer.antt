-- ===== src/Fd/Buffer.antt =====
-- fd.c: the buffer of a descriptor, the cache of such buffers, and the receive that uses them.
use libdill.Base.{
  ℕ, ◌+◌, ◌-◌, ◌%◌, ◌^◌, Bool, true, false, not, ◌||◌, Option, none, some, List, [], ◌∷◌, take,
  drop, length, ltb, leb, ◌==◌, if◌then◌else◌, epipe, enomem, Result, ok, err, Step, done, again,
  Run, returns, fault, out_of_fuel, iterate,
}
use libdill.Iol.{Memory, copy_to}
use libdill.Fd.{moved, would_block, failed, Kernel, Iov, miss, behind, broken, fd_skip, recv_large}

-- `struct dill_ctx_fd`. A spare buffer is the head of the list; `freed` are those given back by `free`.
pub record Cache : Type 0 where
  pub count : ℕ
  pub spare : List ℕ
  pub freed : List ℕ

-- A buffer: where it lies and what it holds.
pub record Chunk : Type 0 where
  pub ptr : ℕ
  pub bytes : List ℕ

-- `struct dill_fd_rxbuf`
pub record Rxbuf : Type 0 where
  pub len : ℕ
  pub pos : ℕ
  pub buf : Option Chunk

abbrev pub initrxbuf : Rxbuf
initrxbuf = record { len = 0; pos = 0; buf = none }

-- The library's state in a receive.
pub record Rx : Type 0 where
  pub rxbuf : Rxbuf
  pub cache : Cache
  pub mem : Memory

-- `dill_fd_allocbuf`, by what `dill_slist_pop` finds.
unfoldable pub alloc_from : {S : Type 0} → Kernel S → Cache → S → List ℕ → Option ℕ × Cache × S
alloc_from kernel c st (p ∷ ps) = (some p, record c { count = c.count - 1; spare = ps }, st)
alloc_from kernel c st [] = let (p, st') = kernel.malloc st in (p, c, st')

unfoldable pub allocbuf : {S : Type 0} → Kernel S → Cache → S → Option ℕ × Cache × S
allocbuf kernel c st = alloc_from kernel c st c.spare

unfoldable pub freebuf : ℕ → Cache → Cache
freebuf p c =
    if leb 32 c.count
    then record c { freed = p ∷ c.freed }
    else record c { count = c.count + 1; spare = p ∷ c.spare }

unfoldable pub termrxbuf : Rxbuf → Cache → Cache
termrxbuf r c = elim r.buf [ none ↦ c | some b ↦ freebuf b.ptr c ]

-- The bytes from `buf + pos` on, and their number, a `size_t`.
abbrev pub bytes_at : Option Chunk → ℕ → List ℕ
bytes_at none pos = []
bytes_at (some b) pos = drop pos b.bytes

abbrev pub from_pos : Rxbuf → List ℕ
from_pos r = bytes_at r.buf r.pos

abbrev pub remaining : Rxbuf → ℕ
remaining r = (2 ^ 64 + r.len - r.pos) % 2 ^ 64

-- `dill_fd_copy`: the number of bytes that were copied.
unfoldable pub fd_copy : Iov → Rx → ℕ × Rx
fd_copy b r =
    let n = remaining r.rxbuf in
    if n == 0
    then (0, r)
    else if ltb n b.len
    then (
      n,
      record {
        rxbuf = initrxbuf;
        cache = termrxbuf r.rxbuf r.cache;
        mem = copy_to r.mem b.base (take n (from_pos r.rxbuf));
      },
    )
    else (
      b.len,
      record r {
        rxbuf = record r.rxbuf { pos = r.rxbuf.pos + b.len };
        mem = copy_to r.mem b.base (take b.len (from_pos r.rxbuf));
      },
    )

-- The loops over `dill_fd_copy`: the buffers that are still to be filled, none for `return 0`.
unfoldable pub copy_all : List Iov → Rx → List Iov × Rx
copy_all [] r = ([], r)
copy_all (b ∷ iov) r =
    let (n, r') = fd_copy b r in
    let rest = copy_all iov r' in if ltb n b.len then (behind n b ∷ iov, r') else rest

abbrev pub Buffered : Type 0 → Type 0
Buffered S = Step (List Iov × Rx × S) (Result (Unit {0}) × Rx × S)

module _ {S : Type 0} (kernel : Kernel S) where
  open kernel use {recvmsg, fdin, malloc}

  -- The end of a turn of the loop.
  unfoldable pub refill_wait : List Iov → Rx → S → Buffered S
  refill_wait [] r st = done (ok tt, r, st)
  refill_wait (b ∷ iov) r st =
      let (w, st') = fdin st in
      elim w [ err e ↦ done (err e, r, st') | ok _ ↦ again (b ∷ iov, r, st') ]

  -- The bytes that `recv` gave are in the buffer at `p`.
  unfoldable pub copied : ℕ → List ℕ → List Iov → Rx → S → Buffered S
  copied p bytes iov r st =
      let filled : Rxbuf = record {
        len = length bytes;
        pos = 0;
        buf = some (record { ptr = p; bytes = bytes });
      } in
      let (iov', r') = copy_all iov (record r { rxbuf = filled }) in refill_wait iov' r' st

  -- `rxbuf->buf` is the buffer `b`.
  unfoldable pub refill : Chunk → List Iov → Rx → S → Buffered S
  refill b iov r st =
      let (x, st') = recvmsg 1984 st in
      elim x [
        | moved [] ↦ done (err epipe, r, st')
        | moved (v ∷ vs) ↦ copied b.ptr (v ∷ vs) iov r st'
        | would_block ↦ copied b.ptr [] iov r st'
        | failed e ↦ done (err (broken e), r, st')
      ]

  unfoldable pub refill_alloc : List Iov → Rx → Option ℕ × Cache × S → Buffered S
  refill_alloc iov r (none, c, st) = done (err enomem, record r { cache = c }, st)
  refill_alloc iov r (some p, c, st) =
      let b : Chunk = record { ptr = p; bytes = [] } in
      refill b iov (record r { cache = c; rxbuf = record r.rxbuf { buf = some b } }) st

  unfoldable pub refill_turn : List Iov × Rx × S → Buffered S
  refill_turn (iov, r, st) = elim r.rxbuf.buf [
    | some b ↦ refill b iov r st
    | none ↦ refill_alloc iov r (allocbuf kernel r.cache st)
  ]

  -- What `dill_fd_recv` does behind the first copies, `iov` being what is still to be filled.
  unfoldable pub recv_missing :
      ℕ → (buffered : Bool) → List Iov → Rx → S → Run (Result (Unit {0}) × Rx × S)
  recv_missing fuel buffered iov r st =
      if not buffered || ltb 1984 (miss iov % 2 ^ 64)
      then (elim (recv_large kernel fuel [] iov r.mem st) [
        | returns (x, m, st') ↦ returns (x, record r { mem = m }, st')
        | fault ↦ fault
        | out_of_fuel ↦ out_of_fuel
      ])
      else iterate refill_turn fuel (iov, r, st)

  unfoldable pub recv_copied : ℕ → S → List Iov × Rx → Run (Result (Unit {0}) × Rx × S)
  recv_copied fuel st ([], r) = returns (ok tt, r, st)
  recv_copied fuel st (b ∷ iov, r) = recv_missing fuel true (b ∷ iov) r st

  -- `dill_fd_recv`; `buffered` says that `rxbuf` is not NULL. The empty list is NULL for `first` and `last`.
  unfoldable pub fd_recv :
      ℕ → (buffered : Bool) → List Iov → Rx → S → Run (Result (Unit {0}) × Rx × S)
  fd_recv fuel buffered [] r st = elim (fd_skip kernel fuel fuel none r.mem st) [
    | returns (x, st') ↦ returns (x, r, st')
    | fault ↦ fault
    | out_of_fuel ↦ out_of_fuel
  ]
  fd_recv fuel true (b ∷ iov) r st = recv_copied fuel st (copy_all (b ∷ iov) r)
  fd_recv fuel false (b ∷ iov) r st = recv_missing fuel false (b ∷ iov) r st
