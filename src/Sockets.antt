-- ===== src/Sockets.antt =====
-- libdill.h: the handles as the protocols use them, and the way in which they attach to a socket.
-- A protocol's socket is an object of type `Obj` behind a handle; the socket below is another handle.
-- `handle.c` is the implementation; its model stands in Handle.
use libdill.Base.{
  ℕ, Bool, if◌then◌else◌, Errno, enotsup, eproto, enomem, einval, econnreset, Result, ok, err,
}

-- The calls of `handle.c`, on a state `H`. `hquery` asks for one of the library's interfaces, `object` for
-- the protocol's own object, `write` changes that object. The result of `dill_hclose` is not used.
pub record Handles (H Obj : Type 0) : Type 0 where
  pub hown : ℕ → H → Result ℕ × H
  pub hquery : ℕ → ℕ → H → Result (Unit {0}) × H
  pub hmake : Obj → H → Result ℕ × H
  pub hclose : ℕ → H → H
  pub object : ℕ → H → Result Obj
  pub write : ℕ → Obj → H → H

abbrev pub bsock_type : ℕ
bsock_type = 0

abbrev pub msock_type : ℕ
msock_type = 1

-- `if(!q && errno == ENOTSUP) err = EPROTO;`
abbrev pub not_supported : Errno → Errno
not_supported enotsup = eproto
not_supported e = e

module _ {H Obj : Type 0} (handles : Handles H Obj) where
  open handles use {hown, hquery, hmake, hclose, object, write}

  -- The end of an `attach_mem` on the socket `s`, which is owned: the object is made and gets a handle,
  -- or `s` is closed.
  unfoldable pub create : (ℕ → Obj) → ℕ → H → Result ℕ × H
  create make s h =
      let (r, h') = hmake (make s) h in elim r [ err e ↦ (err e, hclose s h') | ok n ↦ (ok n, h') ]

  -- The test that `s` has the interface that the protocol needs.
  unfoldable pub check_type : (kind : ℕ) → (ℕ → Obj) → ℕ → H → Result ℕ × H
  check_type kind make s h =
      let (r, h') = hquery s kind h in
      elim r [ err e ↦ (err (not_supported e), hclose s h') | ok _ ↦ create make s h' ]

  -- `dill_*_attach_mem`: `refused` is the test of the arguments, and `s` is not negative. A failed
  -- `dill_hown` leaves a negative `s`, so nothing is closed then.
  unfoldable pub attach_mem : (refused : Bool) (kind : ℕ) → (ℕ → Obj) → ℕ → H → Result ℕ × H
  attach_mem refused kind make s h =
      let (r, h') = hown s h in
      if refused
      then (err einval, hclose s h)
      else elim r [ err e ↦ (err e, h') | ok u ↦ check_type kind make u h' ]

  -- `dill_*_attach`: `room` says whether `malloc` gives memory; the object then is on the heap, which
  -- `on_heap` writes into it.
  unfoldable pub attach :
      (room refused : Bool) (kind : ℕ) → (ℕ → Obj) → (Obj → Obj) → ℕ → H → Result ℕ × H
  attach room refused kind make on_heap s h =
      let (r, h') = attach_mem refused kind make s h in
      if room
      then (elim r [
        | err e ↦ (err e, h')
        | ok n ↦ elim (object n h') [
          | err _ ↦ (ok n, h')
          | ok self ↦ (ok n, write n (on_heap self) h')
        ]
      ])
      else (err enomem, hclose s h)

  -- `dill_*_detach` of PREFIX and SUFFIX: `failed` is the test of `inerr` and `outerr`, `below` the
  -- socket below. The handle `s` itself stays as it is.
  unfoldable pub detach : (Obj → Bool) → (Obj → ℕ) → ℕ → H → Result ℕ × H
  detach failed below s h = elim (object s h) [
    | err e ↦ (err e, hclose s h)
    | ok self ↦ if failed self then (err econnreset, hclose s h) else (ok (below self), h)
  ]
