-- ===== src/Term/Attach.antt =====
-- term.c: attaching to a message socket.
use libdill.Base.{ℕ, Bool, true, false, ◌&&◌, not, ltb, List, length, Result}
use libdill.Sockets.{Handles, msock_type}
use libdill.Sockets
use libdill.Term.{TermSock}

abbrev pub new_sock : (buf : List ℕ) (s : ℕ) → TermSock
new_sock buf s = record { u = s; buf = buf; indone = false; outdone = false; mem = true }

-- The test of the arguments as it stands: it needs both a missing storage and a long terminal message.
-- What a call with one of them does is undefined behaviour, and is not modelled.
abbrev pub refused : (mem : Bool) (buf : List ℕ) → Bool
refused mem buf = not mem && ltb 32 (length buf)

module _ {H : Type 0} (handles : Handles H TermSock) where
  -- `mem` says whether the storage is given; `buf` is not NULL or `len` is 0.
  abbrev pub attach_mem : (mem : Bool) (buf : List ℕ) → ℕ → H → Result ℕ × H
  attach_mem mem buf = Sockets.attach_mem handles (refused mem buf) msock_type (new_sock buf)

  abbrev pub attach : (room : Bool) (buf : List ℕ) → ℕ → H → Result ℕ × H
  attach room buf =
      Sockets.attach handles room (refused true buf) msock_type (new_sock buf)
        (λ self. record self { mem = false })
