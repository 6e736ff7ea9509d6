-- ===== src/Prefix/Attach.antt =====
-- prefix.c: attaching to a bytestream, and detaching from it.
use libdill.Base.{ℕ, Bool, true, false, ◌||◌, not, ◌==◌, Result}
use libdill.Sockets.{Handles, bsock_type}
use libdill.Sockets
use libdill.Prefix.{PrefixSock}

abbrev pub new_sock : (hdrlen : ℕ) (little_endian : Bool) (s : ℕ) → PrefixSock
new_sock hdrlen little_endian s = record {
  u = s;
  hdrlen = hdrlen;
  bigendian = not little_endian;
  inerr = false;
  outerr = false;
  mem = true;
}

module _ {H : Type 0} (handles : Handles H PrefixSock) where
  -- `mem` says whether the storage is given.
  abbrev pub attach_mem : (mem : Bool) (hdrlen : ℕ) (little_endian : Bool) → ℕ → H → Result ℕ × H
  attach_mem mem hdrlen little_endian =
      Sockets.attach_mem handles (not mem || hdrlen == 0) bsock_type (new_sock hdrlen little_endian)

  abbrev pub attach : (room : Bool) (hdrlen : ℕ) (little_endian : Bool) → ℕ → H → Result ℕ × H
  attach room hdrlen little_endian =
      Sockets.attach handles room (hdrlen == 0) bsock_type (new_sock hdrlen little_endian)
        (λ self. record self { mem = false })

  abbrev pub detach : ℕ → H → Result ℕ × H
  detach = Sockets.detach handles (λ self. self.inerr || self.outerr) (λ self. self.u)
