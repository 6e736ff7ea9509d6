-- ===== src/Suffix/Attach.antt =====
-- suffix.c: attaching to a bytestream, and detaching from it.
use libdill.Base.{ℕ, Bool, true, false, ◌||◌, not, ◌==◌, ltb, List, [], length, Result}
use libdill.Sockets.{Handles, bsock_type}
use libdill.Sockets
use libdill.Suffix.{SuffixSock}

-- `buf` is not initialised; nothing reads it before the first receive fills it.
abbrev pub new_sock : (suffix : List ℕ) (s : ℕ) → SuffixSock
new_sock suffix s = record {
  u = s;
  buf = [];
  suffix = suffix;
  inerr = false;
  outerr = false;
  mem = true;
}

-- The test of the suffix, which is not NULL.
abbrev pub bad_suffix : List ℕ → Bool
bad_suffix suffix = length suffix == 0 || ltb 32 (length suffix)

module _ {H : Type 0} (handles : Handles H SuffixSock) where
  -- `mem` says whether the storage is given.
  abbrev pub attach_mem : (mem : Bool) (suffix : List ℕ) → ℕ → H → Result ℕ × H
  attach_mem mem suffix =
      Sockets.attach_mem handles (not mem || bad_suffix suffix) bsock_type (new_sock suffix)

  abbrev pub attach : (room : Bool) (suffix : List ℕ) → ℕ → H → Result ℕ × H
  attach room suffix =
      Sockets.attach handles room (bad_suffix suffix) bsock_type (new_sock suffix)
        (λ self. record self { mem = false })

  abbrev pub detach : ℕ → H → Result ℕ × H
  detach = Sockets.detach handles (λ self. self.inerr || self.outerr) (λ self. self.u)
