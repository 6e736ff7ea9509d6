-- ===== src/Prefix/Tests.antt =====
-- prefix.c on concrete messages.
use libdill.Base.{ℕ, true, false, List, [], ◌∷◌}
use libdill.Prefix.{PrefixSock}

abbrev sock : PrefixSock
sock = record { u = 1; hdrlen = 2; bigendian = true; inerr = false; outerr = false; mem = true }

abbrev messages : List (List (List ℕ))
messages = ((1 ∷ []) ∷ (2 ∷ 3 ∷ []) ∷ []) ∷ [] ∷ ((4 ∷ []) ∷ []) ∷ []

abbrev buffers : List (List ℕ)
buffers = (2 ∷ 5 ∷ []) ∷ (1 ∷ []) ∷ (0 ∷ 9 ∷ []) ∷ []
