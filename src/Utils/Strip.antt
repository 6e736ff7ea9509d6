-- ===== src/Utils/Strip.antt =====
-- utils.c: `dill_lstrip` and `dill_rstrip` on a C string, given by its bytes in front of the NUL.
use libdill.Base.{ℕ, ◌==◌, if◌then◌else◌, List, [], ◌∷◌}

unfoldable pub lstrip : (delim : ℕ) → List ℕ → List ℕ
lstrip delim [] = []
lstrip delim (c ∷ cs) = if c == delim then lstrip delim cs else c ∷ cs

-- A byte in front of what is kept of the bytes behind it.
abbrev pub before : (delim : ℕ) → ℕ → List ℕ → List ℕ
before delim c [] = if c == delim then [] else c ∷ []
before delim c (x ∷ xs) = c ∷ x ∷ xs

-- The bytes behind the first one, less the delimiters at their end.
unfoldable pub strip_tail : (delim : ℕ) → List ℕ → List ℕ
strip_tail delim [] = []
strip_tail delim (c ∷ cs) = before delim c (strip_tail delim cs)

-- The walk from the end stops at the first byte whatever that is, and the empty string stays.
unfoldable pub rstrip : (delim : ℕ) → List ℕ → List ℕ
unfolding strip_tail
rstrip delim [] = []
rstrip delim (c ∷ cs) = c ∷ strip_tail delim cs
