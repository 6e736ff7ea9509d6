-- ===== src/Http/Scan.antt =====
-- The scanning loops of http.c on words and spaces.
use mathlib.Core.List.{append-nil}
use libdill.Base.{
  subst, ℕ, ◌<◌, ◌≡◌, refl, ◌≢◌, ◌∙◌, Bool, true, false, ◌||◌, List, [], ◌∷◌, ◌++◌, ◌==◌, arith,
  ◌^◌, Result, ok,
}
use libdill.Msock.{Msock}
use libdill.Http.{space, peek, skip_spaces, token, too_long, has_any, blanks, max_line, receive}

-- Bytes at which a token does not end.
abbrev pub ends_token : ℕ → ℕ → Bool
ends_token stop c = c == 0 || (c == space || c == stop)

abbrev pub Word : ℕ → List ℕ → Type 0
Word stop [] = Unit
Word stop (c ∷ cs) = (ends_token stop c ≡ false) × Word stop cs

abbrev pub NoNul : List ℕ → Type 0
NoNul [] = Unit
NoNul (c ∷ cs) = (c ≢ 0) × NoNul cs

pub token-Word :
    (stop : ℕ) (w rest : List ℕ)
    → Word stop w
    → ends_token stop (peek rest) ≡ true
    → token stop (w ++ rest) ≡ (w, rest)
unfolding token
token-Word stop [] [] h e = refl
token-Word stop [] (c ∷ cs) h e = rw e
token-Word stop (c ∷ cs) rest h e = rw (h.0, token-Word stop cs rest h.1 e)

pub skip_spaces-none : (l : List ℕ) → (peek l == space) ≡ false → skip_spaces l ≡ l
unfolding skip_spaces
skip_spaces-none [] h = refl
skip_spaces-none (c ∷ cs) h = rw h

pub skip_spaces-space : (l : List ℕ) → skip_spaces (space ∷ l) ≡ skip_spaces l
unfolding skip_spaces
skip_spaces-space l = refl

-- A word that is not empty does not begin with a space.
pub peek-Word :
    (stop : ℕ) (w rest : List ℕ) → Word stop w → w ≢ [] → (peek (w ++ rest) == space) ≡ false
peek-Word stop [] rest h ne = absurd (ne refl)
peek-Word stop (c ∷ cs) rest h ne = ground arith

pub skip_spaces-Word :
    (stop : ℕ) (w rest : List ℕ)
    → Word stop w
    → w ≢ []
    → skip_spaces (space ∷ (w ++ rest)) ≡ w ++ rest
skip_spaces-Word stop w rest h ne =
    skip_spaces-space (w ++ rest) ∙ skip_spaces-none (w ++ rest) (peek-Word stop w rest h ne)

pub skip_spaces-last : (stop : ℕ) (w : List ℕ) → Word stop w → w ≢ [] → skip_spaces (space ∷ w) ≡ w
skip_spaces-last stop w h ne =
    subst (λ t. skip_spaces (space ∷ t) ≡ t) (append-nil w) (skip_spaces-Word stop w [] h ne)

pub token-all : (stop : ℕ) (w : List ℕ) → Word stop w → token stop w ≡ (w, [])
token-all stop w h =
    subst (λ t. token stop t ≡ (w, [])) (append-nil w) (token-Word stop w [] h refl)

-- A text that `strpbrk` finds no blank in is a word.
pub Word-of_no_blank : (w : List ℕ) → has_any blanks w ≡ false → NoNul w → Word 0 w
unfolding has_any
Word-of_no_blank [] h n = tt
Word-of_no_blank (c ∷ cs) h n = (ground arith, Word-of_no_blank cs (ground arith) n.1)

pub fits : (n size : ℕ) → n < size → size < 2 ^ 64 → too_long n size ≡ false
fits n size h k = ground arith

-- The socket below delivers the message `l`, sent in the state `st`, whole.
abbrev pub Delivers : {S : Type 0} → Msock S → List ℕ → S → Type 0
Delivers below l st =
    ((below.msend l st).0 ≡ ok tt) × ((below.mrecv max_line (below.msend l st).1).0 ≡ ok l)

module _ {S : Type 0} {A : Type 0} (below : Msock S) (parse : List ℕ → Result A) where
  -- A line that comes in is parsed.
  pub receive-ok :
      (line : List ℕ) (st : S)
      → (below.mrecv max_line st).0 ≡ ok line
      → (receive below parse st).0 ≡ parse line
  unfolding receive
  receive-ok line st e = ground arith
