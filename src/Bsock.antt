-- ===== src/Bsock.antt =====
-- libdill.h: the bytestream socket that the protocols on top of it call.
use libdill.Base.{
  ℕ, ◌+◌, List, [], ◌∷◌, ◌++◌, map, ◌≡◌, refl, sym, ap, true, leb, if◌then◌else◌, take, drop,
  length, arith, length-append, take-append, drop-append, Result, ok, err, epipe,
}

-- `dill_bsendl` and `dill_brecvl` on a socket whose state is `S`. What is sent is given by the bytes of
-- each buffer, what is received by the length of each buffer and the bytes that fill them in order; a
-- call that skips bytes has the same form. Either call succeeds as a whole or fails.
pub record Bsock (S : Type 0) : Type 0 where
  pub bsendl : List (List ℕ) → S → Result (Unit {0}) × S
  pub brecvl : List ℕ → S → Result (List ℕ) × S

-- `for(it = first; it; it = it->iol_next) sz += it->iol_len;`
abbrev pub total : List ℕ → ℕ
total [] = 0
total (n ∷ ns) = n + total ns

abbrev pub concat : List (List ℕ) → List ℕ
concat [] = []
concat (l ∷ ls) = l ++ concat ls

-- A bytestream that neither fails nor ends: it delivers in order what was sent. `content` is what is on
-- the way in a state.
pub record Carries {S : Type 0} (below : Bsock S) (content : S → List ℕ) : Type 0 where
  pub sends :
      (bufs : List (List ℕ)) (st : S)
      → ((below.bsendl bufs st).0 ≡ ok tt)
        × (content (below.bsendl bufs st).1 ≡ content st ++ concat bufs)
  pub receives :
      (lens bytes rest : List ℕ) (st : S)
      → content st ≡ bytes ++ rest
      → length bytes ≡ total lens
      → ((below.brecvl lens st).0 ≡ ok bytes) × (content (below.brecvl lens st).1 ≡ rest)

-- The bytes of several buffers.
pub length-concat : (bufs : List (List ℕ)) → length (concat bufs) ≡ total (map length bufs)
length-concat [] = refl
length-concat (l ∷ ls) = omega (arith, length-append l (concat ls), length-concat ls)

-- A queue of bytes is such a bytestream.
abbrev pub pipe : Bsock (List ℕ)
pipe = record {
  bsendl = λ bufs q. (ok tt, q ++ concat bufs);
  brecvl = λ lens q.
      if leb (total lens) (length q)
      then (ok (take (total lens) q), drop (total lens) q)
      else (err epipe, q);
}

has_enough :
    (lens bytes rest q : List ℕ)
    → q ≡ bytes ++ rest
    → length bytes ≡ total lens
    → leb (total lens) (length q) ≡ true
has_enough lens bytes rest q e n = ground (arith, ap length e, length-append bytes rest)

pub pipe-Carries : Carries pipe (λ q. q)
pipe-Carries = record {
  sends = λ bufs st. (refl, refl);
  receives = λ lens bytes rest st e n.
      rw (has_enough lens bytes rest st e n, e, sym n)
        (ap ok (take-append bytes rest), drop-append bytes rest);
}
