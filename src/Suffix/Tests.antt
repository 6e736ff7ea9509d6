-- ===== src/Suffix/Tests.antt =====
-- suffix.c on concrete messages.
use libdill.Base.{ℕ, ◌≡◌, refl, true, false, some, List, [], ◌∷◌, take, length, ok, arith}
use libdill.Bsock.{pipe, pipe-Carries, concat}
use libdill.Suffix.{SuffixSock, msendl, mrecvl}
use libdill.Suffix.Messages.{mrecvl-msendl}

abbrev sock : SuffixSock
sock = record {
  u = 1;
  buf = 0 ∷ 0 ∷ [];
  suffix = 13 ∷ 10 ∷ [];
  inerr = false;
  outerr = false;
  mem = true;
}

-- A message of five bytes, received into a buffer for three.
abbrev message : List (List ℕ)
message = (72 ∷ 13 ∷ []) ∷ (13 ∷ 7 ∷ 8 ∷ []) ∷ []

mrecvl-msendl_example :
    let (r, self', sent) = msendl pipe message sock [] in
    (r ≡ ok tt)
    × (st' : List ℕ) × (mrecvl pipe 9 true 3 self' sent
        ≡ some (
          ok (length (concat message), take 3 (concat message)),
          record sock { buf = sock.suffix },
          st',
        ))
    × (st' ≡ [])
mrecvl-msendl_example =
    mrecvl-msendl pipe (λ q. q) pipe-Carries message 9 3 sock [] refl refl refl (omega arith)
      (refl, (refl, (refl, (refl, (refl, tt))))) (omega arith) (omega arith)
