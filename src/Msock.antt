-- ===== src/Msock.antt =====
-- libdill.h: the message socket that the protocols on top of it call.
use libdill.Base.{
  ℕ, ◌≤◌, ◌≡◌, refl, List, [], ◌∷◌, ◌++◌, length, ap, arith, true, leb, if◌then◌else◌, Result, ok,
  err, epipe, emsgsize,
}

-- `dill_msendl`, and `dill_mrecvl` into buffers for so many bytes, on a socket whose state is `S`: a
-- whole message goes out or comes in, or the call fails; in both cases the socket's state changes.
pub record Msock (S : Type 0) : Type 0 where
  pub msend : List ℕ → S → Result (Unit {0}) × S
  pub mrecv : ℕ → S → Result (List ℕ) × S

-- A message socket that neither fails nor ends: messages arrive in the order in which they are sent, and
-- the two directions do not touch. `incoming` is what is to be received in a state, `outgoing` what has
-- been sent.
pub record Duplex {S : Type 0} (below : Msock S) (incoming outgoing : S → List (List ℕ))
    : Type 0 where
  pub sends :
      (m : List ℕ) (st : S)
      → ((below.msend m st).0 ≡ ok tt)
        × (incoming (below.msend m st).1 ≡ incoming st)
        × (outgoing (below.msend m st).1 ≡ outgoing st ++ m ∷ [])
  pub receives :
      (n : ℕ) (m : List ℕ) (ms : List (List ℕ)) (st : S)
      → incoming st ≡ m ∷ ms
      → length m ≤ n
      → ((below.mrecv n st).0 ≡ ok m)
        × (incoming (below.mrecv n st).1 ≡ ms)
        × (outgoing (below.mrecv n st).1 ≡ outgoing st)

-- Two queues of messages, one for each direction; a message that is too long is an error.
abbrev pub two_queues : Msock (List (List ℕ) × List (List ℕ))
two_queues = record { msend = λ m q. (ok tt, (q.0, q.1 ++ m ∷ [])); mrecv = λ n q. front n q.0 q.1 }
  where
    front : ℕ → List (List ℕ) → List (List ℕ) → Result (List ℕ) × (List (List ℕ) × List (List ℕ))
    front n [] out = (err epipe, ([], out))
    front n (m ∷ ms) out =
        if leb (length m) n then (ok m, (ms, out)) else (err emsgsize, (m ∷ ms, out))

two_queues_receive :
    (n : ℕ) (m : List ℕ) (ms out : List (List ℕ))
    → length m ≤ n
    → (two_queues.mrecv n (m ∷ ms, out)) ≡ (ok m, (ms, out))
two_queues_receive n m ms out h = let fine : leb (length m) n ≡ true = ground arith in rw fine refl

pub two_queues-Duplex : Duplex two_queues (λ q. q.0) (λ q. q.1)
two_queues-Duplex = record {
  sends = λ m st. (refl, refl, refl);
  receives = λ n m ms st e h. rw e (
    ap (λ t. t.0) (two_queues_receive n m ms (st.1) h),
    ap (λ t. t.1.0) (two_queues_receive n m ms (st.1) h),
    ap (λ t. t.1.1) (two_queues_receive n m ms (st.1) h),
  );
}

-- A socket that queues what is sent.
abbrev pub loopback : Msock (List (List ℕ))
loopback = record { msend = λ l q. (ok tt, q ++ l ∷ []); mrecv = λ n q. pop q }
  where
    pop : List (List ℕ) → Result (List ℕ) × List (List ℕ)
    pop [] = (err epipe, [])
    pop (l ∷ q) = (ok l, q)
