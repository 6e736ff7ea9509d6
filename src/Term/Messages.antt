-- ===== src/Term/Messages.antt =====
-- A TERM socket drops what it still gets and hands back the socket below.
use libdill.Base.{
  ℕ, ◌^◌, ◌≤◌, ◌<◌, ◌≡◌, refl, ◌≢◌, sym, ◌∙◌, true, false, ◌&&◌, Bool-cases, inl, inr, List, [],
  ◌∷◌, length, take, take-all, ◌==◌, same_bytes, same_bytes_refl, arith, epipe, ok, err,
}
use libdill.Msock.{Msock, Duplex}
use libdill.Term.{TermSock, room, mrecvl, recv_empty, recv_marked}

-- Messages of which none is the terminal one and each fits into a `size_t`.
abbrev pub Ordinary : List ℕ → List (List ℕ) → Type 0
Ordinary buf [] = Unit
Ordinary buf (m ∷ ms) = (m ≢ buf) × (length m < 2 ^ 64) × Ordinary buf ms

same_bytes-eq : (a b : List ℕ) → same_bytes a b ≡ true → b ≡ a
same_bytes-eq [] [] e = refl
same_bytes-eq [] (x ∷ xs) e = ground arith
same_bytes-eq (x ∷ xs) [] e = ground arith
same_bytes-eq (x ∷ xs) (y ∷ ys) e =
    let head : y ≡ x = ground arith in
    let tail : same_bytes xs ys ≡ true = ground arith in λ i. head i ∷ same_bytes-eq xs ys tail i

empty : (l : List ℕ) → (length l == 0) ≡ true → l ≡ []
empty [] e = refl
empty (x ∷ l) e = absurd (ground arith)

-- The test for the terminal message says no for other messages.
ordinary :
    (buf m : List ℕ)
    → m ≢ buf
    → (length m == length buf && same_bytes buf (take (length buf) m)) ≡ false
ordinary buf m ne =
    elim (Bool-cases (length m == length buf && same_bytes buf (take (length buf) m))) [
      | inr e ↦ e
      | inl e ↦
          let sized : length m ≡ length buf = ground arith in
          let same : same_bytes buf (take (length buf) m) ≡ true = ground arith in
          absurd (
            ne (
              sym (take-all (length buf) m (omega arith))
              ∙ same_bytes-eq buf (take (length buf) m) same))
    ]

terminal :
    (buf : List ℕ) → (length buf == length buf && same_bytes buf (take (length buf) buf)) ≡ true
terminal buf =
    let same : (length buf == length buf) ≡ true = ground arith in
    rw (same, take-all (length buf) buf (omega arith)) (same_bytes_refl buf)

module _ {S : Type 0} (below : Msock S) (incoming outgoing : S → List (List ℕ))
    (queues : Duplex below incoming outgoing) where
  -- A message that is not the terminal one is received.
  pub mrecvl-ordinary :
      (m : List ℕ) (ms : List (List ℕ)) (first : ℕ) (self : TermSock) (st : S)
      → incoming st ≡ m ∷ ms
      → m ≢ self.buf
      → length m ≤ first
      → (st' : S) × (mrecvl below first self st ≡ (ok (length m, m), self, st'))
        × (incoming st' ≡ ms)
        × (outgoing st' ≡ outgoing st)
  unfolding mrecvl recv_empty recv_marked
  mrecvl-ordinary m ms first self st c ne fits = elim (Bool-cases (length (self.buf) == 0)) [
    | inl e ↦
        let got = queues.receives first m ms st c fits in
        let some_bytes = not_empty e in
        ((below.mrecv first st).1, rw (e, recv_empty, got.0, some_bytes) refl, got.1, got.2)
    | inr e ↦
        let got = queues.receives (room (length (self.buf)) first) m ms st c (ground arith) in
        (
          (below.mrecv (room (length (self.buf)) first) st).1,
          rw (e, recv_marked, got.0, ordinary (self.buf) m ne, take-all first m fits) refl,
          got.1,
          got.2,
        )
  ]
    where
      not_empty : (length (self.buf) == 0) ≡ true → (length m == 0) ≡ false
      not_empty e = elim (Bool-cases (length m == 0)) [
        | inl z ↦ absurd (ne (empty m z ∙ sym (empty (self.buf) e)))
        | inr z ↦ z
      ]

  -- The terminal message is received as EPIPE.
  pub mrecvl-terminal :
      (ms : List (List ℕ)) (first : ℕ) (self : TermSock) (st : S)
      → incoming st ≡ self.buf ∷ ms
      → (st' : S) × (mrecvl below first self st ≡ (err epipe, record self { indone = true }, st'))
        × (incoming st' ≡ ms)
        × (outgoing st' ≡ outgoing st)
  unfolding mrecvl recv_empty recv_marked
  mrecvl-terminal ms first self st c = elim (Bool-cases (length (self.buf) == 0)) [
    | inl e ↦
        let got = queues.receives first (self.buf) ms st c (ground arith) in
        ((below.mrecv first st).1, rw (e, recv_empty, got.0, e) refl, got.1, got.2)
    | inr e ↦
        let got =
          queues.receives (room (length (self.buf)) first) (self.buf) ms st c (ground arith) in
        (
          (below.mrecv (room (length (self.buf)) first) st).1,
          rw (e, recv_marked, got.0, terminal (self.buf)) refl,
          got.1,
          got.2,
        )
  ]
