-- ===== src/Ws/Frame.antt =====
-- ws.c
-- The header of a frame: what is sent is read.
use libdill.Base.{
  ℕ, ◌%◌, ◌^◌, ◌<◌, ◌≤◌, ◌≡◌, refl, subst, ◌⊎◌, ◌∙◌, ap, false, Bool-cases, inl, inr, List, [], ◌∷◌,
  ◌++◌, ltb, ◌==◌, arith, ok,
}
use libdill.Utils.Bytes.{puts, putll}
use libdill.Utils.Bytes.RoundTrip.{gets-puts, getll-putll, length-puts, length-putll}
use libdill.Bsock.{Bsock, Carries}
use libdill.Ws.{put_len}
use libdill.Ws.Receive.{recv_len}

abbrev eight : ℕ → List ℕ
eight len = putll (0 ∷ 0 ∷ 0 ∷ 0 ∷ 0 ∷ 0 ∷ 0 ∷ 0 ∷ []) len

abbrev two : ℕ → List ℕ
two len = puts (0 ∷ 0 ∷ []) (len % 2 ^ 16)

-- The three forms of a length.
put_len-cases :
    (len : ℕ)
    → (put_len len ≡ (127, eight len))
      ⊎ (((put_len len ≡ (126, two len)) × (len < 2 ^ 16))
          ⊎ ((put_len len ≡ (len, [])) × (len ≤ 125)))
unfolding put_len
put_len-cases len = elim (Bool-cases (ltb 0xffff len)) [
  | inl e ↦ inl (rw e refl)
  | inr e ↦ elim (Bool-cases (ltb 125 len)) [
    | inl f ↦ inr (inl (rw (e, f) refl, ground arith))
    | inr f ↦ inr (inr (rw (e, f) refl, ground arith))
  ]
]

-- The code of the length fits into seven bits.
pub put_len-bound : (len : ℕ) → (put_len len).0 < 128
put_len-bound len = elim (put_len-cases len) [
  | inl e ↦ rw e (omega arith)
  | inr (inl (e, _)) ↦ rw e (omega arith)
  | inr (inr (e, h)) ↦ rw e (omega arith)
]

module _ {S : Type 0} (below : Bsock S) (content : S → List ℕ)
    (carries : Carries below content) where
  abbrev Reads : ℕ → ℕ → List ℕ → S → Type 0
  Reads code len rest st =
      ((recv_len below code st).0 ≡ ok len) × (content (recv_len below code st).1 ≡ rest)

  pub recv_len-put_len :
      (len : ℕ) (rest : List ℕ) (st : S)
      → len < 2 ^ 64
      → content st ≡ (put_len len).1 ++ rest
      → let (r, st') = recv_len below (put_len len).0 st in (r ≡ ok len) × (content st' ≡ rest)
  unfolding recv_len
  recv_len-put_len len rest st small = elim (put_len-cases len) [
    | inl f ↦
        form (127, eight len) f
          (λ e.
            let got =
              carries.receives (8 ∷ []) (eight len) rest st e (length-putll 0 0 0 0 0 0 0 0 len) in
            rw (got.0) (ap ok (getll-putll 0 0 0 0 0 0 0 0 len [] small), got.1))
    | inr (inl (f, h)) ↦
        form (126, two len) f
          (λ e.
            let got =
              carries.receives (2 ∷ []) (two len) rest st e (length-puts 0 0 (len % 2 ^ 16)) in
            rw (got.0) (ap ok (gets-puts 0 0 (len % 2 ^ 16) [] (omega arith) ∙ omega arith), got.1))
    | inr (inr (f, h)) ↦
        form (len, []) f
          (λ e.
            let short : (len == 126) ≡ false = ground arith in
            let short' : (len == 127) ≡ false = ground arith in rw (short, short') (refl, e))
  ]
    where
      form :
          (p : ℕ × List ℕ)
          → put_len len ≡ p
          → (content st ≡ p.1 ++ rest → Reads p.0 len rest st)
          → content st ≡ (put_len len).1 ++ rest
          → Reads (put_len len).0 len rest st
      form p f k e = rw f (k (subst (λ q. content st ≡ q.1 ++ rest) f e))
