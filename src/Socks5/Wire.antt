-- ===== src/Socks5/Wire.antt =====
-- A bytestream with two directions, and a step of SOCKS5 on it.
use libdill.Base.{
  ℕ, List, [], ◌∷◌, ◌++◌, length, take, drop, leb, ◌≡◌, refl, sym, ap, ◌∙◌, arith, if◌then◌else◌,
  Result, ok, err, epipe, returns, length-append, take-append, drop-append, true,
}
use mathlib.Core.List.{append-nil, append_assoc}
use libdill.Bsock.{Bsock, total, concat}
use libdill.Socks5.{Answer, send_then, recv_then}

-- A bytestream that neither fails nor ends: what is sent is added to `outgoing`, and what is received is
-- taken from `incoming`.
pub record Wire {S : Type 0} (below : Bsock S) (incoming outgoing : S → List ℕ) : Type 0 where
  pub sends :
      (bufs : List (List ℕ)) (st : S)
      → ((below.bsendl bufs st).0 ≡ ok tt)
        × (outgoing (below.bsendl bufs st).1 ≡ outgoing st ++ concat bufs)
        × (incoming (below.bsendl bufs st).1 ≡ incoming st)
  pub receives :
      (lens bytes rest : List ℕ) (st : S)
      → incoming st ≡ bytes ++ rest
      → length bytes ≡ total lens
      → ((below.brecvl lens st).0 ≡ ok bytes)
        × (incoming (below.brecvl lens st).1 ≡ rest)
        × (outgoing (below.brecvl lens st).1 ≡ outgoing st)

-- Two queues of bytes are such a bytestream.
abbrev pub two_pipes : Bsock (List ℕ × List ℕ)
two_pipes = record {
  bsendl = λ bufs st. (ok tt, (st.0, st.1 ++ concat bufs));
  brecvl = λ lens st.
      if leb (total lens) (length st.0)
      then (ok (take (total lens) st.0), (drop (total lens) st.0, st.1))
      else (err epipe, st);
}

has_enough :
    (lens bytes rest q : List ℕ)
    → q ≡ bytes ++ rest
    → length bytes ≡ total lens
    → leb (total lens) (length q) ≡ true
has_enough lens bytes rest q e n = ground (arith, ap length e, length-append bytes rest)

pub two_pipes-Wire : Wire two_pipes (λ st. st.0) (λ st. st.1)
two_pipes-Wire = record {
  sends = λ bufs st. (refl, refl, refl);
  receives = λ lens bytes rest st e n.
      rw (has_enough lens bytes rest st.0 e n, e, sym n)
        (ap ok (take-append bytes rest), drop-append bytes rest, refl);
}

-- A call from `st` returns `r`; it has sent `sent`, and `rest` is left to be received.
abbrev pub Says :
    {S A : Type 0}
    → (incoming outgoing : S → List ℕ) → Answer A S
    → S
    → Result A
    → (sent rest : List ℕ) → Type 0
Says {S} incoming outgoing call st r sent rest =
    (st' : S) × (call ≡ returns (r, st'))
    × (outgoing st' ≡ outgoing st ++ sent)
    × (incoming st' ≡ rest)

module _ {S A : Type 0} (below : Bsock S) (incoming outgoing : S → List ℕ)
    (wire : Wire below incoming outgoing) where
  abbrev WireSays : Answer A S → S → Result A → (sent rest : List ℕ) → Type 0
  WireSays = Says incoming outgoing

  pub end_Says : (r : Result A) (st : S) → WireSays (returns (r, st)) st r [] (incoming st)
  end_Says r st = (st, refl, sym (append-nil (outgoing st)), refl)

  pub send_then-Says :
      (bytes : List ℕ) (next : S → Answer A S) (st : S) (r : Result A) (sent rest : List ℕ)
      → ((st' : S) → incoming st' ≡ incoming st → WireSays (next st') st' r sent rest)
      → WireSays (send_then below bytes next st) st r (bytes ++ sent) rest
  unfolding send_then
  send_then-Says bytes next st r sent rest rest_of_it =
      let (e, out, same) = wire.sends (bytes ∷ []) st in
      let (st'', e', out', c) = rest_of_it (below.bsendl (bytes ∷ []) st).1 same in
      (
        st'',
        rw (send_then, e) e',
        out'
            ∙ ap (λ l. l ++ sent) (out ∙ ap (λ l. outgoing st ++ l) (append-nil bytes))
            ∙ append_assoc (outgoing st) bytes sent,
        c,
      )

  pub recv_then-Says :
      (bytes rest' : List ℕ) (len : ℕ) (next : List ℕ → S → Answer A S) (st : S) (r : Result A)
      (sent rest : List ℕ)
      → incoming st ≡ bytes ++ rest'
      → length bytes ≡ len
      → ((st' : S) → incoming st' ≡ rest' → WireSays (next bytes st') st' r sent rest)
      → WireSays (recv_then below len next st) st r sent rest
  unfolding recv_then
  recv_then-Says bytes rest' len next st r sent rest c l rest_of_it =
      let (e, left, same) = wire.receives (len ∷ []) bytes rest' st c (omega arith) in
      let (st'', e', out, k) = rest_of_it (below.brecvl (len ∷ []) st).1 left in
      (st'', rw (recv_then, e) e', out ∙ ap (λ l. l ++ sent) same, k)
