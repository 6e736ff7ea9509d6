-- ===== src/Ws/CloseFrame.antt =====
-- ws.c
-- The receive of a close frame without a mask.
use libdill.Base.{
  ℕ, ◌+◌, ◌-◌, ◌%◌, ◌^◌, ◌≤◌, min, ◌≡◌, refl, sym, subst, ◌∙◌, ap, Bool, true, false, not, ◌||◌,
  inr, Option, none, some, List, [], ◌∷◌, ◌++◌, drop, take, take-append, length, ltb, leb, ◌==◌,
  arith, Result, ok, err, epipe, length-append,
}
use mathlib.Core.List.{append_assoc, append-nil}
use libdill.Utils.Bytes.{gets}
use libdill.Bsock.{Bsock, Carries}
use libdill.Ws.{WsSock}
use libdill.Ws.Receive.{
  Into, Recv, recv_here, recv_payload, recv_end, recvl_base, on_opcode, buffers, first_of,
  second_of,
}
use libdill.Ws.Payload.{IsBytes, frame, recv_here-read, recv_payload-fits}
use libdill.Ws.Reading.{recv_frame-frame, recvl_base-one, start_of}

-- The socket and the buffers when a close frame is on its way in.
abbrev pub closing : Recv → Recv
closing r = record r {
  sock = record r.sock { indone = true };
  into = record { full = []; cur = 0 ∷ 0 ∷ []; len = 2; rest = 128 ∷ [] };
}

on_opcode-close : (r : Recv) → on_opcode 8 r ≡ (ok tt, closing r)
unfolding on_opcode
on_opcode-close r = refl

-- The end of a receive with a valid status.
pub recv_end-closed :
    (r : Recv) (code n : ℕ)
    → r.sock.indone ≡ true
    → gets (first_of (buffers r.into)) ≡ code
    → 1000 ≤ code
    → code ≤ 4999
    → r.res ≡ 2 + n
    → n ≤ 123
    → recv_end r ≡ (
      err epipe,
      record r.sock { status = code; msglen = n; msg = second_of r.sock.msg (buffers r.into) },
    )
unfolding recv_end
recv_end-closed r code n closed is lo hi res small =
    let done : not r.sock.indone ≡ false = ap not closed in
    let more : (r.res == 1) ≡ false = ground arith in
    let two : leb 2 r.res ≡ true = ground arith in
    let good : (ltb code 1000 || ltb 4999 code) ≡ false = ground arith in
    let len : (r.res % 256 + 254) % 256 ≡ n = omega (arith, res, small) in
    rw (done, more, two, is, good, len) refl

module _ {S : Type 0} (below : Bsock S) (content : S → List ℕ)
    (carries : Carries below content) where
  -- A buffer that the frame fills.
  recv_payload-next :
      (sz k : ℕ) (cur now : List ℕ) (len l : ℕ) (lens : List ℕ) (full : List (List ℕ)) (st : S)
      → min sz len ≡ k
      → (recv_here below k none cur st).0 ≡ ok now
      → (sz - k == 0) ≡ false
      → recv_payload below sz none full cur len (l ∷ lens) st
        ≡ recv_payload below
            (sz - k)
            none
            (full ++ now ∷ [])
            []
            l
            lens
            (recv_here below k none cur st).1
  unfolding recv_payload
  recv_payload-next sz k cur now len l lens full st least got more =
      rw (recv_payload, least, got, least, more) refl

  abbrev pub Closed : (s m old rest : List ℕ) → Result (Unit {0}) × Into × S → Type 0
  Closed s m old rest (r, into, st) =
      (r ≡ ok tt)
      × (first_of (buffers into) ≡ s)
      × (take (length m) (second_of old (buffers into)) ≡ m)
      × (content st ≡ rest)

  Closed-into :
      (s m old rest : List ℕ) (q : Result (Unit {0}) × Into × S) (into : Into)
      → q.0 ≡ ok tt
      → q.1 ≡ into
      → content q.2 ≡ rest
      → first_of (buffers into) ≡ s
      → take (length m) (second_of old (buffers into)) ≡ m
      → Closed s m old rest q
  Closed-into s m old rest (r, i, st) into ran same left h k = (
    ran,
    ap (λ j. first_of (buffers j)) same ∙ h,
    ap (λ j. take (length m) (second_of old (buffers j))) same ∙ k,
    left,
  )

  -- The two buffers of a close frame.
  recv_payload-close :
      (s m old rest : List ℕ) (st : S)
      → length s ≡ 2
      → length m ≤ 123
      → IsBytes s
      → IsBytes m
      → content st ≡ (s ++ m) ++ rest
      → Closed s m old rest (recv_payload below (2 + length m) none [] (0 ∷ 0 ∷ []) 2 (128 ∷ []) st)
  recv_payload-close s [] old rest st two small bs bm e =
      let (r, into, left) =
        recv_payload-fits below content carries s none [] (0 ∷ 0 ∷ []) 2 (128 ∷ []) rest st bs
          (omega (arith, two)) (e ∙ ap (λ k. k ++ rest) (append-nil s)) in
      subst (λ k. Closed s [] old rest (recv_payload below k none [] (0 ∷ 0 ∷ []) 2 (128 ∷ []) st))
        two
        (Closed-into s [] old rest _ _ r into left
          (ap (λ k. s ++ drop k (0 ∷ 0 ∷ [])) two ∙ append-nil s) refl)
  recv_payload-close s (x ∷ m) old rest st two small bs bm e =
      let n : ℕ = length (x ∷ m) in
      let got =
        recv_here-read below content carries 2 none (0 ∷ 0 ∷ []) s ((x ∷ m) ++ rest) st two
          (e ∙ append_assoc s (x ∷ m) rest) in
      let (r, into, left) =
        recv_payload-fits below content carries (x ∷ m) none ((s ++ []) ∷ []) [] 128 [] rest
          (recv_here below 2 none (0 ∷ 0 ∷ []) st).1 bm (omega (arith, small)) got.1 in
      let step =
        recv_payload-next (2 + n) 2 (0 ∷ 0 ∷ []) (s ++ []) 2 128 [] [] st (omega arith) got.0
          (ground arith) in
      let same : 2 + n - 2 ≡ n = omega arith in
      subst (Closed s (x ∷ m) old rest)
        (sym (
          step
          ∙ ap
              (λ k.
                recv_payload below k none ((s ++ []) ∷ []) [] 128 []
                  (recv_here below 2 none (0 ∷ 0 ∷ []) st).1)
              same))
        (Closed-into s (x ∷ m) old rest _ _ r into left (append-nil s)
          (take-append (x ∷ m) (drop n [])))

  -- A client receives a close frame.
  pub recv_close :
      (s m : List ℕ) (len : ℕ) (lens : List ℕ) (b : WsSock) (st : S)
      → length s ≡ 2
      → length m ≤ 123
      → IsBytes s
      → IsBytes m
      → b.indone ≡ false
      → b.server ≡ false
      → content st ≡ frame 8 none (s ++ m)
      → (q : Result (Unit {0}) × Into × S) × (recvl_base below 1 len lens b st ≡ (
          let r : Recv = record (closing (start_of len lens b)) {
            res = 2 + length m;
            into = q.1;
          } in
          some ((recv_end r).0, none, buffers q.1, (recv_end r).1, q.2)))
        × Closed s m b.msg [] q
  recv_close s m len lens b st two small bs bm going client e =
      let size : length (s ++ m) ≡ 2 + length m = omega (arith, length-append s m, two) in
      let start : Recv = start_of len lens b in
      let (st2, left, read) =
        recv_frame-frame below content carries 8 none (s ++ m) [] start (closing start) st
          (omega arith) tt (omega (arith, size, small)) (inr (omega (arith, size, small)))
          (on_opcode-close start) client (e ∙ sym (append-nil (frame 8 none (s ++ m)))) in
      let q = recv_payload below (length (s ++ m)) none [] (0 ∷ 0 ∷ []) 2 (128 ∷ []) st2 in
      let closed : Closed s m b.msg [] q =
        subst
          (λ k. Closed s m b.msg [] (recv_payload below k none [] (0 ∷ 0 ∷ []) 2 (128 ∷ []) st2))
          (sym size) (recv_payload-close s m b.msg [] st2 two small bs bm left) in
      let r : Recv = record (closing start) { res = (0 + length (s ++ m)) % 2 ^ 64 } in
      let ran = recvl_base-one below content carries len lens b r q st going read closed.0 in
      let total_size : (0 + length (s ++ m)) % 2 ^ 64 ≡ 2 + length m = omega (arith, size, small) in
      (
        q,
        ran ∙ ap (λ n. end_of q (record (closing start) { res = n; into = q.1 })) total_size,
        closed,
      )
    where
      end_of :
          Result (Unit {0}) × Into × S
          → Recv
          → Option (Result ℕ × Option Bool × List (List ℕ) × WsSock × S)
      end_of q r = some ((recv_end r).0, none, buffers q.1, (recv_end r).1, q.2)
