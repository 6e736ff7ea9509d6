-- ===== src/Ws/Reading.antt =====
-- ws.c
-- The receive of a frame that has been sent, in steps.
use libdill.Base.{
  ℕ, ◌+◌, ◌/◌, ◌%◌, ◌^◌, ◌<◌, ◌≤◌, ◌≡◌, refl, sym, subst, ◌⊎◌, ◌∙◌, ap, Bool, true, false, not,
  ◌&&◌, ◌||◌, inl, inr, Option, none, some, List, [], ◌∷◌, ◌++◌, length, ltb, leb, ◌==◌,
  if◌then◌else◌, if-false, arith, Errno, Result, ok, err,
}
use libdill.Bsock.{Bsock, Carries}
use libdill.Ws.{WsSock, put_len}
use libdill.Ws.Receive.{
  Into, Recv, unmask, recv_mask, recv_len, recv_payload, recv_frame, recv_frames, recv_opened,
  recv_sized, recv_rest, recv_end, recvl_base, on_opcode, buffers,
}
use libdill.Ws.Frame.{put_len-bound, recv_len-put_len}
use libdill.Ws.Payload.{
  is_some, IsMask, frame, second_byte, second_byte-mask, frame-form, recv_mask-read, MaskRead,
}

err-ok : (e : Errno) → Path (Result (Unit {0})) (err e) (ok tt) → ⊥
err-ok e h = ground arith

own_side : (b : Bool) → (if b then not b else b) ≡ false
own_side true = refl
own_side false = refl

fits : (type n : ℕ) → (type < 8) ⊎ (n ≤ 125) → (leb 8 type && (ltb 125 n || not true)) ≡ false
fits type n (inl h) = ground arith
fits type n (inr h) = ground arith

abbrev pub start_of : (len : ℕ) (lens : List ℕ) → WsSock → Recv
start_of len lens self = record {
  sock = self;
  into = record { full = []; cur = []; len = len; rest = lens };
  flags = none;
  res = 0;
}

module _ {S : Type 0} (below : Bsock S) (content : S → List ℕ)
    (carries : Carries below content) where
  -- A frame whose first two bytes are in order.
  recv_opened-sized :
      (h0 h1 : ℕ) (r r' : Recv) (st : S)
      → on_opcode (h0 % 16) r ≡ (ok tt, r')
      → not (h0 / 16 % 8 == 0) ≡ false
      → leb 128 h1 ≡ r'.sock.server
      → recv_opened below h0 h1 r st
        ≡ recv_sized below (leb 128 h0) (leb 8 (h0 % 16)) (h1 % 128) r' st
  unfolding recv_opened
  recv_opened-sized h0 h1 r r' st op no_rsv side =
      rw (recv_opened, ap (λ q. q.0) op, ap (λ q. q.1) op, no_rsv, side, own_side r'.sock.server)
        refl

  -- A frame whose length has been read.
  recv_sized-rest :
      (control : Bool) (code sz : ℕ) (r : Recv) (st : S)
      → (recv_len below code st).0 ≡ ok sz
      → (control && (ltb 125 sz || not true)) ≡ false
      → recv_sized below true control code r st
        ≡ recv_rest below true sz
            (record r { res = (r.res + sz) % 2 ^ 64 })
            (recv_len below code st).1
  unfolding recv_sized
  recv_sized-rest control code sz r st sized short = rw (recv_sized, sized, short) refl

  -- The end of a frame, by what the receive of its payload gives.
  abbrev pub ended : Recv → Result (Unit {0}) × Into × S → Result Bool × Recv × S
  ended r (err e, into, st) = (err e, record r { into = into }, st)
  ended r (ok _, into, st) = (ok true, record r { into = into }, st)

  recv_rest-ended :
      (sz : ℕ) (mask : Option (List ℕ)) (r : Recv) (st : S)
      → (recv_mask below r.sock.server st).0 ≡ ok mask
      → recv_rest below true sz r st
        ≡ ended r (
            recv_payload below sz mask r.into.full r.into.cur r.into.len r.into.rest
              (recv_mask below r.sock.server st).1)
  unfolding recv_rest
  recv_rest-ended sz mask r st got =
      rw (recv_rest, got)
        (by_cases (
          recv_payload below sz mask r.into.full r.into.cur r.into.len r.into.rest
            (recv_mask below r.sock.server st).1))
    where
      by_cases :
          (q : Result (Unit {0}) × Into × S)
          → (elim (q.0) as (λ _. Result Bool × Recv × S) [
            | err e ↦ (err e, record r { into = q.1 }, q.2)
            | ok _ ↦ (ok true, record r { into = q.1 }, q.2)
          ])
            ≡ ended r q
      by_cases (err e, into, st') = refl
      by_cases (ok _, into, st') = refl

  recv_frame-opened :
      (h0 h1 : ℕ) (r : Recv) (st : S)
      → (below.brecvl (2 ∷ []) st).0 ≡ ok (h0 ∷ h1 ∷ [])
      → recv_frame below r st ≡ recv_opened below h0 h1 r (below.brecvl (2 ∷ []) st).1
  unfolding recv_frame
  recv_frame-opened h0 h1 r st got = rw (recv_frame, got) refl

  -- The receive of a frame whose opcode has led to `r'`, given how its payload is received.
  pub recv_frame-frame :
      (type : ℕ) (mask : Option (List ℕ)) (p rest : List ℕ) (r r' : Recv) (st : S)
      → type < 16
      → IsMask mask
      → length p < 2 ^ 64
      → (type < 8) ⊎ (length p ≤ 125)
      → on_opcode type r ≡ (ok tt, r')
      → r'.sock.server ≡ is_some mask
      → content st ≡ frame type mask p ++ rest
      → (st2 : S) × (content st2 ≡ unmask mask p ++ rest)
        × (recv_frame below r st
            ≡ ended
                (record r' { res = (r'.res + length p) % 2 ^ 64 })
                (recv_payload below
                  (length p)
                  mask
                  r'.into.full
                  r'.into.cur
                  r'.into.len
                  r'.into.rest
                  st2))
  recv_frame-frame type mask p rest r r' st small ism len kind op side e =
      let code : ℕ = (put_len (length p)).0 in
      let h1 : ℕ = second_byte mask code in
      let (marked, coded) = second_byte-mask mask code (put_len-bound (length p)) in
      let got =
        carries.receives (2 ∷ []) ((128 + type) ∷ h1 ∷ []) _ st (e ∙ frame-form type mask p rest)
          refl in
      let st1 : S = (below.brecvl (2 ∷ []) st).1 in
      let (sized, left) = recv_len-put_len below content carries (length p) _ st1 len got.1 in
      let (mask', left') =
        subst
          (MaskRead below content carries mask (unmask mask p ++ rest) (recv_len below code st1).1)
          (sym side) (recv_mask-read below content carries mask _ _ ism left) in
      let no_rsv : not ((128 + type) / 16 % 8 == 0) ≡ false = ground arith in
      let opcode : (128 + type) % 16 ≡ type = omega arith in
      let fin : leb 128 (128 + type) ≡ true = ground arith in
      let short = fits type (length p) kind in
      let conv : recv_sized below (leb 128 (128 + type)) (leb 8 ((128 + type) % 16)) (h1 % 128) r'
            st1
          ≡ recv_sized below true (leb 8 type) code r' st1 =
        rw (fin, opcode, coded) refl in
      let opened =
        recv_opened-sized (128 + type) h1 r r' st1 (ap (λ n. on_opcode n r) opcode ∙ op) no_rsv
          (marked ∙ sym side) in
      (
        _,
        left',
        recv_frame-opened (128 + type) h1 r st got.0
            ∙ opened
            ∙ conv
            ∙ recv_sized-rest (leb 8 type) code (length p) r' st1 sized short
            ∙ recv_rest-ended (length p) mask (record r' { res = (r'.res + length p) % 2 ^ 64 }) _
                mask',
      )

  ended-ok :
      (r : Recv) (q : Result (Unit {0}) × Into × S)
      → q.0 ≡ ok tt
      → ended r q ≡ (ok true, record r { into = q.1 }, q.2)
  ended-ok r (err e, into, st) h = absurd (err-ok e h)
  ended-ok r (ok _, into, st) h = refl

  -- A receive of one frame whose payload is read without an error.
  pub recvl_base-one :
      (len : ℕ) (lens : List ℕ) (self : WsSock) (r : Recv) (q : Result (Unit {0}) × Into × S)
      (st : S)
      → self.indone ≡ false
      → recv_frame below (start_of len lens self) st ≡ ended r q
      → q.0 ≡ ok tt
      → recvl_base below 1 len lens self st ≡ (
          let r' = record r { into = q.1 } in
          some ((recv_end r').0, r.flags, buffers q.1, (recv_end r').1, q.2))
  unfolding recvl_base recv_frames
  recvl_base-one len lens self r q st going read h =
      let e = read ∙ ended-ok r q h in
      if-false _ _ going ∙ rw (recv_frames, ap (λ x. x.0) e, ap (λ x. x.1) e, ap (λ x. x.2) e) refl
