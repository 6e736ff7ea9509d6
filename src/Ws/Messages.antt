-- ===== src/Ws/Messages.antt =====
-- ws.c
-- A message that one side sends the other side receives.
use libdill.Base.{
  ℕ, zero, suc, ◌+◌, ◌%◌, ◌^◌, ◌<◌, ◌≤◌, ◌≡◌, refl, sym, ◌∙◌, ap, ap₂, Bool, true, false, not, inl,
  Option, none, some, List, [], ◌∷◌, ◌++◌, map, drop, length, if◌then◌else◌, if-true, if-false,
  arith, Bool-cases, inr, ◌⊎◌, ltb, leb, length-append, Result, ok,
}
use mathlib.Core.List.{append_assoc, append-nil}
use libdill.Utils.Bytes.{puts}
use libdill.Utils.Bytes.RoundTrip.{length-puts, length-putll}
use libdill.Bsock.{Bsock, Carries, concat, total, length-concat}
use libdill.Ws.{
  WsSock, put_len, frame_header, masked, send_bytes, send_parts, send_frame, sendl_base,
}
use libdill.Ws.Receive.{Into, Recv, recv_payload, recv_end, recvl_base, on_opcode, buffers}
use libdill.Ws.Payload.{is_some, IsMask, IsBytes, frame, recv_payload-fits}
use libdill.Ws.Reading.{recv_frame-frame, recvl_base-one}
use libdill.Ws.Calls.{data_type}

-- The mask that a side sends with.
abbrev pub mask_of : Bool → List ℕ → Option (List ℕ)
mask_of server mask = if server then none else some mask

mask_of-side : (server : Bool) (mask : List ℕ) → is_some (mask_of server mask) ≡ not server
mask_of-side true mask = refl
mask_of-side false mask = refl

mask_of-IsMask : (server : Bool) (mask : List ℕ) → length mask ≡ 4 → IsMask (mask_of server mask)
mask_of-IsMask true mask h = tt
mask_of-IsMask false mask h = h

drop-nil : (n : ℕ) → drop {A = ℕ} n [] ≡ []
drop-nil zero = refl
drop-nil (suc n) = refl

data_type-bound : (b : Bool) → (data_type b < 16) × (data_type b < 8)
data_type-bound true = (omega arith, omega arith)
data_type-bound false = (omega arith, omega arith)

on_opcode-data_type :
    (b : Bool) (r : Recv) → on_opcode (data_type b) r ≡ (ok tt, record r { flags = some b })
unfolding on_opcode
on_opcode-data_type true r = refl
on_opcode-data_type false r = refl

recv_end-open : (r : Recv) → r.sock.indone ≡ false → recv_end r ≡ (ok r.res, r.sock)
unfolding recv_end
recv_end-open r e = let still : not r.sock.indone ≡ true = ap not e in rw still refl

-- `put_len` for a length of 16 bits.
abbrev short_len : Bool → ℕ → ℕ × List ℕ
short_len more len = if more then (126, puts (0 ∷ 0 ∷ []) (len % 2 ^ 16)) else (len, [])

short_len-bound : (more : Bool) (len : ℕ) → length (short_len more len).1 ≤ 2
short_len-bound true len = omega (arith, length-puts 0 0 (len % 2 ^ 16))
short_len-bound false len = omega arith

put_len-short : (len : ℕ) → len ≤ 65535 → length (put_len len).1 ≤ 2
unfolding put_len
put_len-short len h =
    let e : ltb 0xffff len ≡ false = ground arith in rw e (short_len-bound (ltb 125 len) len)

put_len-bound : (len : ℕ) → length (put_len len).1 ≤ 8
unfolding put_len
put_len-bound len = elim (Bool-cases (ltb 0xffff len)) [
  | inl e ↦ rw e (omega (arith, length-putll 0 0 0 0 0 0 0 0 len))
  | inr e ↦ let short = short_len-bound (ltb 125 len) len in rw e (omega (arith, short))
]

-- The header of a server, and that of a client for a message of at most 65535 bytes, has 12 bytes at
-- most.
header_fits :
    (type : ℕ) (server : Bool) (mask : List ℕ) (len : ℕ)
    → (server ≡ true) ⊎ ((length mask ≡ 4) × (len ≤ 65535))
    → leb (length (frame_header type len (mask_of server mask))) 12 ≡ true
unfolding frame_header
header_fits type true mask len small = let long = put_len-bound len in ground (arith, long)
header_fits type false mask len (inl h) = absurd (ground arith)
header_fits type false mask len (inr (four, h)) =
    let short = put_len-short len h in
    let size = length-append (put_len len).1 mask in ground (arith, short, size, four)

module _ {S : Type 0} (below : Bsock S) (content : S → List ℕ)
    (carries : Carries below content) where
  send_bytes-content :
      (l : List ℕ) (st : S)
      → let (r, st') = send_bytes below l st in (r ≡ ok tt) × (content st' ≡ content st ++ l)
  unfolding send_bytes
  send_bytes-content [] st = (refl, sym (append-nil (content st)))
  send_bytes-content (b ∷ l) st =
      let sent = carries.sends ((b ∷ []) ∷ []) st in
      let (r, c) = send_bytes-content l (below.bsendl ((b ∷ []) ∷ []) st).1 in
      rw (send_bytes, sent.0)
        (r, c ∙ ap (λ k. k ++ l) sent.1 ∙ append_assoc (content st) (b ∷ []) l)

  joined :
      (type : ℕ) (mask : Option (List ℕ)) (bufs : List (List ℕ)) (p : List ℕ) (st : S)
      → (content st ++ (frame_header type (total (map length bufs)) mask ++ [])) ++ p
        ≡ content st ++ (frame_header type (length (concat bufs)) mask ++ p)
  joined type mask bufs p st =
      append_assoc (content st) (frame_header type (total (map length bufs)) mask ++ []) p
      ∙ ap (λ k. content st ++ (k ++ p))
          (append-nil (frame_header type (total (map length bufs)) mask))
      ∙ ap (λ n. content st ++ (frame_header type n mask ++ p)) (sym (length-concat bufs))

  send_parts-content :
      (type : ℕ) (mask : Option (List ℕ)) (bufs : List (List ℕ)) (st : S)
      → let (r, st') =
          send_parts below (frame_header type (total (map length bufs)) mask) mask bufs st in
        (r ≡ ok tt) × (content st' ≡ content st ++ frame type mask (concat bufs))
  unfolding send_parts
  send_parts-content type none bufs st =
      let sent = carries.sends (frame_header type (total (map length bufs)) none ∷ []) st in
      let more =
        carries.sends bufs
          (below.bsendl (frame_header type (total (map length bufs)) none ∷ []) st).1 in
      rw (send_parts, sent.0)
        (
          more.0,
          more.1 ∙ ap (λ k. k ++ concat bufs) sent.1 ∙ joined type none bufs (concat bufs) st,
        )
  send_parts-content type (some m) bufs st =
      let sent = carries.sends (frame_header type (total (map length bufs)) (some m) ∷ []) st in
      let more =
        send_bytes-content (masked m 0 (concat bufs))
          (below.bsendl (frame_header type (total (map length bufs)) (some m) ∷ []) st).1 in
      rw (send_parts, sent.0)
        (
          more.0,
          more.1
              ∙ ap (λ k. k ++ masked m 0 (concat bufs)) sent.1
              ∙ joined type (some m) bufs (masked m 0 (concat bufs)) st,
        )

  sendl_base-open :
      (mask : List ℕ) (type : ℕ) (bufs : List (List ℕ)) (self : WsSock) (st : S)
      → self.outdone ≡ false
      → sendl_base below (ok mask) type bufs self st
        ≡ send_frame below type (mask_of self.server mask) bufs st
  unfolding sendl_base
  sendl_base-open mask type bufs self st going = if-false _ _ going ∙ pick self.server
    where
      pick :
          (b : Bool)
          → (if b
              then send_frame below type none bufs st
              else send_frame below type (some mask) bufs st)
            ≡ send_frame below type (mask_of b mask) bufs st
      pick true = refl
      pick false = refl

  -- What a side sends, where the header fits into its buffer.
  pub sendl_base-content :
      (mask : List ℕ) (type : ℕ) (bufs : List (List ℕ)) (self : WsSock) (st : S)
      → (self.server ≡ true) ⊎ ((length mask ≡ 4) × (length (concat bufs) ≤ 65535))
      → self.outdone ≡ false
      → (st1 : S) × (sendl_base below (ok mask) type bufs self st ≡ some (ok tt, st1))
        × (content st1 ≡ content st ++ frame type (mask_of self.server mask) (concat bufs))
  unfolding send_frame
  sendl_base-content mask type bufs self st small going =
      let m = mask_of self.server mask in
      let sent = send_parts below (frame_header type (total (map length bufs)) m) m bufs st in
      let (r, left) = send_parts-content type m bufs st in
      let fits = header_fits type self.server mask (total (map length bufs)) (sized small) in
      (
        sent.1,
        sendl_base-open mask type bufs self st going
            ∙ if-true _ _ fits
            ∙ ap (λ r. some (r, sent.1)) r,
        left,
      )
    where
      sized :
          (self.server ≡ true) ⊎ ((length mask ≡ 4) × (length (concat bufs) ≤ 65535))
          → (self.server ≡ true) ⊎ ((length mask ≡ 4) × (total (map length bufs) ≤ 65535))
      sized (inl h) = inl h
      sized (inr (f, h)) = inr (f, omega (arith, h, length-concat bufs))

  -- A side with an open stream receives a data message into one buffer with room.
  recv_data :
      (mask : Option (List ℕ)) (text : Bool) (p rest : List ℕ) (len : ℕ) (lens : List ℕ)
      (self : WsSock) (st : S)
      → IsMask mask
      → IsBytes p
      → length p < 2 ^ 64
      → length p ≤ len
      → self.indone ≡ false
      → self.server ≡ is_some mask
      → content st ≡ frame (data_type text) mask p ++ rest
      → (st' : S) × (recvl_base below 1 len lens self st
          ≡ some (ok (length p), some text, p ∷ [], self, st'))
        × (content st' ≡ rest)
  recv_data mask text p rest len lens self st ism bytes small room going side e =
      let start : Recv = record {
        sock = self;
        into = record { full = []; cur = []; len = len; rest = lens };
        flags = none;
        res = 0;
      } in
      let got : Recv = record start { flags = some text } in
      let (st2, left, read) =
        recv_frame-frame below content carries (data_type text) mask p rest start got st
          (data_type-bound text).0 ism small (inl (data_type-bound text).1)
          (on_opcode-data_type text start) side e in
      let (fits, into, left') =
        recv_payload-fits below content carries p mask [] [] len lens rest st2 bytes room left in
      let whole : (0 + length p) % 2 ^ 64 ≡ length p = omega (arith, small) in
      let q = recv_payload below (length p) mask [] [] len lens st2 in
      let r : Recv = record got { res = (0 + length p) % 2 ^ 64 } in
      let ran = recvl_base-one below content carries len lens self r q st going read fits in
      let held : buffers q.1 ≡ p ∷ [] =
        ap buffers into
        ∙ ap (λ k. k ∷ []) (ap (λ k. p ++ k) (drop-nil (length p)) ∙ append-nil p) in
      let done = recv_end-open (record r { into = q.1 }) going in
      (
        q.2,
        ran ∙ answer q.1 (recv_end (record r { into = q.1 })) q.2 (done ∙ sized whole) held,
        left',
      )
    where
      sized : {n : ℕ} → n ≡ length p → Path (Result ℕ × WsSock) (ok n, self) (ok (length p), self)
      sized h = ap (λ n. (ok n, self)) h

      answer :
          (into : Into) (e : Result ℕ × WsSock) (st' : S)
          → e ≡ (ok (length p), self)
          → buffers into ≡ p ∷ []
          → Path
              (Option (Result ℕ × Option Bool × List (List ℕ) × WsSock × S))
              (some (e.0, some text, buffers into, e.1, st'))
              (some (ok (length p), some text, p ∷ [], self, st'))
      answer into e st' h k =
          ap₂ {C = Option (Result ℕ × Option Bool × List (List ℕ) × WsSock × S)}
            (λ x l. some (x.0, some text, l, x.1, st')) h k

  -- What `dill_ws_sendl` sends on a connection with nothing on the way, `dill_ws_recv` receives on the other
  -- side with its flags: the send succeeds and writes inside its header buffer, the receive returns the
  -- length, the buffer holds the message and nothing is left. A client's message has at most 65535 bytes,
  -- the buffer has room, no side has closed, one of them is the server, and the mask has four bytes.
  pub recvl_base-sendl_base :
      (mask : List ℕ) (text : Bool) (bufs : List (List ℕ)) (len : ℕ) (lens : List ℕ) (a b : WsSock)
      (st : S)
      → content st ≡ []
      → length mask ≡ 4
      → IsBytes (concat bufs)
      → length (concat bufs) < 2 ^ 64
      → (a.server ≡ true) ⊎ (length (concat bufs) ≤ 65535)
      → length (concat bufs) ≤ len
      → a.outdone ≡ false
      → b.indone ≡ false
      → b.server ≡ not a.server
      → (st1 st2 : S) × (sendl_base below (ok mask) (data_type text) bufs a st ≡ some (ok tt, st1))
        × (recvl_base below 1 len lens b st1
            ≡ some (ok (length (concat bufs)), some text, concat bufs ∷ [], b, st2))
        × (content st2 ≡ [])
  recvl_base-sendl_base mask text bufs len lens a b st empty four bytes small short room going
        going' sides =
      let (st1, sent, left) =
        sendl_base-content mask (data_type text) bufs a st (sized short) going in
      let m = mask_of a.server mask in
      let (st2, read, none_left) =
        recv_data m text (concat bufs) [] len lens b st1 (mask_of-IsMask a.server mask four) bytes
          small room going' (sides ∙ sym (mask_of-side a.server mask))
          (left
            ∙ ap (λ k. k ++ frame (data_type text) m (concat bufs)) empty
            ∙ sym (append-nil _)) in
      (st1, st2, sent, read, none_left)
    where
      sized :
          (a.server ≡ true) ⊎ (length (concat bufs) ≤ 65535)
          → (a.server ≡ true) ⊎ ((length mask ≡ 4) × (length (concat bufs) ≤ 65535))
      sized (inl h) = inl h
      sized (inr h) = inr (four, h)
