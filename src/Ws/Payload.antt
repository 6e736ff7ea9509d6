-- ===== src/Ws/Payload.antt =====
-- ws.c
-- The bytes of a frame, and the parts of a receive that read them.
use libdill.Base.{
  All, ℕ, zero, suc, ◌+◌, ◌-◌, ◌%◌, ◌<◌, ◌≤◌, min, ◌≡◌, refl, ◌∙◌, ap, Bool, true, false, Option,
  none, some, List, [], ◌∷◌, ◌++◌, drop, length, leb, ◌==◌, arith, ok,
}
use mathlib.Core.List.{append_assoc}
use libdill.Bsock.{Bsock, Carries}
use libdill.Ws.{put_len, frame_header, masked}
use libdill.Ws.Mask.{masked-masked, length-masked}
use libdill.Ws.Receive.{unmask, recv_here, recv_payload, recv_mask}

abbrev pub is_some : Option (List ℕ) → Bool
is_some none = false
is_some (some m) = true

-- A mask has four bytes.
abbrev pub IsMask : Option (List ℕ) → Type 0
IsMask none = Unit
IsMask (some m) = length m ≡ 4

abbrev pub mask_bytes : Option (List ℕ) → List ℕ
mask_bytes none = []
mask_bytes (some m) = m

abbrev pub IsBytes : List ℕ → Type 0
IsBytes = All (λ b. b < 256)

-- A frame on the wire.
abbrev pub frame : ℕ → Option (List ℕ) → List ℕ → List ℕ
frame type mask p = frame_header type (length p) mask ++ unmask mask p

pub unmask-unmask :
    (mask : Option (List ℕ)) (p : List ℕ) → IsBytes p → unmask mask (unmask mask p) ≡ p
unmask-unmask none p h = refl
unmask-unmask (some m) p h = masked-masked m 0 p h

pub length-unmask : (mask : Option (List ℕ)) (p : List ℕ) → length (unmask mask p) ≡ length p
length-unmask none p = refl
length-unmask (some m) p = length-masked m 0 p

abbrev pub second_byte : Option (List ℕ) → ℕ → ℕ
second_byte none code = code
second_byte (some m) code = code + 128

pub frame-form :
    (type : ℕ) (mask : Option (List ℕ)) (p rest : List ℕ)
    → frame type mask p ++ rest
      ≡ ((128 + type) ∷ second_byte mask (put_len (length p)).0 ∷ [])
        ++ ((put_len (length p)).1 ++ (mask_bytes mask ++ (unmask mask p ++ rest)))
unfolding frame_header
frame-form type none p rest =
    ap (λ l. (128 + type) ∷ (put_len (length p)).0 ∷ l) (append_assoc (put_len (length p)).1 p rest)
frame-form type (some m) p rest =
    ap (λ l. (128 + type) ∷ ((put_len (length p)).0 + 128) ∷ l)
      (append_assoc ((put_len (length p)).1 ++ m) (masked m 0 p) rest
        ∙ append_assoc (put_len (length p)).1 m (masked m 0 p ++ rest))

pub second_byte-mask :
    (mask : Option (List ℕ)) (code : ℕ)
    → code < 128
    → (leb 128 (second_byte mask code) ≡ is_some mask) × (second_byte mask code % 128 ≡ code)
second_byte-mask none code h = (ground arith, omega arith)
second_byte-mask (some m) code h = (ground arith, omega arith)

module _ {S : Type 0} (below : Bsock S) (content : S → List ℕ)
    (carries : Carries below content) where
  pub recv_mask-read :
      (mask : Option (List ℕ)) (rest : List ℕ) (st : S)
      → IsMask mask
      → content st ≡ mask_bytes mask ++ rest
      → let (r, st') = recv_mask below (is_some mask) st in (r ≡ ok mask) × (content st' ≡ rest)
  unfolding recv_mask
  recv_mask-read none rest st h e = (refl, e)
  recv_mask-read (some m) rest st h e =
      let got = carries.receives (4 ∷ []) m rest st e h in rw (got.0) (refl, got.1)

  pub recv_here-read :
      (n : ℕ) (mask : Option (List ℕ)) (cur bytes rest : List ℕ) (st : S)
      → length bytes ≡ n
      → content st ≡ bytes ++ rest
      → let (r, st') = recv_here below n mask cur st in
        (r ≡ ok (unmask mask bytes ++ drop n cur)) × (content st' ≡ rest)
  unfolding recv_here
  recv_here-read zero none cur [] rest st h e = (refl, e)
  recv_here-read zero (some m) cur [] rest st h e = (refl, e)
  recv_here-read zero mask cur (b ∷ bytes) rest st h e = absurd (omega (arith, h))
  recv_here-read (suc n) mask cur bytes rest st h e =
      let got = carries.receives (suc n ∷ []) bytes rest st e (omega (arith, h)) in
      rw (recv_here, got.0) (refl, got.1)

  -- A frame that fits into the current buffer.
  pub recv_payload-fits :
      (p : List ℕ) (mask : Option (List ℕ)) (full : List (List ℕ)) (cur : List ℕ) (len : ℕ)
      (lens rest : List ℕ) (st : S)
      → IsBytes p
      → length p ≤ len
      → content st ≡ unmask mask p ++ rest
      → let (r, into, st') = recv_payload below (length p) mask full cur len lens st in
        (r ≡ ok tt)
        × (into ≡ record { full = full; cur = p ++ drop (length p) cur; len = len; rest = lens })
        × (content st' ≡ rest)
  unfolding recv_payload
  recv_payload-fits p mask full cur len [] rest st h room e =
      let all : min (length p) len ≡ length p = omega arith in
      let none_left : (length p - length p == 0) ≡ true = ground arith in
      let got =
        recv_here-read (length p) mask cur (unmask mask p) rest st (length-unmask mask p) e in
      rw (recv_payload, all, got.0, all, none_left, unmask-unmask mask p h) (refl, refl, got.1)
  recv_payload-fits p mask full cur len (l ∷ lens) rest st h room e =
      let all : min (length p) len ≡ length p = omega arith in
      let none_left : (length p - length p == 0) ≡ true = ground arith in
      let got =
        recv_here-read (length p) mask cur (unmask mask p) rest st (length-unmask mask p) e in
      rw (recv_payload, all, got.0, all, none_left, unmask-unmask mask p h) (refl, refl, got.1)

  -- What the receive of a mask gives, by the side that receives.
  abbrev pub MaskRead : Option (List ℕ) → List ℕ → S → Bool → Type 0
  MaskRead mask rest st server =
      ((recv_mask below server st).0 ≡ ok mask) × (content (recv_mask below server st).1 ≡ rest)
