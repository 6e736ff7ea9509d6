-- ===== src/Prefix/Messages.antt =====
-- Messages keep their boundaries over a bytestream.
use libdill.Base.{
  ℕ, ◌-◌, ◌^◌, ◌≤◌, ◌<◌, ◌≡◌, refl, ◌∙◌, ap, false, Option, none, some, List, [], ◌∷◌, ◌++◌, length,
  arith, if◌then◌else◌, Result, ok, err, econnreset, emsgsize,
}
use mathlib.Core.List.{append_assoc}
use native.Mathlib.Nat.{mod-eq_of_lt}
use libdill.Bsock.{Bsock, Carries, total, concat}
use libdill.Prefix.{PrefixSock, put_header, get_header, trim, msendl, recv_open, recv_sized, mrecvl}
use libdill.Prefix.Header.{get_header-put_header, length-put_header}

trim-too_small : (sz : ℕ) (lens : List ℕ) → total lens < sz → trim sz lens ≡ none
unfolding trim
trim-too_small sz [] h = refl
trim-too_small sz (len ∷ lens) h = rw (trim-too_small (sz - len) lens (omega arith)) (ground arith)

-- A message on the wire.
abbrev pub frame : PrefixSock → List ℕ → List ℕ
frame self m = put_header (self.bigendian) (self.hdrlen) (length m) ++ m

-- What the header can say of a message.
abbrev pub IsSendable : PrefixSock → List ℕ → Type 0
IsSendable self m = (length m < 2 ^ 64) × (length m < 256 ^ self.hdrlen)

module _ {S : Type 0} (below : Bsock S) where
  mrecvl-open :
      (first : Option (List ℕ)) (self : PrefixSock) (st : S)
      → self.inerr ≡ false
      → mrecvl below first self st ≡ recv_open below first self st
  unfolding mrecvl
  mrecvl-open first self st e =
      ap (λ b. if b then (err econnreset, self, st) else recv_open below first self st) e

module _ {S : Type 0} (below : Bsock S) (content : S → List ℕ)
    (carries : Carries below content) where
  header_read :
      (m rest : List ℕ) (self : PrefixSock) (st : S)
      → content st ≡ frame self m ++ rest
      → let (r, st') = below.brecvl (self.hdrlen ∷ []) st in
        (r ≡ ok (put_header (self.bigendian) (self.hdrlen) (length m))) × (content st' ≡ m ++ rest)
  header_read m rest self st e =
      carries.receives (self.hdrlen ∷ []) header (m ++ rest) st (e ∙ append_assoc header m rest)
        (omega (arith, length-put_header (self.bigendian) (self.hdrlen) (length m)))
    where
      header : List ℕ
      header = put_header (self.bigendian) (self.hdrlen) (length m)

  -- Messages sent one after the other, and received into one list of buffers each.
  abbrev pub send_all : List (List (List ℕ)) → PrefixSock → S → PrefixSock × S
  send_all [] self st = (self, st)
  send_all (m ∷ ms) self st = let (_, self', st') = msendl below m self st in send_all ms self' st'

  abbrev pub receive_all : List (List ℕ) → PrefixSock → S → List (Result (List ℕ))
  receive_all [] self st = []
  receive_all (b ∷ bs) self st =
      let (r, self', st') = mrecvl below (some b) self st in r ∷ receive_all bs self' st'

  -- For each message a list of buffers with room for it.
  abbrev pub HasRoom : PrefixSock → List (List (List ℕ)) → List (List ℕ) → Type 0
  HasRoom self [] [] = Unit
  HasRoom self [] (_ ∷ _) = ⊥
  HasRoom self (_ ∷ _) [] = ⊥
  HasRoom self (m ∷ ms) ([] ∷ bs) = ⊥
  HasRoom self (m ∷ ms) ((len ∷ lens) ∷ bs) =
      IsSendable self (concat m) × (length (concat m) ≤ total (len ∷ lens)) × HasRoom self ms bs

  abbrev frames : PrefixSock → List (List (List ℕ)) → List ℕ
  frames self [] = []
  frames self (m ∷ ms) = frame self (concat m) ++ frames self ms

  -- A message that does not fit into the buffers is refused with EMSGSIZE, and from then on every
  -- receive fails with ECONNRESET.
  mrecvl-too_small :
      (m rest lens lens' : List ℕ) (self : PrefixSock) (st : S)
      → content st ≡ frame self m ++ rest
      → self.inerr ≡ false
      → IsSendable self m
      → total lens < length m
      → let (r, self', st') = mrecvl below (some lens) self st in
        (r ≡ err emsgsize) × ((mrecvl below (some lens') self' st').0 ≡ err econnreset)
  unfolding recv_open mrecvl
  mrecvl-too_small m rest lens lens' self st e good (small, fits) short =
      let header = header_read m rest self st e in
      rw (mrecvl-open below (some lens) self st good) (
        rw (recv_open, header.0, back, recv_sized, trim-too_small (length m) lens short)
          (refl, unfold mrecvl in refl))
    where
      back :
          get_header (self.bigendian) (put_header (self.bigendian) (self.hdrlen) (length m))
          ≡ length m
      back =
          get_header-put_header (self.bigendian) (self.hdrlen) (length m) small ∙ mod-eq_of_lt fits
