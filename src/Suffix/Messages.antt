-- ===== src/Suffix/Messages.antt =====
-- A message sent over a bytestream comes back up to the suffix.
use mathlib.Core.List.{append_assoc, append-nil}
use libdill.Base.{
  ℕ, zero, suc, ◌+◌, ◌-◌, ◌<◌, ◌≡◌, refl, sym, ◌∙◌, ap, true, false, some, List, [], ◌∷◌, ◌++◌,
  length, take, drop, get_or, same_bytes, same_bytes_refl, arith, length-append, take-append-drop,
  take-all, length-take, ltb, ◌==◌, if◌then◌else◌, ok, err, econnreset,
}
use libdill.Bsock.{Bsock, Carries, concat}
use libdill.Suffix.{SuffixSock, put, send_open, msendl, recv_loop, recv_open, mrecvl}

-- The suffix does not stand in the message and the suffix behind it before their end.
abbrev pub NoEarly : List ℕ → List ℕ → Type 0
NoEarly suffix [] = Unit
NoEarly suffix (c ∷ cs) =
    (same_bytes (take (length suffix) (c ∷ (cs ++ suffix))) suffix ≡ false) × NoEarly suffix cs

-- The window on a list moves by one.
slide :
    (n : ℕ) (xs : List ℕ)
    → n < length xs
    → (d : ℕ) × (ys : List ℕ) × (drop n xs ≡ d ∷ ys)
      × (take (suc n) xs ≡ take n xs ++ d ∷ [])
      × (drop (suc n) xs ≡ ys)
slide n [] h = absurd (omega arith)
slide zero (x ∷ xs) h = (x, xs, refl, refl, refl)
slide (suc n) (x ∷ xs) h =
    let (d, ys, e, t, r) = slide n xs (omega arith) in (d, ys, e, ap (λ l. x ∷ l) t, r)

-- What the buffer takes of a message.
put-all :
    (room c : ℕ) (written cs : List ℕ)
    → (let (w, r) = put true room c written in w ++ take r cs) ≡ written ++ take room (c ∷ cs)
put-all zero c written cs = refl
put-all (suc room) c written cs =
    let some_room : ltb 0 (suc room) ≡ true = ground arith in
    let one_less : suc room - 1 ≡ room = omega arith in
    rw (some_room, one_less) (append_assoc written (c ∷ []) (take room cs))

nothing_left : (room : ℕ) (written : List ℕ) → written ≡ written ++ take room []
nothing_left zero written = sym (append-nil written)
nothing_left (suc room) written = sym (append-nil written)

drop_whole : (l : List ℕ) → drop (length l) l ≡ []
drop_whole [] = refl
drop_whole (x ∷ l) = drop_whole l

-- What the window holds when the first byte of the message leaves it.
window :
    (suffix cs : List ℕ) (c : ℕ)
    → 0 < length suffix
    → (d : ℕ) × (ys : List ℕ) × (drop (length suffix) (c ∷ (cs ++ suffix)) ≡ d ∷ ys)
      × (drop 1 (take (length suffix) (c ∷ (cs ++ suffix))) ++ d ∷ []
          ≡ take (length suffix) (cs ++ suffix))
      × (ys ≡ drop (length suffix) (cs ++ suffix))
      × (get_or (take (length suffix) (c ∷ (cs ++ suffix))) 0 0 ≡ c)
window [] cs c h = absurd (omega arith)
window (x ∷ s) cs c h =
    let (d, ys, e, t, r) =
      slide (length s) (cs ++ (x ∷ s)) (omega (arith, length-append cs (x ∷ s))) in
    (d, ys, e, sym t, sym r, refl)

concat-last : (bufs : List (List ℕ)) (l : List ℕ) → concat (bufs ++ l ∷ []) ≡ concat bufs ++ l
concat-last [] l = append-nil l
concat-last (b ∷ bufs) l =
    ap (λ t. b ++ t) (concat-last bufs l) ∙ sym (append_assoc b (concat bufs) l)

module _ {S : Type 0} (below : Bsock S) where
  msendl-open :
      (bufs : List (List ℕ)) (self : SuffixSock) (st : S)
      → self.outerr ≡ false
      → (below.bsendl (bufs ++ self.suffix ∷ []) st).0 ≡ ok tt
      → msendl below bufs self st ≡ (ok tt, self, (below.bsendl (bufs ++ self.suffix ∷ []) st).1)
  unfolding msendl send_open
  msendl-open bufs self st e sent =
      ap (λ b. if b then (err econnreset, self, st) else send_open below bufs self st) e
      ∙ rw (send_open, sent)

  mrecvl-open :
      (fuel len : ℕ) (bytes : List ℕ) (self : SuffixSock) (st : S)
      → self.inerr ≡ false
      → (below.brecvl (length (self.suffix) ∷ []) st).0 ≡ ok bytes
      → mrecvl below fuel true len self st
        ≡ recv_loop below fuel true len len 0 []
            (record self { buf = bytes })
            (below.brecvl (length (self.suffix) ∷ []) st).1
  unfolding mrecvl recv_open
  mrecvl-open fuel len bytes self st e got =
      ap (λ b. if b then some (err econnreset, self, st) else recv_open below fuel true len self st)
        e
      ∙ rw (recv_open, got)

  stop :
      (fuel len room sz : ℕ) (written b : List ℕ) (self : SuffixSock) (st : S)
      → same_bytes b (self.suffix) ≡ true
      → recv_loop below (suc fuel) true len room sz written (record self { buf = b }) st
        ≡ some (ok (sz, written), record self { buf = b }, st)
  unfolding recv_loop
  stop fuel len room sz written b self st e = rw e

  more :
      (fuel len room sz : ℕ) (written b bytes : List ℕ) (self : SuffixSock) (st : S)
      → same_bytes b (self.suffix) ≡ false
      → (len == 0) ≡ false
      → (below.brecvl (1 ∷ []) st).0 ≡ ok bytes
      → recv_loop below (suc fuel) true len room sz written (record self { buf = b }) st ≡ (
          let (w, r) = put true room (get_or b 0 0) written in
          recv_loop below fuel true len r
            (suc sz)
            w
            (record self { buf = drop 1 b ++ bytes })
            (below.brecvl (1 ∷ []) st).1)
  unfolding recv_loop
  more fuel len room sz written b bytes self st e n got = rw (e, n, got)

module _ {S : Type 0} (below : Bsock S) (content : S → List ℕ)
    (carries : Carries below content) where
  recv_loop-message :
      (m rest : List ℕ) (fuel len room sz : ℕ) (written : List ℕ) (self : SuffixSock) (st : S)
      → 0 < length (self.suffix)
      → (len == 0) ≡ false
      → content st ≡ drop (length (self.suffix)) (m ++ self.suffix) ++ rest
      → NoEarly (self.suffix) m
      → length m < fuel
      → (st' : S) × (recv_loop below fuel true len room sz written
            (record self { buf = take (length (self.suffix)) (m ++ self.suffix) })
            st
          ≡ some
              (ok (sz + length m, written ++ take room m), record self { buf = self.suffix }, st'))
        × (content st' ≡ rest)
  recv_loop-message m rest zero len room sz written self st h n c ne lt = absurd (omega arith)
  recv_loop-message [] rest (suc fuel) len room sz written self st h n c ne lt =
      let full : take (length (self.suffix)) (self.suffix) ≡ self.suffix =
        take-all (length (self.suffix)) (self.suffix) (omega arith) in
      let same : sz ≡ sz + 0 = omega arith in
      (
        st,
        (λ i. recv_loop below (suc fuel) true len room sz written (record self { buf = full i }) st)
            ∙ stop below fuel len room sz written (self.suffix) self st
                (same_bytes_refl (self.suffix))
            ∙ (λ i.
                some (
                  ok (same i, nothing_left room written i),
                  record self { buf = self.suffix },
                  st,
                )),
        c ∙ ap (λ l. l ++ rest) (drop_whole (self.suffix)),
      )
  recv_loop-message (x ∷ m) rest (suc fuel) len room sz written self st h n c (ne, nes) lt =
      let one_more : suc sz + length m ≡ sz + suc (length m) = omega arith in
      let (d, ys, front, moved, left, first) = window (self.suffix) m x h in
      let (got, after) =
        carries.receives (1 ∷ []) (d ∷ []) (ys ++ rest) st (c ∙ ap (λ l. l ++ rest) front) refl in
      let (st', ran, end) =
        recv_loop-message m rest fuel len (put true room x written).1 (suc sz)
          (put true room x written).0 self (below.brecvl (1 ∷ []) st).1 h n
          (after ∙ ap (λ l. l ++ rest) left) nes (omega arith) in
      (
        st',
        more below fuel len room sz written (take (length (self.suffix)) (x ∷ (m ++ self.suffix)))
              (d ∷ []) self st ne n got
            ∙ (λ i.
                recv_loop below fuel true len (put true room (first i) written).1 (suc sz)
                  (put true room (first i) written).0 (record self { buf = moved i })
                  (below.brecvl (1 ∷ []) st).1)
            ∙ ran
            ∙ (λ i. some (
              ok (one_more i, put-all room x written m i),
              record self { buf = self.suffix },
              st',
            )),
        end,
      )

  -- What one SUFFIX socket sends over a bytestream that keeps order another with the same suffix
  -- receives: the length that it returns is the message's and the first buffer holds the message up to
  -- that buffer's length. The suffix must not stand earlier in what is sent, and the fuel is more than
  -- the message's length. Behind the suffix nothing is taken from the stream.
  pub mrecvl-msendl :
      (bufs : List (List ℕ)) (fuel len : ℕ) (self : SuffixSock) (st : S)
      → content st ≡ []
      → self.inerr ≡ false
      → self.outerr ≡ false
      → 0 < length (self.suffix)
      → NoEarly (self.suffix) (concat bufs)
      → 0 < len
      → length (concat bufs) < fuel
      → let (r, self', sent) = msendl below bufs self st in
        (r ≡ ok tt)
        × (st' : S) × (mrecvl below fuel true len self' sent
            ≡ some (
              ok (length (concat bufs), take len (concat bufs)),
              record self { buf = self.suffix },
              st',
            ))
        × (content st' ≡ [])
  mrecvl-msendl bufs fuel len self st c i o h ne pos lt =
      let none_more : 0 + length (concat bufs) ≡ length (concat bufs) = omega arith in
      let after : S = (below.bsendl (bufs ++ self.suffix ∷ []) st).1 in
      let sent = carries.sends (bufs ++ self.suffix ∷ []) st in
      let m : List ℕ = concat bufs ++ self.suffix in
      let way : content after
          ≡ take (length (self.suffix)) m ++ (drop (length (self.suffix)) m ++ []) =
        sent.1
        ∙ ap (λ t. t ++ concat (bufs ++ self.suffix ∷ [])) c
        ∙ concat-last bufs (self.suffix)
        ∙ sym (take-append-drop (length (self.suffix)) m)
        ∙ ap (λ t. take (length (self.suffix)) m ++ t)
            (sym (append-nil (drop (length (self.suffix)) m))) in
      let first =
        carries.receives (length (self.suffix) ∷ []) (take (length (self.suffix)) m)
          (drop (length (self.suffix)) m ++ []) after way
          (omega (
            arith,
            length-take (length (self.suffix)) m,
            length-append (concat bufs) (self.suffix),
          )) in
      let (st', ran, end) =
        recv_loop-message (concat bufs) [] fuel len len 0 [] self
          (below.brecvl (length (self.suffix) ∷ []) after).1 h (ground arith) first.1 ne lt in
      rw (msendl-open below bufs self st o sent.0) (
        refl,
        st',
        mrecvl-open below fuel len (take (length (self.suffix)) m) self after i first.0
            ∙ ran
            ∙ (λ i.
                some (
                  ok (none_more i, take len (concat bufs)),
                  record self { buf = self.suffix },
                  st',
                )),
        end,
      )
