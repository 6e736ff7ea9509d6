-- ===== src/Http/Status.antt =====
-- Status lines: what is sent reads back.
use mathlib.Core.List.{cons≢nil}
use libdill.Base.{
  ℕ, ◌+◌, ◌/◌, ◌%◌, ◌≤◌, ◌<◌, ◌≡◌, refl, ◌≢◌, ◌∙◌, true, false, ◌||◌, ◌&&◌, not, List, [], ◌∷◌,
  ◌++◌, ◌==◌, if◌then◌else◌, length, get_or, arith, ◌^◌, ok, err, eproto, ltb,
}
use libdill.Msock.{Msock}
use libdill.Http.{
  space, peek, bad_protocol, version, parse_status, status_line, status_digits, digits_value,
  is_digit, sendstatus, recvstatus,
}
use libdill.Http.Scan.{
  Word, token-Word, skip_spaces-none, skip_spaces-space, skip_spaces-Word, peek-Word, fits,
  Delivers, receive-ok,
}
use libdill.Http.Request.{version-Word}

digits_back :
    (s : ℕ)
    → 100 ≤ s
    → s ≤ 599
    → digits_value ((s / 100 + b'0') ∷ (s % 100 / 10 + b'0') ∷ (s % 100 % 10 + b'0') ∷ []) ≡ s
digits_back s lo hi = omega arith

digits_are :
    (s : ℕ)
    → s ≤ 599
    → (is_digit (s / 100 + b'0')
        && (is_digit (s % 100 / 10 + b'0') && is_digit (s % 100 % 10 + b'0')))
      ≡ true
digits_are s hi = ground arith

digits-Word :
    (s : ℕ)
    → 100 ≤ s
    → s ≤ 599
    → Word 0 ((s / 100 + b'0') ∷ (s % 100 / 10 + b'0') ∷ (s % 100 % 10 + b'0') ∷ [])
digits-Word s lo hi = (ground arith, (ground arith, (ground arith, tt)))

-- A line of two words and a reason is a status if its protocol is taken and its digits are three.
parse_status-words :
    (protocol digits reason : List ℕ) (reasonlen : ℕ)
    → Word 0 protocol
    → protocol ≢ []
    → Word 0 digits
    → digits ≢ []
    → (peek reason == space) ≡ false
    → length reason < reasonlen
    → reasonlen < 2 ^ 64
    → parse_status reasonlen (protocol ++ (space ∷ (digits ++ (space ∷ reason)))) ≡ (
        if bad_protocol (length protocol) (protocol ++ (space ∷ (digits ++ (space ∷ reason))))
        then err eproto
        else if not (length digits == 3)
        then err eproto
        else if not (
            is_digit (get_or digits 0 0)
            && (is_digit (get_or digits 1 0) && is_digit (get_or digits 2 0)))
        then err eproto
        else ok (digits_value digits, reason))
parse_status-words p d r n wp np wd nd ns lt small =
    unfold parse_status in
    rw (
      skip_spaces-none (p ++ (space ∷ (d ++ (space ∷ r)))) (peek-Word 0 p _ wp np),
      token-Word 0 p (space ∷ (d ++ (space ∷ r))) wp refl,
      skip_spaces-Word 0 d (space ∷ r) wd nd,
      token-Word 0 d (space ∷ r) wd refl,
      skip_spaces-space r,
      skip_spaces-none r ns,
      fits (length r) n lt small,
    )

pub parse_status-line :
    (status : ℕ) (reason : List ℕ) (reasonlen : ℕ)
    → 100 ≤ status
    → status ≤ 599
    → (peek reason == space) ≡ false
    → length reason < reasonlen
    → reasonlen < 2 ^ 64
    → parse_status reasonlen (status_line status reason) ≡ ok (status, reason)
parse_status-line s r n lo hi ns lt small =
    unfold status_line status_digits in
    parse_status-words version digits r n version-Word (λ e. cons≢nil e) (digits-Word s lo hi)
      (λ e. cons≢nil e) ns lt small
    ∙ rw (digits_are s hi, digits_back s lo hi)
  where
    digits : List ℕ
    digits = (s / 100 + b'0') ∷ (s % 100 / 10 + b'0') ∷ (s % 100 % 10 + b'0') ∷ []

in_range : (s : ℕ) → 100 ≤ s → s ≤ 599 → (ltb s 100 || ltb 599 s) ≡ false
in_range s lo hi = ground arith

-- What `dill_http_sendstatus` sends for a status from 100 to 599 `dill_http_recvstatus` on the other
-- side reads back as the same number and reason, if the reason does not begin with a space and the
-- buffer has room for it.
recvstatus-sendstatus :
    {S : Type 0} (below : Msock S) (status : ℕ) (reason : List ℕ) (reasonlen : ℕ) (st : S)
    → Delivers below (status_line status reason) st
    → 100 ≤ status
    → status ≤ 599
    → (peek reason == space) ≡ false
    → length reason < reasonlen
    → reasonlen < 2 ^ 64
    → let (r, sent) = sendstatus below status reason st in
      (r ≡ ok tt) × ((recvstatus below reasonlen sent).0 ≡ ok (status, reason))
recvstatus-sendstatus below s r n st (sent, got) lo hi ns lt small =
    unfold sendstatus in
    rw (in_range s lo hi) (
      sent,
      unfold recvstatus in
          receive-ok below (parse_status n) (status_line s r) _ got
          ∙ parse_status-line s r n lo hi ns lt small,
    )
