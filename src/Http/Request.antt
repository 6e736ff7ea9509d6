-- ===== src/Http/Request.antt =====
-- Request lines: what is sent reads back, and which protocols are taken.
use mathlib.Core.List.{cons≢nil}
use libdill.Base.{
  ℕ, ◌<◌, ◌≡◌, refl, ◌≢◌, ◌∙◌, ap, false, List, [], ◌∷◌, ◌++◌, if◌then◌else◌, length, arith, ◌^◌,
  ok, err, eproto,
}
use libdill.Msock.{Msock}
use libdill.Http.{
  space, bad_protocol, version, parse_request, request_line, has_any, blanks, sendrequest,
  recvrequest,
}
use libdill.Http.Scan.{
  Word, NoNul, token-Word, skip_spaces-none, skip_spaces-Word, peek-Word, Word-of_no_blank, fits,
  Delivers, skip_spaces-last, token-all, receive-ok,
}

-- A line of three words is a request if its protocol is taken.
pub parse_request-words :
    (command resource protocol : List ℕ) (commandlen resourcelen : ℕ)
    → Word 0 command
    → command ≢ []
    → Word 0 resource
    → resource ≢ []
    → Word 0 protocol
    → protocol ≢ []
    → length command < commandlen
    → length resource < resourcelen
    → commandlen < 2 ^ 64
    → resourcelen < 2 ^ 64
    → parse_request commandlen resourcelen (command ++ (space ∷ (resource ++ (space ∷ protocol))))
      ≡ (if bad_protocol (length protocol) protocol then err eproto else ok (command, resource))
parse_request-words c r p cl rl wc nc wr nr wp np lc lr kc kr =
    unfold parse_request in
    rw (
      skip_spaces-none (c ++ (space ∷ (r ++ (space ∷ p)))) (peek-Word 0 c _ wc nc),
      token-Word 0 c (space ∷ (r ++ (space ∷ p))) wc refl,
      skip_spaces-Word 0 r (space ∷ p) wr nr,
      fits (length c) cl lc kc,
      token-Word 0 r (space ∷ p) wr refl,
      fits (length r) rl lr kr,
      skip_spaces-last 0 p wp np,
      token-all 0 p wp,
    )

pub version-Word : Word 0 version
version-Word = (refl, (refl, (refl, (refl, (refl, (refl, (refl, (refl, tt))))))))

-- What `dill_http_sendrequest` sends for a command and a resource that it accepts, both C strings that
-- are not empty, `dill_http_recvrequest` on the other side reads back unchanged, if its buffers have
-- room for both.
pub recvrequest-sendrequest :
    {S : Type 0} (below : Msock S) (command resource : List ℕ) (commandlen resourcelen : ℕ) (st : S)
    → Delivers below (request_line command resource) st
    → has_any blanks command ≡ false
    → has_any blanks resource ≡ false
    → NoNul command
    → NoNul resource
    → command ≢ []
    → resource ≢ []
    → length command < commandlen
    → length resource < resourcelen
    → commandlen < 2 ^ 64
    → resourcelen < 2 ^ 64
    → let (r, sent) = sendrequest below command resource st in
      (r ≡ ok tt) × ((recvrequest below commandlen resourcelen sent).0 ≡ ok (command, resource))
recvrequest-sendrequest below c r cl rl st (sent, got) bc br nc nr ec er lc lr kc kr =
    unfold sendrequest in
    rw (bc, br)
      (
        sent,
        unfold recvrequest in
            receive-ok below (parse_request cl rl) (request_line c r) _ got
            ∙ unfold request_line in parsed,
      )
  where
    parsed : parse_request cl rl (c ++ (space ∷ (r ++ (space ∷ version)))) ≡ ok (c, r)
    parsed =
        parse_request-words c r version cl rl (Word-of_no_blank c bc nc) ec
          (Word-of_no_blank r br nr) er version-Word (λ e. cons≢nil e) lc lr kc kr

-- `dill_http_recvrequest` takes any protocol of 8 bytes for HTTP/1.1.
parse_request-any_protocol :
    (command resource protocol : List ℕ) (commandlen resourcelen : ℕ)
    → Word 0 command
    → command ≢ []
    → Word 0 resource
    → resource ≢ []
    → Word 0 protocol
    → length protocol ≡ 8
    → length command < commandlen
    → length resource < resourcelen
    → commandlen < 2 ^ 64
    → resourcelen < 2 ^ 64
    → parse_request commandlen resourcelen (command ++ (space ∷ (resource ++ (space ∷ protocol))))
      ≡ ok (command, resource)
parse_request-any_protocol c r p cl rl wc nc wr nr wp eight lc lr kc kr =
    parse_request-words c r p cl rl wc nc wr nr wp (λ e. absurd (omega (arith, ap length e))) lc lr
      kc kr
    ∙ rw eight
