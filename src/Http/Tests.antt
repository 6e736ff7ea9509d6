-- ===== src/Http/Tests.antt =====
-- http.c on concrete lines.
use mathlib.Core.List.{cons≢nil}
use libdill.Base.{ℕ, ◌≡◌, refl, List, [], ◌∷◌, ascii, ok, arith}
use libdill.Http.{
  receive, sendrequest, recvrequest, request_line, parse_request, parse_field, has_any,
}
use libdill.Msock.{loopback}
use libdill.Http.Scan.{NoNul}
use libdill.Http.Request.{recvrequest-sendrequest}

abbrev get_root : List (List ℕ)
get_root = ascii "GET / HTTP/1.1" ∷ []

NoNul-get : NoNul (ascii "GET")
NoNul-get = (λ e. omega (arith, e), (λ e. omega (arith, e), (λ e. omega (arith, e), tt)))

request_example :
    (sendrequest loopback (ascii "GET") (ascii "/") [] ≡ (ok tt, get_root))
    × ((recvrequest loopback 16 16 get_root).0 ≡ ok (ascii "GET", ascii "/"))
unfolding sendrequest recvrequest receive request_line parse_request has_any
request_example = (refl, refl)

recvrequest-sendrequest_example :
    let (r, sent) = sendrequest loopback (ascii "GET") (ascii "/") [] in
    (r ≡ ok tt) × ((recvrequest loopback 16 16 sent).0 ≡ ok (ascii "GET", ascii "/"))
unfolding request_line has_any
recvrequest-sendrequest_example =
    recvrequest-sendrequest loopback (ascii "GET") (ascii "/") 16 16 [] (refl, refl) refl refl
      NoNul-get (λ e. omega (arith, e), tt) (λ e. cons≢nil e) (λ e. cons≢nil e) (omega arith)
      (omega arith) (omega arith) (omega arith)

-- The spaces behind a value stay.
trailing_space_test : parse_field 16 16 (ascii "Host: a ") ≡ ok (ascii "Host", ascii "a ")
unfolding parse_field
trailing_space_test = refl
