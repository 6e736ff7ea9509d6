-- ===== src/Http.antt =====
-- http.c: the lines of an HTTP/1.1 head, sent and received as messages of the socket below.
-- A received line is the list of its bytes; `rxbuf[pos]` is the head of what is left, and the NUL that
-- is written behind the line is what the head of the empty list reads as. What an error path has already
-- written to the caller's buffers is not kept.
pub mod Scan
pub mod Request
pub mod Status
pub mod Field
pub mod Tests
use libdill.Base.{
  ℕ, zero, suc, ◌+◌, ◌-◌, ◌*◌, ◌/◌, ◌%◌, ◌^◌, Bool, true, false, ◌||◌, ◌&&◌, not, Option, none,
  some, List, [], ◌∷◌, ◌++◌, ltb, leb, ◌==◌, same_bytes, if◌then◌else◌, take, drop, length, get_or,
  ascii, Errno, einval, eproto, emsgsize, Result, ok, err,
}
use libdill.Msock.{Msock}
use libdill.Utils.Strip.{lstrip, rstrip}

abbrev pub space : ℕ
space = 32

-- `rxbuf[pos]`
abbrev pub peek : List ℕ → ℕ
peek bytes = get_or bytes 0 0

-- `while(rxbuf[pos] == ' ') ++pos;`
unfoldable pub skip_spaces : List ℕ → List ℕ
skip_spaces [] = []
skip_spaces (c ∷ cs) = if c == space then skip_spaces cs else c ∷ cs

-- `while(rxbuf[pos] != 0 && rxbuf[pos] != ' ') ++pos;`: what was passed, and what is left.
-- A name of a field ends at a colon too: `stop` is that byte, 0 where there is none.
unfoldable pub token : (stop : ℕ) → List ℕ → List ℕ × List ℕ
token stop [] = ([], [])
token stop (c ∷ cs) =
    let (word, rest) = token stop cs in
    if c == 0 || (c == space || c == stop) then ([], c ∷ cs) else (c ∷ word, rest)

-- `length > size - 1`, computed in `size_t`.
abbrev pub too_long : ℕ → ℕ → Bool
too_long n size = ltb ((size + 2 ^ 64 - 1) % 2 ^ 64) n

abbrev pub has_byte : ℕ → List ℕ → Bool
has_byte c [] = false
has_byte c (x ∷ xs) = x == c || has_byte c xs

-- `strpbrk(text, set) != NULL`
unfoldable pub has_any : List ℕ → List ℕ → Bool
has_any set [] = false
has_any set (c ∷ cs) = has_byte c set || has_any set cs

abbrev pub blanks : List ℕ
blanks = 32 ∷ 9 ∷ 10 ∷ []

abbrev pub version : List ℕ
version = ascii "HTTP/1.1"

-- The check of the protocol: it fails only if the length is wrong and the bytes differ too.
abbrev pub bad_protocol : ℕ → List ℕ → Bool
bad_protocol n bytes = not (n == 8) && not (same_bytes (take 8 bytes) version)

unfoldable pub request_line : List ℕ → List ℕ → List ℕ
request_line command resource = command ++ (space ∷ (resource ++ (space ∷ version)))

-- `dill_http_recvrequest` behind the receipt of the line.
unfoldable pub parse_request : (commandlen resourcelen : ℕ) → List ℕ → Result (List ℕ × List ℕ)
unfolding skip_spaces token
parse_request commandlen resourcelen line =
    let (command, rest) = token 0 (skip_spaces line) in
    let (resource, rest2) = token 0 (skip_spaces rest) in
    let start = skip_spaces rest2 in
    let (protocol, rest3) = token 0 start in
    if peek rest == 0
    then err eproto
    else if too_long (length command) commandlen
    then err emsgsize
    else if peek rest2 == 0
    then err eproto
    else if too_long (length resource) resourcelen
    then err emsgsize
    else if bad_protocol (length protocol) start
    then err eproto
    else if not (peek (skip_spaces rest3) == 0)
    then err eproto
    else ok (command, resource)

abbrev pub is_digit : ℕ → Bool
is_digit c = leb b'0' c && leb c b'9'

-- The three digits of a status code, and a space.
unfoldable pub status_digits : ℕ → List ℕ
status_digits status =
    (status / 100 + b'0') ∷ (status % 100 / 10 + b'0') ∷ (status % 100 % 10 + b'0') ∷ space ∷ []

unfoldable pub status_line : ℕ → List ℕ → List ℕ
unfolding status_digits
status_line status reason = version ++ (space ∷ (status_digits status ++ reason))

abbrev pub digits_value : List ℕ → ℕ
digits_value bytes =
    (get_or bytes 0 0 - b'0') * 100 + (get_or bytes 1 0 - b'0') * 10 + (get_or bytes 2 0 - b'0')

-- `dill_http_recvstatus` behind the receipt of the line.
unfoldable pub parse_status : (reasonlen : ℕ) → List ℕ → Result (ℕ × List ℕ)
unfolding skip_spaces token
parse_status reasonlen line =
    let start = skip_spaces line in
    let (protocol, rest) = token 0 start in
    let (digits, rest2) = token 0 (skip_spaces rest) in
    let reason = skip_spaces rest2 in
    if peek rest == 0
    then err eproto
    else if bad_protocol (length protocol) start
    then err eproto
    else if peek rest2 == 0
    then err eproto
    else if not (length digits == 3)
    then err eproto
    else if not (
        is_digit (get_or digits 0 0)
        && (is_digit (get_or digits 1 0) && is_digit (get_or digits 2 0)))
    then err eproto
    else if too_long (length reason) reasonlen
    then err emsgsize
    else ok (digits_value digits, reason)

abbrev pub colon : ℕ
colon = 58

-- The bytes that a field's name may not hold.
abbrev pub separators : List ℕ
separators =
    40 ∷ 41 ∷ 44 ∷ 47 ∷ 58 ∷ 59 ∷ 60 ∷ 61 ∷ 62 ∷ 63 ∷ 64 ∷ 91 ∷ 92 ∷ 93 ∷ 123 ∷ 125 ∷ 34 ∷ 32 ∷ 9
    ∷ 10 ∷ []

unfoldable pub field_line : List ℕ → List ℕ → List ℕ
field_line name value = name ++ (colon ∷ space ∷ value)

-- `dill_http_recvfield` behind the receipt of the line. `dill_rstrip` is called on the empty string
-- behind the line, so nothing is stripped and the value is all that is left.
unfoldable pub parse_field : (namelen valuelen : ℕ) → List ℕ → Result (List ℕ × List ℕ)
unfolding skip_spaces token
parse_field namelen valuelen line =
    let (name, rest) = token colon (skip_spaces line) in
    let colon_at = skip_spaces rest in
    let value = skip_spaces (drop 1 colon_at) in
    if peek rest == 0
    then err eproto
    else if too_long (length name) namelen
    then err emsgsize
    else if not (peek colon_at == colon)
    then err eproto
    else if too_long (length value) valuelen
    then err emsgsize
    else ok (name, value)

-- `sizeof(obj->rxbuf) - 1`
abbrev pub max_line : ℕ
max_line = 1023

module _ {S : Type 0} (below : Msock S) where
  open below use {msend, mrecv}

  unfoldable pub sendrequest : List ℕ → List ℕ → S → Result (Unit {0}) × S
  unfolding has_any request_line
  sendrequest command resource st =
      if has_any blanks command
      then (err einval, st)
      else if has_any blanks resource
      then (err einval, st)
      else msend (request_line command resource) st

  unfoldable pub receive : {A : Type 0} → (List ℕ → Result A) → S → Result A × S
  receive parse st =
      let (r, st') = mrecv max_line st in
      elim r [ err e ↦ (err e, st') | ok line ↦ (parse line, st') ]

  unfoldable pub recvrequest : (commandlen resourcelen : ℕ) → S → Result (List ℕ × List ℕ) × S
  unfolding parse_request
  recvrequest commandlen resourcelen = receive (parse_request commandlen resourcelen)

  unfoldable pub sendstatus : ℕ → List ℕ → S → Result (Unit {0}) × S
  unfolding status_line
  sendstatus status reason st =
      if ltb status 100 || ltb 599 status
      then (err einval, st)
      else msend (status_line status reason) st

  unfoldable pub recvstatus : (reasonlen : ℕ) → S → Result (ℕ × List ℕ) × S
  unfolding parse_status
  recvstatus reasonlen = receive (parse_status reasonlen)

  -- `none` is the failed assertion that the stripped value is not empty.
  unfoldable pub sendfield : List ℕ → List ℕ → S → Option (Result (Unit {0}) × S)
  unfolding has_any field_line lstrip rstrip
  sendfield name value st =
      let start = lstrip space value in
      if has_any separators name
      then some (err einval, st)
      else if length value == 0
      then some (err eproto, st)
      else if length (rstrip space start) == 0
      then none
      else some (msend (field_line name (rstrip space start)) st)

  unfoldable pub recvfield : (namelen valuelen : ℕ) → S → Result (List ℕ × List ℕ) × S
  unfolding parse_field
  recvfield namelen valuelen = receive (parse_field namelen valuelen)
