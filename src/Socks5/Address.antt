-- ===== src/Socks5/Address.antt =====
-- socks5.c: connecting to an address.
use mathlib.Core.List.{append-nil}
use libdill.Base.{
  ℕ, ◌%◌, ◌^◌, ◌∷◌, Option, ◌≤◌, false, some, List, [], ◌++◌, length, ltb, ascii, ◌≡◌, refl, sym,
  ap, ◌∙◌, subst, arith, if-false, Errno, Result, ok, returns,
}
use libdill.Bsock.{Bsock}
use libdill.Socks5.{send_then}
use libdill.Socks5.Wire.{Wire, Says, send_then-Says}
use libdill.Socks5.Packets.{Carried, as_ipv4, as_ipv6, packet-Says}
use libdill.Socks5.Connect.{stays, response_Says, sendreply_Says}
use libdill.Ipaddr.{
  IpAddr, ipv4, ipv6, Mode, ipv4_only, ipv6_only, ipv4_literal, ipv6_literal, literal, remotes_of,
  remotes, remote,
}
use libdill.Socks5.Command.{
  request, reply_error, to_s5addr, handle_connection_response, connect_to, client_connect,
  proxy_sendreply,
}
use libdill.Socks5.Remote.{to_ipaddr, rewritten, with_address, command_address, proxy_recvcommand}

-- The addresses that SOCKS5 carries: their type, bytes and port.
pub data Route : IpAddr → ℕ → List ℕ → ℕ → Type 0 where
  route_ipv4 : {bytes : List ℕ} {port : ℕ} → length bytes ≡ 4 → Route (ipv4 bytes port) 1 bytes port
  route_ipv6 :
      {bytes : List ℕ} {port : ℕ} → length bytes ≡ 16 → Route (ipv6 bytes port) 4 bytes port

-- `inet_pton` reads the texts of the loopback addresses.
pub record Loopback (inet_pton4 inet_pton6 : List ℕ → Option (List ℕ)) : Type 0 where
  pub four : inet_pton4 (ascii "127.0.0.1") ≡ some (127 ∷ 0 ∷ 0 ∷ 1 ∷ [])
  pub six :
      inet_pton6 (ascii "::1")
      ≡ some (0 ∷ 0 ∷ 0 ∷ 0 ∷ 0 ∷ 0 ∷ 0 ∷ 0 ∷ 0 ∷ 0 ∷ 0 ∷ 0 ∷ 0 ∷ 0 ∷ 0 ∷ 1 ∷ [])

Route-Carried :
    (addr : IpAddr) (atyp : ℕ) (bytes : List ℕ) (port : ℕ)
    → Route addr atyp bytes port
    → Carried atyp bytes bytes × (to_s5addr addr ≡ some (atyp, bytes, port))
Route-Carried addr atyp bytes port (route_ipv4 l) = (as_ipv4 l, refl)
Route-Carried addr atyp bytes port (route_ipv6 l) = (as_ipv6 l, refl)

literal_ipv4 :
    (inet_pton4 inet_pton6 : List ℕ → Option (List ℕ)) (name x : List ℕ) (port : ℕ)
    → inet_pton4 name ≡ some x
    → port ≤ 65535
    → literal inet_pton4 inet_pton6 name port ipv4_only ≡ ok (ipv4 x port)
unfolding literal ipv4_literal
literal_ipv4 inet_pton4 inet_pton6 name x port read h =
    let valid : ltb 0xffff port ≡ false = ground arith in
    let same : port % 2 ^ 16 ≡ port = omega (arith, h) in
    if-false _ _ valid ∙ rw (ipv4_literal, read) (ap (λ n. ok (ipv4 x n)) same)

literal_ipv6 :
    (inet_pton4 inet_pton6 : List ℕ → Option (List ℕ)) (name x : List ℕ) (port : ℕ)
    → inet_pton6 name ≡ some x
    → port ≤ 65535
    → literal inet_pton4 inet_pton6 name port ipv6_only ≡ ok (ipv6 x port)
unfolding literal ipv6_literal
literal_ipv6 inet_pton4 inet_pton6 name x port read h =
    let valid : ltb 0xffff port ≡ false = ground arith in
    let same : port % 2 ^ 16 ≡ port = omega (arith, h) in
    if-false _ _ valid ∙ rw (ipv6_literal, read) (ap (λ n. ok (ipv6 x n)) same)

-- `dill_ipaddr_remote` of a literal of the family that is asked for.
remote_ipv4 :
    (inet_pton4 inet_pton6 : List ℕ → Option (List ℕ))
    (query : List ℕ → ℕ → Mode → Result (Option IpAddr)) (name x : List ℕ) (port : ℕ)
    → inet_pton4 name ≡ some x
    → port ≤ 65535
    → remote inet_pton4 inet_pton6 query name port ipv4_only ≡ returns (ok (ipv4 x port))
unfolding remote remotes remotes_of
remote_ipv4 inet_pton4 inet_pton6 query name x port read h =
    let lit = literal_ipv4 inet_pton4 inet_pton6 name x port read h in
    rw (remote, remotes, remotes_of, lit) refl

remote_ipv6 :
    (inet_pton4 inet_pton6 : List ℕ → Option (List ℕ))
    (query : List ℕ → ℕ → Mode → Result (Option IpAddr)) (name x : List ℕ) (port : ℕ)
    → inet_pton6 name ≡ some x
    → port ≤ 65535
    → remote inet_pton4 inet_pton6 query name port ipv6_only ≡ returns (ok (ipv6 x port))
unfolding remote remotes remotes_of
remote_ipv6 inet_pton4 inet_pton6 query name x port read h =
    let lit = literal_ipv6 inet_pton4 inet_pton6 name x port read h in
    rw (remote, remotes, remotes_of, lit) refl

to_ipaddr_lem :
    (inet_pton4 inet_pton6 : List ℕ → Option (List ℕ))
    (query : List ℕ → ℕ → Mode → Result (Option IpAddr))
    → Loopback inet_pton4 inet_pton6
    → (addr : IpAddr) (atyp : ℕ) (bytes : List ℕ) (port : ℕ) → Route addr atyp bytes port
    → port ≤ 65535
    → to_ipaddr
        (remote inet_pton4 inet_pton6 query)
        (record { code = 1; atyp = atyp; addr = bytes; port = port })
      ≡ returns (ok addr)
to_ipaddr_lem p4 p6 query k addr atyp bytes port (route_ipv4 l) h =
    let valid : ltb 65535 port ≡ false = ground arith in
    if-false _ _ valid ∙ ap (rewritten bytes) (remote_ipv4 p4 p6 query _ _ port k.four h)
to_ipaddr_lem p4 p6 query k addr atyp bytes port (route_ipv6 l) h =
    let valid : ltb 65535 port ≡ false = ground arith in
    if-false _ _ valid ∙ ap (rewritten bytes) (remote_ipv6 p4 p6 query _ _ port k.six h)

client_connect-some :
    {S : Type 0} (below : Bsock S) (errno : Errno) (addr : IpAddr) (atyp : ℕ) (bytes : List ℕ)
    (port : ℕ) (st : S)
    → to_s5addr addr ≡ some (atyp, bytes, port)
    → client_connect below errno addr st
      ≡ send_then below (request 1 atyp bytes port) (handle_connection_response below) st
unfolding client_connect connect_to
client_connect-some below errno addr atyp bytes port st e = ap (λ a. connect_to below errno a st) e

command_address_ok :
    {S : Type 0} (below : Bsock S) (inet_pton4 inet_pton6 : List ℕ → Option (List ℕ))
    (query : List ℕ → ℕ → Mode → Result (Option IpAddr)) (addr : IpAddr) (atyp : ℕ) (bytes : List ℕ)
    (port : ℕ) (st : S)
    → to_ipaddr
        (remote inet_pton4 inet_pton6 query)
        (record { code = 1; atyp = atyp; addr = bytes; port = port })
      ≡ returns (ok addr)
    → command_address below inet_pton4 inet_pton6 query
        (record { code = 1; atyp = atyp; addr = bytes; port = port })
        st
      ≡ returns (ok (1, addr), st)
unfolding command_address
command_address_ok below p4 p6 query addr atyp bytes port st e = ap (λ a. with_address 1 a st) e

-- The proxy receives the IPv4 or IPv6 address that the client connects to, and the client returns by the
-- reply that the proxy sends. `inet_pton` reads the two loopback literals; no query of the DNS is made.
pub client_connect-proxy_recvcommand :
    {C P : Type 0} (client : Bsock C) (proxy : Bsock P) (c_in c_out : C → List ℕ)
    (p_in p_out : P → List ℕ)
    → Wire client c_in c_out
    → Wire proxy p_in p_out
    → (inet_pton4 inet_pton6 : List ℕ → Option (List ℕ))
      (query : List ℕ → ℕ → Mode → Result (Option IpAddr))
    → Loopback inet_pton4 inet_pton6
    → (errno : Errno) (addr bound : IpAddr) (atyp batyp : ℕ) (bytes bbytes : List ℕ)
      (port bport reply : ℕ) (c : C) (p later : P) (c_rest p_rest : List ℕ)
    → Route addr atyp bytes port
    → Route bound batyp bbytes bport
    → port ≤ 65535
    → bport ≤ 65535
    → reply ≤ 8
    → c_in c ≡ request reply batyp bbytes bport ++ c_rest
    → p_in p ≡ request 1 atyp bytes port ++ p_rest
    → Says c_in c_out
        (client_connect client errno addr c)
        c
        (reply_error reply)
        (request 1 atyp bytes port)
        c_rest
      × Says p_in p_out
          (proxy_recvcommand proxy inet_pton4 inet_pton6 query p)
          p
          (ok (1, addr))
          []
          p_rest
      × Says p_in p_out
          (proxy_sendreply proxy errno reply bound later)
          later
          (ok tt)
          (request reply batyp bbytes bport)
          (p_in later)
unfolding proxy_recvcommand
client_connect-proxy_recvcommand client proxy c_in c_out p_in p_out cw pw p4 p6 query k errno addr
      bound atyp batyp bytes bbytes port bport reply c p later c_rest p_rest route broute fits bfits
      h ci pi =
    let (x, e) = Route-Carried addr atyp bytes port route in
    let (bx, be) = Route-Carried bound batyp bbytes bport broute in
    let sent = request 1 atyp bytes port in
    let call = send_then client sent (handle_connection_response client) c in
    let r = reply_error reply in
    (
      subst (λ y. Says c_in c_out y c r sent c_rest)
          (sym (client_connect-some client errno addr atyp bytes port c e))
          (subst (λ l. Says c_in c_out call c r l c_rest) (append-nil sent)
            (send_then-Says client c_in c_out cw sent (handle_connection_response client) c r []
              c_rest
              (λ st' same.
                response_Says client c_in c_out cw reply batyp bbytes bbytes bport st' c_rest bfits
                  bx (same ∙ ci)))),
      packet-Says proxy p_in p_out pw (command_address proxy p4 p6 query) (ok (1, addr)) [] p_rest
          port fits 1 atyp bytes bytes p x pi
          (λ st' same.
            subst (λ y. Says p_in p_out y st' (ok (1, addr)) [] p_rest)
              (sym (
                command_address_ok proxy p4 p6 query addr atyp bytes port st'
                  (to_ipaddr_lem p4 p6 query k addr atyp bytes port route fits)))
              (stays proxy p_in p_out pw (ok (1, addr)) st' p_rest same)),
      sendreply_Says proxy p_in p_out pw errno reply bound batyp bbytes bport later h be,
    )
