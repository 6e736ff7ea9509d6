-- ===== src/Socks5/Remote.antt =====
-- socks5.c: the request with the address that it is for, and the functions of the client as a whole.
use libdill.Base.{
  ℕ, Option, List, ltb, ◌==◌, if◌then◌else◌, ascii, Errno, einval, eproto, Result, ok, err, Run,
  returns, fault, out_of_fuel,
}
use libdill.Bsock.{Bsock}
use libdill.Socks5.{Answer, c_string, client_auth}
use libdill.Ipaddr.{
  IpAddr, ipv4, ipv6, other_family, Mode, ipv4_only, ipv6_only, prefer_ipv4, remote,
}
use libdill.Socks5.Command.{
  Packet, is_command, recv_command_request_response, client_connect, client_connectbyname,
}

-- `sin_addr` or `sin6_addr` is written over.
abbrev pub with_bytes : List ℕ → IpAddr → IpAddr
with_bytes bytes (ipv4 _ port) = ipv4 bytes port
with_bytes bytes (ipv6 _ port) = ipv6 bytes port
with_bytes bytes other_family = other_family

abbrev pub rewritten : List ℕ → Run (Result IpAddr) → Run (Result IpAddr)
rewritten bytes (returns (ok a)) = returns (ok (with_bytes bytes a))
rewritten bytes (returns (err e)) = returns (err e)
rewritten bytes fault = fault
rewritten bytes out_of_fuel = out_of_fuel

-- `s5_s5addr_to_ipaddr` over `dill_ipaddr_remote`; the port is not negative.
abbrev pub to_ipaddr : (List ℕ → ℕ → Mode → Run (Result IpAddr)) → Packet → Run (Result IpAddr)
to_ipaddr ipaddr_remote p =
    if ltb 65535 p.port
    then returns (err einval)
    else if p.atyp == 1
    then rewritten p.addr (ipaddr_remote (ascii "127.0.0.1") p.port ipv4_only)
    else if p.atyp == 4
    then rewritten p.addr (ipaddr_remote (ascii "::1") p.port ipv6_only)
    else ipaddr_remote (c_string p.addr) p.port prefer_ipv4

abbrev pub with_address : {S : Type 0} → ℕ → Run (Result IpAddr) → S → Answer (ℕ × IpAddr) S
with_address code (returns (ok a)) st = returns (ok (code, a), st)
with_address code (returns (err e)) st = returns (err e, st)
with_address code fault st = fault
with_address code out_of_fuel st = out_of_fuel

-- `inet_pton` and the query of the DNS are those of `dill_ipaddr_remote`.
module _ {S : Type 0} (below : Bsock S) (inet_pton4 inet_pton6 : List ℕ → Option (List ℕ))
    (query : List ℕ → ℕ → Mode → Result (Option IpAddr)) where
  unfoldable pub command_address : Packet → S → Answer (ℕ × IpAddr) S
  unfolding remote
  command_address p st =
      if is_command p.code
      then with_address p.code (to_ipaddr (remote inet_pton4 inet_pton6 query) p) st
      else returns (err eproto, st)

  -- `dill_socks5_proxy_recvcommand`: the command and the address.
  unfoldable pub proxy_recvcommand : S → Answer (ℕ × IpAddr) S
  proxy_recvcommand st = recv_command_request_response below command_address st

-- What follows a login that succeeds.
unfoldable pub logged_in :
    {S : Type 0} → Answer (Unit {0}) S → (S → Answer (Unit {0}) S) → Answer (Unit {0}) S
logged_in (returns (ok _, st)) next = next st
logged_in (returns (err e, st)) next = returns (err e, st)
logged_in fault next = fault
logged_in out_of_fuel next = out_of_fuel

module _ {S : Type 0} (below : Bsock S) (username password : Option (List ℕ)) where
  -- `dill_socks5_client_connect`
  unfoldable pub socks5_client_connect : Errno → IpAddr → S → Answer (Unit {0}) S
  socks5_client_connect errno addr st =
      logged_in (client_auth below username password st) (client_connect below errno addr)

  -- `dill_socks5_client_connectbyname`
  unfoldable pub socks5_client_connectbyname :
      (inet_pton4 inet_pton6 : List ℕ → Option (List ℕ)) (hostname : List ℕ) (port : ℕ)
      → S
      → Answer (Unit {0}) S
  socks5_client_connectbyname inet_pton4 inet_pton6 hostname port st =
      logged_in (client_auth below username password st)
        (client_connectbyname below inet_pton4 inet_pton6 hostname port)
