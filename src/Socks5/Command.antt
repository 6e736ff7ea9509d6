-- ===== src/Socks5/Command.antt =====
-- socks5.c: the request to connect and the reply to it. The conversions of addresses from and to text are
-- parameters.
use libdill.Base.{
  ℕ, ◌+◌, ◌*◌, ◌/◌, ◌%◌, Bool, ◌||◌, ◌&&◌, not, Option, none, some, List, [], ◌∷◌, ◌++◌, length,
  get_or, take, drop, ltb, leb, ◌==◌, if◌then◌else◌, Errno, einval, eproto, eacces, eio,
  enetunreach, ehostunreach, econnrefused, etimedout, eopnotsupp, eafnosupport, Result, ok, err,
  returns,
}
use libdill.Bsock.{Bsock}
use libdill.Ipaddr.{IpAddr, ipv4, ipv6, other_family}
use libdill.Socks5.{Answer, send_then, recv_then}

-- `s5_ipaddr_to_s5addr`: the type, the bytes and the port.
abbrev pub to_s5addr : IpAddr → Option (ℕ × List ℕ × ℕ)
to_s5addr (ipv4 bytes port) = some (1, bytes, port)
to_s5addr (ipv6 bytes port) = some (4, bytes, port)
to_s5addr other_family = none

-- `port >> 8` and `port & 0xFF`, as bytes.
abbrev pub port_bytes : ℕ → List ℕ
port_bytes port = (port / 256 % 256) ∷ (port % 256) ∷ []

-- `ntohs`
abbrev pub ntohs : List ℕ → ℕ
ntohs l = get_or l 0 0 * 256 + get_or l 1 0

-- A request or response: what stands in front of the address, the address with its length byte taken off,
-- and the port's bytes.
pub record Packet : Type 0 where
  pub code : ℕ
  pub atyp : ℕ
  pub addr : List ℕ
  pub port : ℕ

abbrev pub packet_of : (head body : List ℕ) (len : ℕ) → Packet
packet_of head body len = record {
  code = get_or head 1 0;
  atyp = get_or head 3 0;
  addr = take len body;
  port = ntohs (drop len body);
}

-- The request that is sent: the type, the address, with its length in front if it is a name, and the port.
abbrev pub request : (code atyp : ℕ) (addr : List ℕ) (port : ℕ) → List ℕ
request code atyp addr port = 5 ∷ code ∷ 0 ∷ atyp ∷ (addr ++ port_bytes port)

abbrev pub request_by : (as_four as_six : Option (List ℕ)) (hostname : List ℕ) (port : ℕ) → List ℕ
request_by (some a) six hostname port = request 1 1 a port
request_by none (some a) hostname port = request 1 4 a port
request_by none none hostname port = request 1 3 ((length hostname % 256) ∷ hostname) port

-- What is sent for the NUL-terminated `hostname`: an address that it is the text of, or the name itself.
module _ (inet_pton4 inet_pton6 : List ℕ → Option (List ℕ)) where
  abbrev pub name_request : (hostname : List ℕ) (port : ℕ) → List ℕ
  name_request hostname port = request_by (inet_pton4 hostname) (inet_pton6 hostname) hostname port

-- The code of a command is that of connect, bind or UDP associate.
abbrev pub is_command : ℕ → Bool
is_command code = leb 1 code && leb code 3

-- The text that `host` receives, in front of its NUL.
module _ (inet_ntop4 inet_ntop6 : List ℕ → List ℕ) where
  abbrev pub host_of : Packet → List ℕ
  host_of p =
      if p.atyp == 1 then inet_ntop4 p.addr else if p.atyp == 4 then inet_ntop6 p.addr else p.addr

-- The errors of a response.
unfoldable pub reply_error : ℕ → Result (Unit {0})
reply_error reply =
    if reply == 0
    then ok tt
    else if reply == 1
    then err eio
    else if reply == 2
    then err eacces
    else if reply == 3
    then err enetunreach
    else if reply == 4
    then err ehostunreach
    else if reply == 5
    then err econnrefused
    else if reply == 6
    then err etimedout
    else if reply == 7
    then err eopnotsupp
    else if reply == 8
    then err eafnosupport
    else err eproto

module _ {S A : Type 0} (below : Bsock S) (next : Packet → S → Answer A S) where
  -- The address has come, with the port behind it.
  unfoldable pub recv_address : (head : List ℕ) (len : ℕ) → S → Answer A S
  recv_address head len st = recv_then below (len + 2) (λ body. next (packet_of head body len)) st

  unfoldable pub recv_head : (head : List ℕ) → S → Answer A S
  recv_head head st =
      if not (get_or head 0 0 == 5) || not (get_or head 2 0 == 0)
      then returns (err eproto, st)
      else if get_or head 3 0 == 1
      then recv_address head 4 st
      else if get_or head 3 0 == 4
      then recv_address head 16 st
      else if get_or head 3 0 == 3
      then recv_then below 1 (λ len. recv_address head (get_or len 0 0)) st
      else returns (err eproto, st)

  -- `s5_recv_command_request_response`, and what follows when it succeeds.
  unfoldable pub recv_command_request_response : S → Answer A S
  recv_command_request_response st = recv_then below 4 recv_head st

module _ {S : Type 0} (below : Bsock S) where
  unfoldable pub handle_connection_response : S → Answer (Unit {0}) S
  handle_connection_response st =
      recv_command_request_response below (λ p st. returns (reply_error p.code, st)) st

  -- `s5_client_connectbyname` for the NUL-terminated `hostname`; `port` is not negative.
  module _ (inet_pton4 inet_pton6 : List ℕ → Option (List ℕ)) where
    unfoldable pub client_connectbyname : (hostname : List ℕ) (port : ℕ) → S → Answer (Unit {0}) S
    client_connectbyname hostname port st =
        if ltb 255 (length hostname) || (port == 0 || ltb 65535 port)
        then returns (err einval, st)
        else send_then below (name_request inet_pton4 inet_pton6 hostname port)
            handle_connection_response st

  -- `s5_client_connect`; a family that is not known sets no `errno`.
  unfoldable pub connect_to : Errno → Option (ℕ × List ℕ × ℕ) → S → Answer (Unit {0}) S
  connect_to errno none st = returns (err errno, st)
  connect_to errno (some (atyp, bytes, port)) st =
      send_then below (request 1 atyp bytes port) handle_connection_response st

  unfoldable pub client_connect : Errno → IpAddr → S → Answer (Unit {0}) S
  client_connect errno addr st = connect_to errno (to_s5addr addr) st

  -- `dill_socks5_proxy_sendreply`; `reply` is not negative.
  unfoldable pub proxy_sendreply : Errno → (reply : ℕ) → IpAddr → S → Answer (Unit {0}) S
  proxy_sendreply errno reply addr st =
      if ltb 8 reply then returns (err einval, st) else elim (to_s5addr addr) [
        | none ↦ returns (err errno, st)
        | some (atyp, bytes, port) ↦
            send_then below (request reply atyp bytes port) (λ st'. returns (ok tt, st')) st
      ]

  -- `dill_socks5_proxy_recvcommandbyname`: the command, the name and the port.
  module _ (inet_ntop4 inet_ntop6 : List ℕ → List ℕ) where
    unfoldable pub command_byname : Packet → S → Answer (ℕ × List ℕ × ℕ) S
    command_byname p st =
        if is_command p.code
        then returns (ok (p.code, host_of inet_ntop4 inet_ntop6 p, p.port), st)
        else returns (err eproto, st)

    unfoldable pub proxy_recvcommandbyname : S → Answer (ℕ × List ℕ × ℕ) S
    proxy_recvcommandbyname st = recv_command_request_response below command_byname st
