-- ===== src/Socks5/Tests.antt =====
-- socks5.c on two queues of bytes.
use mathlib.Core.Option
use libdill.Base.{
  Result, sym, ap, ◌+◌, ◌*◌, ◌-◌, get_or, ℕ, ◌≡◌, refl, Bool, true, false, none, some, Option, List,
  [], ◌∷◌, length, arith, ok, err, eacces, econnrefused, epipe,
}
use libdill.Socks5.{client_auth, proxy_auth}
use libdill.Socks5.Wire.{two_pipes, two_pipes-Wire, Says}
use libdill.Socks5.Login.{client_auth-proxy_auth}
use libdill.Socks5.Packets.{as_ipv4}
use libdill.Ipaddr.{IpAddr, ipv4, Mode}
use libdill.Socks5.Command.{
  client_connect, client_connectbyname, proxy_recvcommandbyname, proxy_sendreply, reply_error,
}
use libdill.Socks5.Connect.{Converts, client_connectbyname-proxy_recvcommandbyname}
use libdill.Socks5.Remote.{proxy_recvcommand}
use libdill.Socks5.Address.{Loopback, route_ipv4, client_connect-proxy_recvcommand}

abbrev Pipes : Type 0
Pipes = List ℕ × List ℕ

abbrev come : Pipes → List ℕ
come st = st.0

abbrev gone : Pipes → List ℕ
gone st = st.1

-- Who has a password of two characters is let in.
abbrev two_letters : List ℕ → List ℕ → Bool
two_letters u (a ∷ b ∷ []) = true
two_letters u p = false

client_auth-proxy_auth_example :
    Says come gone
      (client_auth two_pipes (some (65 ∷ [])) (some (66 ∷ [])) (5 ∷ 2 ∷ 1 ∷ 255 ∷ [], []))
      (5 ∷ 2 ∷ 1 ∷ 255 ∷ [], [])
      (err eacces)
      (5 ∷ 2 ∷ 0 ∷ 2 ∷ 1 ∷ 1 ∷ 65 ∷ 1 ∷ 66 ∷ [])
      []
    × Says come gone
        (proxy_auth two_pipes epipe
          (some two_letters)
          (5 ∷ 2 ∷ 0 ∷ 2 ∷ 1 ∷ 1 ∷ 65 ∷ 1 ∷ 66 ∷ 9 ∷ [], []))
        (5 ∷ 2 ∷ 0 ∷ 2 ∷ 1 ∷ 1 ∷ 65 ∷ 1 ∷ 66 ∷ 9 ∷ [], [])
        (err epipe)
        (5 ∷ 2 ∷ 1 ∷ 255 ∷ [])
        (9 ∷ [])
client_auth-proxy_auth_example =
    client_auth-proxy_auth two_pipes two_pipes come gone come gone two_pipes-Wire two_pipes-Wire
      epipe two_letters (65 ∷ []) (66 ∷ []) (5 ∷ 2 ∷ 1 ∷ 255 ∷ [], [])
      (5 ∷ 2 ∷ 0 ∷ 2 ∷ 1 ∷ 1 ∷ 65 ∷ 1 ∷ 66 ∷ 9 ∷ [], []) [] (9 ∷ []) ((λ e. omega (arith, e)), tt)
      ((λ e. omega (arith, e)), tt) (omega arith) (omega arith) (omega arith) refl refl

-- Conversions that know one address, which is written with one character.
abbrev pton4 : List ℕ → Option (List ℕ)
pton4 (c ∷ []) = some (10 ∷ 0 ∷ 0 ∷ c ∷ [])
pton4 host = none

abbrev pton6 : List ℕ → Option (List ℕ)
pton6 host = none

abbrev ntop4 : List ℕ → List ℕ
ntop4 a = get_or a 3 0 ∷ []

pton4-four : (host a : List ℕ) → pton4 host ≡ some a → length a ≡ 4
unfolding Option.rec
pton4-four [] a e = absurd (ground arith)
pton4-four (c ∷ []) a e = sym (ap (Option.rec (λ _. ℕ) 4 length) e)
pton4-four (c ∷ d ∷ host) a e = absurd (ground arith)

pton-Converts : Converts pton4 pton6
pton-Converts = record { four = pton4-four; sixteen = λ host a e. absurd (ground arith) }

-- The proxy is asked for "ab" and port 80, and says that the connection was refused.
abbrev denied : Pipes
denied = (5 ∷ 5 ∷ 0 ∷ 1 ∷ 0 ∷ 0 ∷ 0 ∷ 0 ∷ 0 ∷ 0 ∷ 8 ∷ [], [])

abbrev asked : Pipes
asked = (5 ∷ 1 ∷ 0 ∷ 3 ∷ 2 ∷ 97 ∷ 98 ∷ 0 ∷ 80 ∷ 8 ∷ [], [])

connectbyname_example :
    Says come gone
      (client_connectbyname two_pipes pton4 pton6 (97 ∷ 98 ∷ []) 80 denied)
      denied
      (err econnrefused)
      (5 ∷ 1 ∷ 0 ∷ 3 ∷ 2 ∷ 97 ∷ 98 ∷ 0 ∷ 80 ∷ [])
      (8 ∷ [])
    × Says come gone
        (proxy_recvcommandbyname two_pipes ntop4 ntop4 asked)
        asked
        (ok (1, 97 ∷ 98 ∷ [], 80))
        []
        (8 ∷ [])
unfolding reply_error
connectbyname_example =
    client_connectbyname-proxy_recvcommandbyname two_pipes two_pipes come gone come gone
      two_pipes-Wire two_pipes-Wire pton4 pton6 ntop4 ntop4 pton-Converts (97 ∷ 98 ∷ []) 80 5 1
      (0 ∷ 0 ∷ 0 ∷ 0 ∷ []) (0 ∷ 0 ∷ 0 ∷ 0 ∷ []) 0 denied asked (8 ∷ []) (8 ∷ []) (omega arith)
      (omega arith) (omega arith) (omega arith) (as_ipv4 refl) refl refl

-- Conversions of texts like 127.0.0.1 and ::1, and a resolver that knows no name.
abbrev digits4 : List ℕ → Option (List ℕ)
digits4 (a ∷ b ∷ c ∷ _ ∷ d ∷ _ ∷ e ∷ _ ∷ f ∷ []) =
    some (((a - 48) * 100 + (b - 48) * 10 + (c - 48)) ∷ (d - 48) ∷ (e - 48) ∷ (f - 48) ∷ [])
digits4 text = none

abbrev digits6 : List ℕ → Option (List ℕ)
digits6 (_ ∷ _ ∷ c ∷ []) =
    some (0 ∷ 0 ∷ 0 ∷ 0 ∷ 0 ∷ 0 ∷ 0 ∷ 0 ∷ 0 ∷ 0 ∷ 0 ∷ 0 ∷ 0 ∷ 0 ∷ 0 ∷ (c - 48) ∷ [])
digits6 text = none

abbrev unknown : List ℕ → ℕ → Mode → Result (Option IpAddr)
unknown name port mode = ok none

digits-Loopback : Loopback digits4 digits6
digits-Loopback = record { four = refl; six = refl }

abbrev there : IpAddr
there = ipv4 (10 ∷ 0 ∷ 0 ∷ 4 ∷ []) 443

abbrev nowhere : IpAddr
nowhere = ipv4 (0 ∷ 0 ∷ 0 ∷ 0 ∷ []) 0

abbrev wanted : Pipes
wanted = (5 ∷ 1 ∷ 0 ∷ 1 ∷ 10 ∷ 0 ∷ 0 ∷ 4 ∷ 1 ∷ 187 ∷ [], [])

abbrev idle : Pipes
idle = ([], [])

connect_example :
    Says come gone
      (client_connect two_pipes epipe there denied)
      denied
      (err econnrefused)
      (5 ∷ 1 ∷ 0 ∷ 1 ∷ 10 ∷ 0 ∷ 0 ∷ 4 ∷ 1 ∷ 187 ∷ [])
      (8 ∷ [])
    × Says come gone
        (proxy_recvcommand two_pipes digits4 digits6 unknown wanted)
        wanted
        (ok (1, there))
        []
        []
    × Says come gone
        (proxy_sendreply two_pipes epipe 5 nowhere idle)
        idle
        (ok tt)
        (5 ∷ 5 ∷ 0 ∷ 1 ∷ 0 ∷ 0 ∷ 0 ∷ 0 ∷ 0 ∷ 0 ∷ [])
        []
unfolding reply_error
connect_example =
    client_connect-proxy_recvcommand two_pipes two_pipes come gone come gone two_pipes-Wire
      two_pipes-Wire digits4 digits6 unknown digits-Loopback epipe there nowhere 1 1
      (10 ∷ 0 ∷ 0 ∷ 4 ∷ []) (0 ∷ 0 ∷ 0 ∷ 0 ∷ []) 443 0 5 denied wanted idle (8 ∷ []) []
      (route_ipv4 refl) (route_ipv4 refl) (omega arith) (omega arith) (omega arith) refl refl
