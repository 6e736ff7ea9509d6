-- ===== src/Socks5/Connect.antt =====
-- socks5.c: the proxy connects to what the client asked for, and the client learns its reply.
use mathlib.Core.List.{append-nil}
use libdill.Base.{
  ℕ, ◌%◌, ◌≤◌, ◌<◌, false, ◌||◌, Option, none, some, List, [], ◌∷◌, ◌++◌, length, ltb, ◌==◌, ◌≡◌,
  inl, inr, refl, sym, ap, ap₂, ◌∙◌, subst, arith, if-false, Option-cases, Errno, Result, ok,
  returns,
}
use libdill.Bsock.{Bsock}
use libdill.Socks5.{send_then}
use libdill.Socks5.Wire.{Wire, Says, end_Says, send_then-Says}
use libdill.Socks5.Packets.{Carried, as_ipv4, as_ipv6, as_name, packet-Says}
use libdill.Ipaddr.{IpAddr}
use libdill.Socks5.Command.{
  request, name_request, request_by, host_of, reply_error, to_s5addr, handle_connection_response,
  client_connectbyname, proxy_sendreply, command_byname, proxy_recvcommandbyname,
}

module _ {S : Type 0} (below : Bsock S) (incoming outgoing : S → List ℕ)
    (wire : Wire below incoming outgoing) where
  -- Nothing more is sent or received.
  pub stays :
      {A : Type 0} (r : Result A) (st : S) (rest : List ℕ)
      → incoming st ≡ rest
      → Says incoming outgoing (returns (r, st)) st r [] rest
  stays r st rest e =
      subst (Says incoming outgoing (returns (r, st)) st r []) e
        (end_Says below incoming outgoing wire r st)

  pub response_Says :
      (reply atyp : ℕ) (addr encoded : List ℕ) (port : ℕ) (st : S) (rest : List ℕ)
      → port ≤ 65535
      → Carried atyp addr encoded
      → incoming st ≡ request reply atyp encoded port ++ rest
      → Says incoming outgoing (handle_connection_response below st) st (reply_error reply) [] rest
  unfolding handle_connection_response
  response_Says reply atyp addr encoded port st rest h x c =
      packet-Says below incoming outgoing wire (λ p st. returns (reply_error p.code, st))
        (reply_error reply) [] rest port h reply atyp addr encoded st x c
        (λ st' e. stays (reply_error reply) st' rest e)

  command_Says :
      (ntop4 ntop6 : List ℕ → List ℕ) (atyp : ℕ) (addr encoded host : List ℕ) (port : ℕ) (st : S)
      (rest : List ℕ)
      → port ≤ 65535
      → Carried atyp addr encoded
      → host_of ntop4 ntop6 (record { code = 1; atyp = atyp; addr = addr; port = port }) ≡ host
      → incoming st ≡ request 1 atyp encoded port ++ rest
      → Says incoming outgoing
          (proxy_recvcommandbyname below ntop4 ntop6 st)
          st
          (ok (1, host, port))
          []
          rest
  unfolding proxy_recvcommandbyname command_byname
  command_Says ntop4 ntop6 atyp addr encoded host port st rest h x e c =
      packet-Says below incoming outgoing wire (command_byname below ntop4 ntop6)
        (ok (1, host, port)) [] rest port h 1 atyp addr encoded st x c
        (λ st' k.
          subst
            (λ n.
              Says incoming outgoing
                (command_byname below ntop4 ntop6
                  (record { code = 1; atyp = atyp; addr = addr; port = port }) st')
                st' (ok (1, n, port)) [] rest)
            e
            (stays
              (ok (
                1,
                host_of ntop4 ntop6 (record { code = 1; atyp = atyp; addr = addr; port = port }),
                port,
              ))
              st' rest k))

  connect_Says :
      (pton4 pton6 : List ℕ → Option (List ℕ)) (hostname : List ℕ) (port reply atyp : ℕ)
      (addr encoded : List ℕ) (bound : ℕ) (st : S) (rest : List ℕ)
      → length hostname ≤ 255
      → 0 < port
      → port ≤ 65535
      → bound ≤ 65535
      → Carried atyp addr encoded
      → incoming st ≡ request reply atyp encoded bound ++ rest
      → Says incoming outgoing
          (client_connectbyname below pton4 pton6 hostname port st)
          st
          (reply_error reply)
          (name_request pton4 pton6 hostname port ++ [])
          rest
  unfolding client_connectbyname
  connect_Says pton4 pton6 hostname port reply atyp addr encoded bound st rest lh p q b x c =
      let valid : (ltb 255 (length hostname) || (port == 0 || ltb 65535 port)) ≡ false =
        ground arith in
      let sent = name_request pton4 pton6 hostname port in
      subst (λ call. Says incoming outgoing call st (reply_error reply) (sent ++ []) rest)
        (sym (if-false _ _ valid))
        (send_then-Says below incoming outgoing wire sent (handle_connection_response below) st
          (reply_error reply) [] rest
          (λ st' same. response_Says reply atyp addr encoded bound st' rest b x (same ∙ c)))

-- The name that the proxy sees: that of the address that the client's name is the text of, or the name.
abbrev pub seen_by :
    (ntop4 ntop6 : List ℕ → List ℕ) (as_four as_six : Option (List ℕ)) → List ℕ → List ℕ
seen_by ntop4 ntop6 (some a) six host = ntop4 a
seen_by ntop4 ntop6 none (some a) host = ntop6 a
seen_by ntop4 ntop6 none none host = host

abbrev pub seen_as :
    (pton4 pton6 : List ℕ → Option (List ℕ)) (ntop4 ntop6 : List ℕ → List ℕ) → List ℕ → List ℕ
seen_as pton4 pton6 ntop4 ntop6 host = seen_by ntop4 ntop6 (pton4 host) (pton6 host) host

-- `inet_pton` gives the bytes of an address.
pub record Converts (pton4 pton6 : List ℕ → Option (List ℕ)) : Type 0 where
  pub four : (host a : List ℕ) → pton4 host ≡ some a → length a ≡ 4
  pub sixteen : (host a : List ℕ) → pton6 host ≡ some a → length a ≡ 16

-- The three forms of a request.
abbrev Formed :
    (pton4 pton6 : List ℕ → Option (List ℕ)) (ntop4 ntop6 : List ℕ → List ℕ) → List ℕ → ℕ → Type 0
Formed pton4 pton6 ntop4 ntop6 host port =
    (atyp : ℕ) × (addr : List ℕ) × (encoded : List ℕ) × Carried atyp addr encoded
    × (name_request pton4 pton6 host port ≡ request 1 atyp encoded port)
    × (host_of ntop4 ntop6 (record { code = 1; atyp = atyp; addr = addr; port = port })
        ≡ seen_as pton4 pton6 ntop4 ntop6 host)

name_request-Formed :
    (pton4 pton6 : List ℕ → Option (List ℕ)) (ntop4 ntop6 : List ℕ → List ℕ)
    → Converts pton4 pton6
    → (host : List ℕ) (port : ℕ) → length host ≤ 255
    → Formed pton4 pton6 ntop4 ntop6 host port
name_request-Formed pton4 pton6 ntop4 ntop6 k host port h =
    let asked = λ (x y : Option (List ℕ)). request_by x y host port in
    let seen = λ (x y : Option (List ℕ)). seen_by ntop4 ntop6 x y host in
    elim (Option-cases (pton4 host)) [
      | inr (a, e) ↦ (
        1,
        a,
        a,
        as_ipv4 (k.four host a e),
        ap (λ x. asked x (pton6 host)) e,
        sym (ap (λ x. seen x (pton6 host)) e),
      )
      | inl e ↦ elim (Option-cases (pton6 host)) [
        | inr (a, f) ↦ (4, a, a, as_ipv6 (k.sixteen host a f), ap₂ asked e f, sym (ap₂ seen e f))
        | inl f ↦
            (3, host, (length host % 256) ∷ host, as_name h, ap₂ asked e f, sym (ap₂ seen e f))
      ]
    ]

-- The proxy receives the host and the port that the client sends, and the client returns by the code of
-- the response.
pub client_connectbyname-proxy_recvcommandbyname :
    {C P : Type 0} (client : Bsock C) (proxy : Bsock P) (c_in c_out : C → List ℕ)
    (p_in p_out : P → List ℕ)
    → Wire client c_in c_out
    → Wire proxy p_in p_out
    → (pton4 pton6 : List ℕ → Option (List ℕ)) (ntop4 ntop6 : List ℕ → List ℕ)
    → Converts pton4 pton6
    → (hostname : List ℕ) (port reply atyp : ℕ) (addr encoded : List ℕ) (bound : ℕ) (c : C) (p : P)
      (c_rest p_rest : List ℕ)
    → length hostname ≤ 255
    → 0 < port
    → port ≤ 65535
    → bound ≤ 65535
    → Carried atyp addr encoded
    → c_in c ≡ request reply atyp encoded bound ++ c_rest
    → p_in p ≡ name_request pton4 pton6 hostname port ++ p_rest
    → Says c_in c_out
        (client_connectbyname client pton4 pton6 hostname port c)
        c
        (reply_error reply)
        (name_request pton4 pton6 hostname port)
        c_rest
      × Says p_in p_out
          (proxy_recvcommandbyname proxy ntop4 ntop6 p)
          p
          (ok (1, seen_as pton4 pton6 ntop4 ntop6 hostname, port))
          []
          p_rest
client_connectbyname-proxy_recvcommandbyname client proxy c_in c_out p_in p_out cw pw pton4 pton6
      ntop4 ntop6 k hostname port reply atyp addr encoded bound c p c_rest p_rest lh q le b x ci
      pi =
    let (t, a, enc, y, e, s) = name_request-Formed pton4 pton6 ntop4 ntop6 k hostname port lh in
    (
      subst
          (λ sent.
            Says c_in c_out (client_connectbyname client pton4 pton6 hostname port c) c
              (reply_error reply) sent c_rest)
          (append-nil (name_request pton4 pton6 hostname port))
          (connect_Says client c_in c_out cw pton4 pton6 hostname port reply atyp addr encoded bound
            c c_rest lh q le b x ci),
      command_Says proxy p_in p_out pw ntop4 ntop6 t a enc
          (seen_as pton4 pton6 ntop4 ntop6 hostname) port p p_rest le y s
          (pi ∙ ap (λ l. l ++ p_rest) e),
    )

pub sendreply_some :
    {S : Type 0} (below : Bsock S) (errno : Errno) (reply : ℕ) (addr : IpAddr) (atyp : ℕ)
    (bytes : List ℕ) (bound : ℕ) (st : S)
    → reply ≤ 8
    → to_s5addr addr ≡ some (atyp, bytes, bound)
    → proxy_sendreply below errno reply addr st
      ≡ send_then below (request reply atyp bytes bound) (λ st'. returns (ok tt, st')) st
unfolding proxy_sendreply
sendreply_some below errno reply addr atyp bytes bound st h e =
    let valid : ltb 8 reply ≡ false = ground arith in if-false _ _ valid ∙ (rw e refl)

-- What the proxy sends as its reply.
pub sendreply_Says :
    {P : Type 0} (proxy : Bsock P) (p_in p_out : P → List ℕ)
    → Wire proxy p_in p_out
    → (errno : Errno) (reply : ℕ) (addr : IpAddr) (atyp : ℕ) (bytes : List ℕ) (bound : ℕ) (p : P)
    → reply ≤ 8
    → to_s5addr addr ≡ some (atyp, bytes, bound)
    → Says p_in p_out
        (proxy_sendreply proxy errno reply addr p)
        p
        (ok tt)
        (request reply atyp bytes bound)
        (p_in p)
sendreply_Says proxy p_in p_out pw errno reply addr atyp bytes bound p h e =
    let sent = request reply atyp bytes bound in
    let replies = send_then proxy sent (λ st'. returns (ok tt, st')) p in
    subst (λ call. Says p_in p_out call p (ok tt) sent (p_in p))
      (sym (sendreply_some proxy errno reply addr atyp bytes bound p h e))
      (subst (λ l. Says p_in p_out replies p (ok tt) l (p_in p)) (append-nil sent)
        (send_then-Says proxy p_in p_out pw sent (λ st'. returns (ok tt, st')) p (ok tt) [] (p_in p)
          (λ st' same. stays proxy p_in p_out pw (ok tt) st' (p_in p) same)))
