-- ===== src/Socks5/Packets.antt =====
-- socks5.c: a request or a response is received as it was sent.
use libdill.Base.{
  ℕ, ◌+◌, ◌%◌, ◌≤◌, List, [], ◌∷◌, ◌++◌, length, get_or, ◌≡◌, refl, sym, ap, ap₂, ◌∙◌, subst, arith,
  Result, take-append, drop-append, length-append,
}
use libdill.Bsock.{Bsock}
use libdill.Socks5.{Answer}
use libdill.Socks5.Wire.{Wire, Says, recv_then-Says}
use libdill.Socks5.Command.{
  Packet, packet_of, port_bytes, ntohs, request, recv_address, recv_head,
  recv_command_request_response,
}

-- How an address of a type stands in a packet: a name has its length in front.
pub data Carried : (atyp : ℕ) (addr encoded : List ℕ) → Type 0 where
  as_ipv4 : {addr : List ℕ} → length addr ≡ 4 → Carried 1 addr addr
  as_ipv6 : {addr : List ℕ} → length addr ≡ 16 → Carried 4 addr addr
  as_name : {addr : List ℕ} → length addr ≤ 255 → Carried 3 addr ((length addr % 256) ∷ addr)

ntohs-port_bytes : (port : ℕ) → port ≤ 65535 → ntohs (port_bytes port) ≡ port
ntohs-port_bytes port h = omega arith

packet_lem :
    (head addr : List ℕ) (port : ℕ)
    → port ≤ 65535
    → packet_of head (addr ++ port_bytes port) (length addr)
      ≡ record { code = get_or head 1 0; atyp = get_or head 3 0; addr = addr; port = port }
packet_lem head addr port h =
    ap₂ (λ a n. record { code = get_or head 1 0; atyp = get_or head 3 0; addr = a; port = n })
      (take-append addr (port_bytes port))
      (ap ntohs (drop-append addr (port_bytes port)) ∙ ntohs-port_bytes port h)

abbrev head_of : (code atyp : ℕ) → List ℕ
head_of code atyp = 5 ∷ code ∷ 0 ∷ atyp ∷ []

module _ {S A : Type 0} (below : Bsock S) (incoming outgoing : S → List ℕ)
    (wire : Wire below incoming outgoing) (next : Packet → S → Answer A S) (r : Result A)
    (sent rest : List ℕ) (port : ℕ) (fits : port ≤ 65535) where
  -- What follows the packet.
  abbrev Continues : Packet → Type 0
  Continues p = (st : S) → incoming st ≡ rest → Says incoming outgoing (next p st) st r sent rest

  recv_address-Says :
      (head addr : List ℕ) (len : ℕ) (st : S)
      → length addr ≡ len
      → incoming st ≡ (addr ++ port_bytes port) ++ rest
      → Continues
          (record { code = get_or head 1 0; atyp = get_or head 3 0; addr = addr; port = port })
      → Says incoming outgoing (recv_address below next head len st) st r sent rest
  unfolding recv_address
  recv_address-Says head addr len st l c k =
      recv_then-Says below incoming outgoing wire (addr ++ port_bytes port) rest (len + 2)
        (λ body. next (packet_of head body len)) st r sent rest c
        (length-append addr (port_bytes port) ∙ omega arith)
        (λ st' e.
          subst (λ p. Says incoming outgoing (next p st') st' r sent rest)
            (sym (
              ap (packet_of head (addr ++ port_bytes port)) (sym l)
              ∙ packet_lem head addr port fits))
            (k st' e))

  pub packet-Says :
      (code atyp : ℕ) (addr encoded : List ℕ) (st : S)
      → Carried atyp addr encoded
      → incoming st ≡ request code atyp encoded port ++ rest
      → Continues (record { code = code; atyp = atyp; addr = addr; port = port })
      → Says incoming outgoing (recv_command_request_response below next st) st r sent rest
  unfolding recv_command_request_response recv_head
  packet-Says code atyp addr encoded st (as_ipv4 l) c k =
      recv_then-Says below incoming outgoing wire (head_of code 1)
        ((addr ++ port_bytes port) ++ rest) 4 (recv_head below next) st r sent rest c refl
        (λ st' e. recv_address-Says (head_of code 1) addr 4 st' l e k)
  packet-Says code atyp addr encoded st (as_ipv6 l) c k =
      recv_then-Says below incoming outgoing wire (head_of code 4)
        ((addr ++ port_bytes port) ++ rest) 4 (recv_head below next) st r sent rest c refl
        (λ st' e. recv_address-Says (head_of code 4) addr 16 st' l e k)
  packet-Says code atyp addr encoded st (as_name l) c k =
      let len = length addr % 256 in
      let size : length addr ≡ len = omega arith in
      recv_then-Says below incoming outgoing wire (head_of code 3)
        (((len ∷ addr) ++ port_bytes port) ++ rest) 4 (recv_head below next) st r sent rest c refl
        (λ st' e.
          recv_then-Says below incoming outgoing wire (len ∷ []) ((addr ++ port_bytes port) ++ rest)
            1 (λ n. recv_address below next (head_of code 3) (get_or n 0 0)) st' r sent rest e refl
            (λ st'' e'. recv_address-Says (head_of code 3) addr len st'' size e' k))
