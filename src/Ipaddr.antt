-- ===== src/Ipaddr.antt =====
-- ipaddr.c: the address that is made of a text and a port. `inet_pton` is a parameter, one for each family,
-- and so is the query of the DNS, which stands behind the literals and is asked for one address at most.
use libdill.Base.{
  ℕ, ◌%◌, ◌^◌, Option, none, some, List, ltb, if◌then◌else◌, einval, eaddrnotavail, Result, ok, err,
  Run, returns, fault, out_of_fuel,
}

-- An address with its bytes and port, the port in the host's byte order, or one of a family that is
-- neither IPv4 nor IPv6.
pub data IpAddr : Type 0 where
  ipv4 ipv6 : (bytes : List ℕ) (port : ℕ) → IpAddr
  other_family : IpAddr

-- DILL_IPADDR_IPV4, DILL_IPADDR_IPV6, DILL_IPADDR_PREF_IPV4 and DILL_IPADDR_PREF_IPV6.
pub data Mode : Type 0 where
  ipv4_only ipv6_only prefer_ipv4 prefer_ipv6 : Mode

-- How many addresses have been written, one or none; `fault` is an assertion that fails.
abbrev pub Answers : Type 0
Answers = Run (Result (Option IpAddr))

abbrev pub or_else : Result IpAddr → Result IpAddr → Result IpAddr
or_else (ok a) second = ok a
or_else (err e) second = second

-- The first query, and the second one where the first has found nothing.
abbrev pub and_then : Answers → Answers → Answers
and_then (returns (ok none)) second = second
and_then (returns (ok (some a))) second = returns (ok (some a))
and_then (returns (err e)) second = returns (err e)
and_then fault second = fault
and_then out_of_fuel second = out_of_fuel

-- A literal of the wrong family is no answer.
abbrev pub of_family : Mode → IpAddr → Option IpAddr
of_family ipv6_only (ipv4 bytes port) = none
of_family ipv4_only (ipv6 bytes port) = none
of_family mode a = some a

abbrev pub first_address : Answers → Run (Result IpAddr)
first_address (returns (ok (some a))) = returns (ok a)
first_address (returns (ok none)) = returns (err eaddrnotavail)
first_address (returns (err e)) = returns (err e)
first_address fault = fault
first_address out_of_fuel = out_of_fuel

module _ (inet_pton4 inet_pton6 : List ℕ → Option (List ℕ)) where
  -- `dill_ipaddr_ipv4_literal`
  unfoldable pub ipv4_literal : (name : List ℕ) (port : ℕ) → Result IpAddr
  ipv4_literal name port = elim (inet_pton4 name) [
    | none ↦ err einval
    | some bytes ↦ ok (ipv4 bytes (port % 2 ^ 16))
  ]

  -- `dill_ipaddr_ipv6_literal`
  unfoldable pub ipv6_literal : (name : List ℕ) (port : ℕ) → Result IpAddr
  ipv6_literal name port = elim (inet_pton6 name) [
    | none ↦ err einval
    | some bytes ↦ ok (ipv6 bytes (port % 2 ^ 16))
  ]

  -- `dill_ipaddr_literal`, for a port that is not negative
  unfoldable pub literal : (name : List ℕ) (port : ℕ) → Mode → Result IpAddr
  unfolding ipv4_literal ipv6_literal
  literal name port ipv4_only = if ltb 0xffff port then err einval else ipv4_literal name port
  literal name port ipv6_only = if ltb 0xffff port then err einval else ipv6_literal name port
  literal name port prefer_ipv4 =
      if ltb 0xffff port
      then err einval
      else or_else (ipv4_literal name port) (ipv6_literal name port)
  literal name port prefer_ipv6 =
      if ltb 0xffff port
      then err einval
      else or_else (ipv6_literal name port) (ipv4_literal name port)

  module _ (query : (name : List ℕ) (port : ℕ) → Mode → Result (Option IpAddr)) where
    -- The query, in front of which the port is asserted.
    unfoldable pub dns_query : (name : List ℕ) (port : ℕ) → Mode → Answers
    dns_query name port mode = if ltb 0xffff port then fault else returns (query name port mode)

    -- `dill_ipaddr_remotes` for one address, with a mode of one family
    unfoldable pub remotes_of : (name : List ℕ) (port : ℕ) → Mode → Answers
    unfolding literal dns_query
    remotes_of name port mode = elim (literal name port mode) [
      | ok a ↦ returns (ok (of_family mode a))
      | err e ↦ dns_query name port mode
    ]

    -- `dill_ipaddr_remotes` for one address; a mode that prefers a family asks for that one first.
    unfoldable pub remotes : (name : List ℕ) (port : ℕ) → Mode → Answers
    unfolding literal remotes_of
    remotes name port ipv4_only = remotes_of name port ipv4_only
    remotes name port ipv6_only = remotes_of name port ipv6_only
    remotes name port prefer_ipv4 = elim (literal name port prefer_ipv4) [
      | ok a ↦ returns (ok (some a))
      | err e ↦ and_then (remotes_of name port ipv4_only) (remotes_of name port ipv6_only)
    ]
    remotes name port prefer_ipv6 = elim (literal name port prefer_ipv6) [
      | ok a ↦ returns (ok (some a))
      | err e ↦ and_then (remotes_of name port ipv6_only) (remotes_of name port ipv4_only)
    ]

    -- `dill_ipaddr_remote`
    unfoldable pub remote : (name : List ℕ) (port : ℕ) → Mode → Run (Result IpAddr)
    unfolding remotes
    remote name port mode = first_address (remotes name port mode)
