-- ===== src/Socks5.antt =====
-- socks5.c: SOCKS5 over a bytestream, which is a parameter; that the handle is one is not tested again.
-- Strings are the lists of their bytes. `errno` is what it was before the call: some paths return -1 without
-- setting it.
pub mod Wire
pub mod Command
pub mod Remote
pub mod Login
pub mod Packets
pub mod Connect
pub mod Address
pub mod Tests
use libdill.Base.{
  ℕ, ◌+◌, ◌%◌, ◌^◌, Bool, true, false, ◌&&◌, ◌||◌, not, Option, none, some, List, [], ◌∷◌, ◌++◌,
  length, get_or, ltb, ◌==◌, if◌then◌else◌, Errno, einval, eproto, eacces, Result, ok, err, Run,
  returns, fault,
}
use libdill.Bsock.{Bsock}

-- What a call returns and leaves of the socket; a failed assertion or a write outside an array is
-- `fault`.
abbrev pub Answer : Type 0 → Type 0 → Type 0
Answer A S = Run (Result A × S)

module _ {S A : Type 0} (below : Bsock S) where
  open below use {bsendl, brecvl}

  -- `dill_bsend` and `dill_brecv`, whose failure is returned, and what follows.
  unfoldable pub send_then : List ℕ → (S → Answer A S) → S → Answer A S
  send_then bytes next st =
      let (r, st') = bsendl (bytes ∷ []) st in
      elim r [ err e ↦ returns (err e, st') | ok _ ↦ next st' ]

  unfoldable pub recv_then : ℕ → (List ℕ → S → Answer A S) → S → Answer A S
  recv_then len next st =
      let (r, st') = brecvl (len ∷ []) st in
      elim r [ err e ↦ returns (err e, st') | ok bytes ↦ next bytes st' ]

-- What a C string says: the bytes up to the first NUL.
abbrev pub c_string : List ℕ → List ℕ
c_string [] = []
c_string (c ∷ cs) = if c == 0 then [] else c ∷ c_string cs

abbrev pub contains : ℕ → List ℕ → Bool
contains m [] = false
contains m (x ∷ xs) = x == m || contains m xs

-- A string that is too long; NULL is none.
abbrev pub too_long : Option (List ℕ) → Bool
too_long none = false
too_long (some s) = ltb 255 (length s)

-- The version identifier and method selection.
abbrev pub hello : Option (List ℕ) → Option (List ℕ) → List ℕ
hello (some u) (some p) = 5 ∷ 2 ∷ 0 ∷ 2 ∷ []
hello u p = 5 ∷ 1 ∷ 0 ∷ []

-- The bytes of `upauth`, of the length `3 + ulen + plen`; `client_login` tests that the array holds
-- them.
abbrev pub upauth : List ℕ → List ℕ → List ℕ
upauth u p = 1 ∷ (length u % 256) ∷ (u ++ (length p % 256) ∷ p)

module _ {S : Type 0} (below : Bsock S) where
  abbrev fails : Errno → S → Answer (Unit {0}) S
  fails e st = returns (err e, st)

  abbrev succeeds : S → Answer (Unit {0}) S
  succeeds st = returns (ok tt, st)

  -- The answer to `upauth`.
  unfoldable pub client_verdict : List ℕ → S → Answer (Unit {0}) S
  client_verdict r st =
      if not (get_or r 0 0 == 1)
      then fails eproto st
      else if not (get_or r 1 0 == 0)
      then fails eacces st
      else succeeds st

  -- `upauth` is an array of 513 bytes, and `strcpy` writes a NUL behind the password too.
  unfoldable pub client_login : Option (List ℕ) → Option (List ℕ) → S → Answer (Unit {0}) S
  client_login (some u) (some p) st =
      if ltb 513 (3 + length u + length p + 1)
      then fault
      else send_then below (upauth u p) (recv_then below 2 client_verdict) st
  client_login u p st = fault

  -- The method that the proxy chose.
  unfoldable pub client_method :
      Option (List ℕ) → Option (List ℕ) → List ℕ → S → Answer (Unit {0}) S
  client_method u p vimr st =
      if not (get_or vimr 0 0 == 5)
      then fails eproto st
      else if get_or vimr 1 0 == 0
      then succeeds st
      else if get_or vimr 1 0 == 2
      then client_login u p st
      else if get_or vimr 1 0 == 255
      then fails eacces st
      else fault

  unfoldable pub client_auth : Option (List ℕ) → Option (List ℕ) → S → Answer (Unit {0}) S
  client_auth u p st =
      if too_long u || too_long p
      then fails einval st
      else send_then below (hello u p) (recv_then below 2 (client_method u p)) st

  -- The proxy. `auth_fn` is the callback, which may be NULL.
  module _ (errno : Errno) where
    abbrev reply : (first second : ℕ) → (S → Answer (Unit {0}) S) → S → Answer (Unit {0}) S
    reply a b next st = send_then below (a ∷ b ∷ []) next st

    -- The password has come.
    unfoldable pub proxy_verdict :
        (List ℕ → List ℕ → Bool) → (uname passwd : List ℕ) → S → Answer (Unit {0}) S
    proxy_verdict auth_fn uname passwd st =
        if auth_fn (c_string uname) (c_string passwd)
        then reply 1 0 succeeds st
        else reply 1 255 (fails errno) st

    unfoldable pub proxy_passwd :
        (List ℕ → List ℕ → Bool) → (uname plen : List ℕ) → S → Answer (Unit {0}) S
    proxy_passwd auth_fn uname plen st =
        recv_then below (get_or plen 0 0) (proxy_verdict auth_fn uname) st

    unfoldable pub proxy_uname :
        (List ℕ → List ℕ → Bool) → (authr : List ℕ) → S → Answer (Unit {0}) S
    proxy_uname auth_fn authr st =
        if not (get_or authr 0 0 == 1)
        then fails eproto st
        else recv_then below (get_or authr 1 0)
            (λ uname. recv_then below 1 (proxy_passwd auth_fn uname)) st

    unfoldable pub proxy_login : (List ℕ → List ℕ → Bool) → S → Answer (Unit {0}) S
    proxy_login auth_fn st = reply 5 2 (recv_then below 2 (proxy_uname auth_fn)) st

    -- The choice of a method of those that the client offers.
    unfoldable pub proxy_choose :
        Option (List ℕ → List ℕ → Bool) → (methods : List ℕ) → S → Answer (Unit {0}) S
    proxy_choose none methods st =
        if contains 0 methods then reply 5 0 succeeds st else reply 5 255 (fails errno) st
    proxy_choose (some auth_fn) methods st =
        if contains 2 methods then proxy_login auth_fn st else reply 5 255 (fails errno) st

    unfoldable pub proxy_methods :
        Option (List ℕ → List ℕ → Bool) → (vims : List ℕ) → S → Answer (Unit {0}) S
    proxy_methods auth_fn vims st =
        if not (get_or vims 0 0 == 5)
        then fails eproto st
        else recv_then below (get_or vims 1 0) (proxy_choose auth_fn) st

    unfoldable pub proxy_auth : Option (List ℕ → List ℕ → Bool) → S → Answer (Unit {0}) S
    proxy_auth auth_fn st = recv_then below 2 (proxy_methods auth_fn) st
