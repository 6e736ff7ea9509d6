-- ===== src/Socks5/Login.antt =====
-- socks5.c: client and proxy agree on who is let in.
use mathlib.Core.List.{append_assoc, append-nil}
use libdill.Base.{
  ◌+◌, ltb, ℕ, ◌%◌, ◌≤◌, Bool, true, false, ◌||◌, some, List, [], ◌∷◌, ◌++◌, length, ◌==◌, ◌≡◌,
  refl, sym, ap, ap₂, ◌∙◌, subst, arith, if◌then◌else◌, if-true, if-false, Errno, eacces, Result,
  ok, err, returns,
}
use libdill.Bsock.{Bsock}
use libdill.Http.Scan.{NoNul}
use libdill.Socks5.{
  Answer, c_string, too_long, hello, upauth, client_auth, client_method, client_login,
  client_verdict, proxy_auth, proxy_methods, proxy_choose, proxy_login, proxy_uname, proxy_passwd,
  proxy_verdict, recv_then,
}
use libdill.Socks5.Wire.{Wire, Says, end_Says, send_then-Says, recv_then-Says}

-- The status byte of a verdict, and what a call returns by it.
abbrev pub status : Bool → ℕ
status b = if b then 0 else 255

abbrev pub verdict : Errno → Bool → Result (Unit {0})
verdict e b = if b then ok tt else err e

c_string_lem : (s : List ℕ) → NoNul s → c_string s ≡ s
c_string_lem [] n = refl
c_string_lem (c ∷ cs) (p, n) =
    let not_nul : (c == 0) ≡ false = ground arith in
    if-false _ _ not_nul ∙ ap (λ l. c ∷ l) (c_string_lem cs n)

-- The steps of the client.
module _ {S : Type 0} (below : Bsock S) (incoming outgoing : S → List ℕ)
    (wire : Wire below incoming outgoing) where
  abbrev ClientSays : Answer (Unit {0}) S → S → Result (Unit {0}) → (sent rest : List ℕ) → Type 0
  ClientSays = Says incoming outgoing

  verdict_Says :
      (b : Bool) (st : S) (rest : List ℕ)
      → incoming st ≡ rest
      → ClientSays (client_verdict below (1 ∷ status b ∷ []) st) st (verdict eacces b) [] rest
  unfolding client_verdict
  verdict_Says true st rest e =
      subst (ClientSays (returns (ok tt, st)) st (ok tt) []) e
        (end_Says below incoming outgoing wire (ok tt) st)
  verdict_Says false st rest e =
      subst (ClientSays (returns (err eacces, st)) st (err eacces) []) e
        (end_Says below incoming outgoing wire (err eacces) st)

  login_Says :
      (u p : List ℕ) (b : Bool) (st : S) (rest : List ℕ)
      → length u + length p ≤ 509
      → incoming st ≡ 1 ∷ status b ∷ rest
      → ClientSays
          (client_login below (some u) (some p) st)
          st
          (verdict eacces b)
          (upauth u p ++ [])
          rest
  unfolding client_login
  login_Says u p b st rest l c =
      let fits : ltb 513 (3 + length u + length p + 1) ≡ false = ground arith in
      subst (λ call. ClientSays call st (verdict eacces b) (upauth u p ++ []) rest)
        (sym (if-false _ _ fits))
        (send_then-Says below incoming outgoing wire (upauth u p)
          (recv_then below 2 (client_verdict below)) st (verdict eacces b) [] rest
          (λ st' same.
            recv_then-Says below incoming outgoing wire (1 ∷ status b ∷ []) rest 2
              (client_verdict below) st' (verdict eacces b) [] rest (same ∙ c) refl
              (λ st'' e. verdict_Says b st'' rest e)))

  client_Says :
      (u p : List ℕ) (b : Bool) (st : S) (rest : List ℕ)
      → length u ≤ 255
      → length p ≤ 255
      → length u + length p ≤ 509
      → incoming st ≡ 5 ∷ 2 ∷ 1 ∷ status b ∷ rest
      → ClientSays
          (client_auth below (some u) (some p) st)
          st
          (verdict eacces b)
          (hello (some u) (some p) ++ (upauth u p ++ []))
          rest
  unfolding client_auth client_method
  client_Says u p b st rest lu lp l c =
      let short : (too_long (some u) || too_long (some p)) ≡ false = ground arith in
      let sent = hello (some u) (some p) in
      subst (λ call. ClientSays call st (verdict eacces b) (sent ++ (upauth u p ++ [])) rest)
        (sym (if-false _ _ short))
        (send_then-Says below incoming outgoing wire sent
          (recv_then below 2 (client_method below (some u) (some p))) st (verdict eacces b)
          (upauth u p ++ []) rest
          (λ st' same.
            recv_then-Says below incoming outgoing wire (5 ∷ 2 ∷ []) (1 ∷ status b ∷ rest) 2
              (client_method below (some u) (some p)) st' (verdict eacces b) (upauth u p ++ []) rest
              (same ∙ c) refl (λ st'' e. login_Says u p b st'' rest l e)))

-- The steps of the proxy.
module _ {S : Type 0} (below : Bsock S) (incoming outgoing : S → List ℕ)
    (wire : Wire below incoming outgoing) (errno : Errno) (auth_fn : List ℕ → List ℕ → Bool) where
  abbrev ProxySays : Answer (Unit {0}) S → S → Result (Unit {0}) → (sent rest : List ℕ) → Type 0
  ProxySays = Says incoming outgoing

  proxy_verdict_Says :
      (u p : List ℕ) (b : Bool) (st : S) (rest : List ℕ)
      → NoNul u
      → NoNul p
      → auth_fn u p ≡ b
      → incoming st ≡ rest
      → ProxySays
          (proxy_verdict below errno auth_fn u p st)
          st
          (verdict errno b)
          (1 ∷ status b ∷ [])
          rest
  unfolding proxy_verdict
  proxy_verdict_Says u p true st rest nu np a c =
      let accepted : auth_fn (c_string u) (c_string p) ≡ true =
        ap₂ auth_fn (c_string_lem u nu) (c_string_lem p np) ∙ a in
      subst (λ call. ProxySays call st (ok tt) (1 ∷ 0 ∷ []) rest) (sym (if-true _ _ accepted))
        (send_then-Says below incoming outgoing wire (1 ∷ 0 ∷ []) (λ st. returns (ok tt, st)) st
          (ok tt) [] rest
          (λ st' same.
            subst (ProxySays (returns (ok tt, st')) st' (ok tt) []) (same ∙ c)
              (end_Says below incoming outgoing wire (ok tt) st')))
  proxy_verdict_Says u p false st rest nu np a c =
      let refused : auth_fn (c_string u) (c_string p) ≡ false =
        ap₂ auth_fn (c_string_lem u nu) (c_string_lem p np) ∙ a in
      subst (λ call. ProxySays call st (err errno) (1 ∷ 255 ∷ []) rest) (sym (if-false _ _ refused))
        (send_then-Says below incoming outgoing wire (1 ∷ 255 ∷ []) (λ st. returns (err errno, st))
          st (err errno) [] rest
          (λ st' same.
            subst (ProxySays (returns (err errno, st')) st' (err errno) []) (same ∙ c)
              (end_Says below incoming outgoing wire (err errno) st')))

  proxy_passwd_Says :
      (u p : List ℕ) (b : Bool) (st : S) (rest : List ℕ)
      → NoNul u
      → NoNul p
      → auth_fn u p ≡ b
      → incoming st ≡ (length p % 256) ∷ (p ++ rest)
      → length p ≤ 255
      → ProxySays
          (recv_then below 1 (proxy_passwd below errno auth_fn u) st)
          st
          (verdict errno b)
          (1 ∷ status b ∷ [])
          rest
  unfolding proxy_passwd
  proxy_passwd_Says u p b st rest nu np a c h =
      let len = length p % 256 in
      recv_then-Says below incoming outgoing wire (len ∷ []) (p ++ rest) 1
        (proxy_passwd below errno auth_fn u) st (verdict errno b) (1 ∷ status b ∷ []) rest c refl
        (λ st' e.
          recv_then-Says below incoming outgoing wire p rest len
            (proxy_verdict below errno auth_fn u) st' (verdict errno b) (1 ∷ status b ∷ []) rest e
            (omega arith) (λ st'' e'. proxy_verdict_Says u p b st'' rest nu np a e'))

  proxy_uname_Says :
      (u p : List ℕ) (b : Bool) (st : S) (rest : List ℕ)
      → NoNul u
      → NoNul p
      → auth_fn u p ≡ b
      → incoming st ≡ upauth u p ++ rest
      → length u ≤ 255
      → length p ≤ 255
      → ProxySays
          (recv_then below 2 (proxy_uname below errno auth_fn) st)
          st
          (verdict errno b)
          (1 ∷ status b ∷ [])
          rest
  unfolding proxy_uname
  proxy_uname_Says u p b st rest nu np a c hu hp =
      let len = length u % 256 in
      let after = (length p % 256) ∷ (p ++ rest) in
      let parts : upauth u p ++ rest ≡ 1 ∷ len ∷ (u ++ after) =
        ap (λ l. 1 ∷ len ∷ l) (append_assoc u ((length p % 256) ∷ p) rest) in
      recv_then-Says below incoming outgoing wire (1 ∷ len ∷ []) (u ++ after) 2
        (proxy_uname below errno auth_fn) st (verdict errno b) (1 ∷ status b ∷ []) rest (c ∙ parts)
        refl
        (λ st' e.
          recv_then-Says below incoming outgoing wire u after len
            (λ uname. recv_then below 1 (proxy_passwd below errno auth_fn uname)) st'
            (verdict errno b) (1 ∷ status b ∷ []) rest e (omega arith)
            (λ st'' e'. proxy_passwd_Says u p b st'' rest nu np a e' hp))

  proxy_Says :
      (u p : List ℕ) (b : Bool) (st : S) (rest : List ℕ)
      → NoNul u
      → NoNul p
      → auth_fn u p ≡ b
      → incoming st ≡ hello (some u) (some p) ++ (upauth u p ++ rest)
      → length u ≤ 255
      → length p ≤ 255
      → ProxySays
          (proxy_auth below errno (some auth_fn) st)
          st
          (verdict errno b)
          (5 ∷ 2 ∷ 1 ∷ status b ∷ [])
          rest
  unfolding proxy_auth proxy_methods proxy_choose proxy_login
  proxy_Says u p b st rest nu np a c hu hp =
      let sent = 5 ∷ 2 ∷ 1 ∷ status b ∷ [] in
      recv_then-Says below incoming outgoing wire (5 ∷ 2 ∷ []) (0 ∷ 2 ∷ (upauth u p ++ rest)) 2
        (proxy_methods below errno (some auth_fn)) st (verdict errno b) sent rest c refl
        (λ st' e.
          recv_then-Says below incoming outgoing wire (0 ∷ 2 ∷ []) (upauth u p ++ rest) 2
            (proxy_choose below errno (some auth_fn)) st' (verdict errno b) sent rest e refl
            (λ st'' e'.
              send_then-Says below incoming outgoing wire (5 ∷ 2 ∷ [])
                (recv_then below 2 (proxy_uname below errno auth_fn)) st'' (verdict errno b)
                (1 ∷ status b ∷ []) rest
                (λ st3 same. proxy_uname_Says u p b st3 rest nu np a (same ∙ e') hu hp)))

-- Each side of the login receives what the other sends, and both return by the same verdict, for a user
-- name and a password of at most 255 bytes each and 509 together, without NUL.
pub client_auth-proxy_auth :
    {C P : Type 0} (client : Bsock C) (proxy : Bsock P) (c_in c_out : C → List ℕ)
    (p_in p_out : P → List ℕ) (c_wire : Wire client c_in c_out) (p_wire : Wire proxy p_in p_out)
    (errno : Errno) (auth_fn : List ℕ → List ℕ → Bool) (username password : List ℕ) (c : C) (p : P)
    (c_rest p_rest : List ℕ)
    → NoNul username
    → NoNul password
    → length username ≤ 255
    → length password ≤ 255
    → length username + length password ≤ 509
    → c_in c ≡ (5 ∷ 2 ∷ 1 ∷ status (auth_fn username password) ∷ []) ++ c_rest
    → p_in p ≡ hello (some username) (some password) ++ (upauth username password ++ p_rest)
    → Says c_in c_out
        (client_auth client (some username) (some password) c)
        c
        (verdict eacces (auth_fn username password))
        (hello (some username) (some password) ++ upauth username password)
        c_rest
      × Says p_in p_out
          (proxy_auth proxy errno (some auth_fn) p)
          p
          (verdict errno (auth_fn username password))
          (5 ∷ 2 ∷ 1 ∷ status (auth_fn username password) ∷ [])
          p_rest
client_auth-proxy_auth client proxy c_in c_out p_in p_out cw pw errno auth_fn u w c p cr pr nu np lu
      lw l ci pi =
    (
      subst
          (λ sent.
            Says c_in c_out (client_auth client (some u) (some w) c) c
              (verdict eacces (auth_fn u w)) sent cr)
          (ap (λ l. hello (some u) (some w) ++ l) (append-nil (upauth u w)))
          (client_Says client c_in c_out cw u w (auth_fn u w) c cr lu lw l ci),
      proxy_Says proxy p_in p_out pw errno auth_fn u w (auth_fn u w) p pr nu np refl pi lu lw,
    )
