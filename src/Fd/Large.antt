-- ===== src/Fd/Large.antt =====
-- fd.c: the receive that fills the caller's buffers directly.
use mathlib.Core.List.{append_assoc}
use libdill.Base.{
  ℕ, ◌+◌, ◌≤◌, ◌<◌, true, false, some, List, [], ◌∷◌, ◌++◌, take, drop, length, ◌==◌, ◌≡◌, ◌⊎◌, inl,
  inr, refl, sym, ap, subst, ◌∙◌, arith, Bool-cases, Result, ok, Run, returns, All-append,
  length-take, length-drop, take-append-drop,
}
use libdill.Iol.{Memory}
use libdill.Fd.{
  Kernel, Iov, miss, scatter, recv_direct, fd_skip, recv_large, skip_then, recv_then, ends_run,
  is_null,
}
use libdill.Fd.Scatter.{
  scatter-append, miss-append, Nonzero, scatter_end, scatter_zero, scatter_null,
}
use libdill.Fd.Stream.{Delivers}
use libdill.Fd.Direct.{recv_direct_lem, fd_skip_lem}

-- A turn by what the buffer at `it` is.
module _ {S : Type 0} (kernel : Kernel S) (fuel : ℕ) where
  recv_large-nothing :
      (b : Iov) (iov : List Iov) (m : Memory) (st : S)
      → b.len ≡ 0
      → recv_large kernel fuel [] (b ∷ iov) m st ≡ recv_large kernel fuel [] iov m st
  unfolding recv_large
  recv_large-nothing b iov m st e =
      let nothing : (b.len == 0) ≡ true = ground arith in simp (nothing)

  recv_large-skip :
      (b : Iov) (iov : List Iov) (m : Memory) (st st' : S)
      → 0 < b.len
      → is_null b.base ≡ true
      → fd_skip kernel fuel fuel (some b.len) m st ≡ returns (ok tt, st')
      → recv_large kernel fuel [] (b ∷ iov) m st ≡ recv_large kernel fuel [] iov m st'
  unfolding recv_large skip_then
  recv_large-skip b iov m st st' p n e =
      let something : (b.len == 0) ≡ false = ground arith in simp (something, n, e)

  recv_large-recv :
      (begin : List Iov) (b : Iov) (iov : List Iov) (m m' : Memory) (st st' : S)
      → 0 < b.len
      → is_null b.base ≡ false
      → ends_run iov ≡ true
      → recv_direct kernel fuel (begin ++ b ∷ []) m st ≡ returns (ok tt, m', st')
      → recv_large kernel fuel begin (b ∷ iov) m st ≡ recv_large kernel fuel [] iov m' st'
  unfolding recv_large recv_then
  recv_large-recv begin b iov m m' st st' p n r e =
      let something : (b.len == 0) ≡ false = ground arith in simp (something, n, r, e)

  recv_large-longer :
      (begin : List Iov) (b : Iov) (iov : List Iov) (m : Memory) (st : S)
      → 0 < b.len
      → is_null b.base ≡ false
      → ends_run iov ≡ false
      → recv_large kernel fuel begin (b ∷ iov) m st
        ≡ recv_large kernel fuel (begin ++ b ∷ []) iov m st
  unfolding recv_large
  recv_large-longer begin b iov m st p n r =
      let something : (b.len == 0) ≡ false = ground arith in simp (something, n, r)

recv_large-end :
    {S : Type 0} (kernel : Kernel S) (fuel : ℕ) (m : Memory) (st : S)
    → recv_large kernel fuel [] [] m st ≡ returns (ok tt, m, st)
unfolding recv_large
recv_large-end kernel fuel m st = refl

-- The loop never goes past a buffer when the next one is empty or at NULL.
not_started :
    (begin : List Iov) (b : Iov) (iov : List Iov)
    → ((b.len == 0) ≡ true) ⊎ (is_null b.base ≡ true)
    → (begin ≡ []) ⊎ (ends_run (b ∷ iov) ≡ false)
    → begin ≡ []
not_started begin b iov e (inl s) = s
not_started begin b iov (inl e) (inr s) = absurd (ground arith)
not_started begin b iov (inr e) (inr s) = absurd (ground arith)

-- How far a receive has come: it returns with all buffers filled and `rest` behind them.
abbrev pub Fills :
    {S : Type 0}
    → (S → List ℕ)
    → (S → ℕ)
    → Run (Result (Unit {0}) × Memory × S)
    → Memory
    → List ℕ
    → ℕ
    → Type 0
Fills {S} content patience run m rest most =
    (st : S) × (run ≡ returns (ok tt, m, st)) × (content st ≡ rest) × (patience st ≤ most)

module _ {S : Type 0} (kernel : Kernel S) (content : S → List ℕ) (patience : S → ℕ)
    (delivers : Delivers kernel content patience) (fuel : ℕ) where
  -- What a call on the list `begin ++ iov` does.
  abbrev FillsAll : (begin iov : List Iov) → Memory → S → (bytes rest : List ℕ) → Type 0
  FillsAll begin iov m st bytes rest =
      Fills content patience (recv_large kernel fuel begin iov m st)
        (scatter (begin ++ iov) bytes m) rest (patience st)

  -- Buffers up to `it` and not further, when there is one that the loop has gone past.
  abbrev Started : (begin iov : List Iov) → Type 0
  Started begin iov = (begin ≡ []) ⊎ (ends_run iov ≡ false)

  -- The list behind the one that is received now.
  then_Fills :
      (begin iov all : List Iov) (m m' : Memory) (st st' : S) (bytes later rest : List ℕ)
      → recv_large kernel fuel begin all m st ≡ recv_large kernel fuel [] iov m' st'
      → scatter (begin ++ all) bytes m ≡ scatter iov later m'
      → patience st' ≤ patience st
      → FillsAll [] iov m' st' later rest
      → FillsAll begin all m st bytes rest
  then_Fills begin iov all m m' st st' bytes later rest e t p (st'', e', c, p') =
      (st'', rw (e, t) e', c, omega arith)

  -- What the list `iov` does when nothing is held back.
  abbrev Later : List Iov → Type 0
  Later iov =
      (m : Memory) (st : S) (bytes rest : List ℕ)
      → content st ≡ bytes ++ rest
      → length bytes ≡ miss iov
      → miss iov + patience st < fuel
      → FillsAll [] iov m st bytes rest

  cut :
      (k : ℕ) (st : S) (bytes rest : List ℕ)
      → content st ≡ bytes ++ rest
      → content st ≡ take k bytes ++ (drop k bytes ++ rest)
  cut k st bytes rest c =
      c
      ∙ ap (λ l. l ++ rest) (sym (take-append-drop k bytes))
      ∙ append_assoc (take k bytes) (drop k bytes) rest

  nothing_Fills :
      (b : Iov) (iov : List Iov) (m : Memory) (st : S) (bytes rest : List ℕ)
      → b.len ≡ 0
      → FillsAll [] iov m st bytes rest
      → FillsAll [] (b ∷ iov) m st bytes rest
  nothing_Fills b iov m st bytes rest e later =
      then_Fills [] iov (b ∷ iov) m m st st bytes bytes rest
        (recv_large-nothing kernel fuel b iov m st e) (scatter_zero b iov bytes m e) (omega arith)
        later

  skip_Fills :
      (b : Iov) (iov : List Iov) (m : Memory) (st : S) (bytes rest : List ℕ)
      → 0 < b.len
      → is_null b.base ≡ true
      → Later iov
      → content st ≡ bytes ++ rest
      → length bytes ≡ b.len + miss iov
      → b.len + miss iov + patience st < fuel
      → FillsAll [] (b ∷ iov) m st bytes rest
  skip_Fills b iov m st bytes rest something n later c l f =
      let (st', e, c', p) =
        fd_skip_lem kernel content patience delivers fuel fuel b.len m st (take b.len bytes)
          (drop b.len bytes ++ rest) (cut b.len st bytes rest c)
          (omega (arith, length-take b.len bytes)) (omega arith) (omega arith) in
      then_Fills [] iov (b ∷ iov) m m st st' bytes (drop b.len bytes) rest
        (recv_large-skip kernel fuel b iov m st st' something n e) (scatter_null b iov bytes m n) p
        (later m st' (drop b.len bytes) rest c' (omega (arith, length-drop b.len bytes))
          (omega arith))

  recv_Fills :
      (begin : List Iov) (b : Iov) (iov : List Iov) (m : Memory) (st : S) (bytes rest : List ℕ)
      → 0 < b.len
      → is_null b.base ≡ false
      → ends_run iov ≡ true
      → Nonzero (begin ++ b ∷ [])
      → Later iov
      → content st ≡ bytes ++ rest
      → length bytes ≡ miss (begin ++ b ∷ []) + miss iov
      → miss (begin ++ b ∷ []) + miss iov + patience st < fuel
      → FillsAll begin (b ∷ iov) m st bytes rest
  recv_Fills begin b iov m st bytes rest something n r z later c l f =
      let now = begin ++ b ∷ [] in
      let k = miss now in
      let m' = scatter now (take k bytes) m in
      let long = miss-append begin (b ∷ []) in
      let taken : length (take k bytes) ≡ k = omega (arith, length-take k bytes) in
      let (st', e, c', p) =
        recv_direct_lem kernel content patience delivers fuel now m st (take k bytes)
          (drop k bytes ++ rest) z (omega arith) (cut k st bytes rest c) taken (omega arith) in
      then_Fills begin iov (b ∷ iov) m m' st st' bytes (drop k bytes) rest
        (recv_large-recv kernel fuel begin b iov m m' st st' something n r e)
        (ap (λ l. scatter l bytes m) (sym (append_assoc begin (b ∷ []) iov))
          ∙ ap (λ l. scatter (now ++ iov) l m) (sym (take-append-drop k bytes))
          ∙ scatter-append now iov (take k bytes) (drop k bytes) m taken)
        p (later m' st' (drop k bytes) rest c' (omega (arith, length-drop k bytes)) (omega arith))

  longer_Fills :
      (begin : List Iov) (b : Iov) (iov : List Iov) (m : Memory) (st : S) (bytes rest : List ℕ)
      → 0 < b.len
      → is_null b.base ≡ false
      → ends_run iov ≡ false
      → FillsAll (begin ++ b ∷ []) iov m st bytes rest
      → FillsAll begin (b ∷ iov) m st bytes rest
  longer_Fills begin b iov m st bytes rest something n r (st', e, c, p) = (
    st',
    rw
        (
          recv_large-longer kernel fuel begin b iov m st something n r,
          sym (append_assoc begin (b ∷ []) iov),
        )
        e,
    c,
    p,
  )

  pub recv_large_lem :
      (begin iov : List Iov) (m : Memory) (st : S) (bytes rest : List ℕ)
      → Nonzero begin
      → Started begin iov
      → content st ≡ bytes ++ rest
      → length bytes ≡ miss begin + miss iov
      → miss begin + miss iov + patience st < fuel
      → FillsAll begin iov m st bytes rest
  recv_large_lem begin [] m st bytes rest z (inr s) c l f = absurd (ground arith)
  recv_large_lem begin [] m st [] rest z (inl s) c l f =
      subst (λ g. FillsAll g [] m st [] rest) (sym s)
        (st, rw (scatter_end [] m) (recv_large-end kernel fuel m st), c, omega arith)
  recv_large_lem begin [] m st (v ∷ vs) rest z (inl s) c l f = absurd (omega (arith, ap miss s))
  recv_large_lem begin (b ∷ iov) m st bytes rest z s c l f =
      let later : Later iov = λ m st bytes rest c l f.
        recv_large_lem [] iov m st bytes rest tt (inl refl) c (omega arith) (omega arith) in
      let long = miss-append begin (b ∷ []) in
      elim (Bool-cases (b.len == 0)) [
        | inl e ↦
            let none_yet : begin ≡ [] = not_started begin b iov (inl e) s in
            let empty : miss begin ≡ 0 = ap miss none_yet in
            subst (λ g. FillsAll g (b ∷ iov) m st bytes rest) (sym none_yet)
              (nothing_Fills b iov m st bytes rest (ground arith)
                (later m st bytes rest c (ground arith) (ground arith)))
        | inr e ↦
            let something : 0 < b.len = ground arith in
            let z' = All-append (λ x. 0 < x.len) begin (b ∷ []) z (something, tt) in
            elim (Bool-cases (is_null b.base)) [
              | inl n ↦
                  let none_yet : begin ≡ [] = not_started begin b iov (inr n) s in
                  let empty : miss begin ≡ 0 = ap miss none_yet in
                  subst (λ g. FillsAll g (b ∷ iov) m st bytes rest) (sym none_yet)
                    (skip_Fills b iov m st bytes rest something n later c (omega arith)
                      (omega arith))
              | inr n ↦ elim (Bool-cases (ends_run iov)) [
                | inl r ↦
                    recv_Fills begin b iov m st bytes rest something n r z' later c (omega arith)
                      (omega arith)
                | inr r ↦ longer_Fills begin b iov m st bytes rest something n r (
                    recv_large_lem (begin ++ b ∷ []) iov m st bytes rest z' (inr r) c (omega arith)
                      (omega arith))
              ]
            ]
      ]
