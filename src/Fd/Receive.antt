-- ===== src/Fd/Receive.antt =====
-- fd.c: `dill_fd_recv` delivers the stream, however the kernel cuts it.
use libdill.Base.{
  ℕ, ◌+◌, ◌%◌, ◌^◌, ◌≤◌, ◌<◌, Bool, true, false, not, ◌||◌, List, [], ◌∷◌, ◌++◌, drop, length, ltb,
  ◌≡◌, inl, inr, refl, sym, ap, ◌∙◌, arith, Bool-cases, Result, ok, Run, returns, iterate,
  length-drop, append-split, length_zero, if-true, if-false,
}
use mathlib.Core.List.{append_assoc}
use libdill.Iol.{Memory}
use libdill.Fd.{Kernel, Iov, miss, scatter, recv_large}
use libdill.Fd.Buffer.{Rx, Rxbuf, copy_all, recv_missing, recv_copied, fd_recv, refill_turn}
use libdill.Fd.Scatter.{scatter_end}
use libdill.Fd.Stream.{Delivers}
use libdill.Fd.Copy.{Sound, pending}
use libdill.Fd.CopyAll.{Copied, copy_all_lem}
use libdill.Fd.Large.{recv_large_lem}
use libdill.Fd.Refill.{refill_lem}

-- What has been received and not delivered; nothing if there is no buffer.
abbrev pub held : Bool → Rxbuf → List ℕ
held true r = pending r
held false r = []

-- The receive has returned: `bytes` are in the buffers `iov`, the rest is still to be delivered.
abbrev pub Delivered :
    {S : Type 0}
    → (S → List ℕ)
    → (S → ℕ)
    → Bool
    → List Iov
    → Rx
    → S
    → (bytes rest : List ℕ) → Run (Result (Unit {0}) × Rx × S)
    → Type 0
Delivered {S} content patience buffered iov r st bytes rest run =
    (r' : Rx) × (st' : S) × (run ≡ returns (ok tt, r', st'))
    × (r'.mem ≡ scatter iov bytes r.mem)
    × Sound r'.rxbuf
    × (held buffered r'.rxbuf ++ content st' ≡ rest)
    × (patience st' ≤ patience st)

module _ {S : Type 0} (kernel : Kernel S) (content : S → List ℕ) (patience : S → ℕ)
    (delivers : Delivers kernel content patience) where
  recv_missing-large :
      (fuel : ℕ) (buffered : Bool) (iov : List Iov) (r : Rx) (m : Memory) (st st' : S)
      → (not buffered || ltb 1984 (miss iov % 2 ^ 64)) ≡ true
      → recv_large kernel fuel [] iov r.mem st ≡ returns (ok tt, m, st')
      → recv_missing kernel fuel buffered iov r st ≡ returns (ok tt, record r { mem = m }, st')
  unfolding recv_missing
  recv_missing-large fuel buffered iov r m st st' b e = if-true _ _ b ∙ (rw e refl)

  recv_missing-small :
      (fuel : ℕ) (buffered : Bool) (iov : List Iov) (r : Rx) (st : S)
      → (not buffered || ltb 1984 (miss iov % 2 ^ 64)) ≡ false
      → recv_missing kernel fuel buffered iov r st ≡ iterate (refill_turn kernel) fuel (iov, r, st)
  unfolding recv_missing
  recv_missing-small fuel buffered iov r st b = if-false _ _ b

  empty_held : (buffered : Bool) (r : Rxbuf) → pending r ≡ [] → held buffered r ≡ []
  empty_held true r e = e
  empty_held false r e = refl

  small_buffered : (buffered : Bool) (x : Bool) → (not buffered || x) ≡ false → buffered ≡ true
  small_buffered true x e = refl
  small_buffered false x e = absurd (ground arith)

  recv_missing_lem :
      (fuel : ℕ) (buffered : Bool) (iov : List Iov) (r : Rx) (st : S) (bytes rest : List ℕ)
      → Sound r.rxbuf
      → held buffered r.rxbuf ≡ []
      → content st ≡ bytes ++ rest
      → length bytes ≡ miss iov
      → (buffered ≡ true → 0 < miss iov)
      → miss iov + patience st < fuel
      → Delivered content patience buffered iov r st bytes rest
          (recv_missing kernel fuel buffered iov r st)
  recv_missing_lem fuel buffered iov r st bytes rest s h c l n f =
      elim (Bool-cases (not buffered || ltb 1984 (miss iov % 2 ^ 64))) [
        | inl b ↦
            let (st', e, c', p) =
              recv_large_lem kernel content patience delivers fuel [] iov r.mem st bytes rest tt
                (inl refl) c (omega arith) (omega arith) in
            let m = scatter iov bytes r.mem in
            (
              record r { mem = m },
              st',
              recv_missing-large fuel buffered iov r m st st' b e,
              refl,
              s,
              ap (λ x. x ++ content st') h ∙ c',
              p,
            )
        | inr b ↦
            let on : buffered ≡ true = small_buffered buffered (ltb 1984 (miss iov % 2 ^ 64)) b in
            let (r', st', e, t, s', k, p) =
              refill_lem kernel content patience delivers fuel iov r st bytes rest c l (n on) f in
            (
              r',
              st',
              recv_missing-small fuel buffered iov r st b ∙ e,
              t,
              s',
              ap (λ x. held x r'.rxbuf ++ content st') on ∙ k,
              p,
            )
      ]

  recv_copied-done :
      (fuel : ℕ) (r : Rx) (st : S) → recv_copied kernel fuel st ([], r) ≡ returns (ok tt, r, st)
  unfolding recv_copied
  recv_copied-done fuel r st = refl

  recv_copied-missing :
      (fuel : ℕ) (iov : List Iov) (r : Rx) (st : S)
      → 0 < miss iov
      → recv_copied kernel fuel st (iov, r) ≡ recv_missing kernel fuel true iov r st
  unfolding recv_copied
  recv_copied-missing fuel [] r st h = absurd (omega arith)
  recv_copied-missing fuel (b ∷ iov) r st h = refl

  recv_copied_lem :
      (fuel : ℕ) (iov : List Iov) (r : Rx) (st : S) (bytes rest : List ℕ) (iov' : List Iov)
      (r' : Rx)
      → Copied iov r (iov', r')
      → pending r.rxbuf ++ content st ≡ bytes ++ rest
      → length bytes ≡ miss iov
      → miss iov + patience st < fuel
      → Delivered content patience true iov r st bytes rest (recv_copied kernel fuel st (iov', r'))
  recv_copied_lem fuel iov r st bytes rest iov' r' (us, split, n, f, s', o) c l h =
      let later = drop (length us) bytes in
      let (whole, after) =
        append-split us (pending r'.rxbuf ++ content st) bytes rest
          (sym (append_assoc us (pending r'.rxbuf) (content st))
            ∙ sym (ap (λ x. x ++ content st) split)
            ∙ c)
          (omega arith) in
      let size : length later ≡ miss iov' = length-drop (length us) bytes ∙ omega arith in
      let same : scatter iov' later r'.mem ≡ scatter iov bytes r.mem =
        f later ∙ ap (λ x. scatter iov x r.mem) (sym whole) in
      elim o [
        | inl e ↦
            let none_left : later ≡ [] = length_zero later (size ∙ ap miss e) in
            (
              r',
              st,
              ap (λ x. recv_copied kernel fuel st (x, r')) e ∙ recv_copied-done fuel r' st,
              sym (scatter_end later r'.mem) ∙ ap (λ x. scatter x later r'.mem) (sym e) ∙ same,
              s',
              after ∙ ap (λ x. x ++ rest) none_left,
              omega arith,
            )
        | inr (e, some_room) ↦
            let (r'', st', q, t, s'', k, p) =
              recv_missing_lem fuel true iov' r' st later rest s' e
                (sym (ap (λ x. x ++ content st) e) ∙ after) size (λ _. some_room) (omega arith) in
            (r'', st', recv_copied-missing fuel iov' r' st some_room ∙ q, t ∙ same, s'', k, p)
      ]

-- `dill_fd_recv` fills the buffers with the next bytes and keeps what it has received beyond them.
pub fd_recv-Delivered :
    {S : Type 0} (kernel : Kernel S) (content : S → List ℕ) (patience : S → ℕ)
    → Delivers kernel content patience
    → (fuel : ℕ) (buffered : Bool) (b : Iov) (iov : List Iov) (r : Rx) (st : S)
      (bytes rest : List ℕ)
    → Sound r.rxbuf
    → held buffered r.rxbuf ++ content st ≡ bytes ++ rest
    → length bytes ≡ miss (b ∷ iov)
    → miss (b ∷ iov) + patience st < fuel
    → Delivered content patience buffered
        (b ∷ iov)
        r
        st
        bytes
        rest
        (fd_recv kernel fuel buffered (b ∷ iov) r st)
unfolding fd_recv
fd_recv-Delivered kernel content patience d fuel true b iov r st bytes rest s c l h =
    recv_copied_lem kernel content patience d fuel (b ∷ iov) r st bytes rest
      (copy_all (b ∷ iov) r).0 (copy_all (b ∷ iov) r).1 (copy_all_lem (b ∷ iov) r s) c l h
fd_recv-Delivered kernel content patience d fuel false b iov r st bytes rest s c l h =
    recv_missing_lem kernel content patience d fuel false (b ∷ iov) r st bytes rest s refl c l
      (λ e. absurd (ground arith)) h
