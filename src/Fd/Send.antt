-- ===== src/Fd/Send.antt =====
-- fd.c: `dill_fd_send` sends everything, however much the kernel takes at a time.
use mathlib.Core.List.{append_assoc, append-nil}
use libdill.Base.{
  ℕ, ◌+◌, ◌-◌, ◌≤◌, ◌<◌, true, false, List, [], ◌∷◌, ◌++◌, take, drop, length, ltb, ◌==◌, ◌≡◌, ◌⊎◌,
  inl, inr, refl, sym, ap, ap₂, ◌∙◌, arith, Bool-cases, Result, ok, done, again, iterate-ends,
  Progresses, returns, length-drop, take-append-drop, drop-append_ge, drop-append_le, drop-all,
}
use libdill.Bsock.{concat}
use libdill.Fd.{
  Kernel, moved, would_block, skip_empty, sent, send_wait, send_some, send_turn, fd_send,
}

-- What fd.c relies on: `sendmsg` on a non-blocking stream socket takes at least one of the bytes, from the
-- first on, or would block, which it does only `patience` times more. `written` is what it has taken.
pub record Accepts {S : Type 0} (kernel : Kernel S) (written : S → List ℕ) (patience : S → ℕ)
    : Type 0 where
  pub takes :
      (bufs : List (List ℕ)) (st : S)
      → 0 < length (concat bufs)
      → (((kernel.sendmsg bufs st).0 ≡ would_block)
          × (written (kernel.sendmsg bufs st).1 ≡ written st)
          × (patience (kernel.sendmsg bufs st).1 < patience st))
        ⊎ ((n : ℕ) × ((kernel.sendmsg bufs st).0 ≡ moved n)
            × (0 < n)
            × (n ≤ length (concat bufs))
            × (written (kernel.sendmsg bufs st).1 ≡ written st ++ take n (concat bufs))
            × (patience (kernel.sendmsg bufs st).1 ≤ patience st))
  pub waits :
      (st : S)
      → ((kernel.fdout st).0 ≡ ok tt)
        × (written (kernel.fdout st).1 ≡ written st)
        × (patience (kernel.fdout st).1 ≤ patience st)

concat-skip_empty : (iov : List (List ℕ)) → concat (skip_empty iov) ≡ concat iov
unfolding skip_empty
concat-skip_empty [] = refl
concat-skip_empty ([] ∷ iov) = concat-skip_empty iov
concat-skip_empty ((b ∷ bs) ∷ iov) = refl

-- The first buffer that is left is not empty.
skip_empty-cases :
    (iov : List (List ℕ))
    → (skip_empty iov ≡ [])
      ⊎ ((b : ℕ) × (bs : List ℕ) × (rest : List (List ℕ)) × (skip_empty iov ≡ (b ∷ bs) ∷ rest))
unfolding skip_empty
skip_empty-cases [] = inl refl
skip_empty-cases ([] ∷ iov) = skip_empty-cases iov
skip_empty-cases ((b ∷ bs) ∷ iov) = inr (b, bs, iov, refl)

-- What the loop over the sent buffers leaves are the bytes that were not sent.
sent_none : (b : List ℕ) (iov : List (List ℕ)) → sent 0 (b ∷ iov) ≡ b ∷ iov
unfolding sent
sent_none b iov = refl

sent_part :
    (n : ℕ) (b : List ℕ) (iov : List (List ℕ))
    → 0 < n
    → n < length b
    → sent n (b ∷ iov) ≡ drop n b ∷ iov
unfolding sent
sent_part n b iov p h =
    let some_sent : (n == 0) ≡ false = ground arith in
    let less : ltb n (length b) ≡ true = ground arith in rw (some_sent, less) refl

sent_whole :
    (n : ℕ) (b : List ℕ) (iov : List (List ℕ))
    → 0 < n
    → length b ≤ n
    → sent n (b ∷ iov) ≡ sent (n - length b) iov
unfolding sent
sent_whole n b iov p h =
    let some_sent : (n == 0) ≡ false = ground arith in
    let enough : ltb n (length b) ≡ false = ground arith in rw (some_sent, enough) refl

sent_end : (n : ℕ) → concat (sent n []) ≡ []
unfolding sent
sent_end n = refl

concat-sent : (n : ℕ) (iov : List (List ℕ)) → concat (sent n iov) ≡ drop n (concat iov)
concat-sent n [] = sent_end n ∙ sym (drop-all n [] (omega arith))
concat-sent n (b ∷ iov) = elim (Bool-cases (n == 0)) [
  | inl e ↦ let none_sent : n ≡ 0 = ground arith in rw none_sent (ap concat (sent_none b iov))
  | inr e ↦ elim (Bool-cases (ltb n (length b))) [
    | inl h ↦
        ap concat (sent_part n b iov (ground arith) (ground arith))
        ∙ sym (drop-append_le n b (concat iov) (ground arith))
    | inr h ↦
        ap concat (sent_whole n b iov (ground arith) (ground arith))
        ∙ concat-sent (n - length b) iov
        ∙ sym (drop-append_ge n b (concat iov) (ground arith))
  ]
]

module _ {S : Type 0} (kernel : Kernel S) where
  open kernel use {sendmsg, fdout}

  send_wait-end : (st : S) → send_wait kernel [] st ≡ done (ok tt, st)
  unfolding send_wait
  send_wait-end st = refl

  send_wait-ok :
      (b : List ℕ) (iov : List (List ℕ)) (st : S)
      → (fdout st).0 ≡ ok tt
      → send_wait kernel (b ∷ iov) st ≡ again (b ∷ iov, (fdout st).1)
  unfolding send_wait
  send_wait-ok b iov st e = rw (send_wait, e) refl

  send_turn-end :
      (iov : List (List ℕ)) (st : S)
      → skip_empty iov ≡ []
      → send_turn kernel (iov, st) ≡ done (ok tt, st)
  unfolding send_turn send_some
  send_turn-end iov st e = ap (λ l. send_some kernel l st) e

  send_turn-would_block :
      (iov : List (List ℕ)) (b : List ℕ) (rest : List (List ℕ)) (st : S)
      → skip_empty iov ≡ b ∷ rest
      → (sendmsg (b ∷ rest) st).0 ≡ would_block
      → send_turn kernel (iov, st) ≡ send_wait kernel (b ∷ rest) (sendmsg (b ∷ rest) st).1
  unfolding send_turn send_some
  send_turn-would_block iov b rest st e m =
      ap (λ l. send_some kernel l st) e ∙ (rw (send_some, m) refl)

  send_turn-moved :
      (iov : List (List ℕ)) (b : List ℕ) (rest : List (List ℕ)) (st : S) (n : ℕ)
      → skip_empty iov ≡ b ∷ rest
      → (sendmsg (b ∷ rest) st).0 ≡ moved n
      → 0 < n
      → send_turn kernel (iov, st) ≡ send_wait kernel (sent n (b ∷ rest)) (sendmsg (b ∷ rest) st).1
  unfolding send_turn send_some
  send_turn-moved iov b rest st n e m p =
      let some_sent : (n == 0) ≡ false = ground arith in
      ap (λ l. send_some kernel l st) e ∙ (rw (send_some, m, some_sent) refl)

module _ {S : Type 0} (kernel : Kernel S) (written : S → List ℕ) (patience : S → ℕ)
    (accepts : Accepts kernel written patience) (target : List ℕ) where
  open kernel use {sendmsg, fdout}
  open accepts use {takes, waits}

  abbrev Sending : List (List ℕ) × S → Type 0
  Sending (iov, st) = written st ++ concat iov ≡ target

  abbrev AllSent : Result (Unit {0}) × S → Type 0
  AllSent (r, st) = (r ≡ ok tt) × (written st ≡ target)

  abbrev left : List (List ℕ) × S → ℕ
  left (iov, st) = length (concat iov) + patience st

  wait-Progresses :
      (x : List (List ℕ) × S) (iov : List (List ℕ)) (st : S)
      → send_turn kernel x ≡ send_wait kernel iov st
      → written st ++ concat iov ≡ target
      → left (iov, st) < left x
      → Progresses (send_turn kernel) Sending left AllSent x
  wait-Progresses x [] st e c h =
      inl ((ok tt, st), e ∙ send_wait-end kernel st, (refl, sym (append-nil (written st)) ∙ c))
  wait-Progresses x (b ∷ iov) st e c h =
      let (w, same, less) = waits st in
      inr (
        (b ∷ iov, (fdout st).1),
        e ∙ send_wait-ok kernel b iov st w,
        ap (λ l. l ++ concat (b ∷ iov)) same ∙ c,
        omega arith,
      )

  send_turn-Sending :
      (x : List (List ℕ) × S) → Sending x → Progresses (send_turn kernel) Sending left AllSent x
  send_turn-Sending (iov, st) c = elim (skip_empty-cases iov) [
    | inl e ↦
        let none_left : concat iov ≡ [] = sym (concat-skip_empty iov) ∙ ap concat e in
        inl (
          (ok tt, st),
          send_turn-end kernel iov st e,
          (refl, sym (append-nil (written st)) ∙ ap (λ l. written st ++ l) (sym none_left) ∙ c),
        )
    | inr (v, vs, rest, e) ↦
        let bufs = (v ∷ vs) ∷ rest in
        let all : concat bufs ≡ concat iov = sym (ap concat e) ∙ concat-skip_empty iov in
        let after = (sendmsg bufs st).1 in
        elim (takes bufs st (omega arith)) [
          | inl (m, same, less) ↦
              wait-Progresses (iov, st) bufs after
                (send_turn-would_block kernel iov (v ∷ vs) rest st e m)
                (ap₂ (λ l k. l ++ k) same all ∙ c) (omega (arith, ap length all))
          | inr (n, m, some_sent, fits, now, less) ↦
              let later = concat-sent n bufs in
              wait-Progresses (iov, st) (sent n bufs) after
                (send_turn-moved kernel iov (v ∷ vs) rest st n e m some_sent)
                (ap₂ (λ l k. l ++ k) now later
                  ∙ append_assoc (written st) (take n (concat bufs)) (drop n (concat bufs))
                  ∙ ap (λ l. written st ++ l) (take-append-drop n (concat bufs) ∙ all)
                  ∙ c)
                (omega (arith, ap length all, ap length later, length-drop n (concat bufs)))
        ]
  ]

-- `dill_fd_send` succeeds, and the kernel has taken the bytes of all buffers in their order.
pub fd_send_lem :
    {S : Type 0} (kernel : Kernel S) (written : S → List ℕ) (patience : S → ℕ)
    → Accepts kernel written patience
    → (fuel : ℕ) (bufs : List (List ℕ)) (st : S) → length (concat bufs) + patience st < fuel
    → (st' : S) × (fd_send kernel fuel bufs st ≡ returns (ok tt, st'))
      × (written st' ≡ written st ++ concat bufs)
unfolding fd_send
fd_send_lem kernel written patience a fuel bufs st h =
    let target = written st ++ concat bufs in
    let ((r, st'), e, (x, w)) =
      iterate-ends (send_turn kernel) (Sending kernel written patience a target)
        (left kernel written patience a target) (AllSent kernel written patience a target)
        (send_turn-Sending kernel written patience a target) fuel (bufs, st) refl h in
    (st', e ∙ ap (λ y. returns (y, st')) x, w)
