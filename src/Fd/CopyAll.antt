-- ===== src/Fd/CopyAll.antt =====
-- fd.c: the loops that copy from the buffer of a descriptor to the caller's buffers.
use mathlib.Core.List.{append_assoc, append-nil}
use libdill.Base.{
  ℕ, ◌+◌, ◌-◌, ◌≤◌, ◌<◌, true, false, List, [], ◌∷◌, ◌++◌, take, length, ltb, ◌==◌, ◌≡◌, ◌⊎◌, inl,
  inr, refl, sym, ap, subst, length_zero, length-append, ◌∙◌, arith, Bool-cases, length-take,
  if-true, if-false,
}
use libdill.Iol.{copy_to}
use libdill.Fd.{Iov, miss, scatter, behind}
use libdill.Fd.Buffer.{Rx, Rxbuf, fd_copy, copy_all, from_pos}
use libdill.Fd.Scatter.{
  scatter-behind, scatter-append, scatter_short, scatter_zero, scatter_end, copy_to-nothing,
}
use libdill.Fd.Copy.{
  Sound, pending, init-Sound, fd_copy_nothing, fd_copy_all, fd_copy_some, run_out, move_on,
  move_on-Sound, pending-move_on,
}

-- What the copies leave: the bytes `us` are copied, and either nothing is left to fill or nothing pending.
abbrev pub Copied : List Iov → Rx → List Iov × Rx → Type 0
Copied iov r (iov', r') =
    (us : List ℕ) × (pending r.rxbuf ≡ us ++ pending r'.rxbuf)
    × (miss iov ≡ length us + miss iov')
    × ((ys : List ℕ) → scatter iov' ys r'.mem ≡ scatter iov (us ++ ys) r.mem)
    × Sound r'.rxbuf
    × ((iov' ≡ []) ⊎ ((pending r'.rxbuf ≡ []) × (0 < miss iov')))

copy_all-stop :
    (b : Iov) (iov : List Iov) (r r' : Rx) (n : ℕ)
    → fd_copy b r ≡ (n, r')
    → n < b.len
    → copy_all (b ∷ iov) r ≡ (behind n b ∷ iov, r')
unfolding copy_all
copy_all-stop b iov r r' n e h =
    let less : ltb n b.len ≡ true = ground arith in rw (copy_all, e) (if-true _ _ less)

copy_all-on :
    (b : Iov) (iov : List Iov) (r r' : Rx) (n : ℕ)
    → fd_copy b r ≡ (n, r')
    → b.len ≤ n
    → copy_all (b ∷ iov) r ≡ copy_all iov r'
unfolding copy_all
copy_all-on b iov r r' n e h =
    let enough : ltb n b.len ≡ false = ground arith in rw (copy_all, e) (if-false _ _ enough)

copy_all-end : (r : Rx) → copy_all [] r ≡ ([], r)
unfolding copy_all
copy_all-end r = refl

taken_length :
    (n : ℕ) (r : Rxbuf) → Sound r → n ≤ length (pending r) → length (take n (from_pos r)) ≡ n
taken_length n r s h =
    omega (arith, length-take n (from_pos r), length-take (r.len - r.pos) (from_pos r))

copy_some_Copied :
    (b : Iov) (iov : List Iov) (r : Rx) (w : List ℕ)
    → Sound r.rxbuf
    → w ≡ take b.len (from_pos r.rxbuf)
    → length w ≡ b.len
    → b.len ≤ length (pending r.rxbuf)
    → Copied iov (move_on b r) (copy_all iov (move_on b r))
    → Copied (b ∷ iov) r (copy_all iov (move_on b r))
copy_some_Copied b iov r w s e l h (us, p, n, f, s', c) = (
  w ++ us,
  pending-move_on b.len r.rxbuf s h
      ∙ ap (λ x. x ++ pending (move_on b r).rxbuf) (sym e)
      ∙ ap (λ x. w ++ x) p
      ∙ sym (append_assoc w us (pending (copy_all iov (move_on b r)).1.rxbuf)),
  omega (arith, n, l, length-append w us),
  λ ys.
      f ys
      ∙ ap (scatter iov (us ++ ys))
          (ap (copy_to r.mem b.base) (sym e) ∙ sym (scatter_short b [] w r.mem (omega arith)))
      ∙ sym (scatter-append (b ∷ []) iov w (us ++ ys) r.mem (omega arith))
      ∙ ap (λ x. scatter (b ∷ iov) x r.mem) (sym (append_assoc w us ys)),
  s',
  c,
)

copy_nothing_Copied :
    (b : Iov) (iov : List Iov) (r : Rx) (x : List Iov × Rx)
    → b.len ≡ 0
    → Copied iov r x
    → Copied (b ∷ iov) r x
copy_nothing_Copied b iov r (iov', r') z (us, p, n, f, s, c) =
    (us, p, omega arith, λ ys. f ys ∙ sym (scatter_zero b iov (us ++ ys) r.mem z), s, c)

stop_Copied :
    (b : Iov) (iov : List Iov) (r : Rx)
    → length (pending r.rxbuf) < b.len
    → Copied (b ∷ iov) r (behind (length (pending r.rxbuf)) b ∷ iov, run_out b r)
stop_Copied b iov r h = (
  pending r.rxbuf,
  sym (append-nil (pending r.rxbuf)),
  omega arith,
  λ ys. scatter-behind b iov (pending r.rxbuf) ys r.mem (omega arith),
  init-Sound,
  inr (refl, omega arith),
)

-- With nothing pending the loop stops at once.
idle_Copied :
    (b : Iov) (iov : List Iov) (r : Rx)
    → Sound r.rxbuf
    → 0 < b.len
    → pending r.rxbuf ≡ []
    → Copied (b ∷ iov) r (behind 0 b ∷ iov, r)
idle_Copied b iov r s h e = (
  [],
  refl,
  omega arith,
  λ ys.
      ap (scatter (behind 0 b ∷ iov) ys) (sym (copy_to-nothing r.mem b.base))
      ∙ scatter-behind b iov [] ys r.mem (omega arith),
  s,
  inr (e, omega arith),
)

pub copy_all_lem : (iov : List Iov) (r : Rx) → Sound r.rxbuf → Copied iov r (copy_all iov r)
copy_all_lem [] r s =
    subst (Copied [] r) (sym (copy_all-end r))
      ([], refl, omega arith, λ ys. scatter_end ys r.mem ∙ sym (scatter_end ys r.mem), s, inl refl)
copy_all_lem (b ∷ iov) r s =
    let d = pending r.rxbuf in
    elim (Bool-cases (length d == 0)) [
      | inl e ↦
          let none_left : length d ≡ 0 = ground arith in
          let copied = fd_copy_nothing b r s none_left in
          elim (Bool-cases (ltb 0 b.len)) [
            | inl h ↦
                subst (Copied (b ∷ iov) r) (sym (copy_all-stop b iov r r 0 copied (ground arith)))
                  (idle_Copied b iov r s (ground arith) (length_zero d none_left))
            | inr h ↦
                subst (Copied (b ∷ iov) r) (sym (copy_all-on b iov r r 0 copied (ground arith))) (
                  copy_nothing_Copied b iov r (copy_all iov r) (ground arith)
                    (copy_all_lem iov r s))
          ]
      | inr e ↦ elim (Bool-cases (ltb (length d) b.len)) [
        | inl h ↦
            let less : length d < b.len = ground arith in
            subst (Copied (b ∷ iov) r)
              (sym (
                copy_all-stop b iov r (run_out b r) (length d)
                  (fd_copy_all b r s (ground arith) less) less))
              (stop_Copied b iov r less)
        | inr h ↦
            let enough : b.len ≤ length d = ground arith in
            let r' = move_on b r in
            subst (Copied (b ∷ iov) r)
              (sym (
                copy_all-on b iov r r' b.len (fd_copy_some b r s (ground arith) enough)
                  (omega arith)))
              (copy_some_Copied b iov r (take b.len (from_pos r.rxbuf)) s refl
                (taken_length b.len r.rxbuf s enough) enough
                (copy_all_lem iov r' (move_on-Sound b.len r.rxbuf s enough)))
      ]
    ]
