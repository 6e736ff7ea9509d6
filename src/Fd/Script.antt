-- ===== src/Fd/Script.antt =====
-- A kernel that plays a script: it gives the chunks one after the other, an empty one being EAGAIN, and takes
-- two bytes at a time after `busy` EAGAINs.
use libdill.Base.{
  ℕ, zero, suc, ◌≤◌, ◌<◌, min, some, List, [], ◌∷◌, ◌++◌, take, drop, length, leb, ◌≡◌, ◌⊎◌, inl,
  inr, refl, sym, subst, ◌∙◌, ap, arith, Bool-cases, if◌then◌else◌, ok, take-append-drop,
  length-take, if-true, if-false,
}
use mathlib.Core.List.{append_assoc}
use libdill.Bsock.{concat}
use libdill.Fd.{Kernel, Moved, moved, would_block}
use libdill.Fd.Stream.{Delivers}
use libdill.Fd.Send.{Accepts}

pub record Script : Type 0 where
  pub chunks : List (List ℕ)
  pub busy : ℕ
  pub accepted : List ℕ

abbrev offer : ℕ → Script → List (List ℕ) → Moved (List ℕ) × Script
offer n s [] = (moved [], s)
offer n s ([] ∷ rest) = (would_block, record s { chunks = rest })
offer n s ((v ∷ vs) ∷ rest) =
    if leb (length (v ∷ vs)) n
    then (moved (v ∷ vs), record s { chunks = rest })
    else (moved (take n (v ∷ vs)), record s { chunks = drop n (v ∷ vs) ∷ rest })

abbrev accept : List ℕ → Script → ℕ → Moved ℕ × Script
accept bytes s zero = (
  moved (min 2 (length bytes)),
  record s { accepted = s.accepted ++ take (min 2 (length bytes)) bytes },
)
accept bytes s (suc n) = (would_block, record s { busy = n })

abbrev pub script : Kernel Script
script = record {
  sendmsg = λ bufs s. accept (concat bufs) s s.busy;
  recvmsg = λ n s. offer n s s.chunks;
  fdin = λ s. (ok tt, s);
  fdout = λ s. (ok tt, s);
  malloc = λ s. (some 64, s);
}

-- How many of the chunks are EAGAIN.
abbrev pauses : List (List ℕ) → ℕ
pauses [] = 0
pauses ([] ∷ rest) = suc (pauses rest)
pauses ((v ∷ vs) ∷ rest) = pauses rest

abbrev pub coming : Script → List ℕ
coming s = concat s.chunks

abbrev pub stops : Script → ℕ
stops s = pauses s.chunks

pauses-drop :
    (n : ℕ) (l : List ℕ) (rest : List (List ℕ))
    → n < length l
    → pauses (drop n l ∷ rest) ≡ pauses rest
pauses-drop n [] rest h = absurd (omega arith)
pauses-drop zero (v ∷ vs) rest h = refl
pauses-drop (suc n) (v ∷ vs) rest h = pauses-drop n vs rest (omega arith)

-- By what is next in the script.
abbrev Gives : ℕ → Script → List (List ℕ) → Moved (List ℕ) × Script → Type 0
Gives n s chunks (r, after) =
    ((r ≡ would_block) × (coming after ≡ concat chunks) × (stops after < pauses chunks))
    ⊎ (((v : ℕ) × (vs : List ℕ) × (r ≡ moved (v ∷ vs))
          × (length (v ∷ vs) ≤ n)
          × (concat chunks ≡ (v ∷ vs) ++ coming after)
          × (stops after ≤ pauses chunks))
        ⊎ ((r ≡ moved []) × (concat chunks ≡ []) × (coming after ≡ [])))

offer-Gives :
    (n : ℕ) (s : Script) (chunks : List (List ℕ))
    → 0 < n
    → s.chunks ≡ chunks
    → Gives n s chunks (offer n s chunks)
offer-Gives n s [] p e = inr (inr (refl, refl, ap concat e))
offer-Gives n s ([] ∷ rest) p e = inl (refl, refl, omega arith)
offer-Gives zero s ((v ∷ vs) ∷ rest) p e = absurd (omega arith)
offer-Gives (suc n) s ((v ∷ vs) ∷ rest) p e = elim (Bool-cases (leb (length (v ∷ vs)) (suc n))) [
  | inl h ↦
      subst (Gives (suc n) s ((v ∷ vs) ∷ rest)) (sym (if-true _ _ h))
        (inr (inl (v, vs, refl, ground arith, refl, omega arith)))
  | inr h ↦ subst (Gives (suc n) s ((v ∷ vs) ∷ rest)) (sym (if-false _ _ h)) (
      inr (
        inl (
          v,
          take n vs,
          refl,
          omega (arith, length-take n vs),
          ap (λ l. v ∷ l)
              (ap (λ l. l ++ concat rest) (sym (take-append-drop n vs))
                ∙ append_assoc (take n vs) (drop n vs) (concat rest)),
          ground (arith, pauses-drop n vs rest),
        )))
]

pub script-Delivers : Delivers script coming stops
script-Delivers = record {
  arrives = λ n s p. offer-Gives n s s.chunks p refl;
  waits = λ s. (refl, refl, omega arith);
  allocates = λ s. (64, refl, refl, omega arith);
}

abbrev Takes : List ℕ → Script → ℕ → Moved ℕ × Script → Type 0
Takes bytes s busy (r, after) =
    ((r ≡ would_block) × (after.accepted ≡ s.accepted) × (after.busy < busy))
    ⊎ ((n : ℕ) × (r ≡ moved n)
        × (0 < n)
        × (n ≤ length bytes)
        × (after.accepted ≡ s.accepted ++ take n bytes)
        × (after.busy ≤ busy))

accept-Takes :
    (bytes : List ℕ) (s : Script) (busy : ℕ)
    → 0 < length bytes
    → s.busy ≡ busy
    → Takes bytes s busy (accept bytes s busy)
accept-Takes bytes s zero p e =
    inr (min 2 (length bytes), refl, omega arith, omega arith, refl, omega arith)
accept-Takes bytes s (suc n) p e = inl (refl, refl, omega arith)

pub script-Accepts : Accepts script (λ s. s.accepted) (λ s. s.busy)
script-Accepts = record {
  takes = λ bufs s p. accept-Takes (concat bufs) s s.busy p refl;
  waits = λ s. (refl, refl, omega arith);
}
