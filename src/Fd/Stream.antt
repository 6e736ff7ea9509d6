-- ===== src/Fd/Stream.antt =====
-- What fd.c relies on: POSIX `recvmsg` on a non-blocking stream socket, and the scheduler's waits.
use libdill.Base.{ℕ, ◌≤◌, ◌<◌, some, List, [], ◌∷◌, ◌++◌, length, ◌≡◌, ◌⊎◌, ok}
use libdill.Fd.{moved, would_block, Kernel}

-- A receive of at most `n` bytes gives some of the bytes that are next in the stream `content`, or none at
-- its end, or would block, which it does only `patience` times more.
abbrev pub Arrives : {S : Type 0} → Kernel S → (S → List ℕ) → (S → ℕ) → ℕ → S → Type 0
Arrives kernel content patience n st =
    let after = (kernel.recvmsg n st).1 in
    (((kernel.recvmsg n st).0 ≡ would_block)
      × (content after ≡ content st)
      × (patience after < patience st))
    ⊎ (((v : ℕ) × (vs : List ℕ) × ((kernel.recvmsg n st).0 ≡ moved (v ∷ vs))
          × (length (v ∷ vs) ≤ n)
          × (content st ≡ (v ∷ vs) ++ content after)
          × (patience after ≤ patience st))
        ⊎ (((kernel.recvmsg n st).0 ≡ moved []) × (content st ≡ []) × (content after ≡ [])))

pub record Delivers {S : Type 0} (kernel : Kernel S) (content : S → List ℕ) (patience : S → ℕ)
    : Type 0 where
  pub arrives : (n : ℕ) (st : S) → 0 < n → Arrives kernel content patience n st
  pub waits :
      (st : S)
      → ((kernel.fdin st).0 ≡ ok tt)
        × (content (kernel.fdin st).1 ≡ content st)
        × (patience (kernel.fdin st).1 ≤ patience st)
  pub allocates :
      (st : S)
      → (p : ℕ) × ((kernel.malloc st).0 ≡ some p)
        × (content (kernel.malloc st).1 ≡ content st)
        × (patience (kernel.malloc st).1 ≤ patience st)
