-- ===== src/Base/Loops.antt =====
-- Loops on fuel: a step ends the loop, gives the next state or fails an assertion.
use Prim.Native.Nat.{ℕ, zero, suc, ◌<◌}
use mathlib.Core.Path.{◌≡◌}
use mathlib.Core.Logic.{◌⊎◌, inl, inr}
use native.Mathlib.Omega.{arith}

pub data Step (X R : Type 0) : Type 0 where
  done : R → Step X R
  again : X → Step X R
  aborts : Step X R

-- What a call does: return, fail an assertion or follow NULL, or not end on this fuel.
pub data Run (A : Type 0) : Type 0 where
  returns : A → Run A
  fault : Run A
  out_of_fuel : Run A

unfoldable pub iterate : {X R : Type 0} → (X → Step X R) → ℕ → X → Run R
iterate step zero x = out_of_fuel
iterate step (suc fuel) x = elim (step x) [
  | done r ↦ returns r
  | again x' ↦ iterate step fuel x'
  | aborts ↦ fault
]

-- A step that ends with `Post`, or keeps `Inv` and lowers the measure.
abbrev pub Progresses :
    {X R : Type 0} (step : X → Step X R) → (X → Type 0) → (X → ℕ) → (R → Type 0) → X → Type 0
Progresses {X} {R} step Inv μ Post x =
    ((r : R) × (step x ≡ done r) × Post r)
    ⊎ ((x' : X) × (step x ≡ again x') × Inv x' × (μ x' < μ x))

module _ {X R : Type 0} (step : X → Step X R) where
  iterate-done :
      (fuel : ℕ) (x : X) (r : R) → step x ≡ done r → iterate step (suc fuel) x ≡ returns r
  unfolding iterate
  iterate-done fuel x r e = rw (iterate, e)

  iterate-again :
      (fuel : ℕ) (x x' : X) → step x ≡ again x' → iterate step (suc fuel) x ≡ iterate step fuel x'
  unfolding iterate
  iterate-again fuel x x' e = rw (iterate, e)

-- Such a loop ends on any fuel above the measure.
pub iterate-ends :
    {X R : Type 0} (step : X → Step X R) (Inv : X → Type 0) (μ : X → ℕ) (Post : R → Type 0)
    → ((x : X) → Inv x → Progresses step Inv μ Post x)
    → (fuel : ℕ) (x : X) → Inv x
    → μ x < fuel
    → (r : R) × (iterate step fuel x ≡ returns r) × Post r
iterate-ends step Inv μ Post law zero x i h = absurd (omega arith)
iterate-ends step Inv μ Post law (suc fuel) x i h = elim (law x i) [
  | inl (r, e, p) ↦ (r, iterate-done step fuel x r e, p)
  | inr (x', e, i', m) ↦
      let (r, q, p) = iterate-ends step Inv μ Post law fuel x' i' (omega arith) in
      (r, rw (iterate-again step fuel x x' e) q, p)
]
