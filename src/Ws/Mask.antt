-- ===== src/Ws/Mask.antt =====
-- ws.c
-- A mask that is applied twice is gone.
use libdill.Base.{
  All, ℕ, zero, suc, ◌+◌, ◌*◌, ◌/◌, ◌%◌, ◌^◌, ◌<◌, ◌≡◌, ◌∙◌, refl, ap, List, [], ◌∷◌, length,
  get_or, ◌==◌, if◌then◌else◌, arith,
}
use libdill.Ws.{xor_bits, masked}

bit_twice : (a b : ℕ) → a < 2 → b < 2 → (if (if a == b then 0 else 1) == b then 0 else 1) ≡ a
bit_twice a b h k = ground arith

-- A number that is put together from a bit and the rest.
xor_bits-join :
    (n x d b : ℕ)
    → d < 2
    → xor_bits (suc n) (2 * x + d) b ≡ 2 * xor_bits n x (b / 2) + (if d == b % 2 then 0 else 1)
xor_bits-join n x d b h =
    let low : (2 * x + d) % 2 ≡ d = omega arith in
    let high : (2 * x + d) / 2 ≡ x = omega arith in rw (low, high) refl

xor_bits-twice : (n a b : ℕ) → a < 2 ^ n → xor_bits n (xor_bits n a b) b ≡ a
xor_bits-twice zero a b h = omega arith
xor_bits-twice (suc n) a b h =
    xor_bits-join n (xor_bits n (a / 2) (b / 2)) (if a % 2 == b % 2 then 0 else 1) b (ground arith)
    ∙ rw
        (
          xor_bits-twice n (a / 2) (b / 2) (omega arith),
          bit_twice (a % 2) (b % 2) (omega arith) (omega arith),
        )
        (omega arith)

-- What is masked and unmasked with the same bytes of the mask comes back.
pub masked-masked :
    (mask : List ℕ) (pos : ℕ) (bytes : List ℕ)
    → All (λ b. b < 256) bytes
    → masked mask pos (masked mask pos bytes) ≡ bytes
masked-masked mask pos [] h = refl
masked-masked mask pos (b ∷ bs) h =
    rw (xor_bits-twice 8 b (get_or mask (pos % 4) 0) h.0, masked-masked mask (suc pos) bs h.1) refl

pub length-masked :
    (mask : List ℕ) (pos : ℕ) (bytes : List ℕ) → length (masked mask pos bytes) ≡ length bytes
length-masked mask pos [] = refl
length-masked mask pos (b ∷ bs) = ap suc (length-masked mask (suc pos) bs)
