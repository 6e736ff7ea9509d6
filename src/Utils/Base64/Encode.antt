-- ===== src/Utils/Base64/Encode.antt =====
-- What `dill_base64_encode` writes.
use mathlib.Core.List.{append_assoc, append-nil}
use libdill.Base.{
  ℕ, suc, ◌+◌, ◌*◌, ◌/◌, ◌%◌, ◌^◌, ◌<◌, ◌≡◌, refl, sym, ◌∙◌, ap, true, false, Option, none, some,
  List, [], ◌∷◌, ◌++◌, length, get_or, leb, arith, length-append, ◌==◌, if◌then◌else◌, if-true,
  returns, ◌≤◌,
}
use libdill.Utils.Base64.{encode_map, emit, pad, finish, encode_loop, encode}

-- The character of six bits.
abbrev sextet : ℕ → ℕ
sextet k = get_or encode_map k 0

-- Base64 by groups of three bytes.
abbrev pub groups : List ℕ → List ℕ
groups [] = []
groups (a ∷ []) = sextet (a / 4) ∷ sextet (a % 4 * 16) ∷ 61 ∷ 61 ∷ []
groups (a ∷ b ∷ []) = sextet (a / 4) ∷ sextet (a % 4 * 16 + b / 16) ∷ sextet (b % 16 * 4) ∷ 61 ∷ []
groups (a ∷ b ∷ c ∷ rest) =
    sextet (a / 4)
    ∷ sextet (a % 4 * 16 + b / 16)
    ∷ sextet (b % 16 * 4 + c / 64)
    ∷ sextet (c % 64)
    ∷ groups rest

emit-room :
    (out_len : ℕ) (out : List ℕ) (c : ℕ)
    → length out < out_len
    → emit out_len out c ≡ some (out ++ c ∷ [])
unfolding emit
emit-room out_len out c h =
    let free : leb out_len (length out) ≡ false = ground arith in rw free refl

emit-sextet :
    (out_len : ℕ) (out : List ℕ) (k m : ℕ)
    → k ≡ m
    → length out < out_len
    → emit out_len out (get_or encode_map k 0) ≡ some (out ++ sextet m ∷ [])
emit-sextet out_len out k m e h =
    ap (λ j. emit out_len out (get_or encode_map j 0)) e ∙ emit-room out_len out (sextet m) h

snoc : (out : List ℕ) (c : ℕ) → length (out ++ c ∷ []) ≡ suc (length out)
snoc out c = omega (arith, length-append out (c ∷ []))

four :
    (out : List ℕ) (x y z w : ℕ)
    → (((out ++ x ∷ []) ++ y ∷ []) ++ z ∷ []) ++ w ∷ [] ≡ out ++ x ∷ y ∷ z ∷ w ∷ []
four [] x y z w = refl
four (o ∷ out) x y z w = ap (λ t. o ∷ t) (four out x y z w)

-- Three bytes make four characters.
encode_three :
    (out_len a b c v : ℕ) (rest out : List ℕ)
    → a < 256
    → b < 256
    → c < 256
    → length out + 4 < out_len
    → (v' : ℕ) × (encode_loop out_len (a ∷ b ∷ c ∷ rest) v 0 out
        ≡ encode_loop out_len rest v' 0 (
            out
            ++ sextet (a / 4)
              ∷ sextet (a % 4 * 16 + b / 16)
              ∷ sextet (b % 16 * 4 + c / 64)
              ∷ sextet (c % 64)
              ∷ []))
unfolding encode_loop
encode_three out_len a b c v rest out ha hb hc room = (
  v3,
  rw
      (
        encode_loop,
        emit-sextet out_len out (v1 / 4 % 64) (a / 4) (omega arith) (omega arith),
        emit-sextet out_len (out ++ sextet (a / 4) ∷ []) (v2 / 16 % 64) (a % 4 * 16 + b / 16)
            (omega arith) (omega (arith, snoc out (sextet (a / 4)))),
        emit-sextet out_len o2 (v3 / 64 % 64) (b % 16 * 4 + c / 64) (omega arith)
            (omega (arith, two)),
        emit-sextet out_len o3 (v3 / 1 % 64) (c % 64) (omega arith) (omega (arith, three)),
      )
      (ap (encode_loop out_len rest v3 0) (
        four out (sextet (a / 4)) (sextet (a % 4 * 16 + b / 16)) (sextet (b % 16 * 4 + c / 64))
          (sextet (c % 64)))),
)
  where
    v1 : ℕ
    v1 = (v * 256 + a) % 2 ^ 32

    v2 : ℕ
    v2 = (v1 * 256 + b) % 2 ^ 32

    v3 : ℕ
    v3 = (v2 * 256 + c) % 2 ^ 32

    o1 : List ℕ
    o1 = out ++ sextet (a / 4) ∷ []

    o2 : List ℕ
    o2 = o1 ++ sextet (a % 4 * 16 + b / 16) ∷ []

    o3 : List ℕ
    o3 = o2 ++ sextet (b % 16 * 4 + c / 64) ∷ []

    two : length o2 ≡ suc (suc (length out))
    two = snoc o1 (sextet (a % 4 * 16 + b / 16)) ∙ ap suc (snoc out (sextet (a / 4)))

    three : length o3 ≡ suc (suc (suc (length out)))
    three = snoc o2 (sextet (b % 16 * 4 + c / 64)) ∙ ap suc two

abbrev pub Bytes : List ℕ → Type 0
Bytes [] = Unit
Bytes (b ∷ bs) = (b < 256) × Bytes bs

finish-done :
    (out_len v : ℕ) (out : List ℕ)
    → length out % 4 ≡ 0
    → length out < out_len
    → finish out_len v 0 out ≡ some out
unfolding finish
finish-done out_len v out whole room =
    let padded : (length out % 4 == 0) ≡ true = ground arith in
    let fits : leb out_len (length out) ≡ false = ground arith in rw (finish, padded, fits) refl

-- The padding of a group that lacks one character, or two.
pad_one :
    (out_len : ℕ) (out : List ℕ)
    → length out % 4 ≡ 3
    → length out + 1 < out_len
    → (elim (pad 3 out_len out) as (λ _. Option (List ℕ)) [
      | none ↦ none
      | some l ↦ if leb out_len (length l) then none else some l
    ])
      ≡ some (out ++ 61 ∷ [])
pad_one out_len out short room =
    let longer = snoc out 61 in
    let open_group : (length out % 4 == 0) ≡ false = ground arith in
    let whole : (length (out ++ 61 ∷ []) % 4 == 0) ≡ true = ground (arith, longer) in
    let fits : leb out_len (length (out ++ 61 ∷ [])) ≡ false = ground (arith, longer) in
    rw (open_group, emit-room out_len out 61 (omega arith), whole, fits) refl

pad_two :
    (out_len : ℕ) (out : List ℕ)
    → length out % 4 ≡ 2
    → length out + 2 < out_len
    → (elim (pad 3 out_len out) as (λ _. Option (List ℕ)) [
      | none ↦ none
      | some l ↦ if leb out_len (length l) then none else some l
    ])
      ≡ some ((out ++ 61 ∷ []) ++ 61 ∷ [])
pad_two out_len out short room =
    let longer = snoc out 61 in
    let longest = snoc (out ++ 61 ∷ []) 61 in
    let open_group : (length out % 4 == 0) ≡ false = ground arith in
    let open_still : (length (out ++ 61 ∷ []) % 4 == 0) ≡ false = ground (arith, longer) in
    let whole : (length ((out ++ 61 ∷ []) ++ 61 ∷ []) % 4 == 0) ≡ true =
      ground (arith, longer, longest) in
    let fits : leb out_len (length ((out ++ 61 ∷ []) ++ 61 ∷ [])) ≡ false =
      ground (arith, longer, longest) in
    rw
      (
        open_group,
        emit-room out_len out 61 (omega arith),
        open_still,
        emit-room out_len (out ++ 61 ∷ []) 61 (omega (arith, longer)),
        whole,
        fits,
      )
      refl

encode_one :
    (out_len a v : ℕ) (out : List ℕ)
    → a < 256
    → length out % 4 ≡ 0
    → length out + 4 < out_len
    → encode_loop out_len (a ∷ []) v 0 out ≡ some (out ++ groups (a ∷ []))
unfolding encode_loop finish
encode_one out_len a v out ha whole room =
    let one = snoc out (sextet (a / 4)) in
    let two = snoc (out ++ sextet (a / 4) ∷ []) (sextet (a % 4 * 16)) ∙ ap suc one in
    rw
      (
        encode_loop,
        emit-sextet out_len out ((v * 256 + a) % 2 ^ 32 / 4 % 64) (a / 4) (omega arith)
            (omega arith),
        finish,
        emit-sextet out_len (out ++ sextet (a / 4) ∷ []) ((v * 256 + a) % 2 ^ 32 * 16 % 2 ^ 32 % 64)
            (a % 4 * 16) (omega arith) (omega (arith, one)),
      )
      (pad_two out_len ((out ++ sextet (a / 4) ∷ []) ++ sextet (a % 4 * 16) ∷ [])
          (omega (arith, two)) (omega (arith, two))
        ∙ ap some (four out (sextet (a / 4)) (sextet (a % 4 * 16)) 61 61))

encode_two :
    (out_len a b v : ℕ) (out : List ℕ)
    → a < 256
    → b < 256
    → length out % 4 ≡ 0
    → length out + 4 < out_len
    → encode_loop out_len (a ∷ b ∷ []) v 0 out ≡ some (out ++ groups (a ∷ b ∷ []))
unfolding encode_loop finish
encode_two out_len a b v out ha hb whole room =
    let one = snoc out (sextet (a / 4)) in
    let two = snoc (out ++ sextet (a / 4) ∷ []) (sextet (a % 4 * 16 + b / 16)) ∙ ap suc one in
    let three =
      snoc ((out ++ sextet (a / 4) ∷ []) ++ sextet (a % 4 * 16 + b / 16) ∷ []) (sextet (b % 16 * 4))
      ∙ ap suc two in
    rw
      (
        encode_loop,
        emit-sextet out_len out ((v * 256 + a) % 2 ^ 32 / 4 % 64) (a / 4) (omega arith)
            (omega arith),
        emit-sextet out_len (out ++ sextet (a / 4) ∷ [])
            (((v * 256 + a) % 2 ^ 32 * 256 + b) % 2 ^ 32 / 16 % 64) (a % 4 * 16 + b / 16)
            (omega arith) (omega (arith, one)),
        finish,
        emit-sextet out_len ((out ++ sextet (a / 4) ∷ []) ++ sextet (a % 4 * 16 + b / 16) ∷ [])
            (((v * 256 + a) % 2 ^ 32 * 256 + b) % 2 ^ 32 * 4 % 2 ^ 32 % 64) (b % 16 * 4)
            (omega arith) (omega (arith, two)),
      )
      (pad_one out_len
          (((out ++ sextet (a / 4) ∷ []) ++ sextet (a % 4 * 16 + b / 16) ∷ [])
            ++ sextet (b % 16 * 4) ∷ [])
          (omega (arith, three)) (omega (arith, three))
        ∙ ap some
            (four out (sextet (a / 4)) (sextet (a % 4 * 16 + b / 16)) (sextet (b % 16 * 4)) 61))

encode_loop-groups :
    (out_len : ℕ) (bytes : List ℕ) (v : ℕ) (out : List ℕ)
    → Bytes bytes
    → length out % 4 ≡ 0
    → length out + length (groups bytes) < out_len
    → encode_loop out_len bytes v 0 out ≡ some (out ++ groups bytes)
encode_loop-groups out_len [] v out h whole room =
    unfold encode_loop in
    finish-done out_len v out whole (omega arith) ∙ ap some (sym (append-nil out))
encode_loop-groups out_len (a ∷ []) v out h whole room =
    encode_one out_len a v out h.0 whole (omega arith)
encode_loop-groups out_len (a ∷ b ∷ []) v out h whole room =
    encode_two out_len a b v out h.0 h.1.0 whole (omega arith)
encode_loop-groups out_len (a ∷ b ∷ c ∷ rest) v out (ha, (hb, (hc, h))) whole room =
    let g : List ℕ =
      sextet (a / 4)
      ∷ sextet (a % 4 * 16 + b / 16)
      ∷ sextet (b % 16 * 4 + c / 64)
      ∷ sextet (c % 64)
      ∷ [] in
    let (v', three) = encode_three out_len a b c v rest out ha hb hc (omega arith) in
    let longer = length-append out g in
    three
    ∙ encode_loop-groups out_len rest v' (out ++ g) h (omega (arith, longer))
        (omega (arith, longer))
    ∙ ap some (append_assoc out g (groups rest))

-- `dill_base64_encode` gives the Base64 of its input by groups of three bytes, the last group padded
-- with `=`, if the output buffer has room for that and a NUL, and at most 2 ^ 31 bytes.
pub encode-groups :
    (out_len : ℕ) (bytes : List ℕ)
    → Bytes bytes
    → length (groups bytes) < out_len
    → out_len ≤ 2 ^ 31
    → encode out_len bytes ≡ returns (some (groups bytes))
unfolding encode
encode-groups out_len bytes h room bound =
    let held : leb out_len (2 ^ 31) ≡ true = ground arith in
    if-true _ _ held ∙ ap returns (encode_loop-groups out_len bytes 0 [] h refl (omega arith))
