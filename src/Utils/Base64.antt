-- ===== src/Utils/Base64.antt =====
-- utils.c: Base64, without and with an end of the output buffer.
-- The output is the list of the bytes written so far; `out_len` is the buffer's size, at most 2 ^ 31
-- bytes in the loops: `io` stays below it, so neither `unsigned` nor the `int` of the result overflows.
-- A `char` that is negative would index the table out of bounds, so an input character is below 128.
pub mod Encode
use libdill.Base.{
  ℕ, zero, suc, ◌+◌, ◌-◌, ◌*◌, ◌/◌, ◌%◌, ◌^◌, Bool, true, false, ◌&&◌, ◌||◌, not, Option, none,
  some, List, [], ◌∷◌, ◌++◌, length, get_or, leb, ltb, ascii, ◌==◌, if◌then◌else◌, Run, returns,
  fault,
}

abbrev pub encode_map : List ℕ
encode_map = ascii "ABCDEFGHIJKLMNOPQRSTUVWXYZabcdefghijklmnopqrstuvwxyz0123456789+/"

-- The half of the table for characters below 128.
abbrev pub decode_map : List ℕ
decode_map =
    255 ∷ 255 ∷ 255 ∷ 255 ∷ 255 ∷ 255 ∷ 255 ∷ 255 ∷ 255 ∷ 255 ∷ 255 ∷ 255 ∷ 255 ∷ 255 ∷ 255 ∷ 255
    ∷ 255 ∷ 255 ∷ 255 ∷ 255 ∷ 255 ∷ 255 ∷ 255 ∷ 255 ∷ 255 ∷ 255 ∷ 255 ∷ 255 ∷ 255 ∷ 255 ∷ 255 ∷ 255
    ∷ 255 ∷ 255 ∷ 255 ∷ 255 ∷ 255 ∷ 255 ∷ 255 ∷ 255 ∷ 255 ∷ 255 ∷ 255 ∷ 62 ∷ 255 ∷ 255 ∷ 255 ∷ 63
    ∷ 52 ∷ 53 ∷ 54 ∷ 55 ∷ 56 ∷ 57 ∷ 58 ∷ 59 ∷ 60 ∷ 61 ∷ 255 ∷ 255 ∷ 255 ∷ 62 ∷ 255 ∷ 255 ∷ 255 ∷ 0
    ∷ 1 ∷ 2 ∷ 3 ∷ 4 ∷ 5 ∷ 6 ∷ 7 ∷ 8 ∷ 9 ∷ 10 ∷ 11 ∷ 12 ∷ 13 ∷ 14 ∷ 15 ∷ 16 ∷ 17 ∷ 18 ∷ 19 ∷ 20 ∷ 21
    ∷ 22 ∷ 23 ∷ 24 ∷ 25 ∷ 255 ∷ 255 ∷ 255 ∷ 255 ∷ 255 ∷ 255 ∷ 26 ∷ 27 ∷ 28 ∷ 29 ∷ 30 ∷ 31 ∷ 32 ∷ 33
    ∷ 34 ∷ 35 ∷ 36 ∷ 37 ∷ 38 ∷ 39 ∷ 40 ∷ 41 ∷ 42 ∷ 43 ∷ 44 ∷ 45 ∷ 46 ∷ 47 ∷ 48 ∷ 49 ∷ 50 ∷ 51 ∷ 255
    ∷ 255 ∷ 255 ∷ 255 ∷ 255 ∷ []

-- `if(io >= out_len) return -1; out[io++] = c;`
unfoldable pub emit : (out_len : ℕ) → List ℕ → ℕ → Option (List ℕ)
emit out_len out c = if leb out_len (length out) then none else some (out ++ c ∷ [])

-- `while(rem >= 6)`: a turn takes six bits, and there are at most 13.
abbrev pub flush : (fuel out_len v rem : ℕ) → List ℕ → Option (List ℕ × ℕ)
flush zero out_len v rem out = some (out, rem)
flush (suc fuel) out_len v rem out =
    if leb 6 rem
    then (elim (emit out_len out (get_or encode_map (v / 2 ^ (rem - 6) % 64) 0))
        as (λ _. Option (List ℕ × ℕ)) [
          | none ↦ none
          | some out' ↦ flush fuel out_len v (rem - 6) out'
        ])
    else some (out, rem)

-- `while(io & 3)`
abbrev pub pad : (fuel out_len : ℕ) → List ℕ → Option (List ℕ)
pad zero out_len out = some out
pad (suc fuel) out_len out =
    if length out % 4 == 0
    then some out
    else (elim (emit out_len out 61) as (λ _. Option (List ℕ)) [
      | none ↦ none
      | some out' ↦ pad fuel out_len out'
    ])

-- The code behind the loop of `dill_base64_encode`; the NUL is not counted in the result.
unfoldable pub finish : (out_len v rem : ℕ) → List ℕ → Option (List ℕ)
finish out_len v rem out =
    let last =
      if rem == 0
      then some out
      else emit out_len out (get_or encode_map (v * 2 ^ (6 - rem) % 2 ^ 32 % 64) 0) in
    elim last as (λ _. Option (List ℕ)) [
      | none ↦ none
      | some out' ↦ elim (pad 3 out_len out') as (λ _. Option (List ℕ)) [
        | none ↦ none
        | some out2 ↦ if leb out_len (length out2) then none else some out2
      ]
    ]

-- The loop over the input. Each byte of it writes one of the output at least, so an input of more than
-- 2 ^ 31 bytes is refused before `ii` can overflow.
unfoldable pub encode_loop : (out_len : ℕ) → List ℕ → (v rem : ℕ) → List ℕ → Option (List ℕ)
encode_loop out_len [] v rem out = finish out_len v rem out
encode_loop out_len (ch ∷ rest) v rem out =
    elim (flush 2 out_len ((v * 256 + ch) % 2 ^ 32) (rem + 8) out) as (λ _. Option (List ℕ)) [
      | none ↦ none
      | some (out', rem') ↦ encode_loop out_len rest ((v * 256 + ch) % 2 ^ 32) rem' out'
    ]

-- `dill_base64_encode`; -1 is `none`. `fault` is a buffer of more than 2 ^ 31 bytes, where `io`, `ii`
-- and the result may overflow and the loop may run for ever.
unfoldable pub encode : (out_len : ℕ) → List ℕ → Run (Option (List ℕ))
unfolding encode_loop
encode out_len bytes =
    if leb out_len (2 ^ 31) then returns (encode_loop out_len bytes 0 0 []) else fault

-- `isspace` in the C locale.
abbrev pub is_space : ℕ → Bool
is_space c = c == 32 || (leb 9 c && leb c 13)

-- The loop of `dill_base64_decode` and the code behind it: fewer than eight bits are left there, so
-- nothing more is written.
unfoldable pub decode_loop : (out_len : ℕ) → List ℕ → (v rem : ℕ) → List ℕ → Option (List ℕ)
decode_loop out_len [] v rem out =
    if leb 8 rem then emit out_len out (v / 2 ^ (rem - 8) % 256) else some out
decode_loop out_len (c ∷ rest) v rem out =
    let ch = get_or decode_map c 255 in
    let v' = (v * 64 + ch) % 2 ^ 32 in
    let skipped = decode_loop out_len rest v rem out in
    let more = decode_loop out_len rest v' (rem + 6) out in
    let written : Option (List ℕ) =
      elim (emit out_len out (v' / 2 ^ (rem - 2) % 256)) as (λ _. Option (List ℕ)) [
        | none ↦ none
        | some out' ↦ decode_loop out_len rest v' (rem - 2) out'
      ] in
    let stopped = if leb 8 rem then emit out_len out (v / 2 ^ (rem - 8) % 256) else some out in
    if is_space c
    then skipped
    else if c == 61 || ch == 255
    then stopped
    else if leb 8 (rem + 6)
    then written
    else more

-- `dill_base64_decode`. Spaces write nothing, so the input is bounded too: `fault` is where `ii` or `io`
-- may overflow.
unfoldable pub decode : (out_len : ℕ) → List ℕ → Run (Option (List ℕ))
unfolding decode_loop
decode out_len chars =
    if leb out_len (2 ^ 31) && ltb (length chars) (2 ^ 32)
    then returns (decode_loop out_len chars 0 0 [])
    else fault
