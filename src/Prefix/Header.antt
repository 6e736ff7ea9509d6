-- ===== src/Prefix/Header.antt =====
-- The length in front of a message: what is written reads back.
use native.Mathlib.Nat.{
  mod-eq_of_lt, mul-add-mod_self_right, div-add-mod', mod-lt, mod-le, one-le-pow, pow-suc,
}
use libdill.Base.{
  ℕ, zero, suc, ◌+◌, ◌*◌, ◌/◌, ◌%◌, ◌^◌, ◌<◌, ◌≡◌, refl, sym, ◌∙◌, ap, Bool, true, false, List, [],
  ◌∷◌, ◌++◌, length, arith, length-append,
}
use libdill.Prefix.{reverse, little, put_header, get_header, shift_in}

shift_in-append : (sz : ℕ) (l k : List ℕ) → shift_in sz (l ++ k) ≡ shift_in (shift_in sz l) k
shift_in-append sz [] k = refl
shift_in-append sz (c ∷ l) k = shift_in-append (sz * 256 % 2 ^ 64 + c) l k

-- The last digit joins the others.
join_mod : (sz k : ℕ) → 0 < k → sz / 256 % k * 256 + sz % 256 ≡ sz % (k * 256)
join_mod sz k h =
    sym (mod-eq_of_lt (omega (arith, mod-lt (sz / 256) h)))
    ∙ sym (mul-add-mod_self_right (sz / 256 / k) (k * 256) (sz / 256 % k * 256 + sz % 256))
    ∙ ap (λ m. m % (k * 256)) (omega (arith, div-add-mod' (sz / 256) k))

shift_in-little : (n sz : ℕ) → sz < 2 ^ 64 → shift_in 0 (reverse (little n sz)) ≡ sz % 256 ^ n
shift_in-little zero sz h = omega arith
shift_in-little (suc n) sz h =
    shift_in-append 0 (reverse (little n (sz / 256))) (sz % 256 ∷ [])
    ∙ rw (shift_in-little n (sz / 256) (omega arith), small)
        (join_mod sz (256 ^ n) (one-le-pow n 256 (omega arith))
          ∙ ap (λ m. sz % m) (sym (pow-suc 256 n)))
  where
    small : sz / 256 % 256 ^ n * 256 % 2 ^ 64 ≡ sz / 256 % 256 ^ n * 256
    small = mod-eq_of_lt (omega (arith, mod-le (sz / 256) (256 ^ n)))

-- The length that is read is the one written, modulo the room that the header has.
pub get_header-put_header :
    (big : Bool) (hdrlen sz : ℕ)
    → sz < 2 ^ 64
    → get_header big (put_header big hdrlen sz) ≡ sz % 256 ^ hdrlen
unfolding get_header put_header
get_header-put_header true n sz h = shift_in-little n sz h
get_header-put_header false n sz h = shift_in-little n sz h

length-little : (n sz : ℕ) → length (little n sz) ≡ n
length-little zero sz = refl
length-little (suc n) sz = ap suc (length-little n (sz / 256))

length-reverse : (l : List ℕ) → length (reverse l) ≡ length l
length-reverse [] = refl
length-reverse (x ∷ l) = omega (arith, length-append (reverse l) (x ∷ []), length-reverse l)

pub length-put_header : (big : Bool) (n sz : ℕ) → length (put_header big n sz) ≡ n
unfolding put_header
length-put_header true n sz = length-reverse (little n sz) ∙ length-little n sz
length-put_header false n sz = length-little n sz
