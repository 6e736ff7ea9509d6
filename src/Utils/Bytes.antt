-- ===== src/Utils/Bytes.antt =====
-- utils.c: `dill_gets` to `dill_putll`. A buffer is a list of bytes, a `uintN_t` a number.
pub mod RoundTrip
use libdill.Base.{ℕ, ◌+◌, ◌*◌, ◌/◌, ◌%◌, ◌^◌, List, [], ◌∷◌, get_or, set}

-- x >> k, and x & 0xff kept in a uint8_t.
abbrev shr : ℕ → ℕ → ℕ
shr x k = x / 2 ^ k

abbrev low_byte : ℕ → ℕ
low_byte x = x % 256

-- The operands of `|` are shifted to disjoint bytes, so `|` is the sum.
pub gets : List ℕ → ℕ
gets buf = get_or buf 0 0 * 2 ^ 8 + get_or buf 1 0

pub puts : List ℕ → ℕ → List ℕ
puts buf val = set (set buf 0 (low_byte (shr val 8))) 1 (low_byte val)

pub getl : List ℕ → ℕ
getl buf =
    get_or buf 0 0 * 2 ^ 24 + get_or buf 1 0 * 2 ^ 16 + get_or buf 2 0 * 2 ^ 8 + get_or buf 3 0

pub putl : List ℕ → ℕ → List ℕ
putl buf val =
    set
      (set (set (set buf 0 (low_byte (shr val 24))) 1 (low_byte (shr val 16))) 2
        (low_byte (shr val 8)))
      3 (low_byte val)

pub getll : List ℕ → ℕ
getll buf =
    get_or buf 0 0 * 2 ^ 56
    + get_or buf 1 0 * 2 ^ 48
    + get_or buf 2 0 * 2 ^ 40
    + get_or buf 3 0 * 2 ^ 32
    + get_or buf 4 0 * 2 ^ 24
    + get_or buf 5 0 * 2 ^ 16
    + get_or buf 6 0 * 2 ^ 8
    + get_or buf 7 0

-- The four bytes of the upper half, then those of the lower half.
putll_high : List ℕ → ℕ → List ℕ
putll_high buf val =
    set
      (set (set (set buf 0 (low_byte (shr val 56))) 1 (low_byte (shr val 48))) 2
        (low_byte (shr val 40)))
      3 (low_byte (shr val 32))

pub putll : List ℕ → ℕ → List ℕ
unfolding putll_high
putll buf val =
    set
      (set (set (set (putll_high buf val) 4 (low_byte (shr val 24))) 5 (low_byte (shr val 16))) 6
        (low_byte (shr val 8)))
      7 (low_byte val)
