-- ===== src/Utils/Bytes/RoundTrip.antt =====
-- What is written in network byte order reads back.
use libdill.Base.{All, ℕ, ◌+◌, ◌*◌, ◌/◌, ◌%◌, ◌^◌, ◌<◌, ◌≡◌, List, [], ◌∷◌, length, refl, arith}
use libdill.Utils.Bytes.{gets, puts, getl, putl, getll, putll, putll_high}

bytes8 : (v : ℕ) → v < 2 ^ 16 → v / 2 ^ 8 % 256 * 2 ^ 8 + v % 256 ≡ v
bytes8 v h = omega arith

pub gets-puts : (a b v : ℕ) (rest : List ℕ) → v < 2 ^ 16 → gets (puts (a ∷ b ∷ rest) v) ≡ v
unfolding gets puts
gets-puts a b v rest h = omega arith

pub getl-putl :
    (a b c d v : ℕ) (rest : List ℕ) → v < 2 ^ 32 → getl (putl (a ∷ b ∷ c ∷ d ∷ rest) v) ≡ v
unfolding getl putl
getl-putl a b c d v rest h = omega arith

pub getll-putll :
    (a b c d e f g k v : ℕ) (rest : List ℕ)
    → v < 2 ^ 64
    → getll (putll (a ∷ b ∷ c ∷ d ∷ e ∷ f ∷ g ∷ k ∷ rest) v) ≡ v
unfolding getll putll
getll-putll a b c d e f g k v rest h = omega arith

pub length-puts : (a b v : ℕ) → length (puts (a ∷ b ∷ []) v) ≡ 2
unfolding puts
length-puts a b v = refl

pub All-puts : (a b v : ℕ) → All (λ n. n < 256) (puts (a ∷ b ∷ []) v)
unfolding puts
All-puts a b v = (omega arith, (omega arith, tt))

pub length-putll :
    (a b c d e f g k v : ℕ) → length (putll (a ∷ b ∷ c ∷ d ∷ e ∷ f ∷ g ∷ k ∷ []) v) ≡ 8
unfolding putll putll_high
length-putll a b c d e f g k v = refl

-- What `dill_puts`, `dill_putl` and `dill_putll` write `dill_gets`, `dill_getl` and `dill_getll` read
-- back, for every value of 16, 32 and 64 bits and every buffer of 8 bytes.
get-put :
    (a b c d e f g k v : ℕ)
    → let buf = a ∷ b ∷ c ∷ d ∷ e ∷ f ∷ g ∷ k ∷ [] in
      (gets (puts buf (v % 2 ^ 16)) ≡ v % 2 ^ 16)
      × (getl (putl buf (v % 2 ^ 32)) ≡ v % 2 ^ 32)
      × (getll (putll buf (v % 2 ^ 64)) ≡ v % 2 ^ 64)
get-put a b c d e f g k v = (
  gets-puts a b (v % 2 ^ 16) (c ∷ d ∷ e ∷ f ∷ g ∷ k ∷ []) (omega arith),
  getl-putl a b c d (v % 2 ^ 32) (e ∷ f ∷ g ∷ k ∷ []) (omega arith),
  getll-putll a b c d e f g k (v % 2 ^ 64) [] (omega arith),
)
