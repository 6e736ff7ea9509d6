-- ===== src/Base/Errors.antt =====
-- The `errno` values that the library sets, and the result of a call: a value, or -1 with `errno`.
use mathlib.Core.Path.{◌≡◌, refl}
use mathlib.Core.Logic.{◌⊎◌, inl, inr}

pub data Errno : Type 0 where
  ebadf ecanceled econnreset einval emsgsize enomem enotsup : Errno
  epipe eproto etimedout eagain ebusy enotconn enobufs : Errno
  eacces eio enetunreach ehostunreach econnrefused eopnotsupp eafnosupport eaddrnotavail : Errno

pub data Result {ℓ} (A : Type ℓ) : Type ℓ where
  ok : A → Result A
  err : Errno → Result A

pub Result-cases {ℓ} :
    {A : Type ℓ} (r : Result A) → ((e : Errno) × (r ≡ err e)) ⊎ ((a : A) × (r ≡ ok a))
Result-cases (err e) = inl (e, refl)
Result-cases (ok a) = inr (a, refl)
