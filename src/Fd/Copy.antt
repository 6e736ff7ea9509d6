-- ===== src/Fd/Copy.antt =====
-- fd.c: copying from the buffer of a descriptor, and the cache of buffers.
use libdill.Base.{
  ℕ, ◌+◌, ◌-◌, ◌^◌, ◌≤◌, ◌<◌, true, false, Option, none, some, List, [], ◌++◌, take, drop, length,
  ltb, ◌==◌, ◌≡◌, sym, ap, ap₂, if-false, if-true, ◌∙◌, arith, length-take, length-drop, drop-all,
  drop-add, take-add,
}
use libdill.Iol.{copy_to}
use libdill.Fd.{Iov}
use libdill.Fd.Buffer.{
  Chunk, Rxbuf, Rx, initrxbuf, termrxbuf, from_pos, bytes_at, remaining, fd_copy,
}

-- The buffer holds what lies between its two positions.
pub record Sound (r : Rxbuf) : Type 0 where
  pub order : r.pos ≤ r.len
  pub size : r.len < 2 ^ 64
  pub holds : r.len - r.pos ≤ length (from_pos r)

-- What has been received and not yet been copied.
abbrev pub pending : Rxbuf → List ℕ
pending r = take (r.len - r.pos) (from_pos r)

pub length-pending : (r : Rxbuf) → Sound r → length (pending r) ≡ r.len - r.pos
length-pending r s = let h = s.holds in omega (arith, length-take (r.len - r.pos) (from_pos r))

remaining_lem : (r : Rxbuf) → Sound r → remaining r ≡ length (pending r)
remaining_lem r s = let h = s.order in let k = s.size in omega (arith, length-pending r s)

pub init-Sound : Sound initrxbuf
init-Sound = record { order = omega arith; size = omega arith; holds = omega arith }

-- The three ways of `dill_fd_copy`, by what is pending.
pub fd_copy_nothing :
    (b : Iov) (r : Rx) → Sound r.rxbuf → length (pending r.rxbuf) ≡ 0 → fd_copy b r ≡ (0, r)
unfolding fd_copy
fd_copy_nothing b r s e =
    let nothing : (remaining r.rxbuf == 0) ≡ true = ground (arith, remaining_lem r.rxbuf s) in
    simp (nothing)

abbrev pub run_out : Iov → Rx → Rx
run_out b r = record {
  rxbuf = initrxbuf;
  cache = termrxbuf r.rxbuf r.cache;
  mem = copy_to r.mem b.base (pending r.rxbuf);
}

abbrev ran_out : Iov → Rx → ℕ → ℕ → ℕ × Rx
ran_out b r k l = (
  k,
  record {
    rxbuf = initrxbuf;
    cache = termrxbuf r.rxbuf r.cache;
    mem = copy_to r.mem b.base (take l (from_pos r.rxbuf));
  },
)

pub fd_copy_all :
    (b : Iov) (r : Rx)
    → Sound r.rxbuf
    → 0 < length (pending r.rxbuf)
    → length (pending r.rxbuf) < b.len
    → fd_copy b r ≡ (length (pending r.rxbuf), run_out b r)
unfolding fd_copy
fd_copy_all b r s p h =
    let n = remaining_lem r.rxbuf s in
    let some_left : (remaining r.rxbuf == 0) ≡ false = ground (arith, n) in
    let less : ltb (remaining r.rxbuf) b.len ≡ true = ground (arith, n) in
    let whole : remaining r.rxbuf ≡ r.rxbuf.len - r.rxbuf.pos = n ∙ length-pending r.rxbuf s in
    if-false _ _ some_left ∙ if-true _ _ less ∙ ap₂ (ran_out b r) n whole

abbrev pub move_on : Iov → Rx → Rx
move_on b r = record r {
  rxbuf = record r.rxbuf { pos = r.rxbuf.pos + b.len };
  mem = copy_to r.mem b.base (take b.len (from_pos r.rxbuf));
}

pub fd_copy_some :
    (b : Iov) (r : Rx)
    → Sound r.rxbuf
    → 0 < length (pending r.rxbuf)
    → b.len ≤ length (pending r.rxbuf)
    → fd_copy b r ≡ (b.len, move_on b r)
unfolding fd_copy
fd_copy_some b r s p h =
    let n = remaining_lem r.rxbuf s in
    let some_left : (remaining r.rxbuf == 0) ≡ false = ground (arith, n) in
    let less : ltb (remaining r.rxbuf) b.len ≡ false = ground (arith, n) in
    if-false _ _ some_left ∙ if-false _ _ less

bytes_at-add : (n pos : ℕ) (o : Option Chunk) → bytes_at o (pos + n) ≡ drop n (bytes_at o pos)
bytes_at-add n pos none = sym (drop-all n [] (omega arith))
bytes_at-add n pos (some b) = drop-add pos n b.bytes

-- The bytes behind the position that `dill_fd_copy` moves on to.
from_pos-move_on :
    (n : ℕ) (r : Rxbuf) → from_pos (record r { pos = r.pos + n }) ≡ drop n (from_pos r)
from_pos-move_on n r = bytes_at-add n r.pos r.buf

pub move_on-Sound :
    (n : ℕ) (r : Rxbuf) → Sound r → n ≤ length (pending r) → Sound (record r { pos = r.pos + n })
move_on-Sound n r s h =
    let a = s.order in
    let b = s.size in
    let c = s.holds in
    let d = length-pending r s in
    record {
      order = omega arith;
      size = omega arith;
      holds = omega (arith, ap length (from_pos-move_on n r), length-drop n (from_pos r));
    }

pub pending-move_on :
    (n : ℕ) (r : Rxbuf)
    → Sound r
    → n ≤ length (pending r)
    → pending r ≡ take n (from_pos r) ++ pending (record r { pos = r.pos + n })
pending-move_on n r s h =
    let k = length-pending r s in
    let after = r.len - (r.pos + n) in
    ap (λ m. take m (from_pos r)) (omega arith)
    ∙ take-add n after (from_pos r)
    ∙ ap (λ l. take n (from_pos r) ++ take after l) (sym (from_pos-move_on n r))
