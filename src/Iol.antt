-- ===== src/Iol.antt =====
-- iol.c: scatter/gather lists of buffers. The `struct iolist` nodes live in a heap, a pointer is a
-- number and NULL is 0; the buffers' bytes live in a memory of their own.
-- The loops run on fuel; `Chain.antt` gives the lists on which the number of nodes is enough.
pub mod Chain
pub mod Check
pub mod Marks
pub mod Trim
pub mod Copy
pub mod Tests
use mathlib.Core.Option
use libdill.Base.{
  ℕ, zero, suc, ◌+◌, ◌-◌, ◌%◌, ◌^◌, Bool, true, false, ◌||◌, ◌&&◌, not, Option, none, some, List,
  [], ◌∷◌, ltb, leb, ◌==◌, if◌then◌else◌, take, drop, Errno, einval, Result, ok, err, ◌++◌, Run,
  returns, fault, out_of_fuel,
}

abbrev pub Ptr : Type 0
Ptr = ℕ

-- `struct iolist`. `base` is `none` for NULL, which stands for bytes to be skipped.
pub record Iol : Type 0 where
  pub base : Option ℕ
  pub len : ℕ
  pub next : Ptr
  pub rsvd : Bool

abbrev pub Heap : Type 0
Heap = Ptr → Iol

abbrev pub set_rsvd : Heap → Ptr → Bool → Heap
set_rsvd h p b a = if a == p then record (h a) { rsvd = b } else h a

-- The first loop of `dill_iolcheck`: it ends at NULL with the counts, or at the node that is refused.
pub data Scan : Type 0 where
  counted : (nbufs nbytes : ℕ) → Heap → Scan
  refused : Ptr → Heap → Scan
  running : Scan

unfoldable pub mark : ℕ → Ptr → Heap → Ptr → ℕ → ℕ → Scan
mark zero last h it nbf nbt = running
mark (suc fuel) last h it nbf nbt =
    let rest =
      mark fuel last (set_rsvd h it true) (h it).next (nbf + 1) ((nbt + (h it).len) % 2 ^ 64) in
    if it == 0
    then counted nbf nbt h
    else if (h it).rsvd || ((h it).next == 0 && not (it == last))
    then refused it h
    else rest

-- `for(it = first; it; it = it->iol_next) it->iol_rsvd = 0;`
unfoldable pub unmark : ℕ → Heap → Ptr → Option Heap
unmark zero h it = none
unmark (suc fuel) h it =
    let rest = unmark fuel (set_rsvd h it false) (h it).next in if it == 0 then some h else rest

-- `for(it2 = first; it2 != it; it2 = it2->iol_next) it->iol_rsvd = 0;`
unfoldable pub unmark_until : ℕ → Ptr → Heap → Ptr → Option Heap
unmark_until zero it h it2 = none
unmark_until (suc fuel) it h it2 =
    let rest = unmark_until fuel it (set_rsvd h it false) (h it2).next in
    if it2 == it then some h else rest

-- The call's result and the heap that it leaves; `none` if the fuel ran out.
abbrev pub Checked : Type 0
Checked = Option (Result (ℕ × ℕ) × Heap)

unfoldable pub iolcheck : ℕ → Heap → (first last : Ptr) → Checked
iolcheck fuel h first last =
    if first == 0 && last == 0
    then some (ok (0, 0), h)
    else if first == 0 || (last == 0 || not ((h last).next == 0))
    then some (err einval, h)
    else elim (mark fuel last h first 0 0) [
      | counted nbf nbt g ↦ Option.map (λ (k : Heap). (ok (nbf, nbt), k)) (unmark fuel g first)
      | refused it g ↦ Option.map (λ (k : Heap). (err einval, k)) (unmark_until fuel it g first)
      | running ↦ none
    ]

-- `dill_ioltoiov`: the entries written to the `struct iovec` array.
unfoldable pub ioltoiov : ℕ → Heap → Ptr → Option (List (Option ℕ × ℕ))
ioltoiov zero h first = none
ioltoiov (suc fuel) h first =
    let rest = ioltoiov fuel h (h first).next in
    if first == 0 then some [] else Option.map (λ iov. ((h first).base, (h first).len) ∷ iov) rest

-- `first->iol_base + n`, NULL for NULL.
abbrev pub advance : ℕ → Option ℕ → Option ℕ
advance n none = none
advance n (some b) = some (b + n)

-- The end of `dill_ioltrim`. Behind a list that has no node `first` is NULL and is read.
abbrev pub trimmed : Heap → Ptr → ℕ → Run (Option Iol)
trimmed h first n =
    if first == 0
    then fault
    else returns (
        some (record {
          base = advance n (h first).base;
          len = (h first).len - n;
          next = (h first).next;
          rsvd = false;
        }))

-- `dill_ioltrim`: the trimmed first node, or `none` for -1.
unfoldable pub ioltrim : ℕ → Heap → Ptr → ℕ → Run (Option Iol)
ioltrim zero h first n = out_of_fuel
ioltrim (suc fuel) h first n =
    let rest = ioltrim fuel h (h first).next (n - (h first).len) in
    if n == 0
    then trimmed h first n
    else if first == 0
    then returns none
    else if leb n (h first).len
    then trimmed h first n
    else rest

-- The bytes of the buffers.
abbrev pub Memory : Type 0
Memory = ℕ → ℕ

abbrev pub store : Memory → ℕ → ℕ → Memory
store m p v a = if a == p then v else m a

-- `memcpy` to memory, and from it; to NULL nothing is copied.
unfoldable pub memcpy : Memory → ℕ → List ℕ → Memory
memcpy m p [] = m
memcpy m p (v ∷ vs) = memcpy (store m p v) (p + 1) vs

abbrev pub copy_to : Memory → Option ℕ → List ℕ → Memory
copy_to m none vs = m
copy_to m (some p) vs = memcpy m p vs

-- `dill_iolto`: whether all of `src` had room, and the memory.
unfoldable pub iolto : ℕ → Heap → Ptr → List ℕ → ℕ → Memory → Run (Bool × Memory)
iolto zero h first p srclen m = out_of_fuel
iolto (suc fuel) h first p srclen m =
    let n = (h first).len in
    let rest =
      iolto fuel h (h first).next (drop n p) (srclen - n) (copy_to m (h first).base (take n p)) in
    if srclen == 0
    then returns (true, m)
    else if first == 0
    then returns (false, m)
    else if leb srclen n
    then returns (true, copy_to m (h first).base (take srclen p))
    else rest

unfoldable pub read_bytes : Memory → ℕ → ℕ → List ℕ
read_bytes m p zero = []
read_bytes m p (suc n) = m p ∷ read_bytes m (p + 1) n

-- `dill_iolfrom`: the bytes written to `dst`, and whether `dst` had room for all.
-- `memcpy` from NULL is a fault unless it copies nothing.
unfoldable pub iolfrom : ℕ → Heap → Ptr → ℕ → Memory → Run (Bool × List ℕ)
iolfrom zero h first dstlen m = out_of_fuel
iolfrom (suc fuel) h first dstlen m =
    let n = (h first).len in
    let rest = iolfrom fuel h (h first).next (dstlen - n) m in
    if first == 0
    then returns (true, [])
    else if ltb dstlen n
    then returns (false, [])
    else elim (h first).base [
      | none ↦ if n == 0 then rest else fault
      | some b ↦ elim rest [
        | returns (done, bytes) ↦ returns (done, read_bytes m b n ++ bytes)
        | fault ↦ fault
        | out_of_fuel ↦ out_of_fuel
      ]
    ]
