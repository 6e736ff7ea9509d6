-- ===== src/Iol/Tests.antt =====
-- iol.c at concrete lists.
use libdill.Base.{
  returns, fault, ◌≡◌, refl, ◌⊎◌, ◌%◌, ◌^◌, ◌≤◌, ◌<◌, true, false, none, some, List, [], ◌∷◌, ◌==◌,
  if◌then◌else◌, arith, map, leb, ok, err, einval,
}
use libdill.Iol.{
  Ptr, Heap, Memory, iolcheck, ioltoiov, ioltrim, iolto, iolfrom, mark, unmark, unmark_until,
}
use libdill.Iol.Chain.{Chain, total, set_all}
use libdill.Iol.Check.{iolcheck_lem}
use libdill.Iol.Marks.{iolcheck-leaves_marks}
use libdill.Iol.Trim.{addresses, Trimmed, ioltrim_lem}
use libdill.Iol.Copy.{write_cells, iolto_lem, iolfrom-iolto}

-- Three nodes: two buffers of 3 and 2 bytes, then 4 bytes to skip.
abbrev heap : Heap
heap p =
    if p == 1
    then record { base = some 100; len = 3; next = 2; rsvd = false }
    else if p == 2
    then record { base = some 200; len = 2; next = 3; rsvd = false }
    else record { base = none; len = 4; next = 0; rsvd = false }

abbrev nodes : List Ptr
nodes = 1 ∷ 2 ∷ 3 ∷ []

-- The first two of them alone.
abbrev heap2 : Heap
heap2 p =
    if p == 1
    then record { base = some 100; len = 3; next = 2; rsvd = false }
    else record { base = some 200; len = 2; next = 0; rsvd = false }

abbrev zeros : Memory
zeros a = 0

iolcheck_cyclic :
    iolcheck 5 (λ p. record { base = none; len = 1; next = 1; rsvd = false }) 1 2
    ≡ some (err einval, λ p. record { base = none; len = 1; next = 1; rsvd = false })
unfolding iolcheck mark unmark unmark_until
iolcheck_cyclic = refl

chain : Chain heap 1 nodes
chain = (refl, omega arith, refl, (refl, omega arith, refl, (refl, omega arith, refl, refl)))

-- With no node and nothing to drop NULL is read.
ioltrim_nothing : ioltrim 1 heap 0 0 ≡ fault
unfolding ioltrim
ioltrim_nothing = refl

iolcheck_example :
    (iolcheck 4 heap 1 3 ≡ some (ok (3, total heap nodes % 2 ^ 64), heap))
    × (ioltoiov 4 heap 1 ≡ some (map (λ p. ((heap p).base, (heap p).len)) nodes))
iolcheck_example = iolcheck_lem 4 heap 1 3 nodes (omega arith) chain refl (refl, (refl, (refl, tt)))

-- `last` is node 9, which ends a list of its own.
iolcheck-leaves_marks_example :
    iolcheck 5 heap 1 9 ≡ some (err einval, set_all heap (1 ∷ 2 ∷ []) true)
iolcheck-leaves_marks_example =
    iolcheck-leaves_marks 5 heap 1 9 3 (1 ∷ 2 ∷ []) (omega arith) chain (refl, (refl, (refl, tt)))
      (omega arith) (omega arith) refl

ioltrim_example :
    ((4 ≤ total heap nodes) × Trimmed heap nodes 4 (ioltrim 4 heap 1 4))
    ⊎ ((total heap nodes < 4) × (ioltrim 4 heap 1 4 ≡ returns none))
ioltrim_example = ioltrim_lem 4 heap 1 4 nodes (omega arith) chain (omega arith)

iolto_example :
    iolto 4 heap 1 (7 ∷ 8 ∷ 9 ∷ 10 ∷ []) 4 zeros
    ≡ returns
        (leb 4 (total heap nodes), write_cells zeros (addresses heap nodes) (7 ∷ 8 ∷ 9 ∷ 10 ∷ []))
iolto_example = iolto_lem 4 heap 1 nodes (7 ∷ 8 ∷ 9 ∷ 10 ∷ []) zeros (omega arith) chain

chain2 : Chain heap2 1 (1 ∷ 2 ∷ [])
chain2 = (refl, omega arith, refl, (refl, omega arith, refl, refl))

round_trip_example :
    (m' : Memory) × (iolto 3 heap2 1 (7 ∷ 8 ∷ 9 ∷ 10 ∷ 11 ∷ []) 5 zeros ≡ returns (true, m'))
    × (iolfrom 3 heap2 1 5 m' ≡ returns (true, 7 ∷ 8 ∷ 9 ∷ 10 ∷ 11 ∷ []))
unfolding addresses total
round_trip_example =
    iolfrom-iolto 3 heap2 1 (1 ∷ 2 ∷ []) (7 ∷ 8 ∷ 9 ∷ 10 ∷ 11 ∷ []) zeros (omega arith) chain2
      (ground arith, (ground arith, tt)) (ground arith) refl
