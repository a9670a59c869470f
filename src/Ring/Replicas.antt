-- ===== src/Ring/Replicas.antt =====
-- What `getReplicasNodes`, `checkDataBelonging` and `getNode` (src/consistent_hashing_ring.cpp)
-- give.
use cs739_cloud_native.Common.{
  ℕ, ◌+◌, ◌≤◌, ◌<◌, max, ◌≡◌, ◌⊎◌, refl, true, false, ◌||◌, List, [], ◌∷◌, arith, ltb, leb, filter,
  length, length-append, Text, contains, Bool-cases, inl, inr, contains-append, AllDistinct,
  append-AllDistinct, min_ℤ, to_size_t,
}
use mathlib.Core.List.{map-append}
use native.Mathlib.Decide.{dec_lt}
use cs739_cloud_native.Ring.{Slot, Ring, visit, get_replicas_nodes, check_data_belonging}
use cs739_cloud_native.Ring.Order.{IsSorted, InRange}
use cs739_cloud_native.Ring.Collect.{clockwise, owners, collect, contains-visit, collect-keeps}
use cs739_cloud_native.Ring.Walk.{replicas_of-collect, owner_found-collect}

-- The map is in order and its positions are values of size_t.
pub record IsRing (r : Ring) : Type 0 where
  pub sorted : IsSorted r.slots
  pub small : InRange r.slots

length-visit : (nodes : List Text) (n : Text) → length (visit nodes n) ≤ length nodes + 1
unfolding visit
length-visit nodes n = ground (arith, length-append nodes (n ∷ []))

visit-AllDistinct : (nodes : List Text) (n : Text) → AllDistinct nodes → AllDistinct (visit nodes n)
unfolding visit
visit-AllDistinct nodes n d = elim (Bool-cases (contains nodes n)) [
  | inl old ↦ rw old d
  | inr new ↦ rw new (append-AllDistinct nodes n new d)
]

pub collect-AllDistinct :
    (limit : ℕ) (nodes ns : List Text) → AllDistinct nodes → AllDistinct (collect limit nodes ns)
unfolding collect
collect-AllDistinct limit nodes [] d = d
collect-AllDistinct limit nodes (n ∷ ns) d =
    elim (Bool-cases (ltb (length (visit nodes n)) limit)) [
      | inl more ↦
          rw more (collect-AllDistinct limit (visit nodes n) ns (visit-AllDistinct nodes n d))
      | inr done ↦ rw done (visit-AllDistinct nodes n d)
    ]

pub length-collect :
    (limit : ℕ) (nodes ns : List Text)
    → length nodes < max 1 limit
    → length (collect limit nodes ns) ≤ max 1 limit
unfolding collect
length-collect limit nodes [] h = omega arith
length-collect limit nodes (n ∷ ns) h = elim (Bool-cases (ltb (length (visit nodes n)) limit)) [
  | inl more ↦ rw more (length-collect limit (visit nodes n) ns (ground arith))
  | inr done ↦ rw done (omega (arith, length-visit nodes n))
]

-- Nothing is found that is not there.
pub collect-only :
    (limit : ℕ) (nodes ns : List Text) (t : Text)
    → contains (collect limit nodes ns) t ≡ true
    → contains nodes t || contains ns t ≡ true
unfolding collect contains
collect-only limit nodes [] t h = ground arith
collect-only limit nodes (n ∷ ns) t h =
    ground (arith, contains-visit nodes n t, collect-only limit (visit nodes n) ns t)

-- Fewer than the limit are found only when there are no more.
pub collect-all :
    (limit : ℕ) (nodes ns : List Text) (t : Text)
    → length (collect limit nodes ns) < limit
    → contains ns t ≡ true
    → contains (collect limit nodes ns) t ≡ true
unfolding collect contains
collect-all limit nodes [] t h c = cc
collect-all limit nodes (n ∷ ns) t h c = elim (Bool-cases (ltb (length (visit nodes n)) limit)) [
  | inl more ↦ rw more (
      ground (
        arith,
        contains-visit nodes n t,
        collect-keeps limit (visit nodes n) ns t,
        collect-all limit (visit nodes n) ns t,
      ))
  | inr done ↦ absurd (ground arith)
]

-- The nodes on the ring.
abbrev pub members : Ring → List Text
members r = owners r.slots

contains-parts :
    (h : ℕ) (r : List Slot) (t : Text)
    → contains (owners (filter (λ e. leb h e.0) r)) t
        || contains (owners (filter (λ e. ltb e.0 h) r)) t
      ≡ contains (owners r) t
unfolding contains
contains-parts h [] t = refl
contains-parts h (e ∷ r) t = ground (arith, contains-parts h r t)

contains-clockwise :
    (h : ℕ) (slots : List Slot) (t : Text)
    → contains (owners (clockwise h slots)) t ≡ contains (owners slots) t
unfolding clockwise
contains-clockwise h slots t = rw (map-append, contains-append) (contains-parts h slots t)

-- how many nodes `getReplicasNodes` asks for
abbrev pub asked : Ring → ℕ → ℕ
asked r num_replicas = to_size_t (min_ℤ r.node_count num_replicas)

-- On a map in order, `getReplicasNodes` gives distinct nodes, at most as many as it asks for (or
-- one), each of them on the ring; and where it gives fewer than it asks for, all that are on the
-- ring.
pub get_replicas_nodes_lem :
    (hash : Text → ℕ) (r : Ring) (key : Text) (num_replicas : ℕ) (t : Text)
    → IsRing r
    → let nodes = get_replicas_nodes hash r key num_replicas in
      AllDistinct nodes
      × (length nodes ≤ max 1 (asked r num_replicas))
      × (contains nodes t || contains (members r) t ≡ contains (members r) t)
      × ((asked r num_replicas ≤ length nodes) ⊎ (contains nodes t ≡ contains (members r) t))
unfolding get_replicas_nodes
get_replicas_nodes_lem hash r key num_replicas t ok =
    let limit = asked r num_replicas in
    let order = owners (clockwise (hash key) r.slots) in
    let none_yet : contains [] t ≡ false = unfold contains in refl in
    let sub : contains (collect limit [] order) t || contains (members r) t
        ≡ contains (members r) t =
      ground (arith, collect-only limit [] order t, contains-clockwise (hash key) r.slots t) in
    rw (replicas_of-collect hash r.slots limit key ok.sorted ok.small) (
      collect-AllDistinct limit [] order tt,
      length-collect limit [] order (omega arith),
      sub,
      elim (dec_lt (length (collect limit [] order)) limit) [
        | no full ↦ inl (omega arith)
        | yes h ↦ inr (
            ground (arith, collect-all limit [] order t h, contains-clockwise (hash key) r.slots t))
      ],
    )

-- Where as many nodes are counted as replicas are wanted, `checkDataBelonging` says of a node
-- whether it is among the nodes that `getReplicasNodes` gives.
pub check_data_belonging-replicas :
    (hash : Text → ℕ) (r : Ring) (key node : Text) (num_replicas : ℕ)
    → IsRing r
    → asked r num_replicas ≡ num_replicas
    → check_data_belonging hash r key node num_replicas
      ≡ contains (get_replicas_nodes hash r key num_replicas) node
unfolding check_data_belonging get_replicas_nodes
check_data_belonging-replicas hash r key node num_replicas ok e = rw (
  owner_found-collect hash r.slots num_replicas key node ok.sorted ok.small,
  replicas_of-collect hash r.slots (asked r num_replicas) key ok.sorted ok.small,
  e,
)
