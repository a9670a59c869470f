-- ===== src/Ring/Collect.antt =====
-- The loops of `getReplicasNodes` and `checkDataBelonging` (src/consistent_hashing_ring.cpp) along
-- the entries that they meet.
use cs739_cloud_native.Common.{
  ℕ, zero, suc, ◌<◌, ◌≡◌, ◌≢◌, true, false, ◌||◌, some, List, [], ◌∷◌, ◌++◌, map, arith, ltb, leb,
  if◌then◌else◌, filter, length, Text, text_eq, contains, contains-append, text_eq_iff,
}
use cs739_cloud_native.Ring.{Slot, advance, visit, gather, search_owner}

-- The entries at or after a position, then those before it.
unfoldable pub clockwise : ℕ → List Slot → List Slot
clockwise h slots = filter (λ e. leb h e.0) slots ++ filter (λ e. ltb e.0 h) slots

abbrev pub owners : List Slot → List Text
owners = map λ e. e.1

-- The distinct names of a list in order of first occurrence, until `limit` are found; one at least.
unfoldable pub collect : ℕ → List Text → List Text → List Text
unfolding visit
collect limit nodes [] = nodes
collect limit nodes (n ∷ ns) =
    let rest = collect limit (visit nodes n) ns in
    if ltb (length (visit nodes n)) limit then rest else visit nodes n

-- `es` are the entries that the walk meets after `it`, before it is back at `begin`.
abbrev pub Follows : Slot → List Slot → ℕ → Slot → List Slot → Type 0
Follows first slots begin it [] = (advance first slots it).0 ≡ begin
Follows first slots begin it (e ∷ es) =
    (advance first slots it ≡ e) × (e.0 ≢ begin) × Follows first slots begin e es

pub gather-collect :
    (fuel : ℕ) (first : Slot) (slots : List Slot) (limit begin : ℕ) (it : Slot) (es : List Slot)
    (nodes : List Text)
    → length es < fuel
    → Follows first slots begin it es
    → gather fuel first slots limit begin it nodes ≡ some (collect limit nodes (owners (it ∷ es)))
unfolding gather collect
gather-collect zero first slots limit begin it es nodes h f = elim h [ ]
gather-collect (suc fuel) first slots limit begin it [] nodes h f = ground arith
gather-collect (suc fuel) first slots limit begin it (e ∷ es) nodes h (a, n, f) = rw a (
    ground
      (arith, gather-collect fuel first slots limit begin e es (visit nodes it.1) (omega arith) f))

pub contains-visit :
    (nodes : List Text) (n t : Text) → contains (visit nodes n) t ≡ contains nodes t || text_eq n t
unfolding visit contains
contains-visit nodes n t = ground (arith, contains-append nodes (n ∷ []) t, text_eq_iff n t)

pub collect-keeps :
    (limit : ℕ) (nodes ns : List Text) (t : Text)
    → contains nodes t ≡ true
    → contains (collect limit nodes ns) t ≡ true
unfolding collect
collect-keeps limit nodes [] t h = h
collect-keeps limit nodes (n ∷ ns) t h =
    ground (arith, contains-visit nodes n t, collect-keeps limit (visit nodes n) ns t)

pub search_owner-collect :
    (fuel : ℕ) (first : Slot) (slots : List Slot) (limit begin : ℕ) (it : Slot) (es : List Slot)
    (node : Text) (nodes : List Text)
    → length es < fuel
    → contains nodes node ≡ false
    → Follows first slots begin it es
    → search_owner fuel first slots limit begin it node nodes
      ≡ some (contains (collect limit nodes (owners (it ∷ es))) node)
unfolding search_owner collect
search_owner-collect zero first slots limit begin it es node nodes h c f = elim h [ ]
search_owner-collect (suc fuel) first slots limit begin it [] node nodes h c f =
    ground (arith, contains-visit nodes it.1 node, text_eq_iff it.1 node)
search_owner-collect (suc fuel) first slots limit begin it (e ∷ es) node nodes h c (a, n, f) =
    rw (a, search_owner)
      (ground (
        arith,
        contains-visit nodes it.1 node,
        text_eq_iff it.1 node,
        collect-keeps limit (visit nodes it.1) (owners (e ∷ es)) node,
        search_owner-collect fuel first slots limit begin e es node (visit nodes it.1)
            (omega arith),
      ))
