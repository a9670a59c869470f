-- ===== src/Ring/Membership.antt =====
-- `addNode` and `removeNode` (src/consistent_hashing_ring.cpp).
use cs739_cloud_native.Common.{
  ℕ, zero, suc, ◌+◌, ◌≤◌, ◌<◌, ◌≡◌, refl, ap, Bool, true, false, ◌||◌, Option, none, some, List, [],
  ◌∷◌, arith, ◌==◌, if◌then◌else◌, All, Text, Bool-cases, inl, inr, pred_ℤ, pred_ℤ-succ_ℤ,
}
use cs739_cloud_native.Ring.{
  Slot, Ring, size_mod, place, erase_at, position, place_all, erase_all, add_node, remove_node,
}
use cs739_cloud_native.Ring.Order.{
  IsSorted, InRange, place-IsSorted, erase_at-IsSorted, All-place, All-erase_at,
}
use cs739_cloud_native.Ring.Replicas.{IsRing}

-- the owner of a position
unfoldable pub owner_at : ℕ → List Slot → Option Text
owner_at p [] = none
owner_at p ((q, m) ∷ r) = if p == q then some m else owner_at p r

owner_at-above : (p q : ℕ) (r : List Slot) → p ≤ q → All (λ e. q < e.0) r → owner_at p r ≡ none
unfolding owner_at
owner_at-above p q [] l h = refl
owner_at-above p q ((k, m) ∷ r) l h = ground (arith, owner_at-above p q r l h.1)

owner_at-place :
    (p : ℕ) (n : Text) (t : ℕ) (r : List Slot)
    → owner_at t (place p n r) ≡ (if t == p then some n else owner_at t r)
unfolding owner_at place
owner_at-place p n t [] = refl
owner_at-place p n t ((q, m) ∷ r) = ground (arith, owner_at-place p n t r)

owner_at-erase_at :
    (p t : ℕ) (r : List Slot)
    → IsSorted r
    → owner_at t (erase_at p r) ≡ (if t == p then none else owner_at t r)
unfolding owner_at erase_at
owner_at-erase_at p t [] s = ground arith
owner_at-erase_at p t ((q, m) ∷ r) s = elim (Bool-cases (p == q)) [
  | inl eq ↦
      let e : p ≡ q = ground arith in
      ground (arith, owner_at-above q q r (omega arith) s.0, ap (λ k. owner_at k r) e)
  | inr ne ↦ ground (arith, owner_at-erase_at p t r s.1)
]

-- Two maps in order with the same owners are the same map.
sorted_ext :
    (r s : List Slot) → IsSorted r → IsSorted s → ((p : ℕ) → owner_at p r ≡ owner_at p s) → r ≡ s
unfolding owner_at
sorted_ext [] [] a b h = refl
sorted_ext [] ((q, m) ∷ s) a b h = let e = h q in absurd (ground arith)
sorted_ext ((q, m) ∷ r) [] a b h = let e = h q in absurd (ground arith)
sorted_ext ((p, n) ∷ r) ((q, m) ∷ s) a b h =
    let low = h p in
    let high = h q in
    let pq : p ≡ q = ground (arith, owner_at-above p q s, owner_at-above q p r, b.0, a.0) in
    let nm : n ≡ m = ground arith in
    let rest : r ≡ s =
      sorted_ext r s a.1 b.1
        λ k. let e = h k in ground (arith, owner_at-above k p r, owner_at-above k q s, a.0, b.0) in
    rw (pq, nm, rest)

module _ (hash : Text → ℕ) where
  -- the position is one of those of the node, from round `i` on
  taken : Text → ℕ → ℕ → ℕ → Bool
  taken node zero i p = false
  taken node (suc k) i p = p == position hash node i || taken node k (suc i) p

  owner_at-place_all :
      (node : Text) (k i p : ℕ) (r : List Slot)
      → owner_at p (place_all hash node k i r)
        ≡ (if taken node k i p then some node else owner_at p r)
  unfolding place_all taken
  owner_at-place_all node zero i p r = refl
  owner_at-place_all node (suc k) i p r = ground (
    arith,
    owner_at-place_all node k (suc i) p (place (position hash node i) node r),
    owner_at-place (position hash node i) node p r,
  )

  place_all-IsSorted :
      (node : Text) (k i : ℕ) (r : List Slot) → IsSorted r → IsSorted (place_all hash node k i r)
  unfolding place_all
  place_all-IsSorted node zero i r s = s
  place_all-IsSorted node (suc k) i r s =
      place_all-IsSorted node k (suc i) _ (place-IsSorted (position hash node i) node r s)

  erase_all-IsSorted :
      (node : Text) (k i : ℕ) (r : List Slot) → IsSorted r → IsSorted (erase_all hash node k i r)
  unfolding erase_all
  erase_all-IsSorted node zero i r s = s
  erase_all-IsSorted node (suc k) i r s =
      erase_all-IsSorted node k (suc i) _ (erase_at-IsSorted (position hash node i) r s)

  owner_at-erase_all :
      (node : Text) (k i p : ℕ) (r : List Slot)
      → IsSorted r
      → owner_at p (erase_all hash node k i r) ≡ (if taken node k i p then none else owner_at p r)
  unfolding erase_all taken
  owner_at-erase_all node zero i p r s = refl
  owner_at-erase_all node (suc k) i p r s = ground (
    arith,
    owner_at-erase_all node k (suc i) p (erase_at (position hash node i) r)
        (erase_at-IsSorted (position hash node i) r s),
    owner_at-erase_at (position hash node i) p r s,
  )

  module _ (hash-lt : (t : Text) → hash t < size_mod) where
    place_all-InRange :
        (node : Text) (k i : ℕ) (r : List Slot) → InRange r → InRange (place_all hash node k i r)
    unfolding place_all position
    place_all-InRange node zero i r s = s
    place_all-InRange node (suc k) i r s =
        place_all-InRange node k (suc i) _
          (All-place (λ e. e.0 < size_mod) _ node r (λ _. hash-lt _) s)

    -- For a hash with values of size_t, adding a node keeps the map in order and its positions in
    -- the range of size_t.
    pub add_node-IsRing : (r : Ring) (node : Text) → IsRing r → IsRing (add_node hash r node)
    unfolding add_node
    add_node-IsRing r node ok = record {
      sorted = place_all-IsSorted node r.num_virtual_nodes 0 r.slots ok.sorted;
      small = place_all-InRange node r.num_virtual_nodes 0 r.slots ok.small;
    }

  erase_all-InRange :
      (node : Text) (k i : ℕ) (r : List Slot) → InRange r → InRange (erase_all hash node k i r)
  unfolding erase_all
  erase_all-InRange node zero i r s = s
  erase_all-InRange node (suc k) i r s =
      erase_all-InRange node k (suc i) _ (All-erase_at (λ e. e.0 < size_mod) _ r s)

  -- Removing a node keeps the map in order and its positions in the range of size_t.
  pub remove_node-IsRing : (r : Ring) (node : Text) → IsRing r → IsRing (remove_node hash r node)
  unfolding remove_node
  remove_node-IsRing r node ok = record {
    sorted = erase_all-IsSorted node r.num_virtual_nodes 0 r.slots ok.sorted;
    small = erase_all-InRange node r.num_virtual_nodes 0 r.slots ok.small;
  }

  -- no position of the node is in use
  abbrev pub IsFree : Ring → Text → Type 0
  IsFree r node = (i : ℕ) → i < r.num_virtual_nodes → owner_at (position hash node i) r.slots ≡ none

  owner_of_taken :
      (node : Text) (k i p : ℕ) (r : List Slot)
      → ((j : ℕ) → i ≤ j → j < i + k → owner_at (position hash node j) r ≡ none)
      → taken node k i p ≡ true
      → owner_at p r ≡ none
  unfolding taken
  owner_of_taken node zero i p r h t = cc
  owner_of_taken node (suc k) i p r h t = elim (Bool-cases (p == position hash node i)) [
    | inl eq ↦
        let e : p ≡ position hash node i = ground arith in rw e (h i (omega arith) (omega arith))
    | inr ne ↦
        owner_of_taken node k (suc i) p r (λ j a b. h j (omega arith) (omega arith)) (rw ne at t)
  ]

  -- On a ring in order, where none of a node's positions is in use, removing the node just after
  -- adding it gives back the ring and the count as they were.
  pub remove_node-add_node :
      (r : Ring) (node : Text)
      → IsRing r
      → IsFree r node
      → remove_node hash (add_node hash r node) node ≡ r
  unfolding remove_node add_node
  remove_node-add_node r node ok free =
      let k = r.num_virtual_nodes in
      let placed = place_all-IsSorted node k 0 r.slots ok.sorted in
      let slots : erase_all hash node k 0 (place_all hash node k 0 r.slots) ≡ r.slots =
        sorted_ext _ r.slots (erase_all-IsSorted node k 0 _ placed) ok.sorted λ p. ground (
          arith,
          owner_at-erase_all node k 0 p (place_all hash node k 0 r.slots) placed,
          owner_at-place_all node k 0 p r.slots,
          owner_of_taken node k 0 p r.slots (λ j a b. free j (omega arith)),
        ) in
      λ i. record {
        num_virtual_nodes = k;
        slots = slots i;
        node_count = pred_ℤ-succ_ℤ r.node_count i;
      }

  -- On a ring in order, a second removal of a node leaves the map as the first one did, and yet
  -- counts one node less.
  pub remove_node-twice :
      (r : Ring) (node : Text)
      → IsRing r
      → remove_node hash (remove_node hash r node) node
        ≡ record (remove_node hash r node) { node_count = pred_ℤ (pred_ℤ r.node_count) }
  unfolding remove_node
  remove_node-twice r node ok =
      let k = r.num_virtual_nodes in
      let once = erase_all-IsSorted node k 0 r.slots ok.sorted in
      let slots : erase_all hash node k 0 (erase_all hash node k 0 r.slots)
          ≡ erase_all hash node k 0 r.slots =
        sorted_ext _ _ (erase_all-IsSorted node k 0 _ once) once λ p. ground (
          arith,
          owner_at-erase_all node k 0 p (erase_all hash node k 0 r.slots) once,
          owner_at-erase_all node k 0 p r.slots ok.sorted,
        ) in
      λ i. record {
        num_virtual_nodes = k;
        slots = slots i;
        node_count = pred_ℤ (pred_ℤ r.node_count);
      }
