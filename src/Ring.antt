-- ===== src/Ring.antt =====
-- The class ConsistentHashingRing of src/consistent_hashing_ring.h and
-- src/consistent_hashing_ring.cpp. `hash` is std::hash<std::string>, of which the code fixes only
-- the range.
pub mod Order
pub mod Collect
pub mod Steps
pub mod Walk
pub mod Replicas
pub mod Membership
use cs739_cloud_native.Common.{
  ℕ, zero, suc, ◌+◌, ◌%◌, ◌^◌, Bool, true, false, not, ◌&&◌, ◌||◌, Option, none, some, get_or, List,
  [], ◌∷◌, ◌++◌, ltb, leb, ◌==◌, if◌then◌else◌, length, Text, text_eq, contains, print_u64, ℤ, pos,
  succ_ℤ, pred_ℤ, min_ℤ, to_size_t,
}

-- An entry of std::map<size_t, std::string>: a position and the node that owns it.
abbrev pub Slot : Type 0
Slot = ℕ × Text

abbrev pub size_mod : ℕ
size_mod = 2 ^ 64

-- The map is the list of its entries in the order of their positions.
pub record Ring : Type 0 where
  pub num_virtual_nodes : ℕ
  pub slots : List Slot
  pub node_count : ℤ

-- The constructor.
abbrev pub new : ℕ → Ring
new num_virtual_nodes = record {
  num_virtual_nodes = num_virtual_nodes;
  slots = [];
  node_count = pos 0;
}

-- ring_[position] = node
unfoldable pub place : ℕ → Text → List Slot → List Slot
place p n [] = (p, n) ∷ []
place p n ((q, m) ∷ r) =
    if ltb p q then (p, n) ∷ (q, m) ∷ r else if p == q then (q, n) ∷ r else (q, m) ∷ place p n r

-- ring_.erase(position)
unfoldable pub erase_at : ℕ → List Slot → List Slot
erase_at p [] = []
erase_at p ((q, m) ∷ r) = if p == q then r else (q, m) ∷ erase_at p r

-- ring_.lower_bound(i): the first entry at or after the position, `none` for end()
unfoldable pub lower_bound : ℕ → List Slot → Option Slot
lower_bound i [] = none
lower_bound i (e ∷ r) = if leb i e.0 then some e else lower_bound i r

-- lower_bound, or begin() where it is end(); `first` is the entry at begin()
unfoldable pub seek : Slot → List Slot → ℕ → Slot
unfolding lower_bound
seek first slots i = get_or (lower_bound i slots) first

-- the entry after `it`, clockwise: `i = it->first + 1` in a size_t, and a lower_bound from there
unfoldable pub advance : Slot → List Slot → Slot → Slot
unfolding seek
advance first slots it = seek first slots ((it.0 + 1) % size_mod)

-- The nodes found so far; the unordered_set beside the vector has the same members.
unfoldable pub visit : List Text → Text → List Text
visit nodes node = if contains nodes node then nodes else nodes ++ node ∷ []

-- The do-while loop of `getReplicasNodes`, on fuel.
unfoldable pub gather : ℕ → Slot → List Slot → ℕ → ℕ → Slot → List Text → Option (List Text)
unfolding visit advance
gather zero first slots limit begin it nodes = none
gather (suc fuel) first slots limit begin it nodes =
    let nodes' = visit nodes it.1 in
    let it' = advance first slots it in
    let rest = gather fuel first slots limit begin it' nodes' in
    if ltb (length nodes') limit && not (it'.0 == begin) then rest else some nodes'

-- The do-while loop of `checkDataBelonging`, on fuel.
unfoldable pub search_owner : ℕ → Slot → List Slot → ℕ → ℕ → Slot → Text → List Text → Option Bool
unfolding advance
search_owner zero first slots limit begin it node nodes = none
search_owner (suc fuel) first slots limit begin it node nodes =
    let nodes' = if contains nodes it.1 then nodes else nodes ++ it.1 ∷ [] in
    let it' = advance first slots it in
    let rest = search_owner fuel first slots limit begin it' node nodes' in
    let go_on = if ltb (length nodes') limit && not (it'.0 == begin) then rest else some false in
    if contains nodes it.1 then go_on else if text_eq it.1 node then some true else go_on

module _ (hash : Text → ℕ) where
  -- hashFunction(node_id + std::to_string(i))
  unfoldable pub position : Text → ℕ → ℕ
  position node i = hash (node ++ print_u64 i)

  -- for (i …; i < num_virtual_nodes_; ++i) ring_[hash] = node_id, with the rounds that are left
  unfoldable pub place_all : Text → ℕ → ℕ → List Slot → List Slot
  unfolding position
  place_all node zero i r = r
  place_all node (suc k) i r = place_all node k (suc i) (place (position node i) node r)

  unfoldable pub erase_all : Text → ℕ → ℕ → List Slot → List Slot
  unfolding position
  erase_all node zero i r = r
  erase_all node (suc k) i r = erase_all node k (suc i) (erase_at (position node i) r)

  unfoldable pub add_node : Ring → Text → Ring
  unfolding place_all
  add_node r node = record r {
    node_count = succ_ℤ r.node_count;
    slots = place_all node r.num_virtual_nodes 0 r.slots;
  }

  unfoldable pub remove_node : Ring → Text → Ring
  unfolding erase_all
  remove_node r node = record r {
    node_count = pred_ℤ r.node_count;
    slots = erase_all node r.num_virtual_nodes 0 r.slots;
  }

  unfoldable pub get_node : Ring → Text → Text
  unfolding seek
  get_node r key = elim r.slots [
    | [] ↦ []
    | first ∷ rest ↦ (seek first (first ∷ rest) (hash key)).1
  ]

  -- The loop of `getReplicasNodes` over the map that is not empty, with fuel for one round for each
  -- entry.
  unfoldable pub replicas_of : List Slot → ℕ → Text → List Text
  replicas_of [] limit key = []
  replicas_of (first ∷ rest) limit key =
      let it = seek first (first ∷ rest) (hash key) in
      get_or (gather (suc (length rest)) first (first ∷ rest) limit it.0 it []) []

  unfoldable pub get_replicas_nodes : Ring → Text → ℕ → List Text
  get_replicas_nodes r key num_replicas =
      replicas_of r.slots (to_size_t (min_ℤ r.node_count num_replicas)) key

  unfoldable pub owner_found : List Slot → ℕ → Text → Text → Bool
  owner_found [] limit key node = false
  owner_found (first ∷ rest) limit key node =
      let it = seek first (first ∷ rest) (hash key) in
      get_or (search_owner (suc (length rest)) first (first ∷ rest) limit it.0 it node []) false

  unfoldable pub check_data_belonging : Ring → Text → Text → ℕ → Bool
  check_data_belonging r key node num_replicas = owner_found r.slots num_replicas key node
