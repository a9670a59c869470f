-- ===== src/Tests/Rings.antt =====
-- Runs of the ring (src/consistent_hashing_ring.cpp).
use cs739_cloud_native.Common.{
  ℕ, ◌+◌, ◌*◌, ◌%◌, ◌≤◌, ◌<◌, max, ◌≡◌, ◌⊎◌, refl, ◌||◌, [], ◌∷◌, arith, length, Text, text,
  text_eq, contains, AllDistinct, print_u64, digits_of, pred_ℤ,
}
use cs739_cloud_native.Ring.{
  Ring, size_mod, new, place, erase_at, lower_bound, seek, advance, visit, gather, search_owner,
  position, place_all, erase_all, add_node, remove_node, get_node, replicas_of, get_replicas_nodes,
  owner_found, check_data_belonging,
}
use cs739_cloud_native.Ring.Collect.{clockwise, owners, collect}
use cs739_cloud_native.Ring.Walk.{replicas_of-collect}
use cs739_cloud_native.Ring.Replicas.{
  IsRing, members, asked, get_replicas_nodes_lem, check_data_belonging-replicas,
}
use cs739_cloud_native.Ring.Membership.{
  owner_at, IsFree, add_node-IsRing, remove_node-add_node, remove_node-twice,
}

unfoldable pub walks : Unit {0}
unfolding text_eq contains print_u64 digits_of place erase_at lower_bound seek advance visit gather
    search_owner position place_all erase_all add_node remove_node get_node replicas_of
    get_replicas_nodes owner_found check_data_belonging owner_at
walks = tt

-- a hash that tells short names apart
unfoldable pub spread : Text → ℕ
spread [] = 0
spread (c ∷ t) = (c + 3 * spread t) % size_mod

pub spread-lt : (t : Text) → spread t < size_mod
unfolding spread
spread-lt [] = omega arith
spread-lt (c ∷ t) = omega arith

-- two positions for each of the nodes A and B
abbrev empty : Ring
empty = new 2

abbrev with_a : Ring
with_a = add_node spread empty (text "A")

abbrev pub with_both : Ring
with_both = add_node spread with_a (text "B")

positions :
    with_both.slots ≡ (209, text "A") ∷ (210, text "B") ∷ (212, text "A") ∷ (213, text "B") ∷ []
unfolding walks spread
positions = refl

both_nodes : get_replicas_nodes spread with_both (text "k") 3 ≡ text "A" ∷ text "B" ∷ []
unfolding walks spread
both_nodes = refl

empty-IsRing : IsRing empty
empty-IsRing = record { sorted = tt; small = tt }

pub with_both-IsRing : IsRing with_both
with_both-IsRing =
    add_node-IsRing spread spread-lt with_a (text "B")
      (add_node-IsRing spread spread-lt empty (text "A") empty-IsRing)

replicas_of-collect_example :
    replicas_of spread with_both.slots 2 (text "k")
    ≡ collect 2 [] (owners (clockwise (spread (text "k")) with_both.slots))
replicas_of-collect_example =
    replicas_of-collect spread with_both.slots 2 (text "k") with_both-IsRing.sorted
      with_both-IsRing.small

get_replicas_nodes_lem_example :
    AllDistinct (get_replicas_nodes spread with_both (text "k") 3)
    × (length (get_replicas_nodes spread with_both (text "k") 3) ≤ max 1 (asked with_both 3))
    × (contains (get_replicas_nodes spread with_both (text "k") 3) (text "B")
          || contains (members with_both) (text "B")
        ≡ contains (members with_both) (text "B"))
    × ((asked with_both 3 ≤ length (get_replicas_nodes spread with_both (text "k") 3))
        ⊎ (contains (get_replicas_nodes spread with_both (text "k") 3) (text "B")
            ≡ contains (members with_both) (text "B")))
get_replicas_nodes_lem_example =
    get_replicas_nodes_lem spread with_both (text "k") 3 (text "B") with_both-IsRing

asked_two : asked with_both 2 ≡ 2
unfolding walks
asked_two = refl

check_data_belonging-replicas_example :
    check_data_belonging spread with_both (text "k") (text "A") 2
    ≡ contains (get_replicas_nodes spread with_both (text "k") 2) (text "A")
check_data_belonging-replicas_example =
    check_data_belonging-replicas spread with_both (text "k") (text "A") 2 with_both-IsRing
      asked_two

empty-IsFree : IsFree spread empty (text "A")
unfolding owner_at
empty-IsFree i h = refl

remove_node-add_node_example :
    remove_node spread (add_node spread empty (text "A")) (text "A") ≡ empty
remove_node-add_node_example =
    remove_node-add_node spread empty (text "A") empty-IsRing empty-IsFree

remove_node-twice_example :
    remove_node spread (remove_node spread with_both (text "A")) (text "A")
    ≡ record (remove_node spread with_both (text "A")) {
      node_count = pred_ℤ (pred_ℤ with_both.node_count);
    }
remove_node-twice_example = remove_node-twice spread with_both (text "A") with_both-IsRing
