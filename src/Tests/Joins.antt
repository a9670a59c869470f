-- ===== src/Tests/Joins.antt =====
-- Runs of JoinNetwork and leaveNetwork (src/gossip_node.cpp): a fourth server joins three, and one
-- of four leaves.
use cs739_cloud_native.Common.{
  keys, false, ◌≡◌, refl, [], ◌∷◌, some, text, text_eq, lookup, IsDistinct, true, contains,
}
use cs739_cloud_native.StateMachine
use cs739_cloud_native.Node.{
  Node, replica_n, get_join_transfer_key, not_belonging, add_stub, newly_belonging,
  get_leave_transfer_key, receive_leave,
}
use cs739_cloud_native.Membership.{
  set_heartbeat, drop_key, forget, hand_over, receive_join, retry_put, give_away, tell_leaving,
  leave_network,
}
use cs739_cloud_native.Membership.Leave.{Left, leave_network-Left}
use cs739_cloud_native.Membership.Readings.{held}
use cs739_cloud_native.Membership.Moved.{MovedAll}
use cs739_cloud_native.Membership.Join.{receive_join-MovedAll}
use cs739_cloud_native.Ring.{Ring, add_node, remove_node, check_data_belonging}
use cs739_cloud_native.StateMachine.{get_all_keys, flush_to_disk, get_value, get_version}
use cs739_cloud_native.Cluster.{World}
use cs739_cloud_native.Cluster.Frame.{store_of}
use cs739_cloud_native.Tests.Rings.{spread, with_both}
use cs739_cloud_native.Tests.Processes.{calls, process, env, reached}

-- Three servers that know each other, one of them with data, when a fourth joins.
abbrev pub ring_of_three : Ring
ring_of_three = add_node spread with_both (text "C")

abbrev holder : Node
holder = record (process (text "A")) {
  ring = ring_of_three;
  state_machine =
      StateMachine.put (process (text "A")).state_machine (text "B0") (text "v")
        ((text "A", 1) ∷ []);
}

abbrev before_join : World
before_join = record {
  nodes = (text "A", holder) ∷ (text "D", process (text "D")) ∷ [];
  readings = 0;
  calls = 0;
}

joins : Unit {0}
unfolding calls set_heartbeat forget drop_key hand_over receive_join not_belonging
    get_join_transfer_key get_all_keys check_data_belonging StateMachine.remove keys add_stub
joins = tt

abbrev join_finish : World
join_finish = reached (receive_join env (text "A") (text "D") before_join)

receive_join_runs : receive_join env (text "A") (text "D") before_join ≡ some (true, join_finish)
unfolding joins
receive_join_runs = refl

-- The key has gone to D.
key_has_moved : held join_finish (text "D") (text "B0") ≡ some (text "v", (text "A", 1) ∷ [])
unfolding joins store_of
key_has_moved = refl

d_is_not_a : text_eq (text "D") (text "A") ≡ false
unfolding text_eq
d_is_not_a = refl

holder_there : lookup (text "A") before_join.nodes ≡ some holder
unfolding lookup text_eq
holder_there = refl

holder-IsDistinct : IsDistinct holder.state_machine.value_store
unfolding joins
holder-IsDistinct = (refl, tt)

receive_join-MovedAll_example :
    MovedAll
      (text "A")
      (text "D")
      (get_join_transfer_key spread
        (record holder { ring = add_node spread holder.ring (text "D") })
        (text "A")
        replica_n)
      before_join
      join_finish
receive_join-MovedAll_example =
    receive_join-MovedAll env (text "A") (text "D") holder true before_join join_finish d_is_not_a
      holder_there holder-IsDistinct receive_join_runs

-- Four servers, the first with data under two keys and with a stub for the last alone.
abbrev ring_of_four : Ring
ring_of_four = add_node spread ring_of_three (text "D")

abbrev leaver : Node
leaver = record holder {
  ring = ring_of_four;
  stubs = text "D" ∷ [];
  state_machine = StateMachine.put holder.state_machine (text "A0") (text "u") ((text "A", 2) ∷ []);
}

abbrev before_leave : World
before_leave = record {
  nodes = (text "A", leaver) ∷ (text "D", record (process (text "D")) { ring = ring_of_four }) ∷ [];
  readings = 0;
  calls = 0;
}

leaves : Unit {0}
unfolding joins newly_belonging get_leave_transfer_key receive_leave remove_node retry_put give_away
    tell_leaving leave_network
leaves = tt

abbrev left_finish : World
left_finish = reached (leave_network env (text "A") before_leave)

leave_network_runs : leave_network env (text "A") before_leave ≡ some (tt, left_finish)
unfolding leaves
leave_network_runs = refl

-- One of the keys has gone to D.
a_key_has_left : held left_finish (text "D") (text "A0") ≡ some (text "u", (text "A", 2) ∷ [])
unfolding leaves store_of
a_key_has_left = refl

leaver_there : lookup (text "A") before_leave.nodes ≡ some leaver
unfolding lookup text_eq
leaver_there = refl

no_stub_of_a : contains leaver.stubs (text "A") ≡ false
unfolding contains text_eq
no_stub_of_a = refl

leaver-IsDistinct : IsDistinct leaver.state_machine.value_store
unfolding leaves
leaver-IsDistinct = (refl, (refl, tt))

leave_network-Left_example : Left (text "A") before_leave left_finish
leave_network-Left_example =
    leave_network-Left env (text "A") leaver before_leave left_finish leaver_there no_stub_of_a
      leaver-IsDistinct leave_network_runs
