-- ===== src/Node.antt =====
-- The class GossipNode of src/gossip_node.h and src/gossip_node.cpp: its state, and the handlers
-- that call no other node.
pub mod Gossip
use cs739_cloud_native.Common.{
  ℕ, ◌-◌, ◌/◌, max, Bool, true, false, none, some, List, [], ◌∷◌, ◌++◌, ltb, if◌then◌else◌, Text,
  text_eq, contains, Assoc, lookup, insert, erase,
}
use cs739_cloud_native.Versions.{VersionVector, latest, check_conflict_version}
use cs739_cloud_native.StateMachine
use cs739_cloud_native.StateMachine.{StateMachine}
use cs739_cloud_native.StateMachine.File.{Disk}
use cs739_cloud_native.Ring
use cs739_cloud_native.Ring.{Ring}

abbrev pub replica_n : ℕ
replica_n = 3

abbrev pub w_count : ℕ
w_count = 2

abbrev pub r_count : ℕ
r_count = 2

-- milliseconds
abbrev pub check_alive_interval : ℕ
check_alive_interval = 10000

-- Times are nanoseconds since the epoch of the clock, which is not later than any of them.
-- A stub is known by the address that it was made for: `stubs` are the keys of `stubs_`.
pub record Node : Type 0 where
  pub node_id : Text
  pub server_address : Text
  pub ring : Ring
  pub state_machine : StateMachine
  pub stubs : List Text
  pub members_heartbeat_list : Assoc ℕ
  pub alive : Bool

-- The constructor, with FIXED_CONFIG_TEST false.
abbrev pub new : Text → ℕ → Text → Disk → Node
new node_id num_virtual_nodes server_address disk = record {
  node_id = node_id;
  server_address = server_address;
  ring = Ring.new num_virtual_nodes;
  state_machine = StateMachine.new disk;
  stubs = [];
  members_heartbeat_list = [];
  alive = false;
}

-- stubs_[addr] = …, and stubs_.erase(addr)
unfoldable pub add_stub : List Text → Text → List Text
add_stub stubs addr = if contains stubs addr then stubs else stubs ++ addr ∷ []

unfoldable pub erase_stub : List Text → Text → List Text
erase_stub [] addr = []
erase_stub (s ∷ stubs) addr =
    let rest = erase_stub stubs addr in if text_eq s addr then rest else s ∷ rest

-- PutRequest, PeerPutRequest and the Data of a reply carry a value with its version_info.
pub record Data : Type 0 where
  pub value : Text
  pub version_info : VersionVector

-- The handler PeerPut: the new state, and `success` of the response.
unfoldable pub peer_put : Node → Text → Data → Node × Bool
peer_put n key d =
    let old_version = StateMachine.get_version n.state_machine key in
    elim (check_conflict_version d.version_info old_version) [
      | latest ↦ (
        record n { state_machine = StateMachine.put n.state_machine key d.value d.version_info },
        false,
      )
      | _ ↦ (n, true)
    ]

-- The handler PeerGet.
unfoldable pub peer_get : Node → Text → Data
peer_get n key = record {
  value = StateMachine.get_value n.state_machine key;
  version_info = StateMachine.get_version n.state_machine key;
}

-- GossipRequest: KeyTimePairs
abbrev pub MemberList : Type 0
MemberList = List (Text × ℕ)

-- One round of the loop of the handler Gossip: the later of the two times. A key that is not there
-- stands at duration::min(), before every time.
unfoldable pub merge_heartbeat : Assoc ℕ → Text × ℕ → Assoc ℕ
merge_heartbeat m (key, tp1) =
    insert key (elim (lookup key m) [ none ↦ tp1 | some tp2 ↦ max tp1 tp2 ]) m

unfoldable pub merge_heartbeats : Assoc ℕ → MemberList → Assoc ℕ
unfolding merge_heartbeat
merge_heartbeats m [] = m
merge_heartbeats m (p ∷ ps) = merge_heartbeats (merge_heartbeat m p) ps

-- The handler Gossip; its response is always a success.
unfoldable pub receive_gossip : Node → MemberList → Node × Bool
receive_gossip n member_list = (
  record n { members_heartbeat_list = merge_heartbeats n.members_heartbeat_list member_list },
  true,
)

module _ (hash : Text → ℕ) where
  -- The handler LeaveNetwork; its response is always a success.
  unfoldable pub receive_leave : Node → Text → Node × Bool
  receive_leave n node_id = (
    record n {
      ring = Ring.remove_node hash n.ring node_id;
      stubs = erase_stub n.stubs node_id;
      members_heartbeat_list = erase node_id n.members_heartbeat_list;
    },
    true,
  )

  -- The keys of all_keys that `node` is not responsible for.
  unfoldable pub not_belonging : Ring → Text → ℕ → List Text → List Text
  not_belonging ring node num_replicas [] = []
  not_belonging ring node num_replicas (k ∷ ks) =
      let rest = not_belonging ring node num_replicas ks in
      if Ring.check_data_belonging hash ring k node num_replicas then rest else k ∷ rest

  unfoldable pub get_join_transfer_key : Node → Text → ℕ → List Text
  unfolding not_belonging
  get_join_transfer_key n node_id num_replicas =
      not_belonging n.ring node_id num_replicas (StateMachine.get_all_keys n.state_machine)

  -- The keys that `node` is responsible for on the new ring and not on the old one.
  unfoldable pub newly_belonging : Ring → Ring → Text → ℕ → List Text → List Text
  newly_belonging old_ring ring node num_replicas [] = []
  newly_belonging old_ring ring node num_replicas (k ∷ ks) =
      let rest = newly_belonging old_ring ring node num_replicas ks in
      if Ring.check_data_belonging hash old_ring k node num_replicas
      then rest
      else if Ring.check_data_belonging hash ring k node num_replicas
      then k ∷ rest
      else rest

  unfoldable pub get_leave_transfer_key : Node → Ring → Text → ℕ → List Text
  unfolding newly_belonging
  get_leave_transfer_key n old_ring node_id num_replicas =
      newly_belonging old_ring n.ring node_id num_replicas
        (StateMachine.get_all_keys n.state_machine)

-- duration_cast<milliseconds>(now - time) < CHECK_ALIVE_INTERVAL; a time that is not past is recent
-- too, as the truncated difference has it.
unfoldable pub is_recent : ℕ → ℕ → Bool
is_recent now time = ltb ((now - time) / 1000000) check_alive_interval

unfoldable pub is_coordinator : Text → List Text → Bool
is_coordinator node_id quorum_member = contains quorum_member node_id
