-- ===== src/Tests/Processes.antt =====
-- Runs of two processes (src/gossip_node.cpp): a write over the replicas, and what the calls do.
use cs739_cloud_native.Common.{
  ℕ, ◌≡◌, ◌≤◌, refl, true, false, Bool, Option, none, some, [], ◌∷◌, Text, text, text_eq, lookup,
  insert, erase, touch, In, ◌↔◌, ℕ,
}
use cs739_cloud_native.Versions.{bump, update_version}
use cs739_cloud_native.StateMachine
use cs739_cloud_native.StateMachine.{StateMachine, print_entries, flush_to_disk}
use cs739_cloud_native.StateMachine.File.{print_versions, print_entry}
use cs739_cloud_native.Ring.{get_replicas_nodes}
use cs739_cloud_native.Node
use cs739_cloud_native.Node.{
  Node, Data, w_count, is_recent, is_coordinator, MemberList, merge_heartbeat, merge_heartbeats,
  receive_gossip,
}
use cs739_cloud_native.Cluster.{
  Env, World, delivered, self, store, serve, send, drop_reply, need_stub, now, rpc, is_alive,
  peer_put, assigned_coordinator, peer_get,
}
use cs739_cloud_native.Cluster.PeerPut.{PutEffect, peer_put-PutEffect}
use cs739_cloud_native.Coordinator.{
  PutReturn, PutResponse, put_self, write_replicas, client_put, Status, GetResponse, found,
  read_replicas, client_get,
}
use cs739_cloud_native.Coordinator.Acked.{Written}
use cs739_cloud_native.Coordinator.Quorum.{client_put-Written}
use cs739_cloud_native.Node.Gossip.{Knows, receive_gossip-join}
use cs739_cloud_native.Versions.Order.{Le}
use cs739_cloud_native.Tests.Vectors.{comparison, selection}
use cs739_cloud_native.Tests.Rings.{walks, spread, with_both, with_both-IsRing}

unfoldable pub calls : Unit {0}
unfolding walks comparison spread insert erase touch bump update_version print_versions print_entry
    print_entries flush_to_disk StateMachine.get_value StateMachine.get_version StateMachine.put
    is_recent is_coordinator Node.peer_put self store serve send drop_reply need_stub now rpc
    is_alive peer_put assigned_coordinator put_self write_replicas client_put Node.peer_get peer_get
    found read_replicas client_get selection receive_gossip merge_heartbeats merge_heartbeat
calls = tt

-- A process that knows the other one, with no data yet.
abbrev pub process : Text → Node
process node_id = record {
  node_id = node_id;
  server_address = node_id;
  ring = with_both;
  state_machine = StateMachine.new (record { writable = true; bytes = none });
  stubs = text "A" ∷ text "B" ∷ [];
  members_heartbeat_list = (text "A", 1) ∷ (text "B", 1) ∷ [];
  alive = true;
}

abbrev pub start : World
start = record {
  nodes = (text "A", process (text "A")) ∷ (text "B", process (text "B")) ∷ [];
  readings = 0;
  calls = 0;
}

abbrev pub env : Env
env = record { hash = spread; clock = λ i. 5; net = λ i. delivered }

abbrev pub data_x : Data
data_x = record { value = text "x"; version_info = (text "A", 1) ∷ [] }

abbrev pub reached {ℓ} : {A : Type ℓ} → Option (A × World) → World
reached none = start
reached (some (a, w)) = w

abbrev pub answer : PutResponse
answer = record { ret = PutReturn.ok; coordinator = text "A" }

abbrev pub finish : World
finish = reached (client_put env (text "A") (text "k") data_x start)

pub client_put_runs : client_put env (text "A") (text "k") data_x start ≡ some (answer, finish)
unfolding calls
client_put_runs = refl

a_there : lookup (text "A") start.nodes ≡ some (process (text "A"))
unfolding lookup text_eq
a_there = refl

client_put-Written_example :
    (k : ℕ) × (w_count ≤ k)
    × Written
        (text "k")
        (text "x")
        (update_version data_x.version_info (text "A"))
        (get_replicas_nodes spread with_both (text "k") 6)
        finish
        k
client_put-Written_example =
    client_put-Written env (text "A") (text "k") data_x start finish (process (text "A")) answer
      a_there with_both-IsRing client_put_runs refl

abbrev after_call : World
after_call = reached (peer_put env (text "A") (text "B") (text "k") data_x start)

peer_put_runs : peer_put env (text "A") (text "B") (text "k") data_x start ≡ some (0, after_call)
unfolding calls
peer_put_runs = refl

peer_put-PutEffect_example : PutEffect (text "B") (text "k") data_x start after_call 0
peer_put-PutEffect_example =
    peer_put-PutEffect env (text "A") (text "B") (text "k") data_x start after_call 0 peer_put_runs

-- the handler PeerPut on B
abbrev handler : Node → Node × Bool
handler n = Node.peer_put n (text "k") data_x

abbrev after_rpc : World
after_rpc = reached (rpc env (text "B") (serve (text "B") handler) start)

rpc_runs : rpc env (text "B") (serve (text "B") handler) start ≡ some (some false, after_rpc)
unfolding calls
rpc_runs = refl

-- a read after the write
abbrev pub read_back : GetResponse
read_back = record {
  get_res_data = (text "x", (text "A", 2) ∷ []) ∷ [];
  coordinator = text "A";
  status = Status.ok;
}

abbrev pub after_get : World
after_get = reached (client_get env (text "B") (text "k") finish)

pub client_get_runs : client_get env (text "B") (text "k") finish ≡ some (read_back, after_get)
unfolding calls
client_get_runs = refl

abbrev heard : MemberList
heard = (text "B", 7) ∷ (text "C", 2) ∷ []

receive_gossip-join_example :
    Le (receive_gossip (process (text "A")) heard).0.members_heartbeat_list heard ↔ (
      Le (process (text "A")).members_heartbeat_list heard
      × ((p : Text × ℕ) → In p heard → Knows heard p))
receive_gossip-join_example = receive_gossip-join (process (text "A")) heard heard
