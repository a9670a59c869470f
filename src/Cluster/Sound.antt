-- ===== src/Cluster/Sound.antt =====
-- The condition on every process that the handlers rely on, and the calls between processes under
-- it.
use cs739_cloud_native.Common.{
  List, [], ◌∷◌, Text, text_eq, touch, IsDistinct, Bool-cases, inl, inr,
}
use cs739_cloud_native.Versions.{VersionVector}
use cs739_cloud_native.StateMachine
use cs739_cloud_native.StateMachine.{StateMachine}
use cs739_cloud_native.StateMachine.Store.{get_version-put, get_version-remove}
use cs739_cloud_native.Ring.Replicas.{IsRing}
use cs739_cloud_native.Node
use cs739_cloud_native.Node.{Node, Data}
use cs739_cloud_native.Cluster.{
  Env, self, store, serve, need_stub, now, rpc, is_alive, peer_put, peer_get, assigned_coordinator,
}
use cs739_cloud_native.Cluster.PeerPut.{peer_put-cases}
use cs739_cloud_native.Cluster.Keeps.{
  Keeps, Any, Keeps-pure, Keeps-bind, Keeps-if, Keeps-self, Keeps-store, Keeps-now, Keeps-need_stub,
  Keeps-serve, Keeps-rpc, Reply, Keeps-rpc-Reply, Keeps-serve_value,
}

-- The ring is in order, and every stored version vector names each server once.
pub record IsSound (n : Node) : Type 0 where
  pub ring : IsRing n.ring
  pub clocks : (key : Text) → IsDistinct (StateMachine.get_version n.state_machine key)

pub put-IsSound :
    (n : Node) (key value : Text) (v : VersionVector)
    → IsSound n
    → IsDistinct v
    → IsSound (record n { state_machine = StateMachine.put n.state_machine key value v })
put-IsSound n key value v s d = record {
  ring = s.ring;
  clocks = λ k. elim (Bool-cases (text_eq key k)) [
    | inl hit ↦ rw (get_version-put, hit) d
    | inr miss ↦ rw (get_version-put, miss) (s.clocks k)
  ];
}

pub remove-IsSound :
    (n : Node) (key : Text)
    → IsSound n
    → IsSound (record n { state_machine = StateMachine.remove n.state_machine key })
remove-IsSound n key s = record {
  ring = s.ring;
  clocks = λ k. elim (Bool-cases (text_eq key k)) [
    | inl hit ↦ rw (get_version-remove, hit) tt
    | inr miss ↦ rw (get_version-remove, miss) (s.clocks k)
  ];
}

pub peer_put-IsSound :
    (n : Node) (key : Text) (d : Data)
    → IsSound n
    → IsDistinct d.version_info
    → IsSound (Node.peer_put n key d).0
peer_put-IsSound n key d s v = elim (peer_put-cases n key d) [
  | inl (_, e) ↦ rw e (put-IsSound n key d.value d.version_info s v)
  | inr (_, e) ↦ rw e s
]

-- What is sent to a peer comes from a store.
pub peer_get-IsDistinct :
    (n : Node) (key : Text) → IsSound n → IsDistinct (Node.peer_get n key).version_info
unfolding Node.peer_get
peer_get-IsDistinct n key s = s.clocks key

module _ (env : Env) where
  pub is_alive-Keeps : (this peer : Text) → Keeps IsSound Any (is_alive env this peer)
  unfolding is_alive
  is_alive-Keeps this peer = Keeps-bind Any (now env) _ (Keeps-now env) λ t _.
      Keeps-bind IsSound (self this) _ (Keeps-self this) λ n s.
        Keeps-bind Any
          (store this (record n { members_heartbeat_list = touch peer 0 n.members_heartbeat_list }))
          _ (Keeps-store this _ (record { ring = s.ring; clocks = s.clocks }))
          λ _ _. Keeps-pure _ tt

  pub peer_put-Keeps :
      (this peer key : Text) (d : Data)
      → IsDistinct d.version_info
      → Keeps IsSound Any (peer_put env this peer key d)
  unfolding peer_put
  peer_put-Keeps this peer key d v =
      Keeps-bind Any (need_stub this peer) _ (Keeps-need_stub this peer) λ _ _.
        Keeps-bind Any (rpc env peer (serve peer (λ n. Node.peer_put n key d))) _
          (Keeps-rpc env peer _ (Keeps-serve peer _ λ n s. peer_put-IsSound n key d s v))
          λ _ _. Keeps-pure _ tt

  pub peer_get-Keeps :
      (this peer key : Text)
      → Keeps IsSound (Reply (λ (d : Data). IsDistinct d.version_info)) (peer_get env this peer key)
  unfolding peer_get
  peer_get-Keeps this peer key =
      Keeps-bind Any (need_stub this peer) _ (Keeps-need_stub this peer) λ _ _.
        Keeps-rpc-Reply env peer _
          (Keeps-serve_value peer _ λ n s. (s, peer_get-IsDistinct n key s))

  pub assigned_coordinator-Keeps :
      (this : Text) (cs : List Text) → Keeps IsSound Any (assigned_coordinator env this cs)
  unfolding assigned_coordinator
  assigned_coordinator-Keeps this [] = Keeps-pure [] tt
  assigned_coordinator-Keeps this (c ∷ cs) =
      Keeps-bind Any (is_alive env this c) _ (is_alive-Keeps this c)
        λ a _. Keeps-if a _ _ (Keeps-pure c tt) (assigned_coordinator-Keeps this cs)
