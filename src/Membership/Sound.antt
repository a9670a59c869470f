-- ===== src/Membership/Sound.antt =====
-- Joining, leaving and gossip (src/gossip_node.cpp) under the condition on every process.
use cs739_cloud_native.Common.{
  ℕ, zero, suc, ◌<◌, ◌==◌, ◌&&◌, Bool, true, false, List, [], ◌∷◌, Text, text_eq, Bool-cases, inl,
  inr,
}
use cs739_cloud_native.Ring
use cs739_cloud_native.Ring.{Ring, size_mod}
use cs739_cloud_native.Ring.Membership.{add_node-IsRing, remove_node-IsRing}
use cs739_cloud_native.Node
use cs739_cloud_native.Node.{Node, Data, MemberList, add_stub}
use cs739_cloud_native.Cluster.{Env, self, need_stub, now, rpc, serve, is_alive, peer_put}
use cs739_cloud_native.Cluster.Keeps.{
  Keeps, Any, Keeps-pure, Keeps-bind, Keeps-if, Keeps-option, Keeps-self, Keeps-store, Keeps-now,
  Keeps-need_stub, Keeps-serve, Keeps-rpc,
}
use cs739_cloud_native.Cluster.Sound.{
  IsSound, remove-IsSound, peer_get-IsDistinct, is_alive-Keeps, peer_put-Keeps,
}
use cs739_cloud_native.Membership.{
  data_of, set_heartbeat, forget, hand_over, receive_join, retry_put, give_away, tell_leaving,
  leave_network, send_gossip, gossip, tell_joining, join_network, add_servers, set_alive, admin_cmd,
}

module _ (env : Env) (this : Text) where
  forget-Keeps : (key : Text) → Keeps IsSound Any (forget env this key)
  unfolding forget
  forget-Keeps key =
      Keeps-bind IsSound (self this) _ (Keeps-self this)
        λ n s. Keeps-store this _ (remove-IsSound n key s)

  -- a key is sent to a peer with the version that it has here
  send_key-Keeps :
      (peer key : Text) (n : Node)
      → IsSound n
      → Keeps IsSound Any (peer_put env this peer key (data_of n key))
  send_key-Keeps peer key n s =
      peer_put-Keeps env this peer key (data_of n key) (peer_get-IsDistinct n key s)

  hand_over-Keeps :
      (joining : Text) (keys : List Text) (ok : Bool)
      → Keeps IsSound Any (hand_over env this joining keys ok)
  unfolding hand_over
  hand_over-Keeps joining [] ok = Keeps-pure ok tt
  hand_over-Keeps joining (key ∷ keys) ok =
      Keeps-bind IsSound (self this) _ (Keeps-self this) λ n s.
        Keeps-bind Any _ _ (send_key-Keeps joining key n s) λ r _.
          Keeps-if (r == 0) _ _
            (Keeps-bind Any (forget env this key) _ (forget-Keeps key)
              λ _ _. hand_over-Keeps joining keys ok)
            (hand_over-Keeps joining keys false)

  retry_put-Keeps :
      (peer key : Text) (left res : ℕ) → Keeps IsSound Any (retry_put env this peer key left res)
  unfolding retry_put
  retry_put-Keeps peer key zero res = Keeps-pure res tt
  retry_put-Keeps peer key (suc left) res = Keeps-if (res == 0) _ _ (Keeps-pure res tt) (
      Keeps-bind IsSound (self this) _ (Keeps-self this) λ n s.
        Keeps-bind Any _ _ (send_key-Keeps peer key n s) λ r _. retry_put-Keeps peer key left r)

  give_away-Keeps :
      (peer : Text) (keys : List Text) → Keeps IsSound Any (give_away env this peer keys)
  unfolding give_away
  give_away-Keeps peer [] = Keeps-pure tt tt
  give_away-Keeps peer (key ∷ keys) = Keeps-bind IsSound (self this) _ (Keeps-self this) λ n s.
      Keeps-bind Any _ _ (send_key-Keeps peer key n s) λ first _.
        Keeps-bind Any _ _ (retry_put-Keeps peer key 4 first) λ res _.
          Keeps-if (res == 0) _ _
            (Keeps-bind Any (forget env this key) _ (forget-Keeps key)
              λ _ _. give_away-Keeps peer keys)
            (give_away-Keeps peer keys)

  receive_leave-IsSound :
      (n : Node) (node_id : Text) → IsSound n → IsSound (Node.receive_leave env.hash n node_id).0
  unfolding Node.receive_leave
  receive_leave-IsSound n node_id s = record {
    ring = remove_node-IsRing env.hash n.ring node_id s.ring;
    clocks = s.clocks;
  }

  tell_leaving-Keeps :
      (old_ring : Ring) (peers : List Text)
      → Keeps IsSound Any (tell_leaving env this old_ring peers)
  unfolding tell_leaving
  tell_leaving-Keeps old_ring [] = Keeps-pure tt tt
  tell_leaving-Keeps old_ring (peer ∷ peers) =
      Keeps-bind Any (need_stub this peer) _ (Keeps-need_stub this peer) λ _ _.
        Keeps-bind Any (rpc env peer (serve peer (λ n. Node.receive_leave env.hash n this))) _
          (Keeps-rpc env peer _ (Keeps-serve peer _ λ n s. receive_leave-IsSound n this s))
          λ r _. Keeps-option r _ _ (tell_leaving-Keeps old_ring peers) λ success.
            Keeps-if success _ _
              (Keeps-bind IsSound (self this) _ (Keeps-self this) λ n _.
                Keeps-bind Any _ _ (give_away-Keeps peer _)
                  λ _ _. tell_leaving-Keeps old_ring peers)
              (tell_leaving-Keeps old_ring peers)

  leave_network-Keeps : Keeps IsSound Any (leave_network env this)
  unfolding leave_network
  leave_network-Keeps = Keeps-bind IsSound (self this) _ (Keeps-self this) λ n s.
      Keeps-bind Any _ _
        (Keeps-store this _
          (record { ring = remove_node-IsRing env.hash n.ring this s.ring; clocks = s.clocks }))
        λ _ _. tell_leaving-Keeps n.ring n.stubs

  receive_gossip-IsSound :
      (n : Node) (l : MemberList) → IsSound n → IsSound (Node.receive_gossip n l).0
  unfolding Node.receive_gossip
  receive_gossip-IsSound n l s = record { ring = s.ring; clocks = s.clocks }

  send_gossip-Keeps :
      (l : MemberList) (peers : List Text) → Keeps IsSound Any (send_gossip env this l peers)
  unfolding send_gossip
  send_gossip-Keeps l [] = Keeps-pure tt tt
  send_gossip-Keeps l (peer ∷ peers) =
      Keeps-bind Any (is_alive env this peer) _ (is_alive-Keeps env this peer) λ a _.
        Keeps-if a _ _
          (Keeps-bind Any (rpc env peer (serve peer (λ n. Node.receive_gossip n l))) _
            (Keeps-rpc env peer _ (Keeps-serve peer _ λ n s. receive_gossip-IsSound n l s))
            λ _ _. send_gossip-Keeps l peers)
          (send_gossip-Keeps l peers)

  -- A round of gossip keeps every process sound.
  pub gossip-Keeps : Keeps IsSound Any (gossip env this)
  unfolding gossip set_heartbeat
  gossip-Keeps = Keeps-bind Any (now env) _ (Keeps-now env) λ t _.
      Keeps-bind IsSound (self this) _ (Keeps-self this) λ n s.
        Keeps-bind Any _ _ (Keeps-store this _ (record { ring = s.ring; clocks = s.clocks }))
          λ _ _. send_gossip-Keeps _ _

module _ (env : Env) (hash-lt : (t : Text) → env.hash t < size_mod) where
  -- What a node does to its state when another one joins.
  joined-IsSound :
      (n : Node) (node : Text) (stubs : List Text) (t : ℕ)
      → IsSound n
      → IsSound (record (set_heartbeat node t n) {
        ring = Ring.add_node env.hash n.ring node;
        stubs = stubs;
      })
  unfolding set_heartbeat
  joined-IsSound n node stubs t s = record {
    ring = add_node-IsRing env.hash hash-lt n.ring node s.ring;
    clocks = s.clocks;
  }

  receive_join-Keeps : (this node_id : Text) → Keeps IsSound Any (receive_join env this node_id)
  unfolding receive_join
  receive_join-Keeps this node_id = Keeps-bind IsSound (self this) _ (Keeps-self this) λ n s.
      Keeps-bind Any (now env) _ (Keeps-now env) λ t _.
        Keeps-bind Any _ _
          (Keeps-store this _ (joined-IsSound n node_id (add_stub n.stubs node_id) t s))
          λ _ _. hand_over-Keeps env this node_id _ true

  tell_joining-Keeps :
      (this : Text) (peers : List Text) (flag : Bool)
      → Keeps IsSound Any (tell_joining env this peers flag)
  unfolding tell_joining
  tell_joining-Keeps this [] flag = Keeps-pure flag tt
  tell_joining-Keeps this (peer ∷ peers) flag =
      Keeps-bind Any _ _ (Keeps-rpc env peer _ (receive_join-Keeps peer this)) λ r _.
        Keeps-option r _ _ (tell_joining-Keeps this peers false)
          λ success. tell_joining-Keeps this peers (flag && success)

  join_network-Keeps : (this : Text) → Keeps IsSound Any (join_network env this)
  unfolding join_network
  join_network-Keeps this = Keeps-bind IsSound (self this) _ (Keeps-self this) λ n s.
      Keeps-bind Any (now env) _ (Keeps-now env) λ t _.
        Keeps-bind Any _ _ (Keeps-store this _ (joined-IsSound n this n.stubs t s))
          λ _ _. tell_joining-Keeps this n.stubs true

  pub add_servers-IsSound :
      (this : Text) (addrs : List Text) (n : Node)
      → IsSound n
      → IsSound (add_servers env this addrs n)
  unfolding add_servers
  add_servers-IsSound this [] n s = s
  add_servers-IsSound this (addr ∷ addrs) n s =
      add_servers-IsSound this addrs _ (elim (Bool-cases (text_eq addr this)) [
        | inl me ↦ rw me s
        | inr other ↦ rw other (record {
          ring = add_node-IsRing env.hash hash-lt n.ring addr s.ring;
          clocks = s.clocks;
        })
      ])

  set_alive-Keeps : (alive : Bool) (this : Text) → Keeps IsSound Any (set_alive env alive this)
  set_alive-Keeps alive this =
      Keeps-bind IsSound (self this) _ (Keeps-self this)
        λ n s. Keeps-store this _ (record { ring = s.ring; clocks = s.clocks })

  -- Whatever its command, AdminCmd keeps every process sound.
  pub admin_cmd-Keeps :
      (this cmd : Text) (alive_servers : List Text)
      → Keeps IsSound Any (admin_cmd env this cmd alive_servers)
  unfolding admin_cmd
  admin_cmd-Keeps this cmd alive_servers =
      Keeps-if _ _ _
        (Keeps-bind IsSound (self this) _ (Keeps-self this) λ n s.
          Keeps-bind Any _ _
            (Keeps-store this _ (
              add_servers-IsSound this alive_servers _
                (record { ring = s.ring; clocks = s.clocks })))
            λ _ _.
              Keeps-bind Any _ _ (join_network-Keeps this)
                λ _ _. Keeps-bind Any _ _ (set_alive-Keeps true this) λ _ _. Keeps-pure true tt)
        (Keeps-if _ _ _
          (Keeps-bind Any _ _ (set_alive-Keeps false this)
            λ _ _. Keeps-bind Any _ _ (leave_network-Keeps env this) λ _ _. Keeps-pure true tt)
          (Keeps-if _ _ _
            (Keeps-bind IsSound (self this) _ (Keeps-self this) λ n _. Keeps-pure n.alive tt)
            (Keeps-pure false tt)))
