-- ===== src/Membership.antt =====
-- Joining, leaving and gossip of src/gossip_node.cpp: joinNetwork, JoinNetwork, leaveNetwork,
-- gossip and AdminCmd.
pub mod Sound
pub mod Readings
pub mod Moved
pub mod HandOver
pub mod Join
pub mod GiveAway
pub mod Leave
pub mod Grown
pub mod Spread
use cs739_cloud_native.Common.{
  ℕ, zero, suc, ◌==◌, ◌&&◌, Bool, true, false, none, some, List, [], ◌∷◌, if◌then◌else◌, Text, text,
  text_eq, insert,
}
use cs739_cloud_native.StateMachine
use cs739_cloud_native.Ring
use cs739_cloud_native.Ring.{Ring}
use cs739_cloud_native.Node
use cs739_cloud_native.Node.{Node, Data, MemberList, replica_n, add_stub}
use cs739_cloud_native.Cluster.{
  Env, M, pure, ◌>>=◌, ◌>>◌, self, store, serve, need_stub, now, rpc, is_alive, peer_put,
}

-- The value and version of a key, as they are sent to a peer.
abbrev pub data_of : Node → Text → Data
data_of n key = Node.peer_get n key

unfoldable pub drop_key : Text → Node → Node
drop_key key n = record n { state_machine = StateMachine.remove n.state_machine key }

unfoldable pub set_heartbeat : Text → ℕ → Node → Node
set_heartbeat key time n = record n {
  members_heartbeat_list = insert key time n.members_heartbeat_list;
}

module _ (env : Env) (this : Text) where
  -- Remove a key that a peer has taken over.
  unfoldable pub forget : Text → M (Unit {0})
  unfolding drop_key
  forget key = do n ← self this; store this (drop_key key n)

  -- The loop of JoinNetwork over the keys to hand over; the flag is `success` of the response.
  unfoldable pub hand_over : Text → List Text → Bool → M Bool
  hand_over joining [] success = pure success
  hand_over joining (key ∷ keys) success = do
    n ← self this
    res ← peer_put env this joining key (data_of n key)
    if res == 0
        then (do forget key; hand_over joining keys success)
        else hand_over joining keys false

  -- The handler JoinNetwork.
  unfoldable pub receive_join : Text → M Bool
  unfolding set_heartbeat
  receive_join node_id = do
    n ← self this
    t ← now env
    let n' = record (set_heartbeat node_id t n) {
      ring = Ring.add_node env.hash n.ring node_id;
      stubs = add_stub n.stubs node_id;
    }
    store this n'
    hand_over node_id (Node.get_join_transfer_key env.hash n' this replica_n) true

  -- The loop of retries of leaveNetwork, with the number that is left: `res > 0 && k++ < 4`.
  unfoldable pub retry_put : Text → Text → ℕ → ℕ → M ℕ
  retry_put peer key zero res = pure res
  retry_put peer key (suc left) res = if res == 0 then pure res else (do
    n ← self this
    res' ← peer_put env this peer key (data_of n key)
    retry_put peer key left res')

  -- The loop of leaveNetwork over the keys that a peer becomes responsible for.
  unfoldable pub give_away : Text → List Text → M (Unit {0})
  give_away peer [] = pure tt
  give_away peer (key ∷ keys) = do
    n ← self this
    first ← peer_put env this peer key (data_of n key)
    res ← retry_put peer key 4 first
    if res == 0 then (do forget key; give_away peer keys) else give_away peer keys

  -- The loop of leaveNetwork over the stubs.
  unfoldable pub tell_leaving : Ring → List Text → M (Unit {0})
  tell_leaving old_ring [] = pure tt
  tell_leaving old_ring (peer ∷ peers) = do
    need_stub this peer
    r ← rpc env peer (serve peer (λ n. Node.receive_leave env.hash n this))
    elim r [
      | none ↦ tell_leaving old_ring peers
      | some success ↦
          if success
          then (do
            n ← self this
            give_away peer (Node.get_leave_transfer_key env.hash n old_ring peer replica_n)
            tell_leaving old_ring peers)
          else tell_leaving old_ring peers
    ]

  unfoldable pub leave_network : M (Unit {0})
  leave_network = do
    n ← self this
    store this (record n { ring = Ring.remove_node env.hash n.ring this })
    tell_leaving n.ring n.stubs

  -- The loop of gossip over the stubs: the same list goes to each peer that is alive.
  unfoldable pub send_gossip : MemberList → List Text → M (Unit {0})
  send_gossip member_list [] = pure tt
  send_gossip member_list (peer ∷ peers) = do
    a ← is_alive env this peer
    if a
        then (do
          rpc env peer (serve peer (λ n. Node.receive_gossip n member_list))
          send_gossip member_list peers)
        else send_gossip member_list peers

  unfoldable pub gossip : M (Unit {0})
  unfolding set_heartbeat
  gossip = do
    t ← now env
    n ← self this
    let n' = set_heartbeat this t n
    store this n'
    send_gossip n'.members_heartbeat_list n'.stubs

module _ (env : Env) where
  -- The loop of joinNetwork over the stubs; the flag is its result.
  unfoldable pub tell_joining : Text → List Text → Bool → M Bool
  tell_joining this [] flag = pure flag
  tell_joining this (peer ∷ peers) flag = do
    r ← rpc env peer (receive_join env peer this)
    elim r [
      | none ↦ tell_joining this peers false
      | some success ↦ tell_joining this peers (flag && success)
    ]

  unfoldable pub join_network : Text → M Bool
  unfolding set_heartbeat
  join_network this = do
    n ← self this
    t ← now env
    store this (record (set_heartbeat this t n) { ring = Ring.add_node env.hash n.ring this })
    tell_joining this n.stubs true

  -- The loop of AdminCmd over the servers that are alive.
  unfoldable pub add_servers : Text → List Text → Node → Node
  add_servers this [] n = n
  add_servers this (addr ∷ addrs) n = add_servers this addrs (
      if text_eq addr this
      then n
      else record n { ring = Ring.add_node env.hash n.ring addr; stubs = add_stub n.stubs addr })

  abbrev pub set_alive : Bool → Text → M (Unit {0})
  set_alive alive this = do n ← self this; store this (record n { alive = alive })

  -- The handler AdminCmd: `success` of the response.
  unfoldable pub admin_cmd : Text → Text → List Text → M Bool
  admin_cmd this cmd alive_servers =
      if text_eq cmd (text "JoinNetwork")
      then (do
        n ← self this
        store this (add_servers this alive_servers (record n { stubs = [] }))
        join_network this
        set_alive true this
        pure true)
      else if text_eq cmd (text "LeaveNetwork")
      then (do set_alive false this; leave_network env this; pure true)
      else if text_eq cmd (text "Ping")
      then (do n ← self this; pure n.alive)
      else pure false
