-- ===== src/Membership/Join.antt =====
-- The handler JoinNetwork of src/gossip_node.cpp, and the data that a server holds when another one
-- joins.
use cs739_cloud_native.Common.{
  ℕ, ◌≡◌, refl, sym, ap, ◌∙◌, subst, Bool, true, false, some, List, [], ◌∷◌, arith, Text, text_eq,
  contains, Assoc, keys, lookup, lookup_of_contains, none, insert, IsDistinct, AllDistinct,
  Bool-cases, inl, inr,
}
use cs739_cloud_native.StateMachine.{StateMachine, get_all_keys}
use cs739_cloud_native.Ring
use cs739_cloud_native.Ring.{Ring}
use cs739_cloud_native.Node.{Node, replica_n, add_stub, not_belonging, get_join_transfer_key}
use cs739_cloud_native.Cluster.{Env, World, M, ◌>>=◌, ◌>>◌, self, store, now}
use cs739_cloud_native.Cluster.Frame.{bind-some, self-some, same_storage, same_nodes, SameStores}
use cs739_cloud_native.Membership.{set_heartbeat, hand_over, receive_join}
use cs739_cloud_native.Membership.Readings.{reading_of, held, Shrunk-same, Shrunk-trans}
use cs739_cloud_native.Membership.Moved.{MovedAll}
use cs739_cloud_native.Membership.HandOver.{hand_over-MovedAll}

module _ (hash : Text → ℕ) (ring : Ring) (node : Text) (num_replicas : ℕ) where
  contains-not_belonging :
      (ks : List Text) (t : Text)
      → contains ks t ≡ false
      → contains (not_belonging hash ring node num_replicas ks) t ≡ false
  unfolding not_belonging contains
  contains-not_belonging [] t h = refl
  contains-not_belonging (k ∷ ks) t h = ground (arith, h, contains-not_belonging ks t)

  not_belonging-AllDistinct :
      (ks : List Text) → AllDistinct ks → AllDistinct (not_belonging hash ring node num_replicas ks)
  unfolding not_belonging
  not_belonging-AllDistinct [] d = tt
  not_belonging-AllDistinct (k ∷ ks) d =
      elim (Bool-cases (Ring.check_data_belonging hash ring k node num_replicas)) [
        | inl belongs ↦ rw belongs (not_belonging-AllDistinct ks d.1)
        | inr else_where ↦
            rw else_where (contains-not_belonging ks k d.0, not_belonging-AllDistinct ks d.1)
      ]

keys-AllDistinct : (m : Assoc Text) → IsDistinct m → AllDistinct (keys m)
unfolding keys
keys-AllDistinct [] d = tt
keys-AllDistinct ((k, v) ∷ m) d = (d.0, keys-AllDistinct m d.1)

pub all_keys-AllDistinct :
    (sm : StateMachine) → IsDistinct sm.value_store → AllDistinct (get_all_keys sm)
unfolding get_all_keys
all_keys-AllDistinct sm d = keys-AllDistinct sm.value_store d

pub all_keys-absent :
    (sm : StateMachine) (k : Text)
    → lookup k sm.value_store ≡ none
    → contains (get_all_keys sm) k ≡ false
unfolding get_all_keys
all_keys-absent sm k gone = elim (Bool-cases (contains (keys sm.value_store) k)) [
  | inr new ↦ new
  | inl there_is ↦
      let (v, e) = lookup_of_contains k sm.value_store there_is in absurd (ground (arith, gone, e))
]

held-same : (a k : Text) (w v : World) → SameStores w v → held v a k ≡ held w a k
held-same a k w v same = ap (λ o. reading_of o k) (same a)

MovedAll-back :
    (this peer : Text) (ks : List Text) (w v u : World)
    → SameStores w v
    → MovedAll this peer ks v u
    → MovedAll this peer ks w u
MovedAll-back this peer ks w v u same r = record {
  others = λ a k c. r.others a k c ∙ held-same a k w v same;
  kept = λ k. elim (r.kept k) [
    | inl stays ↦ inl (stays ∙ held-same this k w v same)
    | inr (moved, gone) ↦ inr (moved ∙ held-same this k w v same, gone)
  ];
  shrunk = Shrunk-trans this w v u (Shrunk-same this w v (same this)) r.shrunk;
}

-- the process once it knows the new server
abbrev joined : Env → Text → Node → ℕ → Node
joined env node_id m t = record (set_heartbeat node_id t m) {
  ring = Ring.add_node env.hash m.ring node_id;
  stubs = add_stub m.stubs node_id;
}

abbrev after_now : Env → Text → Text → Node → ℕ → M Bool
after_now env this node_id m t =
    store this (joined env node_id m t)
    >> hand_over env this node_id
        (get_join_transfer_key env.hash (joined env node_id m t) this replica_n) true

-- When a server with another address joins, a process that stores each key once loses no data,
-- whatever becomes of its calls: what it held under a key it still holds, or the new server holds
-- it with the same version and this one has given the key up. And under a key that is not to be
-- handed over, no process holds anything else than before.
pub receive_join-MovedAll :
    (env : Env) (this node_id : Text) (n : Node) (ok : Bool) (w w' : World)
    → text_eq node_id this ≡ false
    → lookup this w.nodes ≡ some n
    → IsDistinct n.state_machine.value_store
    → receive_join env this node_id w ≡ some (ok, w')
    → MovedAll this node_id
        (get_join_transfer_key env.hash
          (record n { ring = Ring.add_node env.hash n.ring node_id })
          this
          replica_n)
        w
        w'
unfolding receive_join get_join_transfer_key set_heartbeat now store
receive_join-MovedAll env this node_id n ok w w' apart there_is d h =
    let (m, w1, a, b) = bind-some (self this) (λ m. now env >>= after_now env this node_id m) w h in
    let (found, e) = self-some this w w1 m a in
    let (t, w2, c, f) = bind-some (now env) (after_now env this node_id m) w1 b in
    let n' : Node = joined env node_id m t in
    let (_, w3, g, rest) =
      bind-some (store this n')
        (λ _. hand_over env this node_id (get_join_transfer_key env.hash n' this replica_n) true) w2
        f in
    let q : w3.nodes ≡ insert this n' w.nodes = ground (arith, e, c, g) in
    let same : SameStores w w3 = λ x.
      same_nodes (record w { nodes = insert this n' w.nodes }) w3 q x
      ∙ same_storage this m n' w found refl x in
    let is_n : m ≡ n = ground (arith, found, there_is) in
    let distinct =
      all_keys-AllDistinct m.state_machine
        (subst (λ (x : Node). IsDistinct x.state_machine.value_store) (sym is_n) d) in
    let all =
      hand_over-MovedAll env this node_id apart (get_join_transfer_key env.hash n' this replica_n)
        true ok w3 w'
        (not_belonging-AllDistinct env.hash n'.ring this replica_n (get_all_keys m.state_machine)
          distinct)
        rest in
    subst
      (λ (x : Node).
        MovedAll this node_id
          (get_join_transfer_key env.hash
            (record x { ring = Ring.add_node env.hash x.ring node_id }) this replica_n)
          w w')
      is_n (MovedAll-back this node_id _ w w3 w' same all)
