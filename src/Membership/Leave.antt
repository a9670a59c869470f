-- ===== src/Membership/Leave.antt =====
-- leaveNetwork of src/gossip_node.cpp, and the data that the leaving server holds.
use cs739_cloud_native.Common.{
  ℕ, ◌≡◌, ◌⊎◌, refl, sym, ap, ◌∙◌, subst, Bool, true, false, Option, none, some, List, [], ◌∷◌,
  arith, if◌then◌else◌, Text, text_eq, contains, lookup, insert, AllDistinct, IsDistinct,
  Bool-cases, inl, inr,
}
use cs739_cloud_native.StateMachine.{StateMachine}
use cs739_cloud_native.Ring
use cs739_cloud_native.Ring.{Ring}
use cs739_cloud_native.Node.{
  Node, replica_n, newly_belonging, get_leave_transfer_key, receive_leave,
}
use cs739_cloud_native.Cluster.{Env, World, M, ◌>>=◌, ◌>>◌, self, store, serve, need_stub, rpc}
use cs739_cloud_native.Cluster.Frame.{
  bind-some, self-some, store_of_self, same_storage, same_nodes, SameStores,
}
use cs739_cloud_native.Cluster.Calls.{rpc-Outcome}
use cs739_cloud_native.Cluster.PeerPut.{need_stub-same}
use cs739_cloud_native.Membership.Join.{all_keys-AllDistinct, all_keys-absent}
use cs739_cloud_native.Membership.{give_away, tell_leaving, leave_network}
use cs739_cloud_native.Membership.Readings.{
  reading_of, held, Absent, KeysOnce, Shrunk, Shrunk-same, Shrunk-trans,
}
use cs739_cloud_native.Membership.Moved.{MovedAll}
use cs739_cloud_native.Membership.GiveAway.{give_away-MovedAll}

-- What a process held is still there, or has gone to some other process; and nobody's data change
-- under a key that it does not store.
pub record Left (this : Text) (w u : World) : Type 0 where
  pub kept :
      (k : Text)
      → (held u this k ≡ held w this k)
        ⊎ ((a : Text) × (held u a k ≡ held w this k) × Absent u this k)
  pub others : (a k : Text) → Absent w this k → held u a k ≡ held w a k
  pub shrunk : Shrunk this w u

held-same : (a k : Text) (w v : World) → SameStores w v → held v a k ≡ held w a k
held-same a k w v same = ap (λ o. reading_of o k) (same a)

Left-same : (this : Text) (w v : World) → SameStores w v → Left this w v
Left-same this w v same = record {
  kept = λ k. inl (held-same this k w v same);
  others = λ a k gone. held-same a k w v same;
  shrunk = Shrunk-same this w v (same this);
}

Left-trans : (this : Text) (w v u : World) → Left this w v → Left this v u → Left this w u
Left-trans this w v u x y = record {
  kept = λ k. elim (x.kept k) [
    | inl here ↦ elim (y.kept k) [
      | inl stays ↦ inl (stays ∙ here)
      | inr (a, moved, gone) ↦ inr (a, moved ∙ here, gone)
    ]
    | inr (a, moved, gone) ↦ inr (a, y.others a k gone ∙ moved, y.shrunk.absent k gone)
  ];
  others = λ a k gone. y.others a k (x.shrunk.absent k gone) ∙ x.others a k gone;
  shrunk = Shrunk-trans this w v u x.shrunk y.shrunk;
}

MovedAll-Left :
    (this peer : Text) (keys : List Text) (w u : World)
    → ((k : Text) → Absent w this k → contains keys k ≡ false)
    → MovedAll this peer keys w u
    → Left this w u
MovedAll-Left this peer keys w u only m = record {
  kept =
      λ k. elim (m.kept k) [ inl stays ↦ inl stays | inr (moved, gone) ↦ inr (peer, moved, gone) ];
  others = λ a k gone. m.others a k (only k gone);
  shrunk = m.shrunk;
}

module _ (hash : Text → ℕ) (old_ring ring : Ring) (node : Text) (num_replicas : ℕ) where
  contains-newly_belonging :
      (ks : List Text) (t : Text)
      → contains ks t ≡ false
      → contains (newly_belonging hash old_ring ring node num_replicas ks) t ≡ false
  unfolding newly_belonging contains
  contains-newly_belonging [] t h = refl
  contains-newly_belonging (k ∷ ks) t h = ground (arith, h, contains-newly_belonging ks t)

  newly_belonging-AllDistinct :
      (ks : List Text)
      → AllDistinct ks
      → AllDistinct (newly_belonging hash old_ring ring node num_replicas ks)
  unfolding newly_belonging
  newly_belonging-AllDistinct [] d = tt
  newly_belonging-AllDistinct (k ∷ ks) d =
      elim (Bool-cases (Ring.check_data_belonging hash old_ring k node num_replicas)) [
        | inl before ↦ rw before (newly_belonging-AllDistinct ks d.1)
        | inr not_before ↦
            elim (Bool-cases (Ring.check_data_belonging hash ring k node num_replicas)) [
              | inl now ↦
                  rw (not_before, now)
                    (contains-newly_belonging ks k d.0, newly_belonging-AllDistinct ks d.1)
              | inr not_now ↦ rw (not_before, not_now) (newly_belonging-AllDistinct ks d.1)
            ]
      ]

-- The keys to give away are keys that the process stores, each once.
module _ (hash : Text → ℕ) (old_ring : Ring) (this peer : Text) (n : Node) (w : World)
    (there_is : lookup this w.nodes ≡ some n) where
  transfer_keys-only :
      (k : Text)
      → Absent w this k
      → contains (get_leave_transfer_key hash n old_ring peer replica_n) k ≡ false
  unfolding get_leave_transfer_key
  transfer_keys-only k gone =
      contains-newly_belonging hash old_ring n.ring peer replica_n _ k
        (all_keys-absent n.state_machine k (gone n.state_machine (store_of_self this w n there_is)))

  transfer_keys-AllDistinct :
      KeysOnce w this → AllDistinct (get_leave_transfer_key hash n old_ring peer replica_n)
  unfolding get_leave_transfer_key
  transfer_keys-AllDistinct once =
      newly_belonging-AllDistinct hash old_ring n.ring peer replica_n _ (
        all_keys-AllDistinct n.state_machine
          (once n.state_machine (store_of_self this w n there_is)))

-- A call of a handler that leaves the storage as it is.
rpc-SameStores {ℓ} :
    {A : Type ℓ} (env : Env) (peer : Text) (f : Node → Node × A) (w w' : World) (r : Option A)
    → ((n : Node) → (f n).0.state_machine ≡ n.state_machine)
    → rpc env peer (serve peer f) w ≡ some (r, w')
    → SameStores w w'
rpc-SameStores env peer f w w' r keep h = elim (rpc-Outcome peer f env w w' r h) [
  | inl (same, _) ↦ same_nodes w w' same
  | inr ran ↦ λ b.
      let next = (f ran.before).0 in
      same_nodes (record w { nodes = insert peer next w.nodes }) w' ran.after b
      ∙ same_storage peer ran.before next w ran.there (keep ran.before) b
]

module _ (env : Env) (this : Text) (old_ring : Ring) where
  -- A peer that has answered is given its keys.
  give_keys-Left :
      (peer : Text) (n : Node) (w w' : World)
      → text_eq peer this ≡ false
      → lookup this w.nodes ≡ some n
      → KeysOnce w this
      → give_away env this peer (get_leave_transfer_key env.hash n old_ring peer replica_n) w
        ≡ some (tt, w')
      → Left this w w'
  give_keys-Left peer n w w' apart there_is once h =
      MovedAll-Left this peer _ w w' (transfer_keys-only env.hash old_ring this peer n w there_is) (
        give_away-MovedAll env this peer apart _ w w'
          (transfer_keys-AllDistinct env.hash old_ring this peer n w there_is once) h)

  -- the round of the loop once the peer has answered
  abbrev answered : Text → List Text → M (Unit {0})
  answered peer peers = self this >>= λ n.
      give_away env this peer (get_leave_transfer_key env.hash n old_ring peer replica_n)
      >> tell_leaving env this old_ring peers

  abbrev after_reply : Text → List Text → Option Bool → M (Unit {0})
  after_reply peer peers r = elim r [
    | none ↦ tell_leaving env this old_ring peers
    | some success ↦ if success then answered peer peers else tell_leaving env this old_ring peers
  ]

  answered-Left :
      (peer : Text) (peers : List Text) (r : Option Bool) (w w' : World)
      → text_eq peer this ≡ false
      → KeysOnce w this
      → ((v : World)
          → KeysOnce v this
          → tell_leaving env this old_ring peers v ≡ some (tt, w')
          → Left this v w')
      → after_reply peer peers r w ≡ some (tt, w')
      → Left this w w'
  answered-Left peer peers none w w' apart once rest h = rest w once h
  answered-Left peer peers (some false) w w' apart once rest h = rest w once h
  answered-Left peer peers (some true) w w' apart once rest h =
      let (n, w1, a, b) = bind-some (self this) _ w h in
      let (there_is, e) = self-some this w w1 n a in
      let (_, v, c, f) =
        bind-some
          (give_away env this peer (get_leave_transfer_key env.hash n old_ring peer replica_n)) _ w1
          b in
      let one = give_keys-Left peer n w v apart there_is once (
        subst
          (λ x.
            give_away env this peer (get_leave_transfer_key env.hash n old_ring peer replica_n) x
            ≡ some (tt, v))
          (sym e) c) in
      Left-trans this w v w' one (rest v (one.shrunk.once once) f)

  tell_leaving-Left :
      (peers : List Text) (w w' : World)
      → contains peers this ≡ false
      → KeysOnce w this
      → tell_leaving env this old_ring peers w ≡ some (tt, w')
      → Left this w w'
  unfolding tell_leaving contains
  tell_leaving-Left [] w w' c once h = Left-same this w w' (same_nodes w w' (ground arith))
  tell_leaving-Left (peer ∷ peers) w w' c once h =
      let apart : text_eq peer this ≡ false = ground (arith, c) in
      let c' : contains peers this ≡ false = ground (arith, c) in
      let (_, w1, a, b) = bind-some (need_stub this peer) _ w h in
      let e : w1 ≡ w = need_stub-same this peer w w1 a in
      let (r, w2, ran, next) =
        bind-some (rpc env peer (serve peer (λ n. receive_leave env.hash n this))) _ w1 b in
      let told : Left this w w2 = Left-same this w w2 (
        rpc-SameStores env peer (λ n. receive_leave env.hash n this) w w2 r
          (λ n. unfold receive_leave in refl)
          (subst
            (λ x. rpc env peer (serve peer (λ n. receive_leave env.hash n this)) x ≡ some (r, w2)) e
            ran)) in
      Left-trans this w w2 w' told (
        answered-Left peer peers r w2 w' apart (told.shrunk.once once)
          (λ v once' h'. tell_leaving-Left peers v w' c' once' h') next)

-- When a server leaves that stores each key once, and has no stub for itself, no data are lost,
-- whatever becomes of its calls: what it held under a key it still holds, or some other server
-- holds it with the same version and the leaving one has given the key up. And under a key that it
-- does not store, no server holds anything else than before.
pub leave_network-Left :
    (env : Env) (this : Text) (n : Node) (w w' : World)
    → lookup this w.nodes ≡ some n
    → contains n.stubs this ≡ false
    → IsDistinct n.state_machine.value_store
    → leave_network env this w ≡ some (tt, w')
    → Left this w w'
unfolding leave_network
leave_network-Left env this n w w' there_is apart d h =
    let (m, w1, a, b) =
      bind-some (self this)
        (λ (m : Node).
          store this (record m { ring = Ring.remove_node env.hash m.ring this })
          >> tell_leaving env this m.ring m.stubs)
        w h in
    let (found, e) = self-some this w w1 m a in
    let m' : Node = record m { ring = Ring.remove_node env.hash m.ring this } in
    let (_, v, c, f) = bind-some (store this m') (λ _. tell_leaving env this m.ring m.stubs) w1 b in
    let q : v.nodes ≡ insert this m' w.nodes = unfold store in ground (arith, e, c) in
    let same : SameStores w v = λ x.
      same_nodes (record w { nodes = insert this m' w.nodes }) v q x
      ∙ same_storage this m m' w found refl x in
    let is_n : n ≡ m = ground (arith, found, there_is) in
    let once : KeysOnce w this = λ sm there.
      let s : n.state_machine ≡ sm = ground (arith, there, store_of_self this w n there_is) in
      subst (λ (x : StateMachine). IsDistinct x.value_store) s d in
    let first = Left-same this w v same in
    Left-trans this w v w' first (
      tell_leaving-Left env this m.ring m.stubs v w'
        (subst (λ (x : Node). contains x.stubs this ≡ false) is_n apart) (first.shrunk.once once) f)
