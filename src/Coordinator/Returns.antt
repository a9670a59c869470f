-- ===== src/Coordinator/Returns.antt =====
-- ClientPut (src/gossip_node.cpp) goes through no missing stub.
use cs739_cloud_native.Common.{
  ◌*◌, ◌==◌, ◌≡◌, ◌∙◌, true, some, List, [], ◌∷◌, arith, Text, text_eq, text_eq_refl, contains,
  lookup, Bool-cases, inl, inr,
}
use cs739_cloud_native.Versions.{VersionVector}
use cs739_cloud_native.Ring.{get_replicas_nodes}
use cs739_cloud_native.Node
use cs739_cloud_native.Node.{Node, Data, replica_n}
use cs739_cloud_native.Cluster.{Env, World, self}
use cs739_cloud_native.Cluster.Runs.{
  AnyValue, HasStubs, Runs, Runs-pure, Runs-bind, Runs-if, Runs-self, Runs-store, is_alive-Runs,
  assigned_coordinator-Runs, peer_put-Runs, bind-at, self-at,
}
use cs739_cloud_native.Coordinator.{Acks, PutResponse, put_self, write_replicas, client_put}

module _ (env : Env) (this key : Text) (servers : List Text) where
  -- every one of the replicas that are left is a server
  abbrev AreServers : List Text → Type 0
  AreServers ps = (t : Text) → contains ps t ≡ true → contains servers t ≡ true

  first-AreServers : (p : Text) (ps : List Text) → AreServers (p ∷ ps) → contains servers p ≡ true
  unfolding contains
  first-AreServers p ps h = h p (ground (arith, text_eq_refl p))

  rest-AreServers : (p : Text) (ps : List Text) → AreServers (p ∷ ps) → AreServers ps
  unfolding contains
  rest-AreServers p ps h t c = h t (ground (arith, c))

  put_self-HasStubs :
      (value : Text) (v : VersionVector) (n : Node)
      → HasStubs this servers n
      → HasStubs this servers (put_self key value v n)
  unfolding put_self
  put_self-HasStubs value v n h = h

  write_replicas-Runs :
      (value : Text) (v : VersionVector) (ps : List Text) (st : Acks)
      → AreServers ps
      → Runs this servers AnyValue (write_replicas env this key value v ps st)
  unfolding write_replicas
  write_replicas-Runs value v [] st h = Runs-pure this servers st tt
  write_replicas-Runs value v (p ∷ ps) st h =
      let more = λ (st : Acks). write_replicas-Runs value v ps st (rest-AreServers p ps h) in
      elim (Bool-cases (text_eq p this)) [
        | inl me ↦ rw me (
            Runs-bind this servers (HasStubs this servers) _ _ (Runs-self this servers) λ n s.
              Runs-bind this servers AnyValue _ _
                (Runs-store this servers (put_self key value v n) (put_self-HasStubs value v n s))
                λ _ _. Runs-if this servers _ _ _ (Runs-pure this servers _ tt) (more _))
        | inr other ↦ rw other (
            Runs-bind this servers AnyValue _ _ (is_alive-Runs this servers env p) λ a _.
              Runs-if this servers a _ _
                (Runs-bind this servers AnyValue _ _
                  (peer_put-Runs this servers env p (first-AreServers p ps h) other key _)
                  λ r _.
                    Runs-if this servers (r == 0) _ _
                      (Runs-if this servers _ _ _ (Runs-pure this servers _ tt) (more _)) (more _))
                (more _))
      ]

-- A ClientPut goes through no missing stub, where the server is there and has a stub for every
-- other replica of the key.
pub client_put-returns :
    (env : Env) (this key : Text) (d : Data) (w : World) (n : Node)
    → lookup this w.nodes ≡ some n
    → HasStubs this (get_replicas_nodes env.hash n.ring key (2 * replica_n)) n
    → (resp : PutResponse) × (w' : World) × (client_put env this key d w ≡ some (resp, w'))
unfolding client_put
client_put-returns env this key d w n there_is stubs =
    let rs = get_replicas_nodes env.hash n.ring key (2 * replica_n) in
    let (resp, w', e, ready, q) =
      (Runs-bind this rs {R = AnyValue} AnyValue _ _ (assigned_coordinator-Runs this rs env rs)
          λ coordinator _.
            Runs-if this rs (Node.is_coordinator this rs) _ _
              (Runs-bind this rs AnyValue _ _
                (write_replicas-Runs env this key rs d.value _ rs _ (λ t c. c))
                λ st _. Runs-pure this rs _ tt)
              (Runs-pure this rs _ tt)).at
        w (n, there_is, stubs) in
    (resp, w', bind-at (self this) _ w w n (self-at this w n there_is) ∙ e)
