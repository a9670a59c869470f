-- ===== src/Client/Replies.antt =====
-- What a reply to a call of the client (src/client_grpc.cpp) says about the servers.
use cs739_cloud_native.Common.{
  suc, ◌≡◌, ◌≢◌, ◌⊎◌, refl, Option, none, some, arith, Text, lookup, if◌then◌else◌, contains,
  Bool-cases, Option-cases, inl, inr, leb, ◌*◌,
}
use cs739_cloud_native.Ring.{get_replicas_nodes}
use cs739_cloud_native.Versions.{update_version}
use cs739_cloud_native.Node
use cs739_cloud_native.Node.{Node, Data, replica_n, w_count}
use cs739_cloud_native.Cluster
use cs739_cloud_native.Cluster.{
  Env, World, M, Delivery, delivered, request_lost, reply_lost, self, send, drop_reply, rpc,
  assigned_coordinator,
}
use cs739_cloud_native.Cluster.Frame.{bind-some}
use cs739_cloud_native.Coordinator.{
  PutReturn, PutResponse, failed, not_coordinator, no_version, client_put, write_replicas,
}
use cs739_cloud_native.Client.{me, Session, done, remote, call}

-- A reply comes only from the handler, run on the state that the call found.
send-reply {ℓ} :
    {A : Type ℓ} (a : Text) (handler : M A) (w w' : World) (r : A)
    → send a handler w ≡ some (some r, w')
    → handler w ≡ some (r, w')
unfolding send
send-reply a handler w w' r h = elim (Option-cases (lookup a w.nodes)) [
  | inl gone ↦ absurd (ground arith)
  | inr (n, there_is) ↦ elim (Option-cases (handler w)) [
    | inl fails ↦ absurd (ground arith)
    | inr (x, ran) ↦ ground arith
  ]
]

lost-no_reply {ℓ} :
    {A : Type ℓ} (o : Option (Option A × World)) (r : A) (w' : World)
    → drop_reply o ≢ some (some r, w')
unfolding drop_reply
lost-no_reply none r w' h = cc
lost-no_reply (some (x, w)) r w' h = absurd (ground arith)

module _ {ℓ} {A : Type ℓ} (env : Env) (a : Text) (handler : M A) (w w' : World) (r : A) where
  by_fate :
      (d : Delivery)
      → env.net w.calls ≡ d
      → rpc env a handler w ≡ some (some r, w')
      → handler (record w { calls = suc w.calls }) ≡ some (r, w')
  unfolding rpc
  by_fate delivered e h =
      send-reply a handler (record w { calls = suc w.calls }) w' r (rw (e, rpc) at h)
  by_fate request_lost e h =
      let f : some (none, record w { calls = suc w.calls }) ≡ some (some r, w') =
        rw (e, rpc) at h in
      absurd (ground arith)
  by_fate reply_lost e h =
      absurd
        (lost-no_reply (send a handler (record w { calls = suc w.calls })) r w' (rw (e, rpc) at h))

-- A ClientPut never answers NO_VERSION.
pub client_put-ret :
    (env : Env) (this key : Text) (d : Data) (w w' : World) (resp : PutResponse)
    → client_put env this key d w ≡ some (resp, w')
    → resp.ret ≢ no_version
unfolding client_put
client_put-ret env this key d w w' resp h bad =
    let (m, v, a, b) = bind-some (self this) _ w h in
    let ps = get_replicas_nodes env.hash m.ring key (2 * replica_n) in
    let (c, u, a', b') = bind-some (assigned_coordinator env this ps) _ v b in
    elim (Bool-cases (Node.is_coordinator this ps)) [
      | inr no_member ↦
          let f : Cluster.pure (record { ret = not_coordinator; coordinator = c }) u
              ≡ some (resp, w') =
            rw no_member at b' in
          let q : not_coordinator ≡ resp.ret = ground arith in absurd (ground (arith, q, bad))
      | inl member ↦
          let (st, x, f, g) =
            bind-some
              (write_replicas env this key d.value (update_version d.version_info this) ps
                (record { success_cnt = 0; try_cnt = 0 }))
              _ u (rw member at b') in
          let q : (if leb w_count st.success_cnt then PutReturn.ok else failed) ≡ resp.ret =
            ground arith in
          absurd (ground (arith, q, bad))
    ]

-- a call of the client that brings a reply
pub record Reached {ℓ} {A : Type ℓ} (handler : Text → M A) (s s' : Session) (r : A) : Type ℓ where
  pub server : Text
  pub before : World
  pub ran : handler server before ≡ some (r, s'.world)
  pub same_client : s'.client ≡ s.client
  pub same_nodes : before.nodes ≡ s.world.nodes

remote-done {ℓ} :
    {A : Type ℓ} (m : M A) (s s' : Session) (r : A)
    → remote m s ≡ done r s'
    → (m s.world ≡ some (r, s'.world)) × (s'.client ≡ s.client)
unfolding remote
remote-done m s s' r h = elim (Option-cases (m s.world)) [
  | inl fails ↦ absurd (ground arith)
  | inr (x, ran) ↦ (ground arith, ground arith)
]

pub call-Reached {ℓ} :
    {A : Type ℓ} (env : Env) (handler : Text → M A) (s s' : Session) (r : A)
    → call env handler s ≡ done (some r) s'
    → Reached handler s s' r
unfolding me call
call-Reached env handler s s' r h =
    elim (Bool-cases (contains s.client.stubs s.client.assigned_coordinator)) [
      | inr no_stub ↦ absurd (ground arith)
      | inl stub ↦
          let addr = s.client.assigned_coordinator in
          let (ran, same_one) =
            remote-done (rpc env addr (handler addr)) s s' (some r) (rw stub at h) in
          record {
            server = addr;
            before = record s.world { calls = suc s.world.calls };
            ran =
                by_fate env addr (handler addr) s.world s'.world r (env.net s.world.calls) refl ran;
            same_client = same_one;
            same_nodes = refl;
          }
    ]

pub PutReturn-cases :
    (q : PutReturn)
    → (q ≡ PutReturn.ok) ⊎ ((q ≡ failed) ⊎ ((q ≡ not_coordinator) ⊎ (q ≡ no_version)))
PutReturn-cases PutReturn.ok = inl refl
PutReturn-cases failed = inr (inl refl)
PutReturn-cases not_coordinator = inr (inr (inl refl))
PutReturn-cases no_version = inr (inr (inr refl))
