-- ===== src/Coordinator/Succeeds.antt =====
-- ClientPut (src/gossip_node.cpp) where the network delivers every call: it answers OK.
use cs739_cloud_native.Common.{
  ℕ, zero, suc, ◌*◌, ◌≤◌, ◌≡◌, sym, ◌∙◌, subst, true, false, ◌||◌, some, get_or, List, [], ◌∷◌,
  arith, leb, if◌then◌else◌, take, Text, text_eq, text_eq_iff, text_eq_refl, contains, lookup,
  AllDistinct, Bool-cases, inl, inr,
}
use cs739_cloud_native.Versions.{VersionVector, latest, update_version}
use cs739_cloud_native.Ring.{get_replicas_nodes}
use cs739_cloud_native.Ring.Replicas.{IsRing, get_replicas_nodes_lem}
use cs739_cloud_native.Node
use cs739_cloud_native.Node.{Node, Data, replica_n, w_count, is_recent}
use cs739_cloud_native.Cluster.{
  Env, World, M, pure, ◌>>=◌, delivered, self, is_alive, assigned_coordinator,
}
use cs739_cloud_native.Cluster.Frame.{bind-some}
use cs739_cloud_native.Cluster.PeerPut.{newer}
use cs739_cloud_native.Cluster.Runs.{HasStubs, bind-at, self-at}
use cs739_cloud_native.Coordinator.{
  PutReturn, PutResponse, failed, not_coordinator, write_replicas, client_put,
}
use cs739_cloud_native.Coordinator.Returns.{client_put-returns}
use cs739_cloud_native.Coordinator.Ready.{Ready, hits, Ready-is_alive}
use cs739_cloud_native.Coordinator.Available.{write_replicas-hits}

module _ (env : Env) (this key value : Text) (v : VersionVector) (goods : List Text) where
  contains-take :
      (k : ℕ) (ps : List Text) (t : Text) → contains (take k ps) t ≡ true → contains ps t ≡ true
  unfolding contains
  contains-take zero ps t h = cc
  contains-take (suc k) [] t h = h
  contains-take (suc k) (p ∷ ps) t h = ground (arith, contains-take k ps t)

  one-hit :
      (k : ℕ) (ps : List Text) (t : Text)
      → text_eq t this || contains goods t ≡ true
      → contains (take k ps) t ≡ true
      → 1 ≤ hits env this key value v goods k ps
  unfolding contains
  one-hit zero ps t good h = cc
  one-hit (suc k) [] t good h = cc
  one-hit (suc k) (p ∷ ps) t good h = elim (Bool-cases (text_eq p t)) [
    | inl hit ↦ let e : p ≡ t = (text_eq_iff p t).0 hit in ground (arith, e, good)
    | inr miss ↦ ground (arith, miss, h, one-hit k ps t good)
  ]

  two-hits :
      (k : ℕ) (ps : List Text) (t : Text)
      → text_eq t this ≡ false
      → contains goods t ≡ true
      → contains (take k ps) this ≡ true
      → contains (take k ps) t ≡ true
      → 2 ≤ hits env this key value v goods k ps
  unfolding contains
  two-hits zero ps t other good ha hb = cc
  two-hits (suc k) [] t other good ha hb = cc
  two-hits (suc k) (p ∷ ps) t other good ha hb = elim (Bool-cases (text_eq p this)) [
    | inl me ↦
        let e : p ≡ this = (text_eq_iff p this).0 me in
        let apart : text_eq p t ≡ false = elim (Bool-cases (text_eq p t)) [
          | inr miss ↦ miss
          | inl hit ↦ absurd (ground (arith, other, e, text_eq_iff p t, hit, text_eq_refl t))
        ] in
        let rest = one-hit k ps t (ground (arith, good)) (ground (arith, hb, apart)) in
        ground (arith, me, rest)
    | inr not_me ↦ elim (Bool-cases (text_eq p t)) [
      | inl hit ↦
          let e : p ≡ t = (text_eq_iff p t).0 hit in
          let rest =
            one-hit k ps this (ground (arith, text_eq_refl this)) (ground (arith, ha, not_me)) in
          ground (arith, e, good, rest)
      | inr miss ↦
          let rest =
            two-hits k ps t other good (ground (arith, ha, not_me)) (ground (arith, hb, miss)) in
          ground (arith, rest)
    ]
  ]

  assigned_coordinator-Ready :
      (cs ps : List Text) (w w' : World) (c : Text)
      → Ready env this key value v goods w ps
      → assigned_coordinator env this cs w ≡ some (c, w')
      → Ready env this key value v goods w' ps
  unfolding assigned_coordinator
  assigned_coordinator-Ready [] ps w w' c r h =
      let e : w ≡ w' = ground arith in subst (λ x. Ready env this key value v goods x ps) e r
  assigned_coordinator-Ready (x ∷ cs) ps w w' c r h =
      let (a, w1, step, rest) = bind-some (is_alive env this x) _ w h in
      let (r', _) = Ready-is_alive env this key value v goods w w1 ps x a r step in
      elim (Bool-cases a) [
        | inl alive ↦
            let e : w1 ≡ w' = ground arith in
            subst (λ x. Ready env this key value v goods x ps) e r'
        | inr silent ↦ assigned_coordinator-Ready cs ps w1 w' c r' (rw silent at rest)
      ]

only : (p q : Text) → contains (p ∷ []) q ≡ true → p ≡ q
unfolding contains
only p q h = ground (arith, h, text_eq_iff p q)

-- The rest of the handler, once the node has been read.
abbrev handle : Env → Text → Text → Data → Node → M PutResponse
handle env this key d n =
    let ps = get_replicas_nodes env.hash n.ring key (2 * replica_n) in
    assigned_coordinator env this ps >>= λ coordinator.
    if Node.is_coordinator this ps
    then (write_replicas env this key d.value (update_version d.version_info this) ps
          (record { success_cnt = 0; try_cnt = 0 })
        >>= λ st. pure (record {
          ret = if leb w_count st.success_cnt then PutReturn.ok else failed;
          coordinator = coordinator;
        }))
    else pure (record { ret = not_coordinator; coordinator = coordinator })

handle-ok :
    (env : Env) (this key : Text) (d : Data) (goods : List Text) (p : Text) (n : Node)
    (w w' : World) (resp : PutResponse)
    → ((i : ℕ) → env.net i ≡ delivered)
    → let ps = get_replicas_nodes env.hash n.ring key (2 * replica_n) in
      AllDistinct ps
      → contains (take replica_n ps) this ≡ true
      → contains (take replica_n ps) p ≡ true
      → text_eq p this ≡ false
      → contains goods p ≡ true
      → Ready env this key d.value (update_version d.version_info this) goods w ps
      → handle env this key d n w ≡ some (resp, w')
      → resp.ret ≡ PutReturn.ok
unfolding Node.is_coordinator
handle-ok env this key d goods p n w w' resp delivers dist me_in p_in apart good ready h =
    let v = update_version d.version_info this in
    let ps = get_replicas_nodes env.hash n.ring key (2 * replica_n) in
    let member : contains ps this ≡ true =
      contains-take env this key d.value v goods replica_n ps this me_in in
    let (c, w1, step, rest) = bind-some (assigned_coordinator env this ps) _ w h in
    let ready' = assigned_coordinator-Ready env this key d.value v goods ps ps w w1 c ready step in
    let (st, w2, ran, last) =
      bind-some (write_replicas env this key d.value v ps (record { success_cnt = 0; try_cnt = 0 }))
        _ w1 (rw member at rest) in
    let two = two-hits env this key d.value v goods replica_n ps p apart good me_in p_in in
    let many =
      write_replicas-hits env this key d.value v goods delivers ps
        (record { success_cnt = 0; try_cnt = 0 }) st w1 w2 dist ready' ran in
    let enough : 2 ≤ st.success_cnt = omega (arith, two, many) in ground (arith, last, enough)

-- Where the network delivers every call, a ClientPut answers OK on a server whose ring is in order
-- and that is among the first three replicas of the key, if another of these three is heard of in
-- time, runs, and finds the new version the latest; the server has a stub for every other replica.
pub client_put-ok :
    (env : Env) (this p key : Text) (d : Data) (w : World) (n m : Node)
    → ((i : ℕ) → env.net i ≡ delivered)
    → lookup this w.nodes ≡ some n
    → IsRing n.ring
    → HasStubs this (get_replicas_nodes env.hash n.ring key (2 * replica_n)) n
    → contains (take replica_n (get_replicas_nodes env.hash n.ring key (2 * replica_n))) this ≡ true
    → contains (take replica_n (get_replicas_nodes env.hash n.ring key (2 * replica_n))) p ≡ true
    → text_eq p this ≡ false
    → ((i : ℕ) → is_recent (env.clock i) (get_or (lookup p n.members_heartbeat_list) 0) ≡ true)
    → lookup p w.nodes ≡ some m
    → newer m key (record { value = d.value; version_info = update_version d.version_info this })
      ≡ latest
    → (resp : PutResponse) × (w' : World) × (client_put env this key d w ≡ some (resp, w'))
      × (resp.ret ≡ PutReturn.ok)
client_put-ok env this p key d w n m delivers there_is sorted stubs me_in p_in apart heard p_there
      new =
    let (resp, w', ran) = client_put-returns env this key d w n there_is stubs in
    let ps = get_replicas_nodes env.hash n.ring key (2 * replica_n) in
    let rest : handle env this key d n w ≡ some (resp, w') =
      unfold client_put in
      sym (bind-at (self this) (handle env this key d) w w n (self-at this w n there_is)) ∙ ran in
    let v = update_version d.version_info this in
    let ready : Ready env this key d.value v (p ∷ []) w ps = record {
      node = n;
      there = there_is;
      fresh = λ q good.
          subst
            (λ t.
              (i : ℕ)
              → is_recent (env.clock i) (get_or (lookup t n.members_heartbeat_list) 0) ≡ true)
            (only p q good) heard;
      accepts = λ q good left other.
          subst
            (λ t.
              (m : Node) × (lookup t w.nodes ≡ some m)
              × (newer m key (record { value = d.value; version_info = v }) ≡ latest))
            (only p q good) (m, p_there, new);
    } in
    (
      resp,
      w',
      ran,
      handle-ok env this key d (p ∷ []) p n w w' resp delivers
          (get_replicas_nodes_lem env.hash n.ring key (2 * replica_n) [] sorted).0 me_in p_in apart
          (unfold contains in ground (arith, text_eq_refl p)) ready rest,
    )
