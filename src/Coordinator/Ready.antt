-- ===== src/Coordinator/Ready.antt =====
-- A server (src/gossip_node.cpp) and replicas that are ready to take a write, and how many of these
-- stand in front of the list.
use cs739_cloud_native.Common.{
  ℕ, zero, suc, ◌+◌, ◌-◌, ◌≤◌, ◌==◌, ◌≡◌, refl, ap, ◌∙◌, Bool, true, false, ◌||◌, some, get_or,
  List, [], ◌∷◌, arith, if◌then◌else◌, Text, text_eq, text_eq_refl, text_eq_symm, contains, lookup,
  insert, touch, lookup-insert, lookup-touch, inl, inr,
}
use cs739_cloud_native.Versions.{VersionVector, latest}
use cs739_cloud_native.Node
use cs739_cloud_native.Node.{Node, Data, replica_n, is_recent}
use cs739_cloud_native.Cluster.{
  Env, World, delivered, self, store, serve, need_stub, now, rpc, is_alive, peer_put,
}
use cs739_cloud_native.Cluster.Frame.{bind-some}
use cs739_cloud_native.Cluster.Calls.{rpc-Outcome}
use cs739_cloud_native.Cluster.PeerPut.{newer, peer_put-cases, need_stub-same}
use cs739_cloud_native.Cluster.Runs.{rpc-delivered, send-some, serve-at}

-- A call of PeerPut touches no process but the peer.
pub peer_put-others :
    (env : Env) (this p key : Text) (d : Data) (w w' : World) (r : ℕ)
    → peer_put env this p key d w ≡ some (r, w')
    → (q : Text) → text_eq p q ≡ false
    → lookup q w'.nodes ≡ lookup q w.nodes
unfolding peer_put
peer_put-others env this p key d w w' r h q other =
    let f : Node → Node × Bool = λ n. Node.peer_put n key d in
    let (_, v, a, b) = bind-some (need_stub this p) _ w h in
    let (o, u, c, e) = bind-some (rpc env p (serve p f)) _ v b in
    let ev : v ≡ w = need_stub-same this p w v a in
    let eu : u ≡ w' = ground arith in
    elim (rpc-Outcome p f env v u o c) [
      | inl (same, _) ↦ ground (arith, same, ev, eu)
      | inr ran ↦
          ground (arith, ran.after, ev, eu, other, lookup-insert p q (f ran.before).0 v.nodes)
    ]

-- Where it is delivered, a peer that finds the version the latest takes the data.
pub peer_put-zero :
    (env : Env) (this p key : Text) (d : Data) (w w' : World) (r : ℕ) (m : Node)
    → ((i : ℕ) → env.net i ≡ delivered)
    → lookup p w.nodes ≡ some m
    → newer m key d ≡ latest
    → peer_put env this p key d w ≡ some (r, w')
    → r ≡ 0
unfolding peer_put
peer_put-zero env this p key d w w' r m delivers there_is new h =
    let f : Node → Node × Bool = λ n. Node.peer_put n key d in
    let (_, v, a, b) = bind-some (need_stub this p) _ w h in
    let (o, u, c, e) = bind-some (rpc env p (serve p f)) _ v b in
    let ev : v ≡ w = need_stub-same this p w v a in
    let there_is' : lookup p v.nodes ≡ some m = ground (arith, ev, there_is) in
    let after : World = record v { calls = suc v.calls; nodes = insert p (f m).0 v.nodes } in
    let ran : rpc env p (serve p f) v ≡ some (some (f m).1, after) =
      rpc-delivered env p (serve p f) v (delivers v.calls)
      ∙ send-some p (serve p f) (record v { calls = suc v.calls }) after m (f m).1 there_is'
          (serve-at p f (record v { calls = suc v.calls }) m there_is') in
    let applied : (f m).1 ≡ false = elim (peer_put-cases m key d) [
      | inl (_, q) ↦ ap (λ (x : Node × Bool). x.1) q
      | inr (not_new, _) ↦ absurd (not_new new)
    ] in
    let reply : some false ≡ o = ground (arith, ran, c, applied) in ground (arith, e, reply)

module _ (env : Env) (this key value : Text) (v : VersionVector) (goods : List Text) where
  abbrev pub sent : Data
  sent = record { value = value; version_info = v }

  -- A good server is heard of in time at every reading of the clock; and among the replicas that
  -- are left, each other one runs, and finds the version the latest.
  pub record Ready (w : World) (ps : List Text) : Type 0 where
    pub node : Node
    pub there : lookup this w.nodes ≡ some node
    pub fresh :
        (q : Text)
        → contains goods q ≡ true
        → (i : ℕ) → is_recent (env.clock i) (get_or (lookup q node.members_heartbeat_list) 0) ≡ true
    pub accepts :
        (q : Text)
        → contains goods q ≡ true
        → contains ps q ≡ true
        → text_eq q this ≡ false
        → (m : Node) × (lookup q w.nodes ≡ some m) × (newer m key sent ≡ latest)

  -- how many of the first k are good, or this server itself
  abbrev pub hits : ℕ → List Text → ℕ
  hits zero ps = 0
  hits (suc k) [] = 0
  hits (suc k) (p ∷ ps) =
      let rest = hits k ps in if text_eq p this || contains goods p then suc rest else rest

  abbrev pub bonus : Text → ℕ
  bonus p = if text_eq p this || contains goods p then 1 else 0

  pub hits-nil : (k : ℕ) → hits k [] ≡ 0
  hits-nil zero = refl
  hits-nil (suc k) = refl

  pub hits-stop :
      (t : ℕ) (ps : List Text) → (suc t == replica_n) ≡ true → hits (replica_n - suc t) ps ≡ 0
  hits-stop t ps h = let e : replica_n - suc t ≡ 0 = ground (arith, h) in ap (λ k. hits k ps) e

  pub hits_mono : (k j : ℕ) (ps : List Text) → k ≤ j → hits k ps ≤ hits j ps
  hits_mono zero j ps h = omega arith
  hits_mono (suc k) zero ps h = absurd (omega arith)
  hits_mono (suc k) (suc j) [] h = omega arith
  hits_mono (suc k) (suc j) (p ∷ ps) h = ground (arith, hits_mono k j ps (omega arith))

  pub hits-next :
      (k j : ℕ) (p : Text) (ps : List Text) → k ≤ suc j → hits k (p ∷ ps) ≤ bonus p + hits j ps
  hits-next zero j p ps h = omega arith
  hits-next (suc k) j p ps h = ground (arith, hits_mono k j ps (omega arith))

  pub Ready-is_alive :
      (w w' : World) (ps : List Text) (c : Text) (a : Bool)
      → Ready w ps
      → is_alive env this c w ≡ some (a, w')
      → Ready w' ps × (contains goods c ≡ true → a ≡ true)
  unfolding is_alive now self store
  Ready-is_alive w w' ps c a r h =
      let n = r.node in
      let n' : Node = record n { members_heartbeat_list = touch c 0 n.members_heartbeat_list } in
      let q : w'.nodes ≡ insert this n' w.nodes = ground (arith, r.there) in
      let e : is_recent (env.clock w.readings) (get_or (lookup c n.members_heartbeat_list) 0) ≡ a =
        ground (arith, r.there) in
      (
        record {
          node = n';
          there = ground (arith, q, lookup-insert this this n' w.nodes, text_eq_refl this);
          fresh = λ x good i.
              let same : get_or (lookup x n'.members_heartbeat_list) 0
                  ≡ get_or (lookup x n.members_heartbeat_list) 0 =
                ground (arith, lookup-touch c x 0 n.members_heartbeat_list) in
              rw same (r.fresh x good i);
          accepts = λ x good left other.
              let (m, there_is, new) = r.accepts x good left other in
              (
                m,
                ground (
                  arith,
                  q,
                  there_is,
                  lookup-insert this x n' w.nodes,
                  text_eq_symm x this,
                  other,
                ),
                new,
              );
        },
        λ good. ground (arith, e, r.fresh c good w.readings),
      )

  pub Ready-rest : (w : World) (p : Text) (ps : List Text) → Ready w (p ∷ ps) → Ready w ps
  unfolding contains
  Ready-rest w p ps r = record {
    node = r.node;
    there = r.there;
    fresh = r.fresh;
    accepts = λ q good left other. r.accepts q good (ground (arith, left)) other;
  }
