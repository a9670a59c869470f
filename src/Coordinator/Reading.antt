-- ===== src/Coordinator/Reading.antt =====
-- ClientGet (src/gossip_node.cpp): where its answers come from, and how many there are.
use cs739_cloud_native.Common.{
  ◌≤◌, ◌≡◌, ◌↔◌, sym, ap, subst, some, List, [], ◌*◌, arith, leb, if◌then◌else◌, length, Text,
  lookup, contains, true, AllDistinct,
}
use cs739_cloud_native.Versions.{Versioned, get_latest_data}
use cs739_cloud_native.Ring.{get_replicas_nodes}
use cs739_cloud_native.Node.{Node, replica_n, r_count}
use cs739_cloud_native.Cluster.{Env, World, self, assigned_coordinator}
use cs739_cloud_native.Cluster.Frame.{
  store_of, bind-some, SameStores, self-some, assigned_coordinator-SameStores,
}
use cs739_cloud_native.Coordinator.{
  Reads, Status, GetResponse, read_replicas, client_get, cancelled,
}
use cs739_cloud_native.Ring.Replicas.{IsRing, get_replicas_nodes_lem}
use cs739_cloud_native.Coordinator.Polling.{
  Answers, Answers-back, Read, Gathered-none, read_replicas-Read,
}
use cs739_cloud_native.Cluster.PeerGet.{SameStores-trans}

-- What a ClientGet gives back: the latest of the answers of distinct replicas, one of each, of
-- which there are enough exactly where the status is OK.
pub record Answered (key : Text) (replicas : List Text) (w : World) (resp : GetResponse)
    : Type 0 where
  pub answers : List Versioned
  pub origins : List Text
  pub given : Answers key w origins answers
  pub latest_of : resp.get_res_data ≡ get_latest_data answers
  pub distinct : AllDistinct origins
  pub within : (t : Text) → contains origins t ≡ true → contains replicas t ≡ true
  pub quorum : (resp.status ≡ Status.ok) ↔ (r_count ≤ length origins)

-- What a run of ClientGet went through.
record RanGet (env : Env) (this key : Text) (w w' : World) (resp : GetResponse) : Type 0 where
  node : Node
  there_is : lookup this w.nodes ≡ some node
  reads : Reads
  mid : World
  unchanged : SameStores w w'
  back : SameStores w mid
  read : Read env this key (get_replicas_nodes env.hash node.ring key (2 * replica_n)) w mid reads
  data_eq : get_latest_data reads.results ≡ resp.get_res_data
  status_eq : (if leb r_count reads.success_cnt then Status.ok else cancelled) ≡ resp.status

client_get-RanGet :
    (env : Env) (this key : Text) (w w' : World) (resp : GetResponse)
    → client_get env this key w ≡ some (resp, w')
    → RanGet env this key w w' resp
unfolding client_get
client_get-RanGet env this key w w' resp h =
    let (n, v, a, b) = bind-some (self this) _ w h in
    let ps = get_replicas_nodes env.hash n.ring key (2 * replica_n) in
    let (st, u, c, d) =
      bind-some
        (read_replicas env this key ps (record { results = []; success_cnt = 0; try_cnt = 0 })) _ v
        b in
    let (q, x, f, g) = bind-some (assigned_coordinator env this ps) _ u d in
    let (found_here, e) = self-some this w v n a in
    let same_self : SameStores w v = λ t. ap (λ u. store_of u t) (sym e) in
    let done =
      read_replicas-Read env this key ps ps [] _ st v u (Gathered-none env this key ps v) c in
    let back = SameStores-trans w v u same_self done.unchanged in
    let last : x ≡ w' = ground arith in
    record {
      node = n;
      there_is = found_here;
      reads = st;
      mid = u;
      unchanged =
          subst (SameStores w) last
            (SameStores-trans w u x back (assigned_coordinator-SameStores env this ps u x q f));
      back = back;
      read = subst (λ z. Read env this key ps z u st) (sym e) done;
      data_eq = ground arith;
      status_eq = ground arith;
    }

-- A ClientGet on a node whose ring is in order changes nothing that is stored. The data it returns
-- are the latest among answers: these come one each from distinct replicas of the key, and each is
-- the value and the version that its replica holds under the key. The status is OK exactly where at
-- least two replicas have answered.
pub client_get-Answered :
    (env : Env) (this key : Text) (w w' : World) (n : Node) (resp : GetResponse)
    → lookup this w.nodes ≡ some n
    → IsRing n.ring
    → client_get env this key w ≡ some (resp, w')
    → SameStores w w' × Answered key (get_replicas_nodes env.hash n.ring key (2 * replica_n)) w resp
client_get-Answered env this key w w' n resp there_is sorted h =
    let r = client_get-RanGet env this key w w' resp h in
    let g = r.read.gathered in
    let e : r.node ≡ n = ground (arith, r.there_is, there_is) in
    let ps = get_replicas_nodes env.hash r.node.ring key (2 * replica_n) in
    let distinct : AllDistinct ps =
      (get_replicas_nodes_lem env.hash r.node.ring key (2 * replica_n) []
        (subst (λ (x : Node). IsRing x.ring) (sym e) sorted)).0 in
    let tried = (g.tried distinct).1 in
    (
      r.unchanged,
      subst
          (λ (x : Node).
            Answered key (get_replicas_nodes env.hash x.ring key (2 * replica_n)) w resp)
          e
          (record {
            answers = r.reads.results;
            origins = r.read.names;
            given = Answers-back key w r.mid r.back g.answers;
            latest_of = sym r.data_eq;
            distinct = tried.distinct;
            within = tried.within;
            quorum = (
              λ good. ground (arith, r.status_eq, good, g.count),
              λ enough. ground (arith, r.status_eq, enough, g.count),
            );
          }),
    )
