-- ===== src/Coordinator/Consistency.antt =====
-- A read after a write (ClientPut and ClientGet of src/gossip_node.cpp): the quorums meet.
use cs739_cloud_native.Common.{
  ◌≤◌, ◌*◌, ◌≡◌, ◌≢◌, ◌⊎◌, [], text_eq_refl, sym, ap, ap₂, ◌∙◌, subst, some, arith, length, Text,
  contains, lookup, In, IsDistinct, meet, Option-cases, inl, inr,
}
use cs739_cloud_native.Versions.{VersionVector, Versioned, update_version}
use cs739_cloud_native.Versions.Update.{lookup-update_version}
use cs739_cloud_native.Versions.Latest.Newest.{get_latest_data_lem}
use cs739_cloud_native.Versions.Latest.Overtaken.{Overtakes, Earlier-Overtakes}
use cs739_cloud_native.Versions.Latest.Above.{IsUpTo, get_latest_data-IsUpTo}
use cs739_cloud_native.StateMachine
use cs739_cloud_native.StateMachine.{StateMachine}
use cs739_cloud_native.Ring.{get_replicas_nodes}
use cs739_cloud_native.Node.{Node, Data, replica_n}
use cs739_cloud_native.Cluster.{Env, World}
use cs739_cloud_native.Cluster.Frame.{store_of}
use cs739_cloud_native.Cluster.PeerGet.{From}
use cs739_cloud_native.Cluster.Keeps.{AllNodes}
use cs739_cloud_native.Cluster.Sound.{IsSound}
use cs739_cloud_native.Coordinator.{
  PutReturn, PutResponse, Status, GetResponse, client_put, client_get,
}
use cs739_cloud_native.Coordinator.Acked.{Holds}
use cs739_cloud_native.Coordinator.Quorum.{client_put-Written}
use cs739_cloud_native.Coordinator.Polling.{Answers-In, Answers-of}
use cs739_cloud_native.Coordinator.Reading.{client_get-Answered}
use cs739_cloud_native.Coordinator.Sound.{client_put-Keeps}

-- What a process that holds the data answers is the data.
Holds-From :
    (key value : Text) (version : VersionVector) (w : World) (t : Text) (x : Versioned)
    → Holds key value version w t
    → (f : From key w x) → f.origin ≡ t
    → x ≡ (value, version)
unfolding StateMachine.get_value
Holds-From key value version w t x h f from_there =
    let e : h.storage ≡ f.storage = ground (arith, h.at, f.at, ap (store_of w) from_there) in
    f.is_held
    ∙ ap (λ (sm : StateMachine). (StateMachine.get_value sm key, StateMachine.get_version sm key))
        (sym e)
    ∙ ap₂ (λ v c. (v, c)) (rw h.has_value) h.has_version

update_version-entries : (v : VersionVector) (s : Text) → update_version v s ≢ []
update_version-entries v s e =
    let l = lookup-update_version v s s in
    absurd (let f = rw (e, text_eq_refl) at l in unfold lookup in cc)

From-IsDistinct :
    (key : Text) (w : World) (x : Versioned) → AllNodes IsSound w → From key w x → IsDistinct x.1
unfolding store_of
From-IsDistinct key w x all f = elim (Option-cases (lookup f.origin w.nodes)) [
  | inl gone ↦ absurd (ground (arith, f.at))
  | inr (n, found) ↦
      let e : n.state_machine ≡ f.storage = ground (arith, f.at) in
      subst (λ (y : Versioned). IsDistinct y.1) (sym f.is_held)
        (subst (λ sm. IsDistinct (StateMachine.get_version sm key)) e
          ((all f.origin n found).clocks key))
]

-- A read after a write. On sound servers, a ClientPut whose request names each server once answers
-- OK; next a ClientGet of the key, on a server that finds the same replicas, three at most, has
-- status OK. Then what it returns has the value with the version of the write; or a value with a
-- version that is later in the order of vector clocks; or one with a concurrent version that lacks
-- a server of the write, which check_conflict_version takes for a later one, so that the write may
-- be lost.
pub client_get-client_put :
    (env : Env) (this that key : Text) (d : Data) (w w' w'' : World) (n m : Node)
    (resp : PutResponse) (answer : GetResponse)
    → AllNodes IsSound w
    → IsDistinct d.version_info
    → lookup this w.nodes ≡ some n
    → lookup that w'.nodes ≡ some m
    → get_replicas_nodes env.hash m.ring key (2 * replica_n)
      ≡ get_replicas_nodes env.hash n.ring key (2 * replica_n)
    → length (get_replicas_nodes env.hash n.ring key (2 * replica_n)) ≤ replica_n
    → client_put env this key d w ≡ some (resp, w')
    → resp.ret ≡ PutReturn.ok
    → client_get env that key w' ≡ some (answer, w'')
    → answer.status ≡ Status.ok
    → (x : Versioned) × In x answer.get_res_data
      × ((x ≡ (d.value, update_version d.version_info this))
          ⊎ Overtakes (update_version d.version_info this) x.1)
client_get-client_put env this that key d w w' w'' n m resp answer all v here_it_is there_it_is
      agree few put ok get good =
    let (all', _) = (client_put-Keeps env this key d v).at w w' resp all put in
    let (k, enough, written) =
      client_put-Written env this key d w w' n resp here_it_is (all this n here_it_is).ring put
        ok in
    let polled =
      (client_get-Answered env that key w' w'' m answer there_it_is (all' that m there_it_is).ring
        get).1 in
    let replicas = get_replicas_nodes env.hash n.ring key (2 * replica_n) in
    let (t, a, b) =
      meet written.acked polled.origins replicas written.distinct polled.distinct written.within
        (λ s c. ap (λ l. contains l s) (sym agree) ∙ polled.within s c)
        (omega (arith, few, enough, written.size, polled.quorum.0 good)) in
    let (reported, is_in, f, origin) = Answers-of key w' t polled.given b in
    let same = Holds-From key d.value _ w' t reported (written.holds t a) f origin in
    let clean : (y : Versioned) → In y polled.answers → IsDistinct y.1 =
      λ y j. From-IsDistinct key w' y all' (Answers-In key w' y polled.given j) in
    let (x, i, up) = get_latest_data-IsUpTo reported polled.answers is_in clean in
    let there_x = (((get_latest_data_lem polled.answers).1 x).0 i).0 in
    (
      x,
      subst (In x) (sym polled.latest_of) i,
      elim (subst (λ y. IsUpTo y x) same up) [
        | inl e ↦ inl e
        | inr below ↦ inr (
            Earlier-Overtakes (update_version d.version_info this) x.1
              (subst (λ (y : Versioned). IsDistinct y.1) same (clean reported is_in))
              (clean x there_x) (update_version-entries d.version_info this) below)
      ],
    )
