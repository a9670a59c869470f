-- ===== src/Coordinator/Sound.antt =====
-- ClientGet and ClientPut (src/gossip_node.cpp) under the condition on every process.
use cs739_cloud_native.Common.{
  ◌==◌, List, [], ◌∷◌, Text, text_eq, IsDistinct, suc, In, In-only, In-append, subst, sym, inl, inr,
}
use cs739_cloud_native.Versions.{VersionVector, Versioned, update_version}
use cs739_cloud_native.Versions.Latest.Newest.{get_latest_data_lem}
use cs739_cloud_native.Versions.Update.{update_version-IsDistinct}
use cs739_cloud_native.Node.{Data}
use cs739_cloud_native.Cluster.{Env, self, store, is_alive, peer_put, peer_get}
use cs739_cloud_native.Cluster.Keeps.{
  Keeps, Any, Keeps-pure, Keeps-bind, Keeps-if, Keeps-Reply, Keeps-self, Keeps-store,
}
use cs739_cloud_native.Cluster.Sound.{
  IsSound, put-IsSound, peer_get-IsDistinct, is_alive-Keeps, peer_put-Keeps, peer_get-Keeps,
  assigned_coordinator-Keeps,
}
use cs739_cloud_native.Coordinator.{
  Acks, Reads, GetResponse, put_self, found, write_replicas, read_replicas, client_put, client_get,
}

-- Every version among the answers names each server once.
abbrev pub ClocksIn : List Versioned → Type 0
ClocksIn xs = (x : Versioned) → In x xs → IsDistinct x.1

found-ClocksIn :
    (st : Reads) (d : Data)
    → ClocksIn st.results
    → IsDistinct d.version_info
    → ClocksIn (found st d).results
unfolding found
found-ClocksIn st d c v x i = elim (In-append st.results i) [
  | inl old ↦ c x old
  | inr last ↦ subst (λ (y : Versioned). IsDistinct y.1) (sym (In-only last)) v
]

module _ (env : Env) (this key : Text) where
  read_replicas-Keeps :
      (ps : List Text) (st : Reads)
      → ClocksIn st.results
      → Keeps IsSound (λ (r : Reads). ClocksIn r.results) (read_replicas env this key ps st)
  unfolding read_replicas
  read_replicas-Keeps [] st c = Keeps-pure st c
  read_replicas-Keeps (p ∷ ps) st c =
      Keeps-if (text_eq p this) _ _
        (Keeps-bind IsSound (self this) _ (Keeps-self this) λ n s.
          let c' =
            found-ClocksIn (record st { try_cnt = suc st.try_cnt }) _ c
              (peer_get-IsDistinct n key s) in
          Keeps-if _ _ _ (Keeps-pure _ c') (read_replicas-Keeps ps _ c'))
        (Keeps-bind Any (is_alive env this p) _ (is_alive-Keeps env this p) λ a _.
          Keeps-if a _ _
            (Keeps-bind _ (peer_get env this p key) _ (peer_get-Keeps env this p key) λ r q.
              Keeps-Reply _ _ q (read_replicas-Keeps ps _ c) λ d v.
                let c' = found-ClocksIn (record st { try_cnt = suc st.try_cnt }) d c v in
                Keeps-if _ _ _ (Keeps-pure _ c') (read_replicas-Keeps ps _ c'))
            (read_replicas-Keeps ps st c))

  -- A ClientGet keeps every process sound, and its answers name each server once.
  pub client_get-Keeps :
      Keeps IsSound (λ (r : GetResponse). ClocksIn r.get_res_data) (client_get env this key)
  unfolding client_get
  client_get-Keeps = Keeps-bind IsSound (self this) _ (Keeps-self this) λ n _.
      Keeps-bind _ _ _ (read_replicas-Keeps _ _ (λ x i. elim i [ ])) λ st c.
        Keeps-bind Any _ _ (assigned_coordinator-Keeps env this _)
          λ a _. Keeps-pure _ (λ x i. c x (((get_latest_data_lem st.results).1 x).0 i).0)

  module _ (value : Text) (version : VersionVector) (v : IsDistinct version) where
    write_replicas-Keeps :
        (ps : List Text) (st : Acks)
        → Keeps IsSound Any (write_replicas env this key value version ps st)
    unfolding write_replicas put_self
    write_replicas-Keeps [] st = Keeps-pure st tt
    write_replicas-Keeps (p ∷ ps) st =
        Keeps-if (text_eq p this) _ _
          (Keeps-bind IsSound (self this) _ (Keeps-self this) λ n s.
            Keeps-bind Any (store this (put_self key value version n)) _
              (Keeps-store this _ (put-IsSound n key value version s v))
              λ _ _. Keeps-if _ _ _ (Keeps-pure _ tt) (write_replicas-Keeps ps _))
          (Keeps-bind Any (is_alive env this p) _ (is_alive-Keeps env this p) λ a _.
            Keeps-if a _ _
              (Keeps-bind Any (peer_put env this p key _) _ (peer_put-Keeps env this p key _ v)
                λ r _.
                  Keeps-if (r == 0) _ _
                    (Keeps-if _ _ _ (Keeps-pure _ tt) (write_replicas-Keeps ps _))
                    (write_replicas-Keeps ps _))
              (write_replicas-Keeps ps st))

  -- A ClientPut whose request names each server once keeps every process sound.
  pub client_put-Keeps :
      (d : Data) → IsDistinct d.version_info → Keeps IsSound Any (client_put env this key d)
  unfolding client_put
  client_put-Keeps d v = Keeps-bind IsSound (self this) _ (Keeps-self this) λ n _.
      Keeps-bind Any _ _ (assigned_coordinator-Keeps env this _) λ c _.
        Keeps-if _ _ _
          (Keeps-bind Any _ _
            (write_replicas-Keeps d.value (update_version d.version_info this)
              (update_version-IsDistinct d.version_info this v) _ _)
            λ st _. Keeps-pure _ tt)
          (Keeps-pure _ tt)
