-- ===== src/Coordinator/Quorum.antt =====
-- ClientPut (src/gossip_node.cpp): the processes that hold the data when it answers.
use cs739_cloud_native.Common.{
  ℕ, suc, ◌≤◌, ◌*◌, ◌≡◌, refl, sym, ap, ◌∙◌, subst, some, List, [], ◌∷◌, ◌++◌, arith, leb, ◌==◌,
  if◌then◌else◌, Text, text_eq, text_eq_iff, text_eq_refl, contains, AllDistinct, lookup,
  Bool-cases, inl, inr,
}
use cs739_cloud_native.Versions.{VersionVector, update_version}
use cs739_cloud_native.Node
use cs739_cloud_native.Node.{Node, Data, replica_n, w_count}
use cs739_cloud_native.Cluster.{
  Env, World, pure, self, store, is_alive, peer_put, assigned_coordinator,
}
use cs739_cloud_native.Cluster.Frame.{
  store_of, bind-some, self-some, store-store_of, is_alive-SameStores,
}
use cs739_cloud_native.Ring.{get_replicas_nodes}
use cs739_cloud_native.Ring.Replicas.{IsRing, get_replicas_nodes_lem}
use cs739_cloud_native.Cluster.PeerPut.{peer_put-PutEffect}
use cs739_cloud_native.Coordinator.Tried.{Tried-none}
use cs739_cloud_native.Coordinator.Acked.{
  Acked, Written, Written-of_Acked, applied_Holds, Acked-wait, Acked-other, Acked-same, Acked-add,
  Holds-put,
}
use cs739_cloud_native.Coordinator.{
  Acks, PutReturn, PutResponse, not_coordinator, failed, put_self, write_replicas, client_put,
}

module _ (key value : Text) (version : VersionVector) where
  module _ (env : Env) (this : Text) (replicas : List Text) where
    self_put-add :
        (w v w' : World) (n : Node) (ps acked : List Text) (k : ℕ)
        → AllDistinct (this ∷ ps)
        → self this w ≡ some (n, v)
        → store this (put_self key value version n) v ≡ some (tt, w')
        → Acked key value version replicas w (this ∷ ps) k acked
        → Acked key value version replicas w' ps (suc k) (acked ++ this ∷ [])
    unfolding put_self
    self_put-add w v w' n ps acked k d a b inv =
        let e : w ≡ v = (self-some this w v n a).1 in
        let after = λ (t : Text). store-store_of this (put_self key value version n) v t b in
        Acked-add key value version replicas w w' this ps k acked inv
          (λ t ne. after t ∙ ground (arith, text_eq_iff this t, ap (λ u. store_of u t) e))
          (Holds-put key value version w' this n.state_machine (after this ∙ rw text_eq_refl)) d.0

    -- After a success the loop ends with the third try, or goes on.
    stop_or_go :
        (ps acked : List Text) (st st' : Acks) (w w' : World)
        → Acked key value version replicas w ps st.success_cnt acked
        → (if st.try_cnt == replica_n
              then pure st
              else write_replicas env this key value version ps st)
            w
          ≡ some (st', w')
        → (write_replicas env this key value version ps st w ≡ some (st', w')
            → Written key value version replicas w' st'.success_cnt)
        → Written key value version replicas w' st'.success_cnt
    stop_or_go ps acked st st' w w' inv h go_on = elim (Bool-cases (st.try_cnt == replica_n)) [
      | inr more ↦ go_on (rw more at h)
      | inl done ↦
          let f : pure st w ≡ some (st', w') = rw done at h in
          let e : w ≡ w' = ground arith in
          let q : st.success_cnt ≡ st'.success_cnt = ground arith in
          rw q at (Written-of_Acked key value version replicas w w' ps acked st.success_cnt e inv)
    ]

    write_replicas-Written :
        (ps acked : List Text) (st st' : Acks) (w w' : World)
        → AllDistinct ps
        → Acked key value version replicas w ps st.success_cnt acked
        → write_replicas env this key value version ps st w ≡ some (st', w')
        → Written key value version replicas w' st'.success_cnt
    unfolding write_replicas
    write_replicas-Written [] acked st st' w w' d inv h =
        let e : w ≡ w' = ground arith in
        let q : st.success_cnt ≡ st'.success_cnt = ground arith in
        rw q at (Written-of_Acked key value version replicas w w' [] acked st.success_cnt e inv)
    write_replicas-Written (p ∷ ps) acked st st' w w' d inv h = elim (Bool-cases (text_eq p this)) [
      | inl hit ↦
          let e : p ≡ this = (text_eq_iff p this).0 hit in
          let (n, v, a, b) = bind-some (self this) _ w (rw hit at h) in
          let (_, u, c, f) = bind-some (store this (put_self key value version n)) _ v b in
          let inv' =
            self_put-add w v u n ps acked st.success_cnt (subst (λ x. AllDistinct (x ∷ ps)) e d) a c
              (subst (λ x. Acked key value version replicas w (x ∷ ps) st.success_cnt acked) e
                inv) in
          stop_or_go ps (acked ++ this ∷ [])
            (record { success_cnt = suc st.success_cnt; try_cnt = suc st.try_cnt }) st' u w' inv' f
            (write_replicas-Written ps (acked ++ this ∷ [])
              (record { success_cnt = suc st.success_cnt; try_cnt = suc st.try_cnt }) st' u w' d.1
              inv')
      | inr other ↦
          let (alive, v, a, b) = bind-some (is_alive env this p) _ w (rw other at h) in
          let inv' =
            Acked-same key value version replicas w v p ps st.success_cnt acked inv
              (is_alive-SameStores env this p w v alive a) in
          elim (Bool-cases alive) [
            | inr dead ↦ write_replicas-Written ps acked st st' v w' d.1 inv' (rw dead at b)
            | inl up ↦
                let keep =
                  Acked-wait key value version replicas w v (p ∷ ps) st.success_cnt acked inv
                    (is_alive-SameStores env this p w v alive a) in
                let (res, u, c, f) =
                  bind-some
                    (peer_put env this p key (record { value = value; version_info = version })) _ v
                    (rw up at b) in
                let eff =
                  peer_put-PutEffect env this p key
                    (record { value = value; version_info = version }) v u res c in
                elim (Bool-cases (res == 0)) [
                  | inr failure ↦
                      write_replicas-Written ps acked (record st { try_cnt = suc st.try_cnt }) st' u
                        w' d.1
                        (Acked-other key value version replicas v u p ps st.success_cnt acked keep
                          eff.others)
                        (rw failure at f)
                  | inl success ↦
                      let inv'' =
                        Acked-add key value version replicas v u p ps st.success_cnt acked keep
                          eff.others (applied_Holds key value version p v u res eff success) d.0 in
                      stop_or_go ps (acked ++ p ∷ [])
                        (record { success_cnt = suc st.success_cnt; try_cnt = suc st.try_cnt }) st'
                        u w' inv'' (rw success at f)
                        (write_replicas-Written ps (acked ++ p ∷ [])
                          (record { success_cnt = suc st.success_cnt; try_cnt = suc st.try_cnt })
                          st' u w' d.1 inv'')
                ]
          ]
    ]

    first_none : (w : World) → Acked key value version replicas w replicas 0 []
    unfolding contains
    first_none w = record {
      tried = Tried-none replicas;
      holds = λ t c. absurd (ground (arith, c));
      size = refl;
    }

-- A ClientPut that answers OK, on a node whose ring is in order, has left the data in at least two
-- distinct replicas of the key: each stores the value under the key, with the request's version in
-- which the coordinator's own count is one higher.
pub client_put-Written :
    (env : Env) (this key : Text) (d : Data) (w w' : World) (n : Node) (resp : PutResponse)
    → lookup this w.nodes ≡ some n
    → IsRing n.ring
    → client_put env this key d w ≡ some (resp, w')
    → resp.ret ≡ PutReturn.ok
    → (k : ℕ) × (w_count ≤ k)
      × Written key d.value
          (update_version d.version_info this)
          (get_replicas_nodes env.hash n.ring key (2 * replica_n))
          w'
          k
unfolding client_put
client_put-Written env this key d w w' n resp there sorted h answered =
    let (m, v, a, b) = bind-some (self this) _ w h in
    let e : n ≡ m = ground (arith, (self-some this w v m a).0) in
    let ps = get_replicas_nodes env.hash m.ring key (2 * replica_n) in
    let distinct : AllDistinct ps =
      (get_replicas_nodes_lem env.hash m.ring key (2 * replica_n) []
        (subst (λ (x : Node). IsRing x.ring) e sorted)).0 in
    let (c, u, a', b') = bind-some (assigned_coordinator env this ps) _ v b in
    elim (Bool-cases (Node.is_coordinator this ps)) [
      | inr no_member ↦
          let f : pure (record { ret = not_coordinator; coordinator = c }) u ≡ some (resp, w') =
            rw no_member at b' in
          let q : not_coordinator ≡ resp.ret = ground arith in absurd (ground (arith, q, answered))
      | inl member ↦
          let version = update_version d.version_info this in
          let (st, x, f, g) =
            bind-some
              (write_replicas env this key d.value version ps
                (record { success_cnt = 0; try_cnt = 0 }))
              _ u (rw member at b') in
          let done =
            write_replicas-Written key d.value version env this ps ps [] _ st u x distinct
              (first_none key d.value version env this ps u) f in
          let q : x ≡ w' = ground arith in
          let r : (if leb w_count st.success_cnt then PutReturn.ok else failed) ≡ resp.ret =
            ground arith in
          (
            st.success_cnt,
            ground (arith, r, answered),
            subst
                (λ (x : Node).
                  Written key d.value version
                    (get_replicas_nodes env.hash x.ring key (2 * replica_n)) w' st.success_cnt)
                (sym e) (subst (λ y. Written key d.value version ps y st.success_cnt) q done),
          )
    ]
