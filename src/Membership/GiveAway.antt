-- ===== src/Membership/GiveAway.antt =====
-- The loop of leaveNetwork (src/gossip_node.cpp) over the keys that a peer becomes responsible for.
use cs739_cloud_native.Common.{
  ℕ, zero, suc, ◌==◌, ◌≡◌, sym, ap, ◌∙◌, subst, false, some, List, [], ◌∷◌, arith, Text, text_eq,
  AllDistinct, Bool-cases, inl, inr,
}
use cs739_cloud_native.Cluster.{Env, World, ◌>>=◌, self, peer_put}
use cs739_cloud_native.Cluster.Frame.{bind-some, self-some}
use cs739_cloud_native.Membership.{data_of, forget, retry_put, give_away}
use cs739_cloud_native.Membership.Readings.{reading_of}
use cs739_cloud_native.Membership.Moved.{MovedAll, MovedAll-none, MovedAll-cons}
use cs739_cloud_native.Membership.HandOver.{Sent, peer_put-Sent, forget-Moved, Sent-Moved}

module _ (env : Env) (this peer : Text) (apart : text_eq peer this ≡ false) where
  -- A second try, after a first one.
  Sent-again :
      (key : Text) (w v u : World) (res res' : ℕ)
      → Sent this peer key w v res
      → Sent this peer key v u res'
      → Sent this peer key w u res'
  Sent-again key w v u res res' x y = record {
    here_it_stays = y.here_it_stays ∙ x.here_it_stays;
    others = λ a k other. y.others a k other ∙ x.others a k other;
    arrived = λ zero. y.arrived zero ∙ ap (λ o. reading_of o key) x.here_it_stays;
  }

  retry_put-Sent :
      (key : Text) (left res res' : ℕ) (w v u : World)
      → Sent this peer key w v res
      → retry_put env this peer key left res v ≡ some (res', u)
      → Sent this peer key w u res'
  unfolding retry_put
  retry_put-Sent key zero res res' w v u s h =
      let e : v ≡ u = ground arith in
      let r : res ≡ res' = ground arith in
      subst (λ x. Sent this peer key w x res') e (subst (Sent this peer key w v) r s)
  retry_put-Sent key (suc left) res res' w v u s h = elim (Bool-cases (res == 0)) [
    | inl done ↦
        let e : v ≡ u = ground arith in
        let r : res ≡ res' = ground arith in
        subst (λ x. Sent this peer key w x res') e (subst (Sent this peer key w v) r s)
    | inr again ↦
        let (n, v1, a, b) =
          bind-some (self this)
            (λ n. peer_put env this peer key (data_of n key) >>= retry_put env this peer key left) v
            (rw again at h) in
        let (there_is, e) = self-some this v v1 n a in
        let (r, v2, c, rest) =
          bind-some (peer_put env this peer key (data_of n key)) (retry_put env this peer key left)
            v1 b in
        let next =
          peer_put-Sent env this peer apart key n v v2 r there_is
            (subst (λ x. peer_put env this peer key (data_of n key) x ≡ some (r, v2)) (sym e) c) in
        retry_put-Sent key left r res' w v2 u (Sent-again key w v v2 res r s next) rest
  ]

  -- The loop of leaveNetwork over the keys loses nothing that the process holds.
  pub give_away-MovedAll :
      (keys : List Text) (w w' : World)
      → AllDistinct keys
      → give_away env this peer keys w ≡ some (tt, w')
      → MovedAll this peer keys w w'
  unfolding give_away
  give_away-MovedAll [] w w' d h = MovedAll-none this peer w w' (ground arith)
  give_away-MovedAll (key ∷ keys) w w' d h =
      let (n, w1, a, b) = bind-some (self this) _ w h in
      let (there_is, e) = self-some this w w1 n a in
      let (first, v, c, f) = bind-some (peer_put env this peer key (data_of n key)) _ w1 b in
      let (res, u, g, k) = bind-some (retry_put env this peer key 4 first) _ v f in
      let sent : Sent this peer key w u res =
        retry_put-Sent key 4 first res w v u
          (peer_put-Sent env this peer apart key n w v first there_is
            (subst (λ x. peer_put env this peer key (data_of n key) x ≡ some (first, v)) (sym e) c))
          g in
      elim (Bool-cases (res == 0)) [
        | inl done ↦
            let (_, x, gone, rest) = bind-some (forget env this key) _ u (rw done at k) in
            let zero : res ≡ 0 = ground arith in
            MovedAll-cons this peer key keys w x w' d.0
              (forget-Moved env this peer apart key w u x (subst (Sent this peer key w u) zero sent)
                gone)
              (give_away-MovedAll keys x w' d.1 rest)
        | inr refused ↦
            MovedAll-cons this peer key keys w u w' d.0
              (Sent-Moved env this peer apart key w u res sent)
              (give_away-MovedAll keys u w' d.1 (rw refused at k))
      ]
