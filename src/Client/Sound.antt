-- ===== src/Client/Sound.antt =====
-- The client (src/client_grpc.cpp) and the servers together, under the condition on each of them.
use cs739_cloud_native.Common.{
  ℕ, zero, suc, ◌≡◌, subst, Bool, true, false, none, some, List, [], ◌∷◌, arith, Text, Option-cases,
  inl, inr, ℤ, get_elem?, here,
}
use cs739_cloud_native.Versions.{Versioned}
use cs739_cloud_native.Versions.Update.{update_version-IsDistinct}
use cs739_cloud_native.Versions.Reconcile.Join.{reconcile_version-IsDistinct}
use cs739_cloud_native.Cluster.{Env}
use cs739_cloud_native.Cluster.Keeps.{Any}
use cs739_cloud_native.Coordinator.Sound.{ClocksIn, client_put-Keeps, client_get-Keeps}
use cs739_cloud_native.Client.{
  me, random_pick_server, put_again, select, reconcile, get, get_until, put,
}
use cs739_cloud_native.Client.Goes.{
  IsClean, IsGood, Goes, Goes-pure, Goes-bind, Goes-never, Goes-me, Goes-change, Goes-call,
  Goes-Reply, remember-IsClean, update_channel-IsClean, Goes-ret, Goes-status, Goes-option,
}

module _ (env : Env) (input : ℕ → ℤ) (pick : ℕ → ℕ) where
  pub put_again-Goes :
      (fuel : ℕ) (key value : Text) → Goes Any (put_again env input pick fuel key value)
  unfolding put_again
  put_again-Goes zero key value = Goes-never
  put_again-Goes (suc fuel) key value = Goes-bind IsClean me _ Goes-me λ c k.
      Goes-bind _ _ _ (Goes-call env _ (λ addr. client_put-Keeps env addr key _ (k.clocks key)))
        λ r q. Goes-Reply _ _ q (Goes-pure false tt) λ resp _.
          Goes-ret resp.ret _ _ _ _
            (Goes-bind IsClean me _ Goes-me λ now k'.
              Goes-bind Any _ _
                (Goes-change _ (
                  remember-IsClean key value _
                    (update_version-IsDistinct _ resp.coordinator (k'.clocks key))))
                λ _ _. Goes-pure true tt)
            (Goes-pure false tt)
            (Goes-bind Any _ _ (Goes-change _ (update_channel-IsClean resp.coordinator))
              λ _ _. put_again-Goes fuel key value)
            (Goes-pure true tt)

  select-Goes :
      (fuel left : ℕ) (versions : List Versioned) (key : Text)
      → Goes Any (select env input pick fuel left versions key)
  unfolding select
  select-Goes fuel zero versions key = Goes-never
  select-Goes fuel (suc left) versions key = Goes-bind IsClean me _ Goes-me λ c _.
      Goes-bind Any _ _ (Goes-change _ (λ d (k : IsClean d). record { clocks = k.clocks })) λ _ _.
        Goes-option _ _ _ (select-Goes fuel left versions key) λ (x : Versioned).
          Goes-bind Any _ _
            (Goes-change _ (remember-IsClean key x.0 _ (reconcile_version-IsDistinct versions)))
            λ _ _. Goes-bind Any _ _ (put_again-Goes fuel key x.0) λ _ _. Goes-pure x.0 tt

  reconcile-Goes :
      (fuel : ℕ) (versions : List Versioned) (key : Text)
      → ClocksIn versions
      → Goes Any (reconcile env input pick fuel versions key)
  unfolding reconcile
  reconcile-Goes fuel [] key c = Goes-pure [] tt
  reconcile-Goes fuel (x ∷ []) key c =
      Goes-bind Any _ _ (Goes-change _ (remember-IsClean key x.0 x.1 (c x here)))
        λ _ _. Goes-pure x.0 tt
  reconcile-Goes fuel (x ∷ y ∷ rest) key c = select-Goes fuel fuel (x ∷ y ∷ rest) key

  pub get-Goes : (fuel : ℕ) (key : Text) → Goes Any (get env input pick fuel key)
  unfolding get
  get-Goes fuel key =
      Goes-bind _ _ _ (Goes-call env _ (λ addr. client_get-Keeps env addr key)) λ r q.
        Goes-Reply _ _ q (Goes-pure none tt) λ resp c.
          Goes-status resp.status _ _ (Goes-pure none tt) (
            Goes-bind Any _ _ (Goes-change _ (update_channel-IsClean resp.coordinator)) λ _ _.
              Goes-bind Any _ _ (reconcile-Goes fuel resp.get_res_data key c)
                λ result _. Goes-pure (some result) tt)

  random_pick_server-Goes : Goes Any (random_pick_server env input pick)
  unfolding random_pick_server
  random_pick_server-Goes = record {
    at = λ s s' a g h.
        elim (Option-cases (get_elem? s.client.server_config (pick s.client.picks))) [
          | inl empty ↦ absurd (ground arith)
          | inr (x, found) ↦
              let e : record s { client = record s.client { picks = suc s.client.picks } } ≡ s' =
                ground arith in
              (
                subst IsGood e
                    (record { servers = g.servers; clean = record { clocks = g.clean.clocks } }),
                tt,
              )
        ];
  }

  pub get_until-Goes :
      (fuel left : ℕ) (key : Text) → Goes Any (get_until env input pick fuel left key)
  unfolding get_until
  get_until-Goes fuel zero key = Goes-never
  get_until-Goes fuel (suc left) key = Goes-bind Any _ _ (get-Goes fuel key) λ r _.
      Goes-option r _ _
        (Goes-bind Any _ _ random_pick_server-Goes λ server _.
          Goes-bind Any _ _ (Goes-change _ (λ c k. record { clocks = k.clocks }))
            λ _ _. get_until-Goes fuel left key)
        (λ result. Goes-pure tt tt)

  pub put-Goes :
      (fuel : ℕ) (key value : Text) (retry : Bool)
      → Goes Any (put env input pick fuel key value retry)
  unfolding put
  put-Goes fuel key value true = put_again-Goes fuel key value
  put-Goes fuel key value false =
      Goes-bind Any _ _ (get_until-Goes fuel fuel key) λ _ _. put_again-Goes fuel key value
