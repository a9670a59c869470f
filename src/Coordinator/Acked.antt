-- ===== src/Coordinator/Acked.antt =====
-- The processes that hold the data of a ClientPut (src/gossip_node.cpp) while it writes.
use cs739_cloud_native.Common.{
  ℕ, suc, ◌≡◌, ◌∙◌, subst, true, false, some, List, [], ◌∷◌, ◌++◌, arith, ◌==◌, length,
  length-append, Text, text_eq_refl, contains, AllDistinct, lookup, inl, inr,
}
use cs739_cloud_native.Versions.{VersionVector}
use cs739_cloud_native.StateMachine
use cs739_cloud_native.StateMachine.{StateMachine}
use cs739_cloud_native.StateMachine.Store.{stored-put, get_version-put}
use cs739_cloud_native.Coordinator.Tried.{Tried, Tried-skip, Tried-differs, Tried-add, old_or_new}
use cs739_cloud_native.Cluster.{World}
use cs739_cloud_native.Cluster.Frame.{store_of, SameStores, OtherStores}
use cs739_cloud_native.Cluster.PeerPut.{PutEffect}

-- The process at an address stores the value with the version under the key.
pub record Holds (key value : Text) (version : VersionVector) (w : World) (a : Text) : Type 0 where
  pub storage : StateMachine
  pub at : store_of w a ≡ some storage
  pub has_value : lookup key storage.value_store ≡ some value
  pub has_version : StateMachine.get_version storage key ≡ version

module _ (key value : Text) (version : VersionVector) where
  pub Holds-keep :
      (w w' : World) (a : Text)
      → store_of w' a ≡ store_of w a
      → Holds key value version w a
      → Holds key value version w' a
  Holds-keep w w' a e h = record {
    storage = h.storage;
    at = e ∙ h.at;
    has_value = h.has_value;
    has_version = h.has_version;
  }

  pub Holds-put :
      (w : World) (a : Text) (sm : StateMachine)
      → store_of w a ≡ some (StateMachine.put sm key value version)
      → Holds key value version w a
  Holds-put w a sm e = record {
    storage = StateMachine.put sm key value version;
    at = e;
    has_value = stored-put sm key value version;
    has_version = rw (get_version-put, text_eq_refl);
  }

  -- The replicas that have answered hold the data, and are as many as `n`.
  pub record Acked (replicas : List Text) (w : World) (ps : List Text) (n : ℕ) (acked : List Text)
      : Type 0 where
    pub tried : Tried replicas ps acked
    pub holds : (t : Text) → contains acked t ≡ true → Holds key value version w t
    pub size : length acked ≡ n

  module _ (replicas : List Text) (w w' : World) (p : Text) (ps : List Text) (n : ℕ)
      (acked : List Text) (inv : Acked replicas w (p ∷ ps) n acked) where
    pub Acked-other : OtherStores p w w' → Acked replicas w' ps n acked
    Acked-other o = record {
      tried = Tried-skip replicas p ps acked inv.tried;
      holds = λ t c.
          Holds-keep w w' t (o t (Tried-differs replicas p ps acked inv.tried t c)) (inv.holds t c);
      size = inv.size;
    }

    pub Acked-same : SameStores w w' → Acked replicas w' ps n acked
    Acked-same o = Acked-other (λ b _. o b)

    pub Acked-add :
        OtherStores p w w'
        → Holds key value version w' p
        → contains ps p ≡ false
        → Acked replicas w' ps (suc n) (acked ++ p ∷ [])
    Acked-add o h c = record {
      tried = Tried-add replicas p ps acked inv.tried c;
      holds = λ t k. elim (old_or_new acked p t k) [
        | inl old ↦ (Acked-other o).holds t old
        | inr e ↦ subst (Holds key value version w') e h
      ];
      size = omega (arith, length-append acked (p ∷ []), inv.size);
    }

  pub Acked-wait :
      (replicas : List Text) (w w' : World) (ps : List Text) (n : ℕ) (acked : List Text)
      → Acked replicas w ps n acked
      → SameStores w w'
      → Acked replicas w' ps n acked
  Acked-wait replicas w w' ps n acked inv o = record {
    tried = inv.tried;
    holds = λ t c. Holds-keep w w' t (o t) (inv.holds t c);
    size = inv.size;
  }

  -- A peer that returns 0 holds the data.
  pub applied_Holds :
      (p : Text) (w w' : World) (res : ℕ)
      → PutEffect p key (record { value = value; version_info = version }) w w' res
      → (res == 0) ≡ true
      → Holds key value version w' p
  applied_Holds p w w' res eff success = elim eff.effect [
    | inl (one, _) ↦ absurd (ground (arith, one))
    | inr x ↦ Holds-put w' p x.old x.stored
  ]

  -- Some of the replicas, which hold the data at the end of the loop.
  pub record Written (replicas : List Text) (w : World) (n : ℕ) : Type 0 where
    pub acked : List Text
    pub distinct : AllDistinct acked
    pub holds : (t : Text) → contains acked t ≡ true → Holds key value version w t
    pub size : length acked ≡ n
    pub within : (t : Text) → contains acked t ≡ true → contains replicas t ≡ true

  pub Written-of_Acked :
      (replicas : List Text) (w w' : World) (ps acked : List Text) (n : ℕ)
      → w ≡ w'
      → Acked replicas w ps n acked
      → Written replicas w' n
  Written-of_Acked replicas w w' ps acked n e inv = record {
    acked = acked;
    distinct = inv.tried.distinct;
    holds = λ t c. subst (λ v. Holds key value version v t) e (inv.holds t c);
    size = inv.size;
    within = inv.tried.within;
  }
