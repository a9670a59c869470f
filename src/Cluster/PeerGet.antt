-- ===== src/Cluster/PeerGet.antt =====
-- A call of PeerGet (src/gossip_node.cpp): what it changes, and what it brings.
use cs739_cloud_native.Common.{
  ◌≡◌, ◌⊎◌, refl, sym, ◌∙◌, subst, Option, none, some, Text, inl, inr, insert,
}
use cs739_cloud_native.Versions.{Versioned}
use cs739_cloud_native.StateMachine
use cs739_cloud_native.StateMachine.{StateMachine}
use cs739_cloud_native.Node
use cs739_cloud_native.Node.{Node, Data, replica_n, r_count}
use cs739_cloud_native.Cluster.{Env, World, need_stub, peer_get}
use cs739_cloud_native.Cluster.Frame.{
  store_of, bind-some, SameStores, same_nodes, same_storage, store_of_self,
}
use cs739_cloud_native.Cluster.Calls.{Outcome, rpc-Outcome}
use cs739_cloud_native.Cluster.PeerPut.{need_stub-same}

abbrev answer : Text → Node → Node × Data
answer key n = (n, Node.peer_get n key)

-- The answer is what a process holds under the key.
pub record From (key : Text) (w : World) (x : Versioned) : Type 0 where
  pub origin : Text
  pub storage : StateMachine
  pub at : store_of w origin ≡ some storage
  pub is_held : x ≡ (StateMachine.get_value storage key, StateMachine.get_version storage key)

pub From-back :
    (key : Text) (w v : World) (x : Versioned) → SameStores w v → From key v x → From key w x
From-back key w v x o f = record {
  origin = f.origin;
  storage = f.storage;
  at = sym (o f.origin) ∙ f.at;
  is_held = f.is_held;
}

-- what a call of PeerGet does, and returns
pub record GetEffect (p key : Text) (w w' : World) (r : Option Data) : Type 0 where
  pub unchanged : SameStores w w'
  pub reply :
      (r ≡ none)
      ⊎ ((d : Data) × (r ≡ some d) × (f : From key w (d.value, d.version_info)) × (f.origin ≡ p))

pub SameStores-trans : (u v w : World) → SameStores u v → SameStores v w → SameStores u w
SameStores-trans u v w a b t = b t ∙ a t

module _ (env : Env) (this key : Text) where
  Outcome-GetEffect :
      (p : Text) (v w' : World) (r : Option Data)
      → Outcome p (answer key) v w' r
      → GetEffect p key v w' r
  unfolding Node.peer_get StateMachine.get_value StateMachine.get_version
  Outcome-GetEffect p v w' r (inl (q, e)) = record { unchanged = same_nodes v w' q; reply = inl e }
  Outcome-GetEffect p v w' r (inr t) = record {
    unchanged = λ b.
        same_nodes (record v { nodes = insert p t.before v.nodes }) w' t.after b
        ∙ same_storage p t.before t.before v t.there refl b;
    reply = elim t.reply [
      | inl e ↦ inl e
      | inr e ↦ inr (
        Node.peer_get t.before key,
        e,
        record {
          origin = p;
          storage = t.before.state_machine;
          at = store_of_self p v t.before t.there;
          is_held = refl;
        },
        refl,
      )
    ];
  }

  pub peer_get-GetEffect :
      (p : Text) (w w' : World) (r : Option Data)
      → peer_get env this p key w ≡ some (r, w')
      → GetEffect p key w w' r
  unfolding peer_get
  peer_get-GetEffect p w w' r h =
      let (_, v, a, c) = bind-some (need_stub this p) _ w h in
      subst (λ u. GetEffect p key u w' r) (need_stub-same this p w v a)
        (Outcome-GetEffect p v w' r (rpc-Outcome p (answer key) env v w' r c))
