-- ===== src/Cluster/PeerPut.antt =====
-- PeerPut (src/gossip_node.cpp) from the side of the node that is written to, and the call of it.
use cs739_cloud_native.Common.{
  ℕ, ◌≡◌, ◌≢◌, ◌⊎◌, refl, ap, ◌∙◌, subst, Bool, true, false, Option, none, some, arith,
  if◌then◌else◌, Text, text_eq, text_eq_iff, text_eq_refl, insert, inl, inr,
}
use cs739_cloud_native.Versions.{Verdict, latest, earlier, same, conflict, check_conflict_version}
use cs739_cloud_native.StateMachine
use cs739_cloud_native.StateMachine.{StateMachine}
use cs739_cloud_native.Node
use cs739_cloud_native.Node.{Node, Data}
use cs739_cloud_native.Cluster.{Env, World, self, serve, need_stub, rpc, peer_put}
use cs739_cloud_native.Cluster.Frame.{
  store_of, bind-some, SameStores, OtherStores, same_nodes, store_of-insert, same_storage,
  store_of_self,
}
use cs739_cloud_native.Cluster.Calls.{Ran, Outcome, rpc-Outcome}

abbrev pub newer : Node → Text → Data → Verdict
newer n key d = check_conflict_version d.version_info (StateMachine.get_version n.state_machine key)

-- The handler applies the data, and says 0, exactly when the verdict on its version is `latest`;
-- else the node stays as it was.
pub peer_put-cases :
    (n : Node) (key : Text) (d : Data)
    → ((newer n key d ≡ latest)
        × (Node.peer_put n key d ≡ (
          record n { state_machine = StateMachine.put n.state_machine key d.value d.version_info },
          false,
        )))
      ⊎ ((newer n key d ≢ latest) × (Node.peer_put n key d ≡ (n, true)))
unfolding Node.peer_put
peer_put-cases n key d = go (newer n key d) refl
  where
    go :
        (r : Verdict)
        → newer n key d ≡ r
        → ((newer n key d ≡ latest)
            × (Node.peer_put n key d ≡ (
              record n {
                state_machine = StateMachine.put n.state_machine key d.value d.version_info;
              },
              false,
            )))
          ⊎ ((newer n key d ≢ latest) × (Node.peer_put n key d ≡ (n, true)))
    go latest e = inl (e, rw (e, Node.peer_put))
    go earlier e = inr (rw e (λ h. cc), rw (e, Node.peer_put))
    go same e = inr (rw e (λ h. cc), rw (e, Node.peer_put))
    go conflict e = inr (rw e (λ h. cc), rw (e, Node.peer_put))

-- A process has applied the data: its version was the latest there, and it is stored.
pub record Applied (p key : Text) (d : Data) (w w' : World) : Type 0 where
  pub old : StateMachine
  pub held : store_of w p ≡ some old
  pub latest_there :
      check_conflict_version d.version_info (StateMachine.get_version old key) ≡ latest
  pub stored : store_of w' p ≡ some (StateMachine.put old key d.value d.version_info)

-- what a call of PeerPut does, and returns
pub record PutEffect (p key : Text) (d : Data) (w w' : World) (res : ℕ) : Type 0 where
  pub others : OtherStores p w w'
  pub effect : ((res ≡ 1) × SameStores w w') ⊎ Applied p key d w w'

module _ (p key : Text) (d : Data) (w w' : World) where
  module _ (r : Option Bool) (t : Ran p (λ n. Node.peer_put n key d) w w' r) where
    stores_after :
        (b : Text)
        → store_of w' b ≡ (
            if text_eq p b
            then some (Node.peer_put t.before key d).0.state_machine
            else store_of w b)
    stores_after b =
        let next = (Node.peer_put t.before key d).0 in
        same_nodes (record w { nodes = insert p next w.nodes }) w' t.after b
        ∙ store_of-insert p b next w

    reply_of : Option Bool → ℕ
    reply_of r = elim r [ none ↦ 1 | some success ↦ if success then 1 else 0 ]

    refused : Node.peer_put t.before key d ≡ (t.before, true) → (reply_of r ≡ 1) × SameStores w w'
    unfolding reply_of
    refused e =
        let same_sm : (Node.peer_put t.before key d).0.state_machine ≡ t.before.state_machine =
          ap (λ (x : Node × Bool). x.0.state_machine) e in
        let flag : (Node.peer_put t.before key d).1 ≡ true = ap (λ (x : Node × Bool). x.1) e in
        (
          ground (arith, t.reply),
          λ b.
              let next = (Node.peer_put t.before key d).0 in
              same_nodes (record w { nodes = insert p next w.nodes }) w' t.after b
              ∙ same_storage p t.before next w t.there same_sm b,
        )

    ran-effect : PutEffect p key d w w' (reply_of r)
    ran-effect = record {
      others = λ b ne. stores_after b ∙ ground (arith, text_eq_iff p b);
      effect = elim (peer_put-cases t.before key d) [
        | inr (_, e) ↦ inl (refused e)
        | inl (lt, e) ↦ inr (record {
          old = t.before.state_machine;
          held = store_of_self p w t.before t.there;
          latest_there = lt;
          stored =
              stores_after p ∙ rw text_eq_refl (ap (λ (x : Node × Bool). some x.0.state_machine) e);
        })
      ];
    }

  abbrev reply_code : Option Bool → ℕ
  reply_code r = elim r [ none ↦ 1 | some success ↦ if success then 1 else 0 ]

  Outcome-effect :
      (r : Option Bool)
      → Outcome p (λ n. Node.peer_put n key d) w w' r
      → PutEffect p key d w w' (reply_code r)
  unfolding reply_of
  Outcome-effect r (inr t) = ran-effect r t
  Outcome-effect r (inl (e, q)) = record {
    others = λ b _. same_nodes w w' e b;
    effect = inl (ground arith, same_nodes w w' e);
  }

pub need_stub-same : (this addr : Text) (w v : World) → need_stub this addr w ≡ some (tt, v) → v ≡ w
unfolding need_stub self
need_stub-same this addr w v h = ground arith

-- A call of PeerPut changes no storage but the peer's. It either returns 1 and changes nothing, or
-- the peer has applied the data, whose version was the latest there.
pub peer_put-PutEffect :
    (env : Env) (this p key : Text) (d : Data) (w w' : World) (res : ℕ)
    → peer_put env this p key d w ≡ some (res, w')
    → PutEffect p key d w w' res
unfolding peer_put
peer_put-PutEffect env this p key d w w' res h =
    let (_, v, a, b) = bind-some (need_stub this p) _ w h in
    let (r, u, c, e) = bind-some (rpc env p (serve p (λ n. Node.peer_put n key d))) _ v b in
    let ev : v ≡ w = need_stub-same this p w v a in
    let eu : u ≡ w' = ground arith in
    let er : elim r [ none ↦ 1 | some success ↦ if success then 1 else 0 ] ≡ res = ground arith in
    let x = Outcome-effect p key d v u r (rpc-Outcome p (λ n. Node.peer_put n key d) env v u r c) in
    subst (λ z. PutEffect p key d z w' res) ev
      (subst (λ z. PutEffect p key d v z res) eu (subst (λ z. PutEffect p key d v u z) er x))
