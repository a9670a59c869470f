-- ===== src/Membership/HandOver.antt =====
-- The keys that change hands when a server joins (JoinNetwork of src/gossip_node.cpp).
use cs739_cloud_native.Common.{
  ℕ, ◌==◌, ◌≡◌, refl, sym, ap, ◌∙◌, subst, Bool, false, some, List, [], ◌∷◌, arith, if◌then◌else◌,
  Text, text_eq, text_eq_iff, text_eq_refl, text_eq_symm, lookup, AllDistinct, Bool-cases, inl, inr,
}
use cs739_cloud_native.StateMachine
use cs739_cloud_native.StateMachine.{StateMachine}
use cs739_cloud_native.Node
use cs739_cloud_native.Node.{Node, Data}
use cs739_cloud_native.Cluster.{Env, World, self, peer_put}
use cs739_cloud_native.Cluster.Frame.{store_of, bind-some, self-some, store_of_self, store-store_of}
use cs739_cloud_native.Cluster.PeerPut.{peer_put-PutEffect}
use cs739_cloud_native.Membership.{data_of, drop_key, forget, hand_over}
use cs739_cloud_native.Membership.Readings.{
  reading_of, held, reading-put, reading-put_same, reading-remove, Shrunk-same, Shrunk-trans,
  Shrunk-remove, Absent-remove,
}
use cs739_cloud_native.Membership.Moved.{Moved, MovedAll, MovedAll-none, MovedAll-cons}

-- A key is sent to a peer: what has arrived, and what stays as it was.
pub record Sent (this peer key : Text) (w v : World) (res : ℕ) : Type 0 where
  pub here_it_stays : store_of v this ≡ store_of w this
  pub others : (a k : Text) → text_eq key k ≡ false → held v a k ≡ held w a k
  pub arrived : res ≡ 0 → held v peer key ≡ held w this key

module _ (env : Env) (this peer : Text) (apart : text_eq peer this ≡ false) where
  pub peer_put-Sent :
      (key : Text) (n : Node) (w v : World) (res : ℕ)
      → lookup this w.nodes ≡ some n
      → peer_put env this peer key (data_of n key) w ≡ some (res, v)
      → Sent this peer key w v res
  unfolding Node.peer_get
  peer_put-Sent key n w v res there_is h =
      let put = peer_put-PutEffect env this peer key (data_of n key) w v res h in
      elim put.effect [
        | inl (one, same) ↦ record {
          here_it_stays = same this;
          others = λ a k other. ap (λ o. reading_of o k) (same a);
          arrived = λ zero. absurd (ground (arith, one, zero));
        }
        | inr applied ↦ record {
          here_it_stays = put.others this (λ e. ground (arith, apart, text_eq_iff peer this, e));
          others = λ a k other. elim (Bool-cases (text_eq peer a)) [
            | inl hit ↦
                subst (λ b. held v b k ≡ held w b k) ((text_eq_iff peer a).0 hit)
                  (ap (λ o. reading_of o k) applied.stored
                    ∙ ap some (reading-put applied.old key _ _ k other)
                    ∙ sym (ap (λ o. reading_of o k) applied.held))
            | inr miss ↦
                ap (λ o. reading_of o k)
                  (put.others a (λ e. ground (arith, miss, text_eq_iff peer a, e)))
          ];
          arrived = λ zero.
              ap (λ o. reading_of o key) applied.stored
              ∙ ap some (reading-put_same applied.old key _ _)
              ∙ sym (ap (λ o. reading_of o key) (store_of_self this w n there_is));
        }
      ]

  pub forget-Moved :
      (key : Text) (w v u : World)
      → Sent this peer key w v 0
      → forget env this key v ≡ some (tt, u)
      → Moved this peer key w u
  unfolding forget drop_key
  forget-Moved key w v u sent h =
      let (m, v', a, b) = bind-some (self this) _ v h in
      let (there_is, e) = self-some this v v' m a in
      let after : (x : Text)
          → store_of u x ≡ (
              if text_eq this x
              then some (StateMachine.remove m.state_machine key)
              else store_of v' x) =
        λ x. store-store_of this _ v' x b in
      let emptied : store_of u this ≡ some (StateMachine.remove m.state_machine key) =
        after this ∙ rw text_eq_refl refl in
      let untouched : (x : Text) → text_eq this x ≡ false → store_of u x ≡ store_of v x =
        λ x miss. after x ∙ rw miss (ap (λ y. store_of y x) (sym e)) in
      let before : (x k : Text) → text_eq key k ≡ false → held u x k ≡ held v x k = λ x k other.
        elim (Bool-cases (text_eq this x)) [
          | inl hit ↦
              subst (λ x. held u x k ≡ held v x k) ((text_eq_iff this x).0 hit)
                (ap (λ o. reading_of o k) emptied
                  ∙ ap some (reading-remove m.state_machine key k other)
                  ∙ sym (ap (λ o. reading_of o k) (store_of_self this v m there_is)))
          | inr miss ↦ ap (λ o. reading_of o k) (untouched x miss)
        ] in
      let here = store_of_self this v m there_is in
      let not_this : text_eq this peer ≡ false = text_eq_symm this peer ∙ apart in
      record {
        others = λ x k other. before x k other ∙ sent.others x k other;
        kept = inr (
          ap (λ o. reading_of o key) (untouched peer not_this) ∙ sent.arrived refl,
          Absent-remove this key v u m.state_machine here emptied,
        );
        shrunk =
            Shrunk-trans this w v u (Shrunk-same this w v sent.here_it_stays)
              (Shrunk-remove this key v u m.state_machine here emptied);
      }

  pub Sent-Moved :
      (key : Text) (w v : World) (res : ℕ) → Sent this peer key w v res → Moved this peer key w v
  Sent-Moved key w v res sent = record {
    others = sent.others;
    kept = inl (ap (λ o. reading_of o key) sent.here_it_stays);
    shrunk = Shrunk-same this w v sent.here_it_stays;
  }

  -- The loop of JoinNetwork loses nothing that the process holds.
  pub hand_over-MovedAll :
      (keys : List Text) (success ok : Bool) (w w' : World)
      → AllDistinct keys
      → hand_over env this peer keys success w ≡ some (ok, w')
      → MovedAll this peer keys w w'
  unfolding hand_over
  hand_over-MovedAll [] success ok w w' d h = MovedAll-none this peer w w' (ground arith)
  hand_over-MovedAll (key ∷ keys) success ok w w' d h =
      let (n, w1, a, b) = bind-some (self this) _ w h in
      let (there_is, e) = self-some this w w1 n a in
      let (res, v, c, f) = bind-some (peer_put env this peer key (data_of n key)) _ w1 b in
      let sent : Sent this peer key w v res =
        peer_put-Sent key n w v res there_is
          (subst (λ x. peer_put env this peer key (data_of n key) x ≡ some (res, v)) (sym e) c) in
      elim (Bool-cases (res == 0)) [
        | inl done ↦
            let (u, x, g, rest) = bind-some (forget env this key) _ v (rw done at f) in
            let zero : res ≡ 0 = ground arith in
            MovedAll-cons this peer key keys w x w' d.0
              (forget-Moved key w v x (subst (Sent this peer key w v) zero sent) g)
              (hand_over-MovedAll keys success ok x w' d.1 rest)
        | inr refused ↦
            MovedAll-cons this peer key keys w v w' d.0 (Sent-Moved key w v res sent)
              (hand_over-MovedAll keys false ok v w' d.1 (rw refused at f))
      ]
