-- ===== src/Coordinator/Available.antt =====
-- The loop of ClientPut (src/gossip_node.cpp) where the network delivers every call: how many of
-- the replicas take the data.
use cs739_cloud_native.Common.{
  ℕ, suc, ◌+◌, ◌-◌, ◌≤◌, ◌==◌, ◌≡◌, ◌∙◌, subst, true, false, some, get_or, List, [], ◌∷◌, arith,
  if◌then◌else◌, Text, text_eq, text_eq_iff, text_eq_refl, text_eq_symm, contains, lookup, insert,
  lookup-insert, AllDistinct, Bool-cases, inl, inr,
}
use cs739_cloud_native.Versions.{VersionVector}
use cs739_cloud_native.Node.{Node, replica_n, is_recent}
use cs739_cloud_native.Cluster.{Env, World, pure, delivered, self, store, is_alive, peer_put}
use cs739_cloud_native.Cluster.Frame.{bind-some, self-some}
use cs739_cloud_native.Coordinator.{Acks, put_self, write_replicas}
use cs739_cloud_native.Coordinator.Ready.{
  sent, bonus, Ready, hits, hits-nil, hits-stop, hits-next, Ready-is_alive, Ready-rest,
  peer_put-others, peer_put-zero,
}

module _ (env : Env) (this key value : Text) (v : VersionVector) (goods : List Text) where
  Ready-self :
      (w w' : World) (ps : List Text) (n : Node)
      → Ready env this key value v goods w ps
      → lookup this w.nodes ≡ some n
      → w'.nodes ≡ insert this (put_self key value v n) w.nodes
      → Ready env this key value v goods w' ps
  unfolding put_self
  Ready-self w w' ps n r there_is q =
      let next = put_self key value v n in
      let e : r.node ≡ n = ground (arith, there_is, r.there) in
      record {
        node = next;
        there = ground (arith, q, lookup-insert this this next w.nodes, text_eq_refl this);
        fresh = λ x good i.
            subst
              (λ (y : Node).
                is_recent (env.clock i) (get_or (lookup x y.members_heartbeat_list) 0) ≡ true)
              e (r.fresh x good i);
        accepts = λ x good left other.
            let (m, there, new) = r.accepts x good left other in
            (
              m,
              ground
                  (arith, q, there, lookup-insert this x next w.nodes, text_eq_symm x this, other),
              new,
            );
      }

  Ready-peer :
      (w w' : World) (p : Text) (ps : List Text) (res : ℕ)
      → text_eq p this ≡ false
      → contains ps p ≡ false
      → Ready env this key value v goods w ps
      → peer_put env this p key (sent env this key value v goods) w ≡ some (res, w')
      → Ready env this key value v goods w' ps
  Ready-peer w w' p ps res apart new r h = record {
    node = r.node;
    there =
        peer_put-others env this p key (sent env this key value v goods) w w' res h this apart
        ∙ r.there;
    fresh = r.fresh;
    accepts = λ x good left other.
        let (m, there, newest) = r.accepts x good left other in
        let not_p : text_eq p x ≡ false = elim (Bool-cases (text_eq p x)) [
          | inr miss ↦ miss
          | inl hit ↦ absurd (ground (arith, new, left, text_eq_iff p x, hit))
        ] in
        (
          m,
          peer_put-others env this p key (sent env this key value v goods) w w' res h x not_p
              ∙ there,
          newest,
        );
  }

  -- what a success comes to
  abbrev counted : Acks → Acks
  counted st = record st { success_cnt = suc st.success_cnt; try_cnt = suc st.try_cnt }

  -- The round of the loop after a success, with what the rounds after it come to.
  after_success :
      (p : Text) (ps : List Text) (st st' : Acks) (w w' : World)
      → ((first : Acks)
          → write_replicas env this key value v ps first w ≡ some (st', w')
          → first.success_cnt + hits env this key value v goods (replica_n - first.try_cnt) ps
            ≤ st'.success_cnt)
      → (if suc st.try_cnt == replica_n
            then pure (counted st)
            else write_replicas env this key value v ps (counted st))
          w
        ≡ some (st', w')
      → st.success_cnt + hits env this key value v goods (replica_n - st.try_cnt) (p ∷ ps)
        ≤ st'.success_cnt
  after_success p ps st st' w w' rest f =
      let next =
        hits-next env this key value v goods (replica_n - st.try_cnt) (replica_n - suc st.try_cnt) p
          ps (omega arith) in
      let one : bonus env this key value v goods p ≤ 1 = ground arith in
      elim (Bool-cases (suc st.try_cnt == replica_n)) [
        | inl stop ↦
            let none_left = hits-stop env this key value v goods st.try_cnt ps stop in
            let last : counted st ≡ st' = ground (arith, stop, f) in
            subst
              (λ (x : Acks).
                st.success_cnt + hits env this key value v goods (replica_n - st.try_cnt) (p ∷ ps)
                ≤ x.success_cnt)
              last (omega (arith, next, one, none_left))
        | inr go_on ↦ let more = rest (counted st) (rw go_on at f) in omega (arith, next, one, more)
      ]

  -- A good replica takes the data.
  good-zero :
      ((i : ℕ) → env.net i ≡ delivered)
      → (p : Text) (ps : List Text) (w w' : World) (res : ℕ) → text_eq p this ≡ false
      → Ready env this key value v goods w (p ∷ ps)
      → peer_put env this p key (sent env this key value v goods) w ≡ some (res, w')
      → contains goods p ≡ true
      → res ≡ 0
  unfolding contains
  good-zero delivers p ps w w' res other r h good =
      let (m, there_is, new) = r.accepts p good (ground (arith, text_eq_refl p)) other in
      peer_put-zero env this p key (sent env this key value v goods) w w' res m delivers there_is
        new h

  -- Each of the first three replicas that is good, or this server itself, counts as a success.
  pub write_replicas-hits :
      ((i : ℕ) → env.net i ≡ delivered)
      → (ps : List Text) (st st' : Acks) (w w' : World) → AllDistinct ps
      → Ready env this key value v goods w ps
      → write_replicas env this key value v ps st w ≡ some (st', w')
      → st.success_cnt + hits env this key value v goods (replica_n - st.try_cnt) ps
        ≤ st'.success_cnt
  unfolding write_replicas
  write_replicas-hits delivers [] st st' w w' dist r h =
      let e : st ≡ st' = ground arith in
      let z = hits-nil env this key value v goods (replica_n - st.try_cnt) in
      subst
        (λ (x : Acks).
          st.success_cnt + hits env this key value v goods (replica_n - st.try_cnt) []
          ≤ x.success_cnt)
        e (omega (arith, z))
  write_replicas-hits delivers (p ∷ ps) st st' w w' dist r h =
      let rest = λ (u : World) (ready : Ready env this key value v goods u ps) (first : Acks).
        write_replicas-hits delivers ps first st' u w' dist.1 ready in
      elim (Bool-cases (text_eq p this)) [
        | inl me ↦
            let (n, w1, a, b) = bind-some (self this) _ w (rw me at h) in
            let (there_is, e) = self-some this w w1 n a in
            let (_, w2, c, f) = bind-some (store this (put_self key value v n)) _ w1 b in
            let q : w2.nodes ≡ insert this (put_self key value v n) w.nodes =
              unfold store in ground (arith, c, e) in
            after_success p ps st st' w2 w'
              (rest w2
                (Ready-self w w2 ps n (Ready-rest env this key value v goods w p ps r) there_is q))
              f
        | inr other ↦
            let (a, w1, c, f) = bind-some (is_alive env this p) _ w (rw other at h) in
            let (ready, heard) = Ready-is_alive env this key value v goods w w1 (p ∷ ps) p a r c in
            elim (Bool-cases a) [
              | inr silent ↦
                  let next =
                    hits-next env this key value v goods (replica_n - st.try_cnt)
                      (replica_n - st.try_cnt) p ps (omega arith) in
                  let nothing : bonus env this key value v goods p ≡ 0 =
                    ground (arith, other, heard, silent) in
                  let more =
                    rest w1 (Ready-rest env this key value v goods w1 p ps ready) st
                      (rw silent at f) in
                  omega (arith, next, nothing, more)
              | inl alive ↦
                  let (res, w2, g, k) =
                    bind-some (peer_put env this p key (sent env this key value v goods)) _ w1
                      (rw alive at f) in
                  let ready' =
                    Ready-peer w1 w2 p ps res other dist.0
                      (Ready-rest env this key value v goods w1 p ps ready) g in
                  elim (Bool-cases (res == 0)) [
                    | inl taken ↦ after_success p ps st st' w2 w' (rest w2 ready') (rw taken at k)
                    | inr refused ↦
                        let next =
                          hits-next env this key value v goods (replica_n - st.try_cnt)
                            (replica_n - suc st.try_cnt) p ps (omega arith) in
                        let nothing : bonus env this key value v goods p ≡ 0 = ground (
                          arith,
                          other,
                          refused,
                          good-zero delivers p ps w1 w2 res other ready g,
                        ) in
                        let more =
                          rest w2 ready' (record st { try_cnt = suc st.try_cnt })
                            (rw refused at k) in
                        omega (arith, next, nothing, more)
                  ]
            ]
      ]
