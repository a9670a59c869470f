-- ===== src/Coordinator/Polling.antt =====
-- The loop of ClientGet (src/gossip_node.cpp) over the replicas: who has answered, and what.
use cs739_cloud_native.Common.{
  ℕ, suc, ◌≡◌, refl, sym, ap, subst, some, List, [], ◌∷◌, ◌++◌, arith, ◌==◌, if◌then◌else◌, length,
  length-append, Text, text_eq, Bool-cases, inl, inr, lookup, In, here, there, AllDistinct,
  contains, true, ◌∙◌, text_eq_iff,
}
use cs739_cloud_native.Versions.{Versioned}
use cs739_cloud_native.StateMachine
use cs739_cloud_native.StateMachine.{StateMachine}
use cs739_cloud_native.Node
use cs739_cloud_native.Node.{Node, Data, replica_n, r_count}
use cs739_cloud_native.Cluster.{Env, World, pure, self, is_alive, peer_get}
use cs739_cloud_native.Cluster.Frame.{
  store_of, bind-some, SameStores, self-some, store_of_self, is_alive-SameStores,
}
use cs739_cloud_native.Coordinator.{Reads, found, read_replicas}
use cs739_cloud_native.Cluster.PeerGet.{From, SameStores-trans, peer_get-GetEffect}
use cs739_cloud_native.Coordinator.Tried.{Tried, Tried-none, Tried-skip, Tried-add}

-- The answers of processes, one of each and in their order: what each of them holds under the key.
pub data Answers (key : Text) (w : World) : List Text → List Versioned → Type 0 where
  no_answer : Answers key w [] []
  answer :
      {t : Text} {ts : List Text} {x : Versioned} {xs : List Versioned} (f : From key w x)
      → f.origin ≡ t
      → Answers key w ts xs
      → Answers key w (t ∷ ts) (x ∷ xs)

pub Answers-back :
    (key : Text) (w v : World) {ts : List Text} {xs : List Versioned}
    → SameStores w v
    → Answers key v ts xs
    → Answers key w ts xs
Answers-back key w v o no_answer = no_answer
Answers-back key w v o (answer f e rest) =
    answer
      (record {
        origin = f.origin;
        storage = f.storage;
        at = sym (o f.origin) ∙ f.at;
        is_held = f.is_held;
      })
      e (Answers-back key w v o rest)

Answers-add :
    (key : Text) (w : World) (t : Text) (x : Versioned) {ts : List Text} {xs : List Versioned}
    → Answers key w ts xs
    → (f : From key w x) → f.origin ≡ t
    → Answers key w (ts ++ t ∷ []) (xs ++ x ∷ [])
Answers-add key w t x no_answer f e = answer f e no_answer
Answers-add key w t x (answer g q rest) f e = answer g q (Answers-add key w t x rest f e)

-- Each of the processes has its answer among these, and each answer comes from one of them.
pub Answers-In :
    (key : Text) (w : World) {ts : List Text} {xs : List Versioned} (x : Versioned)
    → Answers key w ts xs
    → In x xs
    → From key w x
Answers-In key w x no_answer i = elim i [ ]
Answers-In key w x (answer f e rest) here = f
Answers-In key w x (answer f e rest) (there i) = Answers-In key w x rest i

pub Answers-of :
    (key : Text) (w : World) {ts : List Text} {xs : List Versioned} (t : Text)
    → Answers key w ts xs
    → contains ts t ≡ true
    → (x : Versioned) × In x xs × (f : From key w x) × (f.origin ≡ t)
unfolding contains
Answers-of key w t no_answer c = absurd (ground (arith, c))
Answers-of key w t (answer {t = p} {x = x} f e rest) c = elim (Bool-cases (text_eq p t)) [
  | inl hit ↦ (x, here, f, e ∙ (text_eq_iff p t).0 hit)
  | inr miss ↦
      let (y, i, g, q) = Answers-of key w t rest (ground (arith, c, miss)) in (y, there i, g, q)
]

module _ (env : Env) (this key : Text) (replicas : List Text) where
  -- The results are the answers of `names`, as many as are counted, and `ps` are still to be tried.
  pub record Gathered (ps names : List Text) (w : World) (st : Reads) : Type 0 where
    pub answers : Answers key w names st.results
    pub count : length names ≡ st.success_cnt
    pub tried : AllDistinct replicas → AllDistinct ps × Tried replicas ps names

  Gathered-found :
      (p : Text) (ps names : List Text) (w v : World) (st : Reads) (d : Data) (tries : ℕ)
      → SameStores w v
      → Gathered (p ∷ ps) names w st
      → (f : From key w (d.value, d.version_info)) → f.origin ≡ p
      → Gathered ps (names ++ p ∷ []) v (found (record st { try_cnt = tries }) d)
  unfolding found
  Gathered-found p ps names w v st d tries o g f e = record {
    answers =
        Answers-back key v w (λ b. sym (o b))
          (Answers-add key w p (d.value, d.version_info) g.answers f e);
    count = omega (arith, length-append names (p ∷ []), g.count);
    tried = λ a. let (d, t) = g.tried a in (d.1, Tried-add replicas p ps names t d.0);
  }

  Gathered-keep :
      (ps names : List Text) (w v : World) (st : Reads) (tries : ℕ)
      → SameStores w v
      → Gathered ps names w st
      → Gathered ps names v (record st { try_cnt = tries })
  Gathered-keep ps names w v st tries o g = record {
    answers = Answers-back key v w (λ b. sym (o b)) g.answers;
    count = g.count;
    tried = g.tried;
  }

  Gathered-skip :
      (p : Text) (ps names : List Text) (w : World) (st : Reads)
      → Gathered (p ∷ ps) names w st
      → Gathered ps names w st
  Gathered-skip p ps names w st g = record {
    answers = g.answers;
    count = g.count;
    tried = λ a. let (d, t) = g.tried a in (d.1, Tried-skip replicas p ps names t);
  }

  own_answer :
      (w : World) (n : Node)
      → lookup this w.nodes ≡ some n
      → (f : From key w ((Node.peer_get n key).value, (Node.peer_get n key).version_info))
        × (f.origin ≡ this)
  unfolding Node.peer_get StateMachine.get_value StateMachine.get_version
  own_answer w n e = (
    record {
      origin = this;
      storage = n.state_machine;
      at = store_of_self this w n e;
      is_held = refl;
    },
    refl,
  )

  -- What the loop leaves: the storages as they were, and answers of processes.
  pub record Read (w w' : World) (st : Reads) : Type 0 where
    pub unchanged : SameStores w w'
    pub left : List Text
    pub names : List Text
    pub gathered : Gathered left names w' st

  Read-after : (w v w' : World) (st : Reads) → SameStores w v → Read v w' st → Read w w' st
  Read-after w v w' st o r = record {
    unchanged = SameStores-trans w v w' o r.unchanged;
    left = r.left;
    names = r.names;
    gathered = r.gathered;
  }

  stop :
      (ps names : List Text) (w w' : World) (st st' : Reads)
      → Gathered ps names w st
      → pure st w ≡ some (st', w')
      → Read w w' st'
  stop ps names w w' st st' g h =
      let e : w ≡ w' = ground arith in
      let q : st ≡ st' = ground arith in
      subst (λ u. Read w u st') e
        (record {
          unchanged = λ b. refl;
          left = ps;
          names = names;
          gathered = subst (Gathered ps names w) q g;
        })

  -- After an answer the loop ends with the third try, or goes on.
  stop_or_go :
      (ps names : List Text) (st st' : Reads) (w w' : World)
      → Gathered ps names w st
      → (if st.try_cnt == replica_n then pure st else read_replicas env this key ps st) w
        ≡ some (st', w')
      → (read_replicas env this key ps st w ≡ some (st', w') → Read w w' st')
      → Read w w' st'
  stop_or_go ps names st st' w w' g h go_on = elim (Bool-cases (st.try_cnt == replica_n)) [
    | inr more ↦ go_on (rw more at h)
    | inl done ↦ stop ps names w w' st st' g (rw done at h)
  ]

  pub read_replicas-Read :
      (ps names : List Text) (st st' : Reads) (w w' : World)
      → Gathered ps names w st
      → read_replicas env this key ps st w ≡ some (st', w')
      → Read w w' st'
  unfolding read_replicas found
  read_replicas-Read [] names st st' w w' g h = stop [] names w w' st st' g h
  read_replicas-Read (p ∷ ps) names st st' w w' g h = elim (Bool-cases (text_eq p this)) [
    | inl hit ↦
        let me : p ≡ this = (text_eq_iff p this).0 hit in
        let (n, v, a, b) = bind-some (self this) _ w (rw hit at h) in
        let (there_is, e) = self-some this w v n a in
        let o : SameStores w v = λ t. ap (λ u. store_of u t) (sym e) in
        let st'' = found (record st { try_cnt = suc st.try_cnt }) (Node.peer_get n key) in
        let (own, origin) = own_answer w n there_is in
        let g' =
          Gathered-found p ps names w v st (Node.peer_get n key) (suc st.try_cnt) o g own
            (origin ∙ sym me) in
        Read-after w v w' st' o (
          stop_or_go ps (names ++ p ∷ []) st'' st' v w' g' b
            (read_replicas-Read ps (names ++ p ∷ []) st'' st' v w' g'))
    | inr other ↦
        let (alive, v, a, b) = bind-some (is_alive env this p) _ w (rw other at h) in
        let o = is_alive-SameStores env this p w v alive a in
        let kept = Gathered-keep (p ∷ ps) names w v st st.try_cnt o g in
        Read-after w v w' st' o (elim (Bool-cases alive) [
          | inr dead ↦
              read_replicas-Read ps names st st' v w' (Gathered-skip p ps names v st kept)
                (rw dead at b)
          | inl up ↦
              let (r, u, c, f) = bind-some (peer_get env this p key) _ v (rw up at b) in
              let eff = peer_get-GetEffect env this key p v u r c in
              Read-after v u w' st' eff.unchanged (elim eff.reply [
                | inl silent ↦
                    let st'' : Reads = record st { try_cnt = suc st.try_cnt } in
                    let g' =
                      Gathered-keep (p ∷ ps) names v u st (suc st.try_cnt) eff.unchanged kept in
                    read_replicas-Read ps names st'' st' u w' (Gathered-skip p ps names u st'' g')
                      (rw silent at f)
                | inr (d, e, from, origin) ↦
                    let st'' = found (record st { try_cnt = suc st.try_cnt }) d in
                    let g' =
                      Gathered-found p ps names v u st d (suc st.try_cnt) eff.unchanged kept from
                        origin in
                    stop_or_go ps (names ++ p ∷ []) st'' st' u w' g' (rw e at f)
                      (read_replicas-Read ps (names ++ p ∷ []) st'' st' u w' g')
              ])
        ])
  ]

  pub Gathered-none :
      (w : World) → Gathered replicas [] w (record { results = []; success_cnt = 0; try_cnt = 0 })
  Gathered-none w = record {
    answers = no_answer;
    count = refl;
    tried = λ a. (a, Tried-none replicas);
  }
