-- ===== src/Membership/Spread.antt =====
-- A round of gossip of src/gossip_node.cpp where the network delivers every call: who hears what.
use cs739_cloud_native.Common.{
  ℕ, suc, ◌≡◌, ◌⊎◌, inl, inr, refl, sym, ap, ◌∙◌, subst, Bool, true, false, some, List, [], ◌∷◌,
  In-of_lookup, arith, get_or, Text, text_eq, text_eq_iff, text_eq_refl, text_eq_symm, contains,
  lookup, insert, touch, lookup-insert, lookup-touch, Bool-cases,
}
use cs739_cloud_native.Versions.Order.{Le}
use cs739_cloud_native.Node.{Node, MemberList, is_recent}
use cs739_cloud_native.Cluster.{Env, World, delivered, ◌>>◌, self, store, serve, now, rpc, is_alive}
use cs739_cloud_native.Cluster.Runs.{bind-at, self-at}
use cs739_cloud_native.Membership.{set_heartbeat, send_gossip, gossip}
use cs739_cloud_native.Membership.Grown.{
  Grown, Grown-trans, Grown-same, touched, is_alive-at, hear, told,
}

module _ (env : Env) (delivers : (i : ℕ) → env.net i ≡ delivered) (this : Text)
    (l : MemberList) where
  module _ (time : Text → ℕ) where
    -- The process runs, with these times of its peers.
    record Runs (w : World) : Type 0 where
      node : Node
      there : lookup this w.nodes ≡ some node
      times : (c : Text) → get_or (lookup c node.members_heartbeat_list) 0 ≡ time c

    abbrev Recent : Text → Type 0
    Recent q = (i : ℕ) → is_recent (env.clock i) (time q) ≡ true

    abbrev Told : List Text → Text → Type 0
    Told peers q = (contains peers q ≡ true) × Recent q

    -- is_alive changes no other process, and no time.
    asked :
        (c : Text) (w : World)
        → Runs w
        → (a : Bool) × (u : World) × (is_alive env this c w ≡ some (a, u))
          × Runs u
          × Grown this l (λ q. false ≡ true) w u
          × (Recent c → a ≡ true)
    unfolding touched
    asked c w r =
        let n = r.node in
        let n' : Node = record n { members_heartbeat_list = touch c 0 n.members_heartbeat_list } in
        let u : World = touched this c w n in
        (
          is_recent (env.clock w.readings) (get_or (lookup c n.members_heartbeat_list) 0),
          u,
          is_alive-at env this c w n r.there,
          record {
            node = n';
            there = ground (arith, lookup-insert this this n' w.nodes, text_eq_refl this);
            times = λ x.
                let same : get_or (lookup x n'.members_heartbeat_list) 0
                    ≡ get_or (lookup x n.members_heartbeat_list) 0 =
                  ground (arith, lookup-touch c x 0 n.members_heartbeat_list) in
                same ∙ r.times x;
          },
          Grown-same this l (λ q. false ≡ true) w u
              (λ q other.
                ground (arith, other, text_eq_symm q this, lookup-insert this q n' w.nodes))
              (λ q m found e. ground (arith, e)),
          λ fresh. ap (λ t. is_recent (env.clock w.readings) t) (r.times c) ∙ fresh w.readings,
        )

    split :
        (peer : Text) (peers : List Text) (q : Text)
        → Told (peer ∷ peers) q
        → (text_eq peer q ≡ true) ⊎ Told peers q
    unfolding contains
    split peer peers q j = elim (Bool-cases (text_eq peer q)) [
      | inl hit ↦ inl hit
      | inr miss ↦ inr (ground (arith, j.0, miss), j.1)
    ]

    spread :
        (peers : List Text) (w : World)
        → Runs w
        → contains peers this ≡ false
        → (u : World) × (send_gossip env this l peers w ≡ some (tt, u))
          × Grown this l (Told peers) w u
    unfolding send_gossip contains
    spread [] w r apart = (
      w,
      refl,
      Grown-same this l (Told []) w w (λ q other. refl) (λ q m found j. ground (arith, j.0)),
    )
    spread (peer ∷ peers) w r apart =
        let (a, w1, step, r1, quiet, fresh) = asked peer w r in
        let one : text_eq peer this ≡ false = ground (arith, apart) in
        let rest : contains peers this ≡ false = ground (arith, apart) in
        elim (Bool-cases a) [
          | inl alive ↦
              let (reply, v, ran, there, news) =
                told env delivers this l peer w1 r1.node r1.there one in
              let (u, more, later) =
                spread peers v (record { node = r1.node; there = there; times = r1.times }) rest in
              (
                u,
                bind-at (is_alive env this peer) _ w w1 a step
                    ∙ rw alive (
                        bind-at (rpc env peer (serve peer (hear env delivers this l))) _ w1 v reply
                          ran
                        ∙ more),
                Grown-trans this l (λ q. false ≡ true) (Told (peer ∷ peers)) (Told (peer ∷ peers)) w
                    w1 u quiet
                    (Grown-trans this l (λ q. text_eq peer q ≡ true) (Told peers)
                      (Told (peer ∷ peers)) w1 v u news later (split peer peers))
                    (λ q j. inr j),
              )
          | inr silent ↦
              let (u, more, later) = spread peers w1 r1 rest in
              (
                u,
                bind-at (is_alive env this peer) _ w w1 a step ∙ rw silent more,
                Grown-trans this l (λ q. false ≡ true) (Told peers) (Told (peer ∷ peers)) w w1 u
                    quiet later
                    (λ q j. elim (split peer peers q j) [
                      | inr b ↦ inr b
                      | inl hit ↦
                          inl (
                            sym silent
                            ∙ fresh (subst Recent (sym ((text_eq_iff peer q).0 hit)) j.1))
                    ]),
              )
        ]

-- Where the network delivers every call, a round of gossip of a process that runs, and has no stub
-- for itself, comes to its end. Every other process then knows each heartbeat that it knew, or a
-- later one; and one that has a stub here, and is heard of in time, knows the heartbeats of this
-- process too, its new own one among them.
pub gossip-Le :
    (env : Env) (this q : Text) (w : World) (n m : Node)
    → ((i : ℕ) → env.net i ≡ delivered)
    → lookup this w.nodes ≡ some n
    → contains n.stubs this ≡ false
    → text_eq q this ≡ false
    → lookup q w.nodes ≡ some m
    → (u : World) × (gossip env this w ≡ some (tt, u))
      × (m' : Node) × (lookup q u.nodes ≡ some m')
      × Le m.members_heartbeat_list m'.members_heartbeat_list
      × (contains n.stubs q ≡ true
          → ((i : ℕ)
              → is_recent (env.clock i) (get_or (lookup q n.members_heartbeat_list) 0) ≡ true)
          → Le
              (set_heartbeat this (env.clock w.readings) n).members_heartbeat_list
              m'.members_heartbeat_list)
unfolding gossip set_heartbeat now store
gossip-Le env this q w n m delivers there apart other there_q =
    let n' : Node = set_heartbeat this (env.clock w.readings) n in
    let l = n'.members_heartbeat_list in
    let w1 : World = record w { readings = suc w.readings } in
    let w2 : World = record w1 { nodes = insert this n' w.nodes } in
    let r : Runs env delivers this l (λ c. get_or (lookup c l) 0) w2 = record {
      node = n';
      there = ground (arith, lookup-insert this this n' w.nodes, text_eq_refl this);
      times = λ c. refl;
    } in
    let (u, ran, grown) =
      spread env delivers this l (λ c. get_or (lookup c l) 0) n.stubs w2 r apart in
    let (m', found, le, hears) =
      grown.at q m other
        (ground (arith, there_q, other, text_eq_symm q this, lookup-insert this q n' w.nodes)) in
    let same : lookup q l ≡ lookup q n.members_heartbeat_list = ground (
      arith,
      other,
      text_eq_symm q this,
      lookup-insert this q (env.clock w.readings) n.members_heartbeat_list,
    ) in
    (
      u,
      bind-at (self this)
            (λ (x : Node).
              store this (set_heartbeat this (env.clock w.readings) x)
              >> send_gossip env this
                  (set_heartbeat this (env.clock w.readings) x).members_heartbeat_list
                  (set_heartbeat this (env.clock w.readings) x).stubs)
            w1 w1 n (self-at this w1 n there)
          ∙ ran,
      m',
      found,
      le,
      λ stub recent s t e.
          hears (stub, λ i. ap (λ o. is_recent (env.clock i) (get_or o 0)) same ∙ recent i) (s, t)
            (In-of_lookup s l e),
    )
