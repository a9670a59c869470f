-- ===== src/Membership/Grown.antt =====
-- Lists of heartbeats on their way (src/gossip_node.cpp): what processes know before and after a
-- message.
use cs739_cloud_native.Common.{
  ℕ, suc, ◌≡◌, ◌⊎◌, inl, inr, refl, ◌∙◌, subst, Bool, true, false, Option, none, some, In, arith,
  get_or, Text, text_eq, text_eq_iff, lookup, insert, touch, lookup-insert, Bool-cases,
  Option-cases,
}
use cs739_cloud_native.Versions.Order.{Le, Le-refl, Le-trans}
use cs739_cloud_native.Node.{Node, MemberList, is_recent, receive_gossip}
use cs739_cloud_native.Node.Gossip.{Knows, receive_gossip-join}
use cs739_cloud_native.Cluster.{Env, World, delivered, self, store, serve, now, rpc, is_alive}
use cs739_cloud_native.Cluster.Runs.{
  bind-at, self-at, send-gone, rpc-delivered, send-some, serve-at,
}

-- The process has every heartbeat of the list, or a later one.
abbrev pub Hears : MemberList → Node → Type 0
Hears l m = (p : Text × ℕ) → In p l → Knows m.members_heartbeat_list p

-- Every process but this one is still there and has forgotten no heartbeat, and those of which `H`
-- holds hear of the list.
pub record Grown (this : Text) (l : MemberList) (H : Text → Type 0) (w u : World) : Type 0 where
  pub at :
      (q : Text) (m : Node)
      → text_eq q this ≡ false
      → lookup q w.nodes ≡ some m
      → (m' : Node) × (lookup q u.nodes ≡ some m')
        × Le m.members_heartbeat_list m'.members_heartbeat_list
        × (H q → Hears l m')

Hears-Le :
    (l : MemberList) (m m' : Node)
    → Le m.members_heartbeat_list m'.members_heartbeat_list
    → Hears l m
    → Hears l m'
Hears-Le l m m' grown hears p i =
    let (a, e, h) = hears p i in let (b, f, g) = grown p.0 a e in (b, f, omega (arith, h, g))

module _ (this : Text) (l : MemberList) where
  pub Grown-trans :
      (H K J : Text → Type 0) (w v u : World)
      → Grown this l H w v
      → Grown this l K v u
      → ((q : Text) → J q → H q ⊎ K q)
      → Grown this l J w u
  Grown-trans H K J w v u x y heard = record {
    at = λ q m other there.
        let (m1, there1, grown1, h1) = x.at q m other there in
        let (m2, there2, grown2, h2) = y.at q m1 other there1 in
        (
          m2,
          there2,
          Le-trans m.members_heartbeat_list m1.members_heartbeat_list m2.members_heartbeat_list
              grown1 grown2,
          λ j. elim (heard q j) [ inl a ↦ Hears-Le l m1 m2 grown2 (h1 a) | inr b ↦ h2 b ],
        );
  }

  pub Grown-same :
      (J : Text → Type 0) (w u : World)
      → ((q : Text) → text_eq q this ≡ false → lookup q u.nodes ≡ lookup q w.nodes)
      → ((q : Text) (m : Node) → lookup q w.nodes ≡ some m → ¬ J q)
      → Grown this l J w u
  Grown-same J w u same nobody = record {
    at = λ q m other there. (
      m,
      same q other ∙ there,
      Le-refl m.members_heartbeat_list,
      λ j. absurd (nobody q m there j),
    );
  }

-- is_alive of a process that runs.
unfoldable pub touched : Text → Text → World → Node → World
touched this c w n = record w {
  readings = suc w.readings;
  nodes =
      insert this (record n { members_heartbeat_list = touch c 0 n.members_heartbeat_list })
        w.nodes;
}

pub is_alive-at :
    (env : Env) (this c : Text) (w : World) (n : Node)
    → lookup this w.nodes ≡ some n
    → is_alive env this c w
      ≡ some (
        is_recent (env.clock w.readings) (get_or (lookup c n.members_heartbeat_list) 0),
        touched this c w n,
      )
unfolding is_alive now store touched
is_alive-at env this c w n there =
    bind-at (self this) _ (record w { readings = suc w.readings })
      (record w { readings = suc w.readings }) n
      (self-at this (record w { readings = suc w.readings }) n there)

module _ (env : Env) (delivers : (i : ℕ) → env.net i ≡ delivered) (this : Text)
    (l : MemberList) where
  abbrev pub hear : Node → Node × Bool
  hear n = receive_gossip n l

  told_reply :
      (peer : Text) (w : World) (m : Node)
      → lookup peer w.nodes ≡ some m
      → serve peer hear w ≡ some (true, record w { nodes = insert peer (hear m).0 w.nodes })
  unfolding receive_gossip
  told_reply peer w m found = serve-at peer hear w m found

  -- A process that has merged the list.
  heard :
      (peer : Text) (w u : World) (m : Node)
      → lookup peer w.nodes ≡ some m
      → u.nodes ≡ insert peer (hear m).0 w.nodes
      → Grown this l (λ q. text_eq peer q ≡ true) w u
  heard peer w u m found e = record {
    at = λ q x other there. elim (Bool-cases (text_eq peer q)) [
      | inl hit ↦
          let same : m ≡ x = ground (arith, found, there, hit, text_eq_iff peer q) in
          let list = (hear m).0.members_heartbeat_list in
          let (before, news) = (receive_gossip-join m l list).0 (Le-refl list) in
          (
            (hear m).0,
            ground (arith, e, hit, lookup-insert peer q (hear m).0 w.nodes),
            subst (λ (y : Node). Le y.members_heartbeat_list list) same before,
            λ _. news,
          )
      | inr miss ↦ (
        x,
        ground (arith, e, miss, there, lookup-insert peer q (hear m).0 w.nodes),
        Le-refl x.members_heartbeat_list,
        λ hit. absurd (ground (arith, hit, miss)),
      )
    ];
  }

  -- One message.
  pub told :
      (peer : Text) (w : World) (n : Node)
      → lookup this w.nodes ≡ some n
      → text_eq peer this ≡ false
      → (r : Option Bool) × (u : World) × (rpc env peer (serve peer hear) w ≡ some (r, u))
        × (lookup this u.nodes ≡ some n)
        × Grown this l (λ q. text_eq peer q ≡ true) w u
  told peer w n there apart =
      let w1 : World = record w { calls = suc w.calls } in
      let sent = rpc-delivered env peer (serve peer hear) w (delivers w.calls) in
      elim (Option-cases (lookup peer w.nodes)) [
        | inl gone ↦ (
          none,
          w1,
          sent ∙ send-gone peer (serve peer hear) w1 gone,
          there,
          Grown-same this l (λ q. text_eq peer q ≡ true) w w1 (λ q other. refl)
              (λ q m found it. ground (arith, gone, found, it, text_eq_iff peer q)),
        )
        | inr (m, found) ↦
            let u : World = record w1 { nodes = insert peer (hear m).0 w.nodes } in
            (
              some true,
              u,
              sent
                  ∙ send-some peer (serve peer hear) w1 u m true found (told_reply peer w1 m found),
              ground (arith, there, apart, lookup-insert peer this (hear m).0 w.nodes),
              heard peer w u m found refl,
            )
      ]
