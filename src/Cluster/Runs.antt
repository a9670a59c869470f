-- ===== src/Cluster/Runs.antt =====
-- Steps between processes that come to an end with no fault: the rules for the constructs of
-- Cluster.
use cs739_cloud_native.Common.{
  ◌≡◌, refl, ap, ◌∙◌, subst, Bool, true, false, Option, none, some, List, [], ◌∷◌, suc, arith,
  if◌then◌else◌, Text, text_eq, text_eq_iff, contains, lookup, insert, lookup-insert, Bool-cases,
  Option-cases, inl, inr,
}
use cs739_cloud_native.Node
use cs739_cloud_native.Node.{Node, Data}
use cs739_cloud_native.Cluster.{
  Env, World, Delivery, delivered, request_lost, reply_lost, M, pure, ◌>>=◌, self, store, serve,
  send, drop_reply, need_stub, now, rpc, is_alive, peer_put, assigned_coordinator,
}
use cs739_cloud_native.Cluster.PeerPut.{peer_put-cases}

-- no condition on a value
abbrev pub AnyValue {ℓ} : {A : Type ℓ} → A → Type 0
AnyValue a = Unit {0}

pub bind-at {ℓ κ} :
    {A : Type ℓ} {B : Type κ} (m : M A) (f : A → M B) (w w' : World) (a : A)
    → m w ≡ some (a, w')
    → (m >>= f) w ≡ f a w'
bind-at m f w w' a e = ap (λ o. elim o [ none ↦ none | some (b, u) ↦ f b u ]) e

pub self-at : (a : Text) (w : World) (n : Node) → lookup a w.nodes ≡ some n → self a w ≡ some (n, w)
unfolding self
self-at a w n e = ground (arith, e)

pub send-gone {ℓ} :
    {A : Type ℓ} (peer : Text) (handler : M A) (w : World)
    → lookup peer w.nodes ≡ none
    → send peer handler w ≡ some (none, w)
unfolding send
send-gone peer handler w e = ground (arith, e)

pub send-some {ℓ} :
    {A : Type ℓ} (peer : Text) (handler : M A) (w w' : World) (m : Node) (a : A)
    → lookup peer w.nodes ≡ some m
    → handler w ≡ some (a, w')
    → send peer handler w ≡ some (some a, w')
unfolding send
send-some peer handler w w' m a e h = ground (arith, e, h)

pub serve-at {ℓ} :
    {A : Type ℓ} (peer : Text) (f : Node → Node × A) (w : World) (m : Node)
    → lookup peer w.nodes ≡ some m
    → serve peer f w ≡ some ((f m).1, record w { nodes = insert peer (f m).0 w.nodes })
unfolding serve store
serve-at peer f w m e = bind-at (self peer) _ w w m (self-at peer w m e)

pub rpc-delivered {ℓ} :
    {A : Type ℓ} (env : Env) (p : Text) (handler : M A) (w : World)
    → env.net w.calls ≡ delivered
    → rpc env p handler w ≡ send p handler (record w { calls = suc w.calls })
unfolding rpc
rpc-delivered env p handler w e = ground (arith, e)

peer_put-stubs : (n : Node) (key : Text) (d : Data) → (Node.peer_put n key d).0.stubs ≡ n.stubs
peer_put-stubs n key d = elim (peer_put-cases n key d) [
  | inl (v, e) ↦ ap (λ (x : Node × Bool). x.0.stubs) e
  | inr (v, e) ↦ ap (λ (x : Node × Bool). x.0.stubs) e
]

module _ (this : Text) (servers : List Text) where
  -- The process has a stub for every other one of the servers.
  abbrev pub HasStubs : Node → Type 0
  HasStubs n =
      (t : Text) → contains servers t ≡ true → text_eq t this ≡ false → contains n.stubs t ≡ true

  -- It runs, and has these stubs.
  abbrev pub IsReady : World → Type 0
  IsReady w = (n : Node) × (lookup this w.nodes ≡ some n) × HasStubs n

  -- From a world where the process is ready, the step comes to an end in such a world, with a value
  -- that satisfies `Q`.
  pub record Runs {ℓ κ} {A : Type ℓ} (Q : A → Type κ) (m : M A) : Type (ℓ ⊔ κ) where
    pub at :
        (w : World) → IsReady w → (a : A) × (w' : World) × (m w ≡ some (a, w')) × IsReady w' × Q a

  pub Runs-pure {ℓ κ} : {A : Type ℓ} {Q : A → Type κ} (a : A) → Q a → Runs Q (pure a)
  Runs-pure a q = record { at = λ w r. (a, w, refl, r, q) }

  pub Runs-bind {ℓ κ ℓ' κ'} :
      {A : Type ℓ} {B : Type ℓ'} {R : B → Type κ'} (Q : A → Type κ) (m : M A) (f : A → M B)
      → Runs Q m
      → ((a : A) → Q a → Runs R (f a))
      → Runs R (m >>= f)
  Runs-bind Q m f k l = record {
    at = λ w r.
        let (a, w', e, r', q) = k.at w r in
        let (b, w'', e', r'', q') = (l a q).at w' r' in
        (b, w'', bind-at m f w w' a e ∙ e', r'', q');
  }

  pub Runs-if {ℓ κ} :
      {A : Type ℓ} {Q : A → Type κ} (b : Bool) (m k : M A)
      → Runs Q m
      → Runs Q k
      → Runs Q (if b then m else k)
  Runs-if true m k x y = x
  Runs-if false m k x y = y

  pub Runs-self : Runs HasStubs (self this)
  Runs-self = record { at = λ w r. let (n, e, h) = r in (n, w, self-at this w n e, (n, e, h), h) }

  -- a process put in the place of one
  IsReady-insert :
      (w : World) (a : Text) (n : Node)
      → IsReady w
      → (text_eq a this ≡ true → HasStubs n)
      → IsReady (record w { nodes = insert a n w.nodes })
  IsReady-insert w a n r h =
      let (m, e, g) = r in
      elim (Bool-cases (text_eq a this)) [
        | inl hit ↦ (n, ground (arith, hit, lookup-insert a this n w.nodes), h hit)
        | inr miss ↦ (m, ground (arith, miss, e, lookup-insert a this n w.nodes), g)
      ]

  pub Runs-store : (n : Node) → HasStubs n → Runs AnyValue (store this n)
  unfolding store
  Runs-store n h = record {
    at = λ w r. (
      tt,
      record w { nodes = insert this n w.nodes },
      refl,
      IsReady-insert w this n r (λ _. h),
      tt,
    );
  }

  pub Runs-need_stub :
      (addr : Text)
      → contains servers addr ≡ true
      → text_eq addr this ≡ false
      → Runs AnyValue (need_stub this addr)
  unfolding need_stub
  Runs-need_stub addr c other =
      Runs-bind HasStubs (self this) _ Runs-self λ n h. rw (h addr c other) (Runs-pure tt tt)

  module _ (env : Env) where
    pub Runs-now : Runs AnyValue (now env)
    unfolding now
    Runs-now = record {
      at = λ w r. (env.clock w.readings, record w { readings = suc w.readings }, refl, r, tt);
    }

    -- A request for a handler that leaves the stubs as they are.
    send-Runs {ℓ} :
        {A : Type ℓ} (peer : Text) (f : Node → Node × A) (w : World)
        → ((n : Node) → (f n).0.stubs ≡ n.stubs)
        → IsReady w
        → (a : Option A) × (w' : World) × (send peer (serve peer f) w ≡ some (a, w')) × IsReady w'
    send-Runs peer f w keep r = elim (Option-cases (lookup peer w.nodes)) [
      | inl gone ↦ (none, w, send-gone peer _ w gone, r)
      | inr (m, there_is) ↦ (
        some (f m).1,
        record w { nodes = insert peer (f m).0 w.nodes },
        send-some peer _ w _ m _ there_is (serve-at peer f w m there_is),
        IsReady-insert w peer (f m).0 r (λ hit t c other.
            let (n, e, g) = r in
            let same : n ≡ m = ground (arith, e, there_is, text_eq_iff peer this, hit) in
            rw keep (subst (λ (x : Node). contains x.stubs t ≡ true) same (g t c other))),
      )
    ]

    -- what becomes of the call
    fate {ℓ} :
        {A : Type ℓ} (d : Delivery) (peer : Text) (f : Node → Node × A) (w : World) (a : Option A)
        (w'' : World)
        → env.net w.calls ≡ d
        → send peer (serve peer f) (record w { calls = suc w.calls }) ≡ some (a, w'')
        → IsReady w
        → IsReady w''
        → (b : Option A) × (u : World) × (rpc env peer (serve peer f) w ≡ some (b, u))
          × IsReady u
          × Unit {0}
    unfolding rpc drop_reply
    fate delivered peer f w a w'' d e r r' = (a, w'', ground (arith, d, e), r', tt)
    fate request_lost peer f w a w'' d e r r' =
        (none, record w { calls = suc w.calls }, ground (arith, d), r, tt)
    fate reply_lost peer f w a w'' d e r r' = (none, w'', ground (arith, d, e), r', tt)

    pub Runs-rpc {ℓ} :
        {A : Type ℓ} (peer : Text) (f : Node → Node × A)
        → ((n : Node) → (f n).0.stubs ≡ n.stubs)
        → Runs AnyValue (rpc env peer (serve peer f))
    Runs-rpc {A = A} peer f keep = record {
      at = λ w r.
          let w' : World = record w { calls = suc w.calls } in
          let (a, w'', e, r') = send-Runs peer f w' keep r in
          fate (env.net w.calls) peer f w a w'' refl e r r';
    }

    pub is_alive-Runs : (peer : Text) → Runs AnyValue (is_alive env this peer)
    unfolding is_alive
    is_alive-Runs peer = Runs-bind AnyValue (now env) _ Runs-now λ t _.
        Runs-bind HasStubs (self this) _ Runs-self
          λ n h. Runs-bind AnyValue _ _ (Runs-store _ h) λ _ _. Runs-pure _ tt

    pub assigned_coordinator-Runs :
        (cs : List Text) → Runs AnyValue (assigned_coordinator env this cs)
    unfolding assigned_coordinator
    assigned_coordinator-Runs [] = Runs-pure [] tt
    assigned_coordinator-Runs (c ∷ cs) =
        Runs-bind AnyValue _ _ (is_alive-Runs c)
          λ a _. Runs-if a _ _ (Runs-pure c tt) (assigned_coordinator-Runs cs)

    -- The calls of Cluster, between a process that is ready and one of the servers.
    module _ (peer : Text) (there_is : contains servers peer ≡ true)
        (other : text_eq peer this ≡ false) where
      pub peer_put-Runs : (key : Text) (d : Data) → Runs AnyValue (peer_put env this peer key d)
      unfolding peer_put
      peer_put-Runs key d = Runs-bind AnyValue _ _ (Runs-need_stub peer there_is other) λ _ _.
          Runs-bind AnyValue _ _
            (Runs-rpc peer (λ n. Node.peer_put n key d) (λ n. peer_put-stubs n key d))
            λ r _. Runs-pure _ tt
