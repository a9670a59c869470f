-- ===== src/Cluster/Keeps.antt =====
-- What holds of every process and is kept by a step: a condition on the processes, and one on the
-- value that the step returns.
use cs739_cloud_native.Common.{
  ◌≡◌, refl, sym, ap, subst, ◌∙◌, Bool, true, false, Option, none, some, arith, if◌then◌else◌, Text,
  text_eq, contains, lookup, insert, lookup-insert, Bool-cases, Option-cases, inl, inr, suc,
}
use cs739_cloud_native.Node.{Node}
use cs739_cloud_native.Cluster.{
  Env, World, M, Delivery, delivered, request_lost, reply_lost, pure, fault, ◌>>=◌, self, store,
  serve, send, drop_reply, need_stub, now, rpc,
}
use cs739_cloud_native.Cluster.Frame.{bind-some}

-- Every process satisfies the condition.
abbrev pub AllNodes : (Node → Type 0) → World → Type 0
AllNodes P w = (a : Text) (n : Node) → lookup a w.nodes ≡ some n → P n

-- From a world where every process satisfies `P`, the step leads to such a world, and its value
-- satisfies `Q`.
pub record Keeps {ℓ κ} {A : Type ℓ} (P : Node → Type 0) (Q : A → Type κ) (m : M A)
    : Type (ℓ ⊔ κ) where
  pub at : (w w' : World) (a : A) → AllNodes P w → m w ≡ some (a, w') → AllNodes P w' × Q a

-- no condition on a value
abbrev pub Any {ℓ} : {A : Type ℓ} → A → Type 0
Any a = Unit {0}

-- The condition on a reply, if there is one.
pub data Reply {ℓ κ} {A : Type ℓ} (Q : A → Type κ) : Option A → Type (ℓ ⊔ κ) where
  silent : Reply Q none
  replied : {a : A} → Q a → Reply Q (some a)

lost-world {ℓ} :
    {A : Type ℓ} (o : Option (Option A × World)) (r : Option A) (w' : World)
    → drop_reply o ≡ some (r, w')
    → (x : Option A) × (o ≡ some (x, w')) × (none ≡ r)
unfolding drop_reply
lost-world none r w' h = cc
lost-world (some (x, w)) r w' h = (x, ground arith, ground arith)

module _ {P : Node → Type 0} where
  pub AllNodes-insert :
      (w : World) (a : Text) (n : Node)
      → AllNodes P w
      → P n
      → (b : Text) (m : Node) → lookup b (insert a n w.nodes) ≡ some m
      → P m
  AllNodes-insert w a n all p b m e = elim (Bool-cases (text_eq a b)) [
    | inl hit ↦ let q : n ≡ m = ground (arith, lookup-insert a b n w.nodes) in subst P q p
    | inr miss ↦ all b m (ground (arith, lookup-insert a b n w.nodes))
  ]

  AllNodes-same : (w w' : World) → w'.nodes ≡ w.nodes → AllNodes P w → AllNodes P w'
  AllNodes-same w w' e all a n h = all a n (ap (λ ns. lookup a ns) (sym e) ∙ h)

  pub Keeps-pure {ℓ κ} : {A : Type ℓ} {Q : A → Type κ} (a : A) → Q a → Keeps P Q (pure a)
  Keeps-pure {Q = Q} a q = record {
    at = λ w w' b all h.
        let e : w ≡ w' = ground arith in
        let f : a ≡ b = ground arith in (subst (AllNodes P) e all, subst Q f q);
  }

  pub Keeps-fault {ℓ κ} : {A : Type ℓ} {Q : A → Type κ} → Keeps P Q (fault {A = A})
  Keeps-fault = record { at = λ w w' b all h. cc }

  pub Keeps-bind {ℓ κ ℓ' κ'} :
      {A : Type ℓ} {B : Type ℓ'} {R : B → Type κ'} (Q : A → Type κ) (m : M A) (f : A → M B)
      → Keeps P Q m
      → ((a : A) → Q a → Keeps P R (f a))
      → Keeps P R (m >>= f)
  Keeps-bind Q m f k l = record {
    at = λ w w'' b all h.
        let (a, w', e, g) = bind-some m f w h in
        let (all', q) = k.at w w' a all e in (l a q).at w' w'' b all' g;
  }

  pub Keeps-if {ℓ κ} :
      {A : Type ℓ} {Q : A → Type κ} (b : Bool) (m k : M A)
      → Keeps P Q m
      → Keeps P Q k
      → Keeps P Q (if b then m else k)
  Keeps-if true m k x y = x
  Keeps-if false m k x y = y

  pub Keeps-option {ℓ κ ℓ'} :
      {A : Type ℓ} {X : Type ℓ'} {Q : A → Type κ} (r : Option X) (m : M A) (f : X → M A)
      → Keeps P Q m
      → ((x : X) → Keeps P Q (f x))
      → Keeps P Q (elim r [ none ↦ m | some x ↦ f x ])
  Keeps-option none m f k l = k
  Keeps-option (some x) m f k l = l x

  pub Keeps-Reply {ℓ κ ℓ' κ'} :
      {A : Type ℓ} {X : Type ℓ'} {Q : A → Type κ} {R : X → Type κ'} {r : Option X} (m : M A)
      (f : X → M A)
      → Reply R r
      → Keeps P Q m
      → ((x : X) → R x → Keeps P Q (f x))
      → Keeps P Q (elim r [ none ↦ m | some x ↦ f x ])
  Keeps-Reply m f silent k l = k
  Keeps-Reply m f (replied {a} q) k l = l a q

  pub Keeps-self : (this : Text) → Keeps P P (self this)
  unfolding self
  Keeps-self this = record {
    at = λ w w' n all h.
        let e : w ≡ w' = ground arith in (subst (AllNodes P) e all, all this n (ground arith));
  }

  pub Keeps-store : (this : Text) (n : Node) → P n → Keeps P Any (store this n)
  unfolding store
  Keeps-store this n p = record {
    at = λ w w' u all h.
        let e : record w { nodes = insert this n w.nodes } ≡ w' = ground arith in
        (subst (AllNodes P) e (AllNodes-insert w this n all p), tt);
  }

  pub Keeps-now : (env : Env) → Keeps P Any (now env)
  unfolding now
  Keeps-now env = record {
    at = λ w w' t all h.
        let e : w.nodes ≡ w'.nodes = ground arith in (AllNodes-same w w' (sym e) all, tt);
  }

  pub Keeps-need_stub : (this addr : Text) → Keeps P Any (need_stub this addr)
  unfolding need_stub
  Keeps-need_stub this addr =
      Keeps-bind P (self this) _ (Keeps-self this)
        λ n _. Keeps-if (contains n.stubs addr) (pure tt) fault (Keeps-pure tt tt) Keeps-fault

  pub Keeps-weaken {ℓ κ κ'} :
      {A : Type ℓ} {Q : A → Type κ} {R : A → Type κ'} (m : M A)
      → ((a : A) → Q a → R a)
      → Keeps P Q m
      → Keeps P R m
  Keeps-weaken m f k = record {
    at = λ w w' a all h. let (all', q) = k.at w w' a all h in (all', f a q);
  }

  -- A handler that calls no other node keeps what its function on one process keeps.
  pub Keeps-serve_value {ℓ κ} :
      {A : Type ℓ} {Q : A → Type κ} (a : Text) (f : Node → Node × A)
      → ((n : Node) → P n → P (f n).0 × Q (f n).1)
      → Keeps P Q (serve a f)
  unfolding serve
  Keeps-serve_value {Q = Q} a f k = Keeps-bind P (self a) _ (Keeps-self a) λ n p.
      Keeps-bind Any (store a (f n).0) _ (Keeps-store a (f n).0 (k n p).0)
        λ _ _. Keeps-pure (f n).1 (k n p).1

  pub Keeps-serve {ℓ} :
      {A : Type ℓ} (a : Text) (f : Node → Node × A)
      → ((n : Node) → P n → P (f n).0)
      → Keeps P Any (serve a f)
  Keeps-serve a f k = Keeps-serve_value a f (λ n p. (k n p, tt))

  Keeps-send {ℓ κ} :
      {A : Type ℓ} {Q : A → Type κ} (a : Text) (handler : M A)
      → Keeps P Q handler
      → Keeps P (Reply Q) (send a handler)
  unfolding send
  Keeps-send {Q = Q} a handler k = record {
    at = λ w w' r all h. elim (Option-cases (lookup a w.nodes)) [
      | inl gone ↦
          let e : w ≡ w' = ground arith in
          let f : none ≡ r = ground arith in (subst (AllNodes P) e all, subst (Reply Q) f silent)
      | inr (n, found) ↦ elim (Option-cases (handler w)) [
        | inl fails ↦ absurd (ground arith)
        | inr ((x, v), ran) ↦
            let e : v ≡ w' = ground arith in
            let f : some x ≡ r = ground arith in
            let (all', q) = k.at w v x all ran in
            (subst (AllNodes P) e all', subst (Reply Q) f (replied q))
      ]
    ];
  }

  by_fate {ℓ κ} :
      {A : Type ℓ} {Q : A → Type κ} (env : Env) (a : Text) (handler : M A) (w w' : World)
      (r : Option A) (d : Delivery)
      → Keeps P Q handler
      → env.net w.calls ≡ d
      → AllNodes P w
      → rpc env a handler w ≡ some (r, w')
      → AllNodes P w' × Reply Q r
  unfolding rpc
  by_fate env a handler w w' r delivered k e all h =
      (Keeps-send a handler k).at (record w { calls = suc w.calls }) w' r all (rw (e, rpc) at h)
  by_fate {Q = Q} env a handler w w' r request_lost k e all h =
      let q : w.nodes ≡ w'.nodes = ground arith in
      let f : none ≡ r = ground arith in (AllNodes-same w w' (sym q) all, subst (Reply Q) f silent)
  by_fate {Q = Q} env a handler w w' r reply_lost k e all h =
      let (x, sent, f) =
        lost-world (send a handler (record w { calls = suc w.calls })) r w' (rw (e, rpc) at h) in
      (
        ((Keeps-send a handler k).at (record w { calls = suc w.calls }) w' x all sent).0,
        subst (Reply Q) f silent,
      )

  -- An RPC keeps what the handler keeps, and its value, if there is one, is one that the handler
  -- gives.
  pub Keeps-rpc-Reply {ℓ κ} :
      {A : Type ℓ} {Q : A → Type κ} (env : Env) (a : Text) (handler : M A)
      → Keeps P Q handler
      → Keeps P (Reply Q) (rpc env a handler)
  Keeps-rpc-Reply env a handler k = record {
    at = λ w w' r all h. by_fate env a handler w w' r (env.net w.calls) k refl all h;
  }

  pub Keeps-rpc {ℓ} :
      {A : Type ℓ} (env : Env) (a : Text) (handler : M A)
      → Keeps P Any handler
      → Keeps P Any (rpc env a handler)
  Keeps-rpc env a handler k =
      Keeps-weaken (rpc env a handler) (λ _ _. tt) (Keeps-rpc-Reply env a handler k)
