-- ===== src/Cluster/Frame.antt =====
-- What the steps between processes change: whose storage, and how.
use cs739_cloud_native.Common.{
  ◌≡◌, ◌≢◌, refl, sym, ap, ◌∙◌, Bool, Option, none, some, List, [], ◌∷◌, arith, if◌then◌else◌, Text,
  text_eq, text_eq_iff, lookup, insert, touch, lookup-insert, Bool-cases, Option-cases, inl, inr,
}
use cs739_cloud_native.StateMachine.{StateMachine}
use cs739_cloud_native.Node.{Node}
use cs739_cloud_native.Cluster.{
  Env, World, M, ◌>>=◌, self, store, now, is_alive, assigned_coordinator,
}

abbrev storage : Option Node → Option StateMachine
storage none = none
storage (some n) = some n.state_machine

-- the storage of the process at an address
unfoldable pub store_of : World → Text → Option StateMachine
store_of w a = storage (lookup a w.nodes)

bind-inv {ℓ κ} :
    {A : Type ℓ} {B : Type κ} (o : Option (A × World)) (f : A → M B) {b : B} {w'' : World}
    → elim o [ none ↦ none | some (a, w') ↦ f a w' ] ≡ some (b, w'')
    → (a : A) × (w' : World) × (o ≡ some (a, w')) × (f a w' ≡ some (b, w''))
bind-inv none f h = cc
bind-inv (some (a, w')) f h = (a, w', refl, h)

-- A chain that ends has gone through its first step.
pub bind-some {ℓ κ} :
    {A : Type ℓ} {B : Type κ} (m : M A) (f : A → M B) (w : World) {b : B} {w'' : World}
    → (m >>= f) w ≡ some (b, w'')
    → (a : A) × (w' : World) × (m w ≡ some (a, w')) × (f a w' ≡ some (b, w''))
bind-some m f w h = bind-inv (m w) f h

-- a step that leaves every storage as it was
abbrev pub SameStores : World → World → Type 0
SameStores w w' = (b : Text) → store_of w' b ≡ store_of w b

-- a step that leaves every storage but one as it was
abbrev pub OtherStores : Text → World → World → Type 0
OtherStores a w w' = (b : Text) → a ≢ b → store_of w' b ≡ store_of w b

-- The storage after a process has been replaced.
pub store_of-insert :
    (a b : Text) (n : Node) (w : World)
    → store_of (record w { nodes = insert a n w.nodes }) b
      ≡ (if text_eq a b then some n.state_machine else store_of w b)
unfolding store_of
store_of-insert a b n w = ground (arith, lookup-insert a b n w.nodes)

-- The process that a handler reads is the one at its address.
pub self-some :
    (this : Text) (w w' : World) (n : Node)
    → self this w ≡ some (n, w')
    → (lookup this w.nodes ≡ some n) × (w ≡ w')
unfolding self
self-some this w w' n h = ground arith

pub store_of_self :
    (this : Text) (w : World) (n : Node)
    → lookup this w.nodes ≡ some n
    → store_of w this ≡ some n.state_machine
unfolding store_of
store_of_self this w n h = rw h

-- A process that is replaced by one with the same storage.
pub same_storage :
    (a : Text) (n m : Node) (w : World)
    → lookup a w.nodes ≡ some n
    → m.state_machine ≡ n.state_machine
    → SameStores w (record w { nodes = insert a m w.nodes })
same_storage a n m w h e b = elim (Bool-cases (text_eq a b)) [
  | inl hit ↦
      let ab : a ≡ b = (text_eq_iff a b).0 hit in
      store_of-insert a b m w ∙ rw (hit, e) (sym (store_of_self a w n h) ∙ ap (store_of w) ab)
  | inr miss ↦ store_of-insert a b m w ∙ rw miss
]

-- Only the processes count for what is stored.
pub same_nodes : (w v : World) → v.nodes ≡ w.nodes → SameStores w v
unfolding store_of
same_nodes w v e b = ap (λ ns. storage (lookup b ns)) e

-- Asking whether a peer is alive changes no storage.
pub is_alive-SameStores :
    (env : Env) (this peer : Text) (w w' : World) (a : Bool)
    → is_alive env this peer w ≡ some (a, w')
    → SameStores w w'
unfolding is_alive now self store
is_alive-SameStores env this peer w w' a h b = elim (Option-cases (lookup this w.nodes)) [
  | inl e ↦ absurd (ground arith)
  | inr (n, e) ↦
      let m : Node = record n { members_heartbeat_list = touch peer 0 n.members_heartbeat_list } in
      let q : w'.nodes ≡ insert this m w.nodes = ground arith in
      same_nodes (record w { nodes = insert this m w.nodes }) w' q b
      ∙ same_storage this n m w e refl b
]

-- A coordinator is found without a change of any storage.
pub assigned_coordinator-SameStores :
    (env : Env) (this : Text) (cs : List Text) (w w' : World) (c : Text)
    → assigned_coordinator env this cs w ≡ some (c, w')
    → SameStores w w'
unfolding assigned_coordinator
assigned_coordinator-SameStores env this [] w w' c h b =
    let e : w ≡ w' = ground arith in ap (λ v. store_of v b) (sym e)
assigned_coordinator-SameStores env this (x ∷ cs) w w' c h b =
    let (a, v, step, rest) = bind-some (is_alive env this x) _ w h in
    let first = is_alive-SameStores env this x w v a step b in
    elim (Bool-cases a) [
      | inl yes_alive ↦ let e : v ≡ w' = ground arith in ap (λ u. store_of u b) (sym e) ∙ first
      | inr not_alive ↦
          assigned_coordinator-SameStores env this cs v w' c (rw not_alive at rest) b ∙ first
    ]

-- A write at a process: its storage is replaced, and no other.
pub store-store_of :
    (this : Text) (n : Node) (w : World) (b : Text) {w' : World}
    → store this n w ≡ some (tt, w')
    → store_of w' b ≡ (if text_eq this b then some n.state_machine else store_of w b)
unfolding store
store-store_of this n w b {w'} h =
    let q : w'.nodes ≡ insert this n w.nodes = ground arith in
    same_nodes (record w { nodes = insert this n w.nodes }) w' q b ∙ store_of-insert this b n w
