-- ===== src/Client/Goes.antt =====
-- Steps of the client (src/client_grpc.cpp) that lead from a good session to a good one: the rules
-- for the constructs of Client.
use cs739_cloud_native.Common.{
  ◌≡◌, refl, subst, Bool, true, false, Option, none, some, arith, if◌then◌else◌, Text, text_eq,
  contains, IsDistinct, Bool-cases, Option-cases, inl, inr,
}
use cs739_cloud_native.Versions.{VersionVector}
use cs739_cloud_native.StateMachine
use cs739_cloud_native.StateMachine.{StateMachine}
use cs739_cloud_native.StateMachine.Store.{get_version-put}
use cs739_cloud_native.Cluster.{Env, M, rpc}
use cs739_cloud_native.Cluster.Keeps.{AllNodes, Keeps, Any, Reply, silent, replied, Keeps-rpc-Reply}
use cs739_cloud_native.Cluster.Sound.{IsSound}
use cs739_cloud_native.Coordinator.{
  PutReturn, failed, not_coordinator, no_version, Status, cancelled,
}
use cs739_cloud_native.Client.{
  Client, Session, Run, done, undefined, unfinished, C, pure, ◌>>=◌, me, change, remote, call,
  update_channel_to_coordinator, remember,
}

-- Every version vector that the client keeps names each server once.
pub record IsClean (c : Client) : Type 0 where
  pub clocks : (key : Text) → IsDistinct (StateMachine.get_version c.state_machine key)

pub record IsGood (s : Session) : Type 0 where
  pub servers : AllNodes IsSound s.world
  pub clean : IsClean s.client

-- From a good session the step leads to a good one, and its value satisfies `Q`.
pub record Goes {ℓ κ} {A : Type ℓ} (Q : A → Type κ) (m : C A) : Type (ℓ ⊔ κ) where
  pub at : (s s' : Session) (a : A) → IsGood s → m s ≡ done a s' → IsGood s' × Q a

Run-inv {ℓ κ} :
    {A : Type ℓ} {B : Type κ} (x : Run A) (f : A → C B) {b : B} {s'' : Session}
    → elim x [ done a s' ↦ f a s' | undefined ↦ undefined | unfinished ↦ unfinished ] ≡ done b s''
    → (a : A) × (s' : Session) × (x ≡ done a s') × (f a s' ≡ done b s'')
Run-inv (done a s') f e = (a, s', refl, e)
Run-inv undefined f e = cc
Run-inv unfinished f e = cc

-- A chain that is done has gone through its first step.
pub bind-done {ℓ κ} :
    {A : Type ℓ} {B : Type κ} (m : C A) (f : A → C B) (s : Session) {b : B} {s'' : Session}
    → (m >>= f) s ≡ done b s''
    → (a : A) × (s' : Session) × (m s ≡ done a s') × (f a s' ≡ done b s'')
bind-done m f s h = Run-inv (m s) f h

pub Goes-pure {ℓ κ} : {A : Type ℓ} {Q : A → Type κ} (a : A) → Q a → Goes Q (pure a)
Goes-pure {Q = Q} a q = record {
  at = λ s s' b g h.
      let e : s ≡ s' = ground arith in
      let f : a ≡ b = ground arith in (subst IsGood e g, subst Q f q);
}

pub Goes-bind {ℓ κ ℓ' κ'} :
    {A : Type ℓ} {B : Type ℓ'} {R : B → Type κ'} (Q : A → Type κ) (m : C A) (f : A → C B)
    → Goes Q m
    → ((a : A) → Q a → Goes R (f a))
    → Goes R (m >>= f)
Goes-bind Q m f k l = record {
  at = λ s s'' b g h.
      let (a, s', e, rest) = bind-done m f s h in
      let (g', q) = k.at s s' a g e in (l a q).at s' s'' b g' rest;
}

pub Goes-if {ℓ κ} :
    {A : Type ℓ} {Q : A → Type κ} (b : Bool) (m k : C A)
    → Goes Q m
    → Goes Q k
    → Goes Q (if b then m else k)
Goes-if true m k x y = x
Goes-if false m k x y = y

pub Goes-never {ℓ κ} : {A : Type ℓ} {Q : A → Type κ} → Goes {A = A} Q (λ s. unfinished)
Goes-never = record { at = λ s s' b g h. cc }

pub Goes-undefined {ℓ κ} : {A : Type ℓ} {Q : A → Type κ} → Goes {A = A} Q (λ s. undefined)
Goes-undefined = record { at = λ s s' b g h. cc }

pub Goes-me : Goes IsClean me
unfolding me
Goes-me = record {
  at = λ s s' c g h.
      let e : s ≡ s' = ground arith in
      let f : s.client ≡ c = ground arith in (subst IsGood e g, subst IsClean f g.clean);
}

pub Goes-change :
    (f : Client → Client) → ((c : Client) → IsClean c → IsClean (f c)) → Goes Any (change f)
unfolding change
Goes-change f k = record {
  at = λ s s' u g h.
      let e : record s { client = f s.client } ≡ s' = ground arith in
      (subst IsGood e (record { servers = g.servers; clean = k s.client g.clean }), tt);
}

pub Goes-remote {ℓ κ} :
    {A : Type ℓ} {Q : A → Type κ} (m : M A) → Keeps IsSound Q m → Goes Q (remote m)
unfolding remote
Goes-remote {Q = Q} m k = record {
  at = λ s s' a g h. elim (Option-cases (m s.world)) [
    | inl fails ↦ absurd (ground arith)
    | inr ((b, w), ran) ↦
        let e : record s { world = w } ≡ s' = ground arith in
        let f : b ≡ a = ground arith in
        let (all, q) = k.at s.world w b g.servers ran in
        (subst IsGood e (record { servers = all; clean = g.clean }), subst Q f q)
  ];
}

-- A call keeps what its handler keeps on every server.
pub Goes-call {ℓ κ} :
    {A : Type ℓ} {Q : A → Type κ} (env : Env) (handler : Text → M A)
    → ((addr : Text) → Keeps IsSound Q (handler addr))
    → Goes (Reply Q) (call env handler)
unfolding call
Goes-call env handler k =
    Goes-bind IsClean me
      (λ c.
        if contains c.stubs c.assigned_coordinator
        then remote (rpc env c.assigned_coordinator (handler c.assigned_coordinator))
        else (λ s. undefined))
      Goes-me
      λ c _.
        Goes-if (contains c.stubs c.assigned_coordinator) _ _
          (Goes-remote _ (Keeps-rpc-Reply env c.assigned_coordinator _ (k c.assigned_coordinator)))
          Goes-undefined

pub Goes-Reply {ℓ κ ℓ' κ'} :
    {A : Type ℓ} {X : Type ℓ'} {Q : A → Type κ} {R : X → Type κ'} {r : Option X} (m : C A)
    (f : X → C A)
    → Reply R r
    → Goes Q m
    → ((x : X) → R x → Goes Q (f x))
    → Goes Q (elim r [ none ↦ m | some x ↦ f x ])
Goes-Reply m f silent k l = k
Goes-Reply m f (replied {a} q) k l = l a q

pub remember-IsClean :
    (key value : Text) (v : VersionVector)
    → IsDistinct v
    → (c : Client) → IsClean c
    → IsClean (remember key value v c)
unfolding remember
remember-IsClean key value v d c k = record {
  clocks = λ t. elim (Bool-cases (text_eq key t)) [
    | inl hit ↦ rw (get_version-put, hit) d
    | inr miss ↦ rw (get_version-put, miss) (k.clocks t)
  ];
}

pub update_channel-IsClean :
    (a : Text) (c : Client) → IsClean c → IsClean (update_channel_to_coordinator a c)
unfolding update_channel_to_coordinator
update_channel-IsClean a c k = record { clocks = k.clocks }

pub Goes-ret {ℓ κ} :
    {A : Type ℓ} {Q : A → Type κ} (q : PutReturn) (a b c d : C A)
    → Goes Q a
    → Goes Q b
    → Goes Q c
    → Goes Q d
    → Goes Q (elim q [ PutReturn.ok ↦ a | failed ↦ b | not_coordinator ↦ c | no_version ↦ d ])
Goes-ret PutReturn.ok a b c d x y z t = x
Goes-ret failed a b c d x y z t = y
Goes-ret not_coordinator a b c d x y z t = z
Goes-ret no_version a b c d x y z t = t

pub Goes-status {ℓ κ} :
    {A : Type ℓ} {Q : A → Type κ} (q : Status) (a b : C A)
    → Goes Q a
    → Goes Q b
    → Goes Q (elim q [ cancelled ↦ a | Status.ok ↦ b ])
Goes-status cancelled a b x y = x
Goes-status Status.ok a b x y = y

pub Goes-option {ℓ κ ℓ'} :
    {A : Type ℓ} {X : Type ℓ'} {Q : A → Type κ} (r : Option X) (m : C A) (f : X → C A)
    → Goes Q m
    → ((x : X) → Goes Q (f x))
    → Goes Q (elim r [ none ↦ m | some x ↦ f x ])
Goes-option none m f k l = k
Goes-option (some x) m f k l = l x
