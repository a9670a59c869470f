-- ===== src/Client.antt =====
-- The class KeyValueStoreClient of src/client_grpc.h and src/client_grpc.cpp, against the servers
-- of Cluster.
pub mod Goes
pub mod Sound
pub mod Replies
pub mod Kept
pub mod Durable
pub mod Cli
pub mod Throughput
use cs739_cloud_native.Common.{
  ℕ, zero, suc, ◌≡◌, Bool, true, false, Option, none, some, get_or, List, [], ◌∷◌, if◌then◌else◌,
  length, get_elem?, Text, contains, Assoc, ℤ, pos, negsuc,
}
use cs739_cloud_native.Versions.{VersionVector, Versioned, update_version, reconcile_version}
use cs739_cloud_native.StateMachine
use cs739_cloud_native.StateMachine.{StateMachine}
use cs739_cloud_native.StateMachine.File.{Disk}
use cs739_cloud_native.Node.{Data, add_stub}
use cs739_cloud_native.Cluster.{Env, World, M, rpc}
use cs739_cloud_native.Coordinator.{
  PutReturn, failed, not_coordinator, no_version, PutResponse, Status, cancelled, GetResponse,
  client_put, client_get,
}

-- A stub is known by its address. `server_config` has the addresses by name; the code never fills
-- it. `inputs` and `picks` count the numbers read from the terminal and the random ones.
pub record Client : Type 0 where
  pub stubs : List Text
  pub assigned_coordinator : Text
  pub server_config : Assoc Text
  pub state_machine : StateMachine
  pub inputs : ℕ
  pub picks : ℕ

-- The constructor, for the addresses that the nodes configuration lists.
abbrev pub new : List Text → Text → Disk → Client
new config assigned_port disk = record {
  stubs = config;
  assigned_coordinator = assigned_port;
  server_config = [];
  state_machine = StateMachine.new disk;
  inputs = 0;
  picks = 0;
}

pub record Session : Type 0 where
  pub client : Client
  pub world : World

-- `undefined` is undefined behaviour, and `unfinished` a loop that wants more fuel.
pub data Run {ℓ} (A : Type ℓ) : Type ℓ where
  done : A → Session → Run A
  undefined unfinished : Run A

abbrev pub C {ℓ} : Type ℓ → Type ℓ
C A = Session → Run A

abbrev pub pure {ℓ} : {A : Type ℓ} → A → C A
pure a s = done a s

infixl 5 ◌>>=◌ ◌>>◌
abbrev pub ◌>>=◌ {ℓ κ} : {A : Type ℓ} {B : Type κ} → C A → (A → C B) → C B
◌>>=◌ m f s = elim (m s) [ done a s' ↦ f a s' | undefined ↦ undefined | unfinished ↦ unfinished ]

abbrev pub ◌>>◌ {ℓ κ} : {A : Type ℓ} {B : Type κ} → C A → C B → C B
m >> k = m >>= λ _. k

unfoldable pub me : C Client
me s = done s.client s

unfoldable pub change : (Client → Client) → C (Unit {0})
change f s = done tt (record s { client = f s.client })

-- what the servers do
unfoldable pub remote {ℓ} : {A : Type ℓ} → M A → C A
remote m s = elim (m s.world) [ none ↦ undefined | some (a, w) ↦ done a (record s { world = w }) ]

-- A call through the stub of the assigned coordinator, which must be there.
unfoldable pub call {ℓ} : {A : Type ℓ} → Env → (Text → M A) → C (Option A)
unfolding remote me
call env handler = do
  c ← me
  if contains c.stubs c.assigned_coordinator
      then remote (rpc env c.assigned_coordinator (handler c.assigned_coordinator))
      else λ s. undefined

unfoldable pub update_channel_to_coordinator : Text → Client → Client
update_channel_to_coordinator coordinator c = record c {
  stubs = add_stub c.stubs coordinator;
  assigned_coordinator = coordinator;
}

unfoldable pub remember : Text → Text → VersionVector → Client → Client
remember key value version c = record c {
  state_machine = StateMachine.put c.state_machine key value version;
}

-- `input i` is the i-th number read, and `pick i` the i-th random one, within the size it is drawn
-- for.
module _ (env : Env) (input : ℕ → ℤ) (pick : ℕ → ℕ) where
  -- An empty map has no element to pick.
  unfoldable pub random_pick_server : C Text
  random_pick_server s = elim (get_elem? s.client.server_config (pick s.client.picks)) [
    | none ↦ undefined
    | some e ↦ done e.1 (record s { client = record s.client { picks = suc s.client.picks } })
  ]

  -- Put with `retry` true: it follows NOT_COORDINATOR from server to server, on fuel.
  unfoldable pub put_again : ℕ → Text → Text → C Bool
  put_again zero key value = λ s. unfinished
  put_again (suc fuel) key value = me >>= λ c.
      call env (λ addr.
        client_put env addr key
          (record { value = value; version_info = StateMachine.get_version c.state_machine key }))
      >>= λ r. elim r [
        | none ↦ pure false
        | some resp ↦ elim resp.ret [
          | PutReturn.ok ↦ do
            now ← me
            change (
                remember key value (
                  update_version (StateMachine.get_version now.state_machine key) resp.coordinator))
            pure true
          | failed ↦ pure false
          | not_coordinator ↦ do
            change (update_channel_to_coordinator resp.coordinator)
            put_again fuel key value
          | no_version ↦ pure true
        ]
      ]

  -- selected >= 0 && selected < size, and the value there
  unfoldable pub selection : List Versioned → ℤ → Option Versioned
  selection versions (pos n) = get_elem? versions n
  selection versions (negsuc n) = none

  -- The loop of `reconcile` until a number is in range, on fuel.
  unfoldable pub select : ℕ → ℕ → List Versioned → Text → C Text
  select fuel zero versions key = λ s. unfinished
  select fuel (suc left) versions key = do
    c ← me
    change (λ c. record c { inputs = suc c.inputs })
    elim (selection versions (input c.inputs)) [
      | none ↦ select fuel left versions key
      | some (value, old) ↦ do
        change (remember key value (reconcile_version versions))
        put_again fuel key value
        pure value
    ]

  unfoldable pub reconcile : ℕ → List Versioned → Text → C Text
  reconcile fuel [] key = pure []
  reconcile fuel ((value, version) ∷ []) key = do change (remember key value version); pure value
  reconcile fuel (x ∷ y ∷ rest) key = select fuel fuel (x ∷ y ∷ rest) key

  -- Get: the result, if it returns true.
  unfoldable pub get : ℕ → Text → C (Option Text)
  get fuel key = do
    r ← call env (λ addr. client_get env addr key)
    elim r [
      | none ↦ pure none
      | some resp ↦ elim resp.status [
        | cancelled ↦ pure none
        | Status.ok ↦ do
          change (update_channel_to_coordinator resp.coordinator)
          result ← reconcile fuel resp.get_res_data key
          pure (some result)
      ]
    ]

  -- The do-while loop of Put: Get until it succeeds, on fuel.
  unfoldable pub get_until : ℕ → ℕ → Text → C (Unit {0})
  get_until fuel zero key = λ s. unfinished
  get_until fuel (suc left) key = do
    r ← get fuel key
    elim r [
      | some result ↦ pure tt
      | none ↦ do
        server ← random_pick_server
        change (λ c. record c { assigned_coordinator = server })
        get_until fuel left key
    ]

  unfoldable pub put : ℕ → Text → Text → Bool → C Bool
  put fuel key value true = put_again fuel key value
  put fuel key value false = do get_until fuel fuel key; put_again fuel key value
