-- ===== src/Cluster.antt =====
-- The processes of the system and what passes between them: an RPC runs the peer's handler on the
-- peer's own state before its caller goes on, or is lost. Clock and network are parameters.
pub mod Frame
pub mod Calls
pub mod PeerPut
pub mod PeerGet
pub mod Keeps
pub mod Runs
pub mod Sound
use mathlib.Core.Option
use cs739_cloud_native.Common.{
  ℕ, zero, suc, Bool, true, false, Option, none, some, get_or, List, [], ◌∷◌, if◌then◌else◌, Text,
  contains, Assoc, lookup, insert, touch,
}
use cs739_cloud_native.Node
use cs739_cloud_native.Node.{Node, Data}

-- What becomes of an RPC: both messages arrive, or the request is lost, or the reply is. A call
-- that never returns is left out, though peerPut and peerGet set no deadline.
pub data Delivery : Type 0 where
  delivered request_lost reply_lost : Delivery

-- `clock i` is what the i-th reading of any clock gives, and `net i` the fate of the i-th RPC.
pub record Env : Type 0 where
  pub hash : Text → ℕ
  pub clock : ℕ → ℕ
  pub net : ℕ → Delivery

-- The processes by their addresses, which are their node ids, and how often the clock was read and
-- an RPC was sent.
pub record World : Type 0 where
  pub nodes : Assoc Node
  pub readings : ℕ
  pub calls : ℕ

-- `none` is a call through a null stub, which is undefined behaviour.
abbrev pub M {ℓ} : Type ℓ → Type ℓ
M A = World → Option (A × World)

abbrev pub pure {ℓ} : {A : Type ℓ} → A → M A
pure a w = some (a, w)

abbrev pub fault {ℓ} : {A : Type ℓ} → M A
fault w = none

infixl 5 ◌>>=◌ ◌>>◌
abbrev pub ◌>>=◌ {ℓ κ} : {A : Type ℓ} {B : Type κ} → M A → (A → M B) → M B
◌>>=◌ m f w = elim (m w) [ none ↦ none | some (a, w') ↦ f a w' ]

abbrev pub ◌>>◌ {ℓ κ} : {A : Type ℓ} {B : Type κ} → M A → M B → M B
m >> k = m >>= λ _. k

-- The state of a process.
unfoldable pub self : Text → M Node
self this w = elim (lookup this w.nodes) [ none ↦ none | some n ↦ some (n, w) ]

unfoldable pub store : Text → Node → M (Unit {0})
store this n w = some (tt, record w { nodes = insert this n w.nodes })

-- A handler that calls no other node, run by its process.
unfoldable pub serve {ℓ} : {A : Type ℓ} → Text → (Node → Node × A) → M A
unfolding self store
serve this f = do n ← self this; store this (f n).0; pure (f n).1

-- A request on its way to a process, where one runs; no reply is a status that is not ok.
unfoldable pub send {ℓ} : {A : Type ℓ} → Text → M A → M (Option A)
send addr handler w = elim (lookup addr w.nodes) [
  | none ↦ some (none, w)
  | some _ ↦ elim (handler w) [ none ↦ none | some (a, w') ↦ some (some a, w') ]
]

unfoldable pub drop_reply {ℓ} : {A : Type ℓ} → Option (Option A × World) → Option (Option A × World)
drop_reply none = none
drop_reply (some (r, w)) = some (none, w)

-- `stub` is there if the caller has one for the address.
unfoldable pub need_stub : Text → Text → M (Unit {0})
unfolding self
need_stub this addr = do n ← self this; if contains n.stubs addr then pure tt else fault

module _ (env : Env) where
  -- high_resolution_clock::now()
  unfoldable pub now : M ℕ
  now w = some (env.clock w.readings, record w { readings = suc w.readings })

  unfoldable pub rpc {ℓ} : {A : Type ℓ} → Text → M A → M (Option A)
  rpc addr handler w =
      let w' = record w { calls = suc w.calls } in
      elim (env.net w.calls) [
        | delivered ↦ send addr handler w'
        | request_lost ↦ some (none, w')
        | reply_lost ↦ drop_reply (send addr handler w')
      ]

  -- now() - members_heartbeat_list_[peer] < CHECK_ALIVE_INTERVAL, where a missing peer is inserted
  -- at the epoch
  unfoldable pub is_alive : Text → Text → M Bool
  is_alive this peer = do
    cur_time ← now
    n ← self this
    store this (record n { members_heartbeat_list = touch peer 0 n.members_heartbeat_list })
    pure (Node.is_recent cur_time (get_or (lookup peer n.members_heartbeat_list) 0))

  -- The handlers PeerPut and PeerGet behind a stub: 0 if the peer has applied the data, and 1
  -- otherwise; `none` if the get got no reply.
  unfoldable pub peer_put : Text → Text → Text → Data → M ℕ
  peer_put this peer_server key d = do
    need_stub this peer_server
    r ← rpc peer_server (serve peer_server (λ n. Node.peer_put n key d))
    pure (elim r [ none ↦ 1 | some success ↦ if success then 1 else 0 ])

  unfoldable pub peer_get : Text → Text → Text → M (Option Data)
  peer_get this peer_server key = do
    need_stub this peer_server
    rpc peer_server (serve peer_server (λ n. (n, Node.peer_get n key)))

  -- The first server that is alive, or the empty text.
  unfoldable pub assigned_coordinator : Text → List Text → M Text
  assigned_coordinator this [] = pure []
  assigned_coordinator this (c ∷ cs) = do
    a ← is_alive this c
    if a then pure c else assigned_coordinator this cs
