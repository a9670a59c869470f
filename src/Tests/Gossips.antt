-- ===== src/Tests/Gossips.antt =====
-- A run of gossip (src/gossip_node.cpp): a server tells another one of its heartbeat.
use cs739_cloud_native.Common.{
  ℕ, ◌≡◌, refl, true, false, [], ◌∷◌, some, text, text_eq, lookup, contains, get_or,
}
use cs739_cloud_native.Versions.Order.{Le}
use cs739_cloud_native.Node.{Node, is_recent}
use cs739_cloud_native.Cluster.{World}
use cs739_cloud_native.Membership.{set_heartbeat, send_gossip, gossip}
use cs739_cloud_native.Membership.Spread.{gossip-Le}
use cs739_cloud_native.Tests.Processes.{calls, process, env, reached}

-- B has a stub for A alone, and A does not know of its heartbeat yet.
abbrev teller : Node
teller = record (process (text "B")) { stubs = text "A" ∷ [] }

abbrev listener : Node
listener = record (process (text "A")) { members_heartbeat_list = (text "A", 1) ∷ [] }

abbrev before : World
before = record { nodes = (text "A", listener) ∷ (text "B", teller) ∷ []; readings = 0; calls = 0 }

tells : Unit {0}
unfolding calls set_heartbeat send_gossip gossip
tells = tt

abbrev afterwards : World
afterwards = reached (gossip env (text "B") before)

-- A has B's new heartbeat.
a_knows :
    (get_or (lookup (text "A") afterwards.nodes) listener).members_heartbeat_list
    ≡ (text "A", 1) ∷ (text "B", 5) ∷ []
unfolding tells
a_knows = refl

teller_there : lookup (text "B") before.nodes ≡ some teller
unfolding tells
teller_there = refl

listener_there : lookup (text "A") before.nodes ≡ some listener
unfolding tells
listener_there = refl

no_own_stub : contains teller.stubs (text "B") ≡ false
unfolding tells
no_own_stub = refl

a_is_not_b : text_eq (text "A") (text "B") ≡ false
unfolding tells
a_is_not_b = refl

gossip-Le_example :
    (u : World) × (gossip env (text "B") before ≡ some (tt, u))
    × (m' : Node) × (lookup (text "A") u.nodes ≡ some m')
    × Le listener.members_heartbeat_list m'.members_heartbeat_list
    × (contains teller.stubs (text "A") ≡ true
        → ((i : ℕ)
            → is_recent (env.clock i) (get_or (lookup (text "A") teller.members_heartbeat_list) 0)
              ≡ true)
        → Le
            (set_heartbeat (text "B") (env.clock before.readings) teller).members_heartbeat_list
            m'.members_heartbeat_list)
gossip-Le_example =
    gossip-Le env (text "B") (text "A") before teller listener (λ i. refl) teller_there no_own_stub
      a_is_not_b listener_there
