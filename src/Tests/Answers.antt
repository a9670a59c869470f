-- ===== src/Tests/Answers.antt =====
-- A run of ClientPut (src/gossip_node.cpp) that succeeds.
use cs739_cloud_native.Common.{
  contains, false, subst, ◌≡◌, refl, [], ◌∷◌, some, text, text_eq, lookup, get_or, true, arith,
  take,
}
use cs739_cloud_native.Versions.{update_version, latest}
use cs739_cloud_native.Node.{replica_n, is_recent}
use cs739_cloud_native.Cluster.PeerPut.{newer}
use cs739_cloud_native.Coordinator.{PutReturn, PutResponse, client_put}
use cs739_cloud_native.Coordinator.Succeeds.{client_put-ok}
use cs739_cloud_native.Cluster.{World}
use cs739_cloud_native.Cluster.Runs.{HasStubs}
use cs739_cloud_native.Tests.Rings.{with_both-IsRing}
use cs739_cloud_native.Tests.Processes.{calls, process, start, env, data_x}
use cs739_cloud_native.Tests.Systems.{here_it_is, known}

known_are : known ≡ text "A" ∷ text "B" ∷ []
unfolding calls
known_are = refl

a-HasStubs : HasStubs (text "A") known (process (text "A"))
unfolding contains
a-HasStubs t c other =
    let c' : contains (text "A" ∷ text "B" ∷ []) t ≡ true =
      subst (λ ts. contains ts t ≡ true) known_are c in
    ground (arith, c', other)

a_first : contains (take replica_n known) (text "A") ≡ true
unfolding calls
a_first = refl

b_second : contains (take replica_n known) (text "B") ≡ true
unfolding calls
b_second = refl

b_is_not_a : text_eq (text "B") (text "A") ≡ false
unfolding text_eq
b_is_not_a = refl

b_there : lookup (text "B") start.nodes ≡ some (process (text "B"))
unfolding lookup text_eq
b_there = refl

b_heard :
    is_recent 5 (get_or (lookup (text "B") (process (text "A")).members_heartbeat_list) 0) ≡ true
unfolding calls
b_heard = refl

b_takes_it :
    newer
      (process (text "B"))
      (text "k")
      (record { value = text "x"; version_info = update_version data_x.version_info (text "A") })
    ≡ latest
unfolding calls
b_takes_it = refl

client_put-ok_example :
    (resp : PutResponse) × (w' : World) × (client_put env (text "A") (text "k") data_x start
      ≡ some (resp, w'))
    × (resp.ret ≡ PutReturn.ok)
client_put-ok_example =
    client_put-ok env (text "A") (text "B") (text "k") data_x start (process (text "A"))
      (process (text "B")) (λ i. refl) here_it_is with_both-IsRing a-HasStubs a_first b_second
      b_is_not_a (λ i. b_heard) b_there b_takes_it
