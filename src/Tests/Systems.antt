-- ===== src/Tests/Systems.antt =====
-- Runs of the whole system: a client and two servers, and a read after a write.
use cs739_cloud_native.Cluster.Frame.{SameStores}
use cs739_cloud_native.Client.{Session, get_until, done, put}
use cs739_cloud_native.Common.{
  ◌⊎◌, contains, keys, not, false, ◌&&◌, subst, sym, Bool-cases, inl, inr, ℕ, ◌≤◌, ◌≡◌, refl, List,
  [], ◌∷◌, some, Text, text, text_eq, lookup, insert, In, IsDistinct, get_or, true, none, ◌*◌,
  arith, length, ℤ, pos,
}
use cs739_cloud_native.Versions.{VersionVector, Versioned, update_version}
use cs739_cloud_native.Versions.Latest.Overtaken.{Overtakes}
use cs739_cloud_native.StateMachine
use cs739_cloud_native.Node.{Node, w_count, replica_n}
use cs739_cloud_native.Ring.{get_replicas_nodes}
use cs739_cloud_native.Cluster.Keeps.{AllNodes, AllNodes-insert}
use cs739_cloud_native.Cluster.Sound.{IsSound}
use cs739_cloud_native.Coordinator.Acked.{Written}
use cs739_cloud_native.Coordinator.Reading.{Answered, client_get-Answered}
use cs739_cloud_native.Coordinator.Consistency.{client_get-client_put}
use cs739_cloud_native.Ring.Replicas.{IsRing}
use cs739_cloud_native.Server
use cs739_cloud_native.Server.Fixed.{new_fixed, new_fixed-flush_to_disk}
use cs739_cloud_native.StateMachine.{get_all_keys, flush_to_disk, get_value, get_version}
use cs739_cloud_native.StateMachine.File.{Disk}
use cs739_cloud_native.StateMachine.Config.{get_nodes_config}
use cs739_cloud_native.StateMachine.Store.{get_version-put}
use cs739_cloud_native.Tests.Stores.{sm, one, after_put, after_put-AreKept, can_write}
use cs739_cloud_native.Client
use cs739_cloud_native.Client.Goes.{IsGood}
use cs739_cloud_native.Client.Durable.{Acknowledged, put-Acknowledged, put_line-Written}
use cs739_cloud_native.Client.Cli
use cs739_cloud_native.Client.Cli.{read_word}
use cs739_cloud_native.System.{System, empty, Reachable, begin, next, start_server, start_client}
use cs739_cloud_native.System.Sound.{IsSafe, Reachable-IsSafe}
use cs739_cloud_native.Tests.Rings.{spread, spread-lt, with_both, with_both-IsRing}
use cs739_cloud_native.Tests.Processes.{
  calls, process, start, env, data_x, answer, finish, client_put_runs, read_back, after_get,
  client_get_runs,
}
use cs739_cloud_native.Tests.Clients.{
  sessions, put_closed, opened, put_words, after_line, typed, put_line_runs, input, pick,
}

process-IsSound : (node_id : Text) → IsSound (process node_id)
unfolding StateMachine.get_version
process-IsSound node_id = record { ring = with_both-IsRing; clocks = λ key. unfold lookup in tt }

start-IsSound : AllNodes IsSound start
unfolding calls
start-IsSound =
    AllNodes-insert
      (record { nodes = (text "A", process (text "A")) ∷ []; readings = 0; calls = 0 }) (text "B")
      (process (text "B"))
      (AllNodes-insert (record { nodes = []; readings = 0; calls = 0 }) (text "A")
        (process (text "A")) (λ a n e. absurd (unfold lookup in cc)) (process-IsSound (text "A")))
      (process-IsSound (text "B"))

opened-IsGood : IsGood opened
unfolding StateMachine.get_version
opened-IsGood = record {
  servers = start-IsSound;
  clean = record { clocks = λ key. unfold lookup in tt };
}

-- The client's Put with a Get before it.
put_runs : put env input pick 2 (text "k") (text "x") false opened ≡ done true put_closed
unfolding sessions
put_runs = refl

put-Acknowledged_example :
    (sent : Session) × (false ≡ true → sent ≡ opened)
    × (false ≡ false → get_until env input pick 2 2 (text "k") opened ≡ done tt sent)
    × Acknowledged env (text "k") (text "x") sent put_closed
put-Acknowledged_example =
    put-Acknowledged env input pick 2 (text "k") (text "x") false opened put_closed opened-IsGood
      put_runs

pub here_it_is : lookup (text "A") start.nodes ≡ some (process (text "A"))
unfolding lookup text_eq
here_it_is = refl

abbrev pub known : List Text
known = get_replicas_nodes spread with_both (text "k") (2 * replica_n)

-- B after the write
abbrev reader : Node
reader = get_or (lookup (text "B") finish.nodes) (process (text "B"))

there_it_is : lookup (text "B") finish.nodes ≡ some reader
unfolding calls
there_it_is = refl

same_replicas : get_replicas_nodes spread reader.ring (text "k") (2 * replica_n) ≡ known
unfolding calls
same_replicas = refl

few : length known ≤ replica_n
unfolding calls
few = omega arith

x-IsDistinct : IsDistinct data_x.version_info
unfolding calls
x-IsDistinct = (refl, tt)

client_get-client_put_example :
    (x : Versioned) × In x read_back.get_res_data
    × ((x ≡ (text "x", update_version data_x.version_info (text "A")))
        ⊎ Overtakes (update_version data_x.version_info (text "A")) x.1)
client_get-client_put_example =
    client_get-client_put env (text "A") (text "B") (text "k") data_x start finish after_get
      (process (text "A")) reader answer read_back start-IsSound x-IsDistinct here_it_is there_it_is
      same_replicas few client_put_runs refl client_get_runs refl

reader-IsRing : IsRing reader.ring
unfolding calls
reader-IsRing = with_both-IsRing

client_get-Answered_example :
    SameStores finish after_get
    × Answered
        (text "k")
        (get_replicas_nodes spread reader.ring (text "k") (2 * replica_n))
        finish
        read_back
client_get-Answered_example =
    client_get-Answered env (text "B") (text "k") finish after_get reader read_back there_it_is
      reader-IsRing client_get_runs

-- A system of one server, and a client of it.
abbrev one_server : System
one_server = record empty {
  world =
      Server.start (text "A") 1 (text "A") (record { writable = true; bytes = none }) empty.world;
}

abbrev one_client : System
one_client = record one_server {
  clients =
      insert (text "c")
        (Client.new (text "A" ∷ []) (text "A") (record { writable = true; bytes = none }))
        one_server.clients;
}

abbrev inputs : Text → ℕ → ℤ
inputs who i = pos 0

abbrev picks : Text → ℕ → ℕ
picks who i = 0

one_client-Reachable : Reachable env inputs picks one_client
one_client-Reachable =
    next
      (next begin
        (start_server (text "A") 1 (text "A") (record { writable = true; bytes = none }) refl))
      (start_client (text "c") (text "A" ∷ []) (text "A") (record { writable = true; bytes = none })
        refl)

Reachable-IsSafe_example : IsSafe one_client
Reachable-IsSafe_example = Reachable-IsSafe env inputs picks spread-lt one_client-Reachable

after_put-IsDistinct : (key : Text) → IsDistinct (get_version after_put key)
unfolding get_version
after_put-IsDistinct key =
    subst IsDistinct (sym (get_version-put sm (text "k") (text "v") one key))
      (elim (Bool-cases (text_eq (text "k") key)) [
        | inl hit ↦ rw hit (unfold contains keys in (refl, tt))
        | inr miss ↦ rw miss (unfold lookup in tt)
      ])

abbrev nodes_config : Disk
nodes_config = record { writable = false; bytes = some (text "A\nB\n") }

new_fixed-flush_to_disk_example :
    (n : Node) × (new_fixed env (text "A") 1 (text "A") nodes_config (flush_to_disk after_put).disk
      ≡ some n)
    × IsSound n
    × (n.alive ≡ true)
    × ((key : Text) → get_value n.state_machine key ≡ get_value after_put key)
    × ((key : Text)
        → get_version n.state_machine key ≡ elim (lookup key after_put.value_store) [
          | some v ↦ get_version after_put key
          | none ↦ []
        ])
    × ((t : Text)
        → contains n.stubs t
          ≡ contains (get_nodes_config nodes_config) t && not (text_eq t (text "A")))
new_fixed-flush_to_disk_example =
    new_fixed-flush_to_disk env (text "A") 1 (text "A") nodes_config after_put spread-lt can_write
      after_put-AreKept after_put-IsDistinct

put_line-Written_example :
    (version : VersionVector) × (replicas : List Text) × (k : ℕ) × (w_count ≤ k)
    × Written
        (read_word [] put_words).0
        (read_word [] (read_word [] put_words).1).0
        version
        replicas
        after_line.world
        k
put_line-Written_example =
    put_line-Written env input pick 2 put_words Cli.new typed opened after_line opened-IsGood
      put_line_runs
