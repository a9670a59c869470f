-- ===== src/Tests/Lost.antt =====
-- A run of ClientPut and ClientGet (src/gossip_node.cpp) on three servers that loses a write: the
-- version of the read is concurrent with that of the write, and check_conflict_version says that
-- the write is earlier.
use cs739_cloud_native.Common.{◌≡◌, refl, [], ◌∷◌, some, Text, text}
use cs739_cloud_native.Versions.{VersionVector, earlier, check_conflict_version, update_version}
use cs739_cloud_native.StateMachine
use cs739_cloud_native.Node.{Node, Data}
use cs739_cloud_native.Cluster.{World}
use cs739_cloud_native.Coordinator.{PutReturn, Status, client_put, client_get}
use cs739_cloud_native.Tests.Joins.{ring_of_three}
use cs739_cloud_native.Tests.Processes.{calls, process, env, reached}

-- A server that knows the two others, and holds a value.
abbrev server : Text → Text → VersionVector → Node
server name value version = record (process name) {
  ring = ring_of_three;
  stubs = text "A" ∷ text "B" ∷ text "C" ∷ [];
  members_heartbeat_list = (text "A", 1) ∷ (text "B", 1) ∷ (text "C", 1) ∷ [];
  state_machine = StateMachine.put (process name).state_machine (text "k") value version;
}

abbrev three : World
three = record {
  nodes =
      (text "A", server (text "A") (text "new") ((text "A", 2) ∷ []))
      ∷ (text "B", server (text "B") (text "old") ((text "A", 1) ∷ []))
      ∷ (text "C", server (text "C") (text "old") ((text "A", 1) ∷ []))
      ∷ [];
  readings = 0;
  calls = 0;
}

abbrev mine : Data
mine = record { value = text "mine"; version_info = (text "A", 1) ∷ [] }

abbrev written : World
written = reached (client_put env (text "B") (text "k") mine three)

put_is_ok :
    client_put env (text "B") (text "k") mine three
    ≡ some (record { ret = PutReturn.ok; coordinator = text "A" }, written)
unfolding calls
put_is_ok = refl

abbrev asked : World
asked = reached (client_get env (text "C") (text "k") written)

the_write_is_lost :
    client_get env (text "C") (text "k") written
    ≡ some (
      record {
        get_res_data = (text "new", (text "A", 2) ∷ []) ∷ [];
        coordinator = text "A";
        status = Status.ok;
      },
      asked,
    )
unfolding calls
the_write_is_lost = refl

said_to_be_earlier :
    check_conflict_version (update_version mine.version_info (text "B")) ((text "A", 2) ∷ [])
    ≡ earlier
unfolding calls
said_to_be_earlier = refl
