-- ===== src/Admin/Cli.antt =====
-- The administration's command line, src/admin_cli.cpp, and the start of every server,
-- src/performance/admin_auto_start.cpp.
use cs739_cloud_native.Common.{
  none, some, Bool, ◌||◌, List, [], ◌∷◌, if◌then◌else◌, Text, text, text_eq, Assoc,
}
use cs739_cloud_native.StateMachine.File.{Disk, lines, tokens}
use cs739_cloud_native.StateMachine.Config
use cs739_cloud_native.StateMachine.Config.{emplace_all}
use cs739_cloud_native.Admin
use cs739_cloud_native.Cluster.{Env, M, pure, ◌>>=◌}
use cs739_cloud_native.Admin.{Admin, send_cmd}
use cs739_cloud_native.Client.Cli.{read_word}

pub data Shown : Type 0 where
  successful failed : Text → Shown
  all_node_status : Assoc Bool → Shown

module _ (env : Env) where
  -- The loop of admin_cli, until `exit` or as far as the lines go; an unknown command shows nothing.
  unfoldable pub run : List Text → Admin → M (Admin × List Shown)
  unfolding read_word
  run [] a = pure (a, [])
  run (line ∷ lines) a =
      let (command, words) = read_word [] (tokens [] line) in
      let (addr, last) = read_word [] words in
      if text_eq command (text "Ping")
        || text_eq command (text "JoinNetwork")
        || text_eq command (text "LeaveNetwork")
      then (send_cmd env addr command a >>= λ one. run lines one.0 >>= λ rest.
          pure (rest.0, (if one.1 then successful command else failed command) ∷ rest.1))
      else if text_eq command (text "exit")
      then pure (a, [])
      else if text_eq command (text "print")
      then (run lines a >>= λ rest. pure (rest.0, all_node_status a.server_status ∷ rest.1))
      else run lines a

  -- The loop of admin_auto_start over the addresses, up to the first failure.
  unfoldable pub auto_start : List Text → Admin → M (Admin × List Shown)
  auto_start [] a = pure (a, [])
  auto_start (server_addr ∷ rest) a = send_cmd env server_addr (text "JoinNetwork") a >>= λ one.
      if one.1
      then (auto_start rest one.0 >>= λ more.
          pure (more.0, successful (text "JoinNetwork") ∷ more.1))
      else pure (one.0, failed (text "JoinNetwork") ∷ [])

-- get_nodes_config of admin_auto_start, a copy of that of the StateMachine.
unfoldable pub get_nodes_config : Disk → List Text
get_nodes_config nodes_config_ = elim nodes_config_.bytes [
  | none ↦ []
  | some bytes ↦ emplace_all [] (lines [] bytes)
]

-- `main` of admin_auto_start with its two arguments, for the file at config_path.
unfoldable pub main : Env → Disk → M (Admin × List Shown)
unfolding get_nodes_config auto_start
main env config_path =
    auto_start env (get_nodes_config config_path) (Admin.new (Config.get_nodes_config config_path))
