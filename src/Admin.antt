-- ===== src/Admin.antt =====
-- The class Admin of src/admin_grpc.h and src/admin_grpc.cpp, against the servers of Cluster.
pub mod Cli
use cs739_cloud_native.Common.{
  Bool, true, false, not, ◌||◌, none, some, List, [], ◌∷◌, ◌++◌, if◌then◌else◌, Text, text, text_eq,
  contains, Assoc, insert, keys,
}
use cs739_cloud_native.Cluster.{Env, M, pure, fault, ◌>>=◌, rpc}
use cs739_cloud_native.Membership.{admin_cmd}

-- Stubs are known by their addresses; `server_status` says which servers are on the network.
pub record Admin : Type 0 where
  pub stubs : List Text
  pub server_status : Assoc Bool

-- read_server_config, for the addresses that the nodes configuration lists
unfoldable pub read_server_config : List Text → Admin → Admin
read_server_config [] a = a
read_server_config (addr ∷ rest) a = read_server_config rest (record {
  stubs = if contains a.stubs addr then a.stubs else a.stubs ++ addr ∷ [];
  server_status = insert addr false a.server_status;
})

-- The constructor.
unfoldable pub new : List Text → Admin
unfolding read_server_config
new config = read_server_config config (record { stubs = []; server_status = [] })

abbrev pub enum_cmd : List Text
enum_cmd = text "Ping" ∷ text "JoinNetwork" ∷ text "LeaveNetwork" ∷ []

-- The servers whose status is true, in the order of iteration.
unfoldable pub servers_up : Assoc Bool → List Text
servers_up [] = []
servers_up ((addr, up) ∷ rest) =
    let others = servers_up rest in if up then addr ∷ others else others

unfoldable pub set_status : Text → Bool → Admin → Admin
set_status addr up a = record a { server_status = insert addr up a.server_status }

-- What a reply makes of the status of the server; the command is one of the three.
unfoldable pub status_after : Text → Bool → Bool
status_after cmd success = if text_eq cmd (text "LeaveNetwork") then not success else success

-- Cmd: the new state, and the result.
unfoldable pub send_cmd : Env → Text → Text → Admin → M (Admin × Bool)
unfolding set_status
send_cmd env addr cmd a =
    if not (contains (keys a.server_status) addr) || not (contains enum_cmd cmd)
    then pure (a, false)
    else if not (contains a.stubs addr)
    then fault
    else (do
      r ← rpc env addr (
          admin_cmd env addr cmd
            (if text_eq cmd (text "JoinNetwork") then servers_up a.server_status else []))
      elim r [
        | none ↦ pure (set_status addr false a, false)
        | some success ↦ pure (set_status addr (status_after cmd success) a, true)
      ])
