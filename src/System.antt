-- ===== src/System.antt =====
-- The whole system: clients and servers, and the steps that take it from one state to the next. A
-- step is an operation of one client or one server that runs to its end; the steps of all of them
-- come in any order.
pub mod Sound
use cs739_cloud_native.Common.{ℕ, ◌≡◌, Bool, Option, some, List, [], Text, Assoc, lookup, insert, ℤ}
use cs739_cloud_native.StateMachine.File.{Disk}
use cs739_cloud_native.Cluster.{Env, World}
use cs739_cloud_native.Membership.{admin_cmd}
use cs739_cloud_native.Server.{start, tick}
use cs739_cloud_native.Client
use cs739_cloud_native.Client.{Client, Session, done}

pub record System : Type 0 where
  pub clients : Assoc Client
  pub world : World

-- no client and no server yet
abbrev pub empty : System
empty = record { clients = []; world = record { nodes = []; readings = 0; calls = 0 } }

-- The session of a client, and the system after it.
abbrev pub session : System → Client → Session
session sys c = record { client = c; world = sys.world }

abbrev pub after : System → Text → Session → System
after sys who s = record { clients = insert who s.client sys.clients; world = s.world }

-- `input` and `pick` are the numbers that are read and drawn, for each client.
module _ (env : Env) (input : Text → ℕ → ℤ) (pick : Text → ℕ → ℕ) where
  pub data Step (sys sys' : System) : Type 0 where
    start_server :
        (node_id : Text) (num_virtual_nodes : ℕ) (server_address : Text) (disk : Disk)
        → sys'
          ≡ record sys { world = start node_id num_virtual_nodes server_address disk sys.world }
        → Step sys sys'
    start_client :
        (who : Text) (config : List Text) (assigned_port : Text) (disk : Disk)
        → sys'
          ≡ record sys { clients = insert who (Client.new config assigned_port disk) sys.clients }
        → Step sys sys'
    put :
        (who : Text) (c : Client) (fuel : ℕ) (key value : Text) (retry ok : Bool) (s : Session)
        → lookup who sys.clients ≡ some c
        → Client.put env (input who) (pick who) fuel key value retry (session sys c) ≡ done ok s
        → sys' ≡ after sys who s
        → Step sys sys'
    get :
        (who : Text) (c : Client) (fuel : ℕ) (key : Text) (result : Option Text) (s : Session)
        → lookup who sys.clients ≡ some c
        → Client.get env (input who) (pick who) fuel key (session sys c) ≡ done result s
        → sys' ≡ after sys who s
        → Step sys sys'
    command :
        (node_id cmd : Text) (alive_servers : List Text) (success : Bool) (w : World)
        → admin_cmd env node_id cmd alive_servers sys.world ≡ some (success, w)
        → sys' ≡ record sys { world = w }
        → Step sys sys'
    round :
        (node_id : Text) (w : World)
        → tick env node_id sys.world ≡ some (tt, w)
        → sys' ≡ record sys { world = w }
        → Step sys sys'

  -- the states that the system can come to
  pub data Reachable : System → Type 0 where
    begin : Reachable empty
    next : {sys sys' : System} → Reachable sys → Step sys sys' → Reachable sys'
