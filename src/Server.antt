-- ===== src/Server.antt =====
-- The program of a server, src/gossip_node_test.cpp: the start of a process, and the rounds of its
-- loop.
pub mod Fixed
use cs739_cloud_native.Common.{
  ℕ, ◌-◌, ◌/◌, Bool, get_or, if◌then◌else◌, ltb, Text, lookup, insert, touch,
}
use cs739_cloud_native.StateMachine.File.{Disk}
use cs739_cloud_native.Node
use cs739_cloud_native.Node.{Node}
use cs739_cloud_native.Cluster.{Env, World, M, pure, ◌>>=◌, ◌>>◌, self, store, now}
use cs739_cloud_native.Membership.{gossip}

-- HEARTBEAT_INTERVAL, in milliseconds
abbrev pub heartbeat_interval : ℕ
heartbeat_interval = 5000

-- The part of main before the loop, with its arguments: a new process at its address. The process
-- that ran there before, if there was one, is gone; its file is what the new one finds.
unfoldable pub start : Text → ℕ → Text → Disk → World → World
start node_id num_virtual_nodes server_address disk w = record w {
  nodes = insert node_id (Node.new node_id num_virtual_nodes server_address disk) w.nodes;
}

-- now() - members_heartbeat_list_[node_id] > HEARTBEAT_INTERVAL, in milliseconds
unfoldable pub is_due : ℕ → ℕ → Bool
is_due now time = ltb heartbeat_interval ((now - time) / 1000000)

-- One round of the loop.
unfoldable pub tick : Env → Text → M (Unit {0})
tick env node_id = do
  n ← self node_id
  if n.alive
      then (do
        cur_time ← now env
        store node_id
            (record n { members_heartbeat_list = touch node_id 0 n.members_heartbeat_list })
        if is_due cur_time (get_or (lookup node_id n.members_heartbeat_list) 0)
            then gossip env node_id
            else pure tt)
      else pure tt
