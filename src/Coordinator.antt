-- ===== src/Coordinator.antt =====
-- The handlers ClientGet and ClientPut of src/gossip_node.cpp: reads and writes over the replicas.
pub mod Tried
pub mod Acked
pub mod Quorum
pub mod Polling
pub mod Reading
pub mod Consistency
pub mod Returns
pub mod Ready
pub mod Available
pub mod Succeeds
pub mod Sound
use cs739_cloud_native.Common.{
  ℕ, zero, suc, ◌*◌, Bool, true, false, Option, none, some, List, [], ◌∷◌, ◌++◌, leb, ◌==◌,
  if◌then◌else◌, Text, text_eq,
}
use cs739_cloud_native.Versions.{VersionVector, Versioned, update_version, get_latest_data}
use cs739_cloud_native.StateMachine
use cs739_cloud_native.Ring
use cs739_cloud_native.Node
use cs739_cloud_native.Node.{Node, Data, replica_n, r_count, w_count}
use cs739_cloud_native.Cluster.{
  Env, World, M, pure, ◌>>=◌, ◌>>◌, self, store, is_alive, peer_put, peer_get, assigned_coordinator,
}

-- The locals of the loop of ClientGet.
pub record Reads : Type 0 where
  pub results : List Versioned
  pub success_cnt : ℕ
  pub try_cnt : ℕ

-- grpc::Status
pub data Status : Type 0 where
  ok cancelled : Status

pub record GetResponse : Type 0 where
  pub get_res_data : List Versioned
  pub coordinator : Text
  pub status : Status

-- The enum PutReturn; the handler never gives NO_VERSION.
pub data PutReturn : Type 0 where
  ok failed not_coordinator no_version : PutReturn

pub record PutResponse : Type 0 where
  pub ret : PutReturn
  pub coordinator : Text

-- The locals of the loop of ClientPut.
pub record Acks : Type 0 where
  pub success_cnt : ℕ
  pub try_cnt : ℕ

unfoldable pub found : Reads → Data → Reads
found st d = record st {
  results = st.results ++ (d.value, d.version_info) ∷ [];
  success_cnt = suc st.success_cnt;
}

unfoldable pub put_self : Text → Text → VersionVector → Node → Node
put_self key value version n = record n {
  state_machine = StateMachine.put n.state_machine key value version;
}

module _ (env : Env) (this : Text) (key : Text) where
  -- The loop of ClientGet over the replicas that are left.
  unfoldable pub read_replicas : List Text → Reads → M Reads
  read_replicas [] st = pure st
  read_replicas (peer_server ∷ rest) st =
      if text_eq peer_server this
      then (do
        n ← self this
        let st' = found (record st { try_cnt = suc st.try_cnt }) (Node.peer_get n key)
        if st'.try_cnt == replica_n then pure st' else read_replicas rest st')
      else (do
        a ← is_alive env this peer_server
        let st' = record st { try_cnt = suc st.try_cnt }
        if a
            then (do
              r ← peer_get env this peer_server key
              elim r [
                | none ↦ read_replicas rest st'
                | some d ↦
                    if st'.try_cnt == replica_n
                    then pure (found st' d)
                    else read_replicas rest (found st' d)
              ])
            else read_replicas rest st)

  unfoldable pub client_get : M GetResponse
  client_get = do
    n ← self this
    let replica_servers = Ring.get_replicas_nodes env.hash n.ring key (2 * replica_n)
    st ← read_replicas replica_servers (record { results = []; success_cnt = 0; try_cnt = 0 })
    coordinator ← assigned_coordinator env this replica_servers
    pure (record {
      get_res_data = get_latest_data st.results;
      coordinator = coordinator;
      status = if leb r_count st.success_cnt then Status.ok else cancelled;
    })

  module _ (value : Text) (new_version : VersionVector) where
    -- The loop of ClientPut over the replicas that are left.
    unfoldable pub write_replicas : List Text → Acks → M Acks
    write_replicas [] st = pure st
    write_replicas (peer_server ∷ rest) st =
        if text_eq peer_server this
        then (do
          n ← self this
          store this (put_self key value new_version n)
          let st' = record st { success_cnt = suc st.success_cnt; try_cnt = suc st.try_cnt }
          if st'.try_cnt == replica_n then pure st' else write_replicas rest st')
        else (do
          a ← is_alive env this peer_server
          let st' = record st { try_cnt = suc st.try_cnt }
          if a
              then (do
                r ←
                    peer_put env this peer_server key
                      (record { value = value; version_info = new_version })
                if r == 0
                    then (let st'' = record st' { success_cnt = suc st'.success_cnt } in
                        if st''.try_cnt == replica_n then pure st'' else write_replicas rest st'')
                    else write_replicas rest st')
              else write_replicas rest st)

  unfoldable pub client_put : Data → M PutResponse
  client_put d = do
    n ← self this
    let replica_servers = Ring.get_replicas_nodes env.hash n.ring key (2 * replica_n)
    coordinator ← assigned_coordinator env this replica_servers
    if Node.is_coordinator this replica_servers
        then (do
          let new_version = update_version d.version_info this
          st ←
              write_replicas d.value new_version replica_servers
                (record { success_cnt = 0; try_cnt = 0 })
          pure (record {
            ret = if leb w_count st.success_cnt then PutReturn.ok else failed;
            coordinator = coordinator;
          }))
        else pure (record { ret = not_coordinator; coordinator = coordinator })
