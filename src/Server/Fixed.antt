-- ===== src/Server/Fixed.antt =====
-- A server with FIXED_CONFIG_TEST true (the constructor of GossipNode and
-- read_server_config_update_stubs_, src/gossip_node.cpp): it knows the others from the nodes
-- configuration, and reads its file.
use cs739_cloud_native.Common.{
  ℕ, ◌<◌, ◌≡◌, refl, sym, ◌∙◌, subst, true, not, ◌&&◌, ◌||◌, Option, none, some, List, [], ◌∷◌,
  arith, if◌then◌else◌, Text, text_eq, text_eq_iff, contains, contains-append, lookup, IsDistinct,
  Bool-cases, inl, inr,
}
use cs739_cloud_native.Versions.{VersionVector, ◌>>=◌}
use cs739_cloud_native.StateMachine.{StateMachine, flush_to_disk, read_file, get_value, get_version}
use cs739_cloud_native.StateMachine.File.{Disk}
use cs739_cloud_native.StateMachine.Config.{emplace, get_nodes_config}
use cs739_cloud_native.StateMachine.RoundTrip.{AreKept, read_file-flush_to_disk}
use cs739_cloud_native.Ring
use cs739_cloud_native.Ring.{size_mod}
use cs739_cloud_native.Ring.Membership.{add_node-IsRing}
use cs739_cloud_native.Node
use cs739_cloud_native.Node.{Node, add_stub}
use cs739_cloud_native.Cluster.{Env}
use cs739_cloud_native.Cluster.Sound.{IsSound}
use cs739_cloud_native.Membership.{add_servers}
use cs739_cloud_native.Membership.Sound.{add_servers-IsSound}

or_empty-IsDistinct :
    (found : Option Text) (v : VersionVector)
    → IsDistinct v
    → IsDistinct (elim found [ some _ ↦ v | none ↦ [] ])
or_empty-IsDistinct none v d = tt
or_empty-IsDistinct (some x) v d = d

module _ (env : Env) where
  -- The node, and the set of addresses that is returned.
  unfoldable pub read_server_config_update_stubs : Disk → Node → Node × List Text
  read_server_config_update_stubs nodes_config n =
      let server_config = get_nodes_config nodes_config in
      (
        add_servers env n.node_id server_config (record n { stubs = [] }),
        emplace server_config n.node_id,
      )

  -- The constructor; `none`: the file of the state machine has a version that is no number.
  unfoldable pub new_fixed : Text → ℕ → Text → Disk → Disk → Option Node
  new_fixed node_id num_virtual_nodes server_address nodes_config disk =
      let empty = Node.new node_id num_virtual_nodes server_address disk in
      let (n, res) = read_server_config_update_stubs nodes_config (record empty { alive = true }) in
      read_file n.state_machine >>= λ sm.
      some (record n { state_machine = sm; ring = Ring.add_node env.hash n.ring node_id })

  -- Another server is added to the stubs, and this one is not.
  contains-add_stub :
      (stubs : List Text) (addr t : Text)
      → contains (add_stub stubs addr) t ≡ contains stubs t || text_eq addr t
  unfolding add_stub contains
  contains-add_stub stubs addr t = elim (Bool-cases (contains stubs addr)) [
    | inl there_is ↦ ground (arith, text_eq_iff addr t)
    | inr new ↦ ground (arith, contains-append stubs (addr ∷ []) t)
  ]

  contains-add_servers :
      (this : Text) (addrs : List Text) (n : Node) (t : Text)
      → contains (add_servers env this addrs n).stubs t
        ≡ contains n.stubs t || (contains addrs t && not (text_eq t this))
  unfolding add_servers contains
  contains-add_servers this [] n t = ground arith
  contains-add_servers this (addr ∷ addrs) n t = elim (Bool-cases (text_eq addr this)) [
    | inl me ↦ ground (
      arith,
      contains-add_servers this addrs n t,
      text_eq_iff addr t,
      text_eq_iff addr this,
      text_eq_iff t this,
    )
    | inr other ↦ ground (
      arith,
      contains-add_servers this addrs
          (record n { ring = Ring.add_node env.hash n.ring addr; stubs = add_stub n.stubs addr }) t,
      contains-add_stub n.stubs addr t,
      text_eq_iff addr t,
      text_eq_iff addr this,
      text_eq_iff t this,
    )
  ]

  add_servers-same :
      (this : Text) (addrs : List Text) (n : Node)
      → ((add_servers env this addrs n).state_machine ≡ n.state_machine)
        × ((add_servers env this addrs n).alive ≡ n.alive)
  unfolding add_servers
  add_servers-same this [] n = (refl, refl)
  add_servers-same this (addr ∷ addrs) n =
      let n' =
        (if text_eq addr this then n else record n {
          ring = Ring.add_node env.hash n.ring addr;
          stubs = add_stub n.stubs addr;
        }) in
      let one : (n'.state_machine ≡ n.state_machine) × (n'.alive ≡ n.alive) =
        (ground arith, ground arith) in
      let rest = add_servers-same this addrs n' in (rest.0 ∙ one.0, rest.1 ∙ one.1)

  -- A server with FIXED_CONFIG_TEST starts on the file that another process flushed, where that
  -- holds what a file can keep and its versions name each server once, with a hash with values of
  -- size_t: it is alive and as the handlers rely on, has every value and every version of a key
  -- with a value, and knows exactly the other servers of the configuration.
  pub new_fixed-flush_to_disk :
      (node_id : Text) (num_virtual_nodes : ℕ) (server_address : Text) (nodes_config : Disk)
      (sm : StateMachine)
      → ((t : Text) → env.hash t < size_mod)
      → sm.disk.writable ≡ true
      → AreKept sm.value_store sm.version_store
      → ((key : Text) → IsDistinct (get_version sm key))
      → (n : Node) × (new_fixed node_id num_virtual_nodes server_address nodes_config
            (flush_to_disk sm).disk
          ≡ some n)
        × IsSound n
        × (n.alive ≡ true)
        × ((key : Text) → get_value n.state_machine key ≡ get_value sm key)
        × ((key : Text)
            → get_version n.state_machine key
              ≡ elim (lookup key sm.value_store) [ some v ↦ get_version sm key | none ↦ [] ])
        × ((t : Text)
            → contains n.stubs t
              ≡ contains (get_nodes_config nodes_config) t && not (text_eq t node_id))
  unfolding new_fixed read_server_config_update_stubs
  new_fixed-flush_to_disk node_id k address nodes_config sm hash-lt can kept clocks =
      let (sm', read, values, versions) = read_file-flush_to_disk sm can kept in
      let first : Node = record (Node.new node_id k address (flush_to_disk sm).disk) {
        alive = true;
      } in
      let config = get_nodes_config nodes_config in
      let n = add_servers env node_id config first in
      let same = add_servers-same node_id config first in
      let sound = add_servers-IsSound env hash-lt node_id config first (record {
        ring = record { sorted = tt; small = tt };
        clocks = λ key. unfold get_version lookup in tt;
      }) in
      let last : Node = record n {
        state_machine = sm';
        ring = Ring.add_node env.hash n.ring node_id;
      } in
      (
        last,
        rw (same.0, read) refl,
        record {
          ring = add_node-IsRing env.hash hash-lt n.ring node_id sound.ring;
          clocks =
              λ key. subst IsDistinct (sym (versions key)) (or_empty-IsDistinct _ _ (clocks key));
        },
        same.1,
        values,
        versions,
        λ t. unfold contains in contains-add_servers node_id config first t,
      )
