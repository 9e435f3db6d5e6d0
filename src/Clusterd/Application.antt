-- ===== src/Clusterd/Application.antt =====
-- charms/sunbeam-clusterd/src/charm.py: how the charm of clusterd configures the application.
pub mod Leading
use sunbeam_charms.Prelude.{Bool, true, false}
use sunbeam_charms.Dict.{Dict}
use sunbeam_charms.Prelude.{String}
use sunbeam_charms.Exec.{
  Result, ok, raised, Exec, Action, waiting_error, continue, ◌>>=◌, ◌>>◌, raise, modify, skip,
}
use sunbeam_charms.Peers.{is_leader_ready, set_leader_ready}
use sunbeam_charms.Relations.{Event, new_node, node_added}
use sunbeam_charms.Clusterd.Client.{Http}
use sunbeam_charms.Clusterd.Nodes.{
  Node, Retry, defer, set_interface, set_joined, clusterd_ready, bootstrap_cluster,
  configure_certificates, add_node_to_cluster, join_node_to_cluster,
}

module _ {W : Type 0} where
  abbrev pub require_clusterd : Bool → Action (Node W)
  require_clusterd true = skip
  require_clusterd false = do defer; raise (waiting_error "Clusterd not ready yet")

  -- `super().configure_app_leader(event)`
  unfoldable pub announce_leader : Action (Node W)
  announce_leader = modify (set_interface set_leader_ready)

  abbrev pub leader_is_ready : Exec (Node W) Bool
  leader_is_ready n = (is_leader_ready n.peers.interface, n)

  abbrev require_leader : Bool → Action (Node W)
  require_leader true = skip
  require_leader false = raise (waiting_error "Leader not ready")

  -- `super().configure_app_non_leader(event)`, with the stored flag of the unit.
  unfoldable pub check_bootstrapped : Bool → Action (Node W)
  check_bootstrapped false = require_leader false
  check_bootstrapped true = do ready ← leader_is_ready; require_leader ready

module _ {W : Type 0} (http : Http W) (retry : Retry W) where
  abbrev join_on : Event → Action (Node W)
  join_on (node_added unit) = join_node_to_cluster http retry
  join_on event = skip

  unfoldable pub configure_app_non_leader : Bool → Event → Action (Node W)
  configure_app_non_leader unit_bootstrapped event = do
    check_bootstrapped unit_bootstrapped
    join_on event

module _ {W : Type 0} (http : Http W) (retry : Retry W) (hash : Dict String → String) where
  -- Only a leader that has not announced itself bootstraps the cluster.
  abbrev pub bootstrap_unless : Bool → Action (Node W)
  bootstrap_unless true = skip
  bootstrap_unless false = do bootstrap_cluster http; modify set_joined

  abbrev pub add_on : Event → Action (Node W)
  add_on (new_node unit) = add_node_to_cluster http unit
  add_on event = skip

  abbrev pub after_bootstrap : Event → Action (Node W)
  after_bootstrap event = do configure_certificates http hash; announce_leader; add_on event

  unfoldable pub configure_app_leader : Event → Action (Node W)
  configure_app_leader event = do
    ready ← clusterd_ready http retry
    require_clusterd ready
    done ← leader_is_ready
    bootstrap_unless done
    after_bootstrap event
