-- ===== src/Ovn/Central.antt =====
-- charms/ovn-central-k8s/src/charm.py, OVNCentralOperatorCharm: how the leader sets up the cluster of
-- the databases, and how the other units join it.
pub mod Announced
use sunbeam_charms.Prelude.{
  ℕ, String, Bool, true, false, Option, none, some, List, [], ◌∷◌, ◌++◌, if◌then◌else◌,
}
use sunbeam_charms.Text.{Unicode}
use sunbeam_charms.Dict.{Dict}
use sunbeam_charms.Exec.{
  Exc, Exec, Action, Result, ok, raised, waiting_error, attribute_error, continue, ◌>>=◌, ◌>>◌,
  pure, gets, modify, skip, for_each,
}
use sunbeam_charms.Peers.{OperatorPeers, is_leader_ready, set_leader_ready, leader_set}
use sunbeam_charms.Ovn.Peers.{expected_peers_available}
use sunbeam_charms.Ovn.Clustering.{Executor, Readers, ClusterStatus}
use sunbeam_charms.Ovn.Listeners.{charm_cluster_status, configure_ovn}

-- The charm: its peer relation, whether its unit leads, what it stored, the ports that it opened, and
-- its containers with the databases in them.
pub record Central (V : Type 0) : Type 0 where
  pub peers : OperatorPeers
  pub supports_peer_relation : Bool
  pub is_leader : Bool
  pub unit_bootstrapped : Bool
  pub ports : List ℕ
  pub world : V

abbrev pub northd_container : String
northd_container = "ovn-northd"

-- The containers of the databases, in the order of their handlers.
abbrev db_containers : List String
db_containers = "ovn-sb-db-server" ∷ "ovn-nb-db-server" ∷ []

-- What the charm uses: the services and scripts of its containers, the tools in them, the check that
-- their services run, and, of the base class, the check of the relations and the start of a container.
pub record Parts (V Num : Type 0) : Type 0 where
  pub unicode : Unicode
  pub readers : Readers Num
  pub number : ℕ → String
  pub rows : String → Result (List (Dict String))
  pub executor : String → Executor V
  pub start_service : String → Action V
  pub run_script : String → String → Action V
  pub probe : ℕ
  pub check_pebble_handlers_ready : Action V
  pub check_relation_handlers_ready : Action (Central V)
  pub init_container_services : Action V

module _ {V : Type 0} where
  abbrev pub on_world : {A : Type 0} → Exec V A → Exec (Central V) A
  on_world m c = let (r, v) = m c.world in (r, record c { world = v })

  abbrev leader_or_wait : Result Bool → Action (Central V)
  leader_or_wait (ok true) c = (ok tt, c)
  leader_or_wait (ok false) c = (raised (waiting_error "Leader not ready"), c)
  leader_or_wait (raised e) c = (raised e, c)

  -- The statements behind the `raise` are never reached: the data of the leader is not looked at.
  unfoldable pub check_leader_ready : Action (Central V)
  unfolding is_leader_ready
  check_leader_ready c =
      if c.supports_peer_relation
      then if c.is_leader then (ok tt, c) else leader_or_wait (is_leader_ready c.peers) c
      else (ok tt, c)

  abbrev announce_leader : Action (Central V)
  announce_leader c = (ok tt, record c { peers = set_leader_ready c.peers })

  abbrev set_settings : Dict String → Action (Central V)
  set_settings settings c = (ok tt, record c { peers = leader_set settings [] c.peers })

  unfoldable pub open_ports : Action (Central V)
  open_ports c = (ok tt, record c { ports = c.ports ++ (6641 ∷ 6642 ∷ []) })

module _ {V Num : Type 0} (p : Parts V Num) where
  unfoldable pub start_databases : Action (Central V)
  start_databases = on_world (for_each db_containers p.start_service)

  unfoldable pub start_northd : Action (Central V)
  start_northd = on_world (p.start_service northd_container)

  abbrev pub configure_listeners : Action (Central V)
  configure_listeners =
      on_world (configure_ovn p.unicode p.readers p.executor p.rows p.number p.probe)

  abbrev pub status_of : String → String → Exec (Central V) (Option (ClusterStatus Num))
  status_of db database =
      on_world (charm_cluster_status p.unicode p.readers database (p.executor db))

  -- `str(status.cluster_id)`
  abbrev cluster_id : Option (ClusterStatus Num) → Exec (Central V) String
  cluster_id none c =
      (raised (attribute_error "'NoneType' object has no attribute 'cluster_id'"), c)
  cluster_id (some st) c = (ok st.cluster_id, c)

  abbrev publish_ids : Option (ClusterStatus Num) → Option (ClusterStatus Num) → Action (Central V)
  publish_ids nb sb = do
    nb_cid ← cluster_id nb
    sb_cid ← cluster_id sb
    set_settings (("nb_cid", nb_cid) ∷ ("sb_cid", sb_cid) ∷ [])

  -- What the leader does when it has read the states of the two clusters.
  abbrev pub tell_peers :
      Option (ClusterStatus Num) → Option (ClusterStatus Num) → Action (Central V)
  tell_peers nb_status sb_status = do
    announce_leader
    publish_ids nb_status sb_status
    announce_leader
    start_northd
    on_world p.check_pebble_handlers_ready

  unfoldable pub configure_app_leader : Action (Central V)
  unfolding start_databases configure_ovn charm_cluster_status set_leader_ready leader_set
      start_northd
  configure_app_leader = do
    start_databases
    configure_listeners
    nb_status ← status_of "nb" "ovnnb_db"
    sb_status ← status_of "sb" "ovnsb_db"
    tell_peers nb_status sb_status

  abbrev join_cluster : Action (Central V)
  join_cluster = do
    on_world (p.run_script "ovn-nb-db-server" "/root/ovn-nb-cluster-join.sh")
    on_world (p.run_script "ovn-sb-db-server" "/root/ovn-sb-cluster-join.sh")
    start_databases
    configure_listeners
    start_northd
    on_world p.check_pebble_handlers_ready

  unfoldable pub configure_app_non_leader : Action (Central V)
  unfolding expected_peers_available start_databases configure_ovn start_northd
  configure_app_non_leader c =
      if expected_peers_available c.peers
      then join_cluster c
      else (raised (waiting_error "Expected peer units not ready, deferring cluster join"), c)

  abbrev store_bootstrapped : Action (Central V)
  store_bootstrapped c = (ok tt, record c { unit_bootstrapped = true })

  unfoldable pub configure_unit : Action (Central V)
  unfolding check_leader_ready open_ports
  configure_unit = do
    check_leader_ready
    p.check_relation_handlers_ready
    open_ports
    on_world p.init_container_services
    store_bootstrapped
