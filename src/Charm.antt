-- ===== src/Charm.antt =====
-- ops-sunbeam/ops_sunbeam/charm.py, OSBaseOperatorCharm: how a charm configures its unit and its
-- application. Methods that subclasses override are the fields of `Class`; the names that begin
-- with `base_` are the base class's own.
pub mod Configure
pub mod Bootstrap
use sunbeam_charms.Prelude.{
  ℕ, String, Bool, true, false, not, ◌&&◌, ◌||◌, Option, none, some, List, [], ◌∷◌, ◌++◌,
  if◌then◌else◌, is_empty,
}
use sunbeam_charms.Dict.{Dict, contains}
use sunbeam_charms.Exec.{
  Exc, Result, ok, raised, Exec, Action, waiting_error, not_implemented, attribute_error, continue,
  ◌>>=◌, ◌>>◌, pure, raise, gets, handle, try◌except◌, modify, skip, for_each,
}
use sunbeam_charms.Status.{StatusBase, active_status, maintenance_status, Ops, Pool, compute_status}
use sunbeam_charms.Status
use sunbeam_charms.Guard.{guard}
use sunbeam_charms.Peers.{OperatorPeers}
use sunbeam_charms.Peers
use sunbeam_charms.Relations.{Handler, Event, get_mandatory_relations_not_ready}

-- The charm object: its statuses by their addresses in the pool, the stored flag, whether the unit
-- leads, the names of the metadata's relations, the handlers, the peers handler if there is one,
-- and what a subclass adds. `deferred` says that the event at hand was deferred.
pub record Charm (W : Type 0) : Type 0 where
  pub status_pool : Pool
  pub status : ℕ
  pub bootstrap_status : ℕ
  pub unit_bootstrapped : Bool
  pub unit_is_leader : Bool
  pub relations : List String
  pub mandatory_relations : List String
  pub relation_handlers : List Handler
  pub peers : Option OperatorPeers
  pub deferred : Bool
  pub world : W

-- What a subclass overrides, and what each handler's `update_relation_data` does.
pub record Class (W : Type 0) : Type 0 where
  pub update_relation_data : Handler → Action (Charm W)
  pub stop_services : List String → Action (Charm W)
  pub configure_unit : Event → Action (Charm W)
  pub configure_app_leader : Event → Action (Charm W)
  pub configure_app_non_leader : Event → Action (Charm W)
  pub post_config_setup : Action (Charm W)

abbrev leader_ready : Option OperatorPeers → Result Bool
leader_ready none = ok true
leader_ready (some p) = Peers.is_leader_ready p

abbrev announced : Option OperatorPeers → Option OperatorPeers
announced none = none
announced (some p) = some (Peers.set_leader_ready p)

module _ {W : Type 0} where
  unfoldable pub supports_peer_relation : Charm W → Bool
  supports_peer_relation c = contains "peers" c.relations

  -- Without a peers handler the leader is assumed to be ready.
  unfoldable pub is_leader_ready : Exec (Charm W) Bool
  is_leader_ready c = (leader_ready c.peers, c)

  unfoldable pub set_leader_ready : Action (Charm W)
  set_leader_ready c = (ok tt, record c { peers = announced c.peers })

  -- `bootstrapped`: Python does not ask the peers if the unit's flag is False.
  unfoldable pub bootstrapped : Exec (Charm W) Bool
  bootstrapped c = if c.unit_bootstrapped then is_leader_ready c else (ok false, c)

  -- `leader_set` and `leader_get`, through the peers handler.
  unfoldable pub leader_set : Dict String → Dict String → Action (Charm W)
  leader_set settings kwargs c = elim c.peers [
    | none ↦ (raised (attribute_error "peers"), c)
    | some p ↦ (ok tt, record c { peers = some (Peers.leader_set settings kwargs p) })
  ]

  unfoldable pub leader_get : String → Exec (Charm W) (Option String)
  leader_get key c = elim c.peers [
    | none ↦ (raised (attribute_error "peers"), c)
    | some p ↦ (ok (Peers.get_app_data key p), c)
  ]

  unfoldable pub check_leader_ready : Action (Charm W)
  check_leader_ready c =
      if supports_peer_relation c && not c.unit_is_leader
      then (do
        ready ← is_leader_ready
        if ready then skip else raise (waiting_error "Leader not ready"))
          c
      else (ok tt, c)

  unfoldable pub not_ready : Event → Charm W → List String
  not_ready event c =
      get_mandatory_relations_not_ready c.relation_handlers c.mandatory_relations event

  unfoldable pub set_unit_bootstrapped : Action (Charm W)
  set_unit_bootstrapped c = (ok tt, record c { unit_bootstrapped = true })

  -- `stop_services` is the class's own.
  module _ (stop_services : List String → Action (Charm W)) where
    unfoldable pub check_relation_handlers_ready : Event → Action (Charm W)
    check_relation_handlers_ready event c =
        let missing = not_ready event c in
        if is_empty missing
        then (ok tt, c)
        else (do stop_services missing; raise (waiting_error "Not all relations are ready")) c

    unfoldable pub base_configure_unit : Event → Action (Charm W)
    base_configure_unit event = do
      check_leader_ready
      check_relation_handlers_ready event
      set_unit_bootstrapped

  module _ (cls : Class W) where
    -- A handler that does not implement the update is passed over.
    abbrev ignore_missing : Exc → Action (Charm W)
    ignore_missing (not_implemented m) = skip
    ignore_missing e = raise e

    unfoldable pub update_relations : Action (Charm W)
    update_relations c =
        for_each c.relation_handlers (λ h. try cls.update_relation_data h except ignore_missing) c

    unfoldable pub configure_app : Event → Action (Charm W)
    configure_app event c =
        if c.unit_is_leader
        then cls.configure_app_leader event c
        else cls.configure_app_non_leader event c

  unfoldable pub base_configure_app_leader : Event → Action (Charm W)
  base_configure_app_leader event = set_leader_ready

  unfoldable pub base_configure_app_non_leader : Event → Action (Charm W)
  base_configure_app_non_leader event = do
    ready ← bootstrapped
    if ready then skip else raise (waiting_error "Leader not ready")

  module _ ⦃ops : Ops⦄ where
    -- `self.status.set` and `self.bootstrap_status.set`
    unfoldable pub set_status : StatusBase → Charm W → Charm W
    set_status st c = record c { status_pool = Status.set c.status st c.status_pool }

    unfoldable pub set_bootstrap_status : StatusBase → Charm W → Charm W
    set_bootstrap_status st c = record c {
      status_pool = Status.set c.bootstrap_status st c.status_pool;
    }

    unfoldable pub base_post_config_setup : Action (Charm W)
    base_post_config_setup c = (ok tt, set_status (active_status "") c)

    -- The constructor's two statuses, and `__post_init__`.
    unfoldable pub init_statuses : Charm W → Charm W
    init_statuses c =
        let workload = Status.new_status "workload" 100 c.status_pool in
        let added = Status.add workload.0 workload.1 in
        let bootstrap = Status.new_status "bootstrap" 90 added in
        record c {
          status_pool = Status.add bootstrap.0 bootstrap.1;
          status = workload.0;
          bootstrap_status = bootstrap.0;
        }

    unfoldable pub post_init : Action (Charm W)
    post_init = do
      done ← bootstrapped
      if done
          then skip
          else modify (set_bootstrap_status (maintenance_status "Service not bootstrapped"))

    -- `_on_collect_unit_status_event`: the status that is added to the event, if any.
    unfoldable pub on_collect_unit_status : Charm W → List StatusBase
    on_collect_unit_status c = elim (compute_status c.status_pool) [ none ↦ [] | some st ↦ st ∷ [] ]

    module _ (cls : Class W) where
      -- The guarded section of `configure_charm`.
      unfoldable pub bootstrapping : Event → Action (Charm W)
      bootstrapping event = do
        update_relations cls
        cls.configure_unit event
        configure_app cls event
        modify (set_bootstrap_status (active_status ""))
        cls.post_config_setup

      unfoldable pub configure_charm : Event → Action (Charm W)
      configure_charm event = guard set_status true true (bootstrapping event)

    -- A charm that overrides nothing. `stop_services` does nothing there.
    abbrev pub base_class : (Handler → Action (Charm W)) → Class W
    base_class update = record {
      update_relation_data = update;
      stop_services = λ missing. skip;
      configure_unit = base_configure_unit (λ missing. skip);
      configure_app_leader = base_configure_app_leader;
      configure_app_non_leader = base_configure_app_non_leader;
      post_config_setup = base_post_config_setup;
    }
