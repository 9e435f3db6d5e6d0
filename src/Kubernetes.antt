-- ===== src/Kubernetes.antt =====
-- ops-sunbeam/ops_sunbeam/charm.py, OSBaseOperatorCharmK8S: configuring a unit whose services run
-- in containers.
pub mod Sequence
use sunbeam_charms.Prelude.{
  ℕ, String, Bool, true, false, not, Option, none, some, List, [], ◌∷◌, keep, all_of, is_empty, ltb,
  length, ◌==◌, if◌then◌else◌,
}
use sunbeam_charms.Dict.{contains}
use sunbeam_charms.Exec.{
  Exc, Result, ok, raised, Exec, Action, waiting_error, blocked_error, assertion_error, retry_error,
  continue, ◌>>=◌, ◌>>◌, pure, raise, handle, try◌except◌, modify, skip, for_each,
}
use sunbeam_charms.Status.{Ops, active_status}
use sunbeam_charms.Jobs.{Storage, run_once_per_unit}
use sunbeam_charms.Relations.{Event}
use sunbeam_charms.Charm.{
  Charm, check_leader_ready, check_relation_handlers_ready, set_unit_bootstrapped, set_status,
}

-- What the class asks of its Pebble handlers, which it knows by their containers' names, and the
-- rest that a subclass provides: the commands that create the database, each of which runs with
-- tenacity's retries and then raises RetryError, and the ports.
pub record Pebbles (W : Type 0) : Type 0 where
  pub pebble_handlers : List String
  pub pebble_ready : String → Charm W → Bool
  pub service_ready : String → Charm W → Bool
  pub configure_container : String → Action (Charm W)
  pub init_service : String → Action (Charm W)
  pub stop_all : String → Action (Charm W)
  pub add_healthchecks : String → Action (Charm W)
  pub open_ports : Action (Charm W)
  pub db_sync_cmds : Option (List (List String))
  pub retry_db_sync : List String → Action (Charm W)

module _ {W : Type 0} (p : Pebbles W) (storage : Storage (Charm W)) where
  unfoldable pub if_ready : (String → Action (Charm W)) → String → Action (Charm W)
  if_ready m name c =
      if p.pebble_ready name c
      then m name c
      else (raised (waiting_error "Payload container not ready"), c)

  unfoldable pub configure_containers : Action (Charm W)
  configure_containers = for_each p.pebble_handlers (if_ready p.configure_container)

  unfoldable pub init_container_services : Action (Charm W)
  init_container_services = for_each p.pebble_handlers (if_ready p.init_service)

  unfoldable pub check_service : String → Action (Charm W)
  check_service name c =
      if p.service_ready name c
      then (ok tt, c)
      else (raised (waiting_error "Container service not ready"), c)

  unfoldable pub check_pebble_handlers_ready : Action (Charm W)
  check_pebble_handlers_ready = for_each p.pebble_handlers check_service

  unfoldable pub containers_ready : Charm W → Bool
  containers_ready c = all_of (λ name. p.service_ready name c) p.pebble_handlers

  unfoldable pub stop_ready : String → Action (Charm W)
  stop_ready name c = if p.pebble_ready name c then p.stop_all name c else (ok tt, c)

  unfoldable pub stop_services : List String → Action (Charm W)
  stop_services relation = for_each p.pebble_handlers stop_ready

  abbrev blocked_on_retry : Exc → Action (Charm W)
  blocked_on_retry (retry_error m) = raise (blocked_error "DB sync failed")
  blocked_on_retry e = raise e

  -- `run_db_sync`, below its decorator. A missing or empty list of commands is only logged.
  unfoldable pub db_sync : Action (Charm W)
  db_sync c =
      if c.unit_is_leader
      then elim p.db_sync_cmds [
        | none ↦ (ok tt, c)
        | some cmds ↦ for_each cmds (λ cmd. try p.retry_db_sync cmd except blocked_on_retry) c
      ]
      else (ok tt, c)

  unfoldable pub run_db_sync : String → Action (Charm W)
  run_db_sync now = run_once_per_unit storage "db-sync" now db_sync

  unfoldable pub configure_unit : String → Event → Action (Charm W)
  configure_unit now event = do
    check_leader_ready
    check_relation_handlers_ready stop_services event
    p.open_ports
    configure_containers
    run_db_sync now
    init_container_services
    check_pebble_handlers_ready
    set_unit_bootstrapped

  unfoldable pub post_config_setup : ⦃ops : Ops⦄ → Action (Charm W)
  post_config_setup = do
    for_each p.pebble_handlers p.add_healthchecks
    modify (set_status (active_status ""))

  -- `get_named_pebble_handler`: more than one of a name is an assertion error.
  unfoldable pub get_named_pebble_handler : String → Result (Option String)
  get_named_pebble_handler container_name =
      let found = keep (λ h. h == container_name) p.pebble_handlers in
      if ltb (length found) 2
      then ok (elim found [ [] ↦ none | h ∷ rest ↦ some h ])
      else raised (assertion_error "Multiple pebble handlers with the same name found.")

  unfoldable pub get_named_pebble_handlers : List String → List String
  get_named_pebble_handlers container_names =
      keep (λ h. contains h container_names) p.pebble_handlers
