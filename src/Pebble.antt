-- ===== src/Pebble.antt =====
-- ops-sunbeam/ops_sunbeam/container_handlers.py, the Pebble handlers of a charm's containers, and
-- the file writing of templating.py. The container belongs to ops and is an interface.
pub mod Restart
pub mod Files
pub mod Health
use sunbeam_charms.Prelude.{
  String, Bool, true, false, not, ◌&&◌, Option, none, some, List, [], ◌∷◌, ◌++◌, ltb, length, keep,
  map, is_empty, all_of, ◌==◌, if◌then◌else◌,
}
use sunbeam_charms.Text.{parent, concat, join}
use sunbeam_charms.Dict.{Dict, contains, keys}
use sunbeam_charms.Exec.{
  Exc, Result, ok, raised, Exec, Action, exec_error, connection_error, continue, ◌>>=◌, ◌>>◌, pure,
  raise, handle, try◌except◌, modify, skip, for_each,
}
use sunbeam_charms.Status.{StatusBase, waiting_status, blocked_status, active_status}

-- ContainerConfigFile
pub record ConfigFile : Type 0 where
  pub path : String
  pub user : String
  pub group : String
  pub permissions : Option String

-- ContainerDir
pub record ContainerDir : Type 0 where
  pub path : String
  pub user : String
  pub group : String

-- The methods of `ops.Container`, with the container as a value `V`. Services come with whether
-- they run, and checks with whether they are up.
pub record Container (V : Type 0) : Type 0 where
  pub can_connect : V → Bool
  pub get_services : V → Dict Bool
  pub ready_checks : V → Dict Bool
  pub alive_checks : V → Dict Bool
  pub plan_has_checks : V → Result Bool
  pub start : String → Action V
  pub restart : String → Action V
  pub stop : List String → Action V
  pub add_layer : String → Action V
  pub pull : String → V → Option String
  pub is_dir : String → V → Bool
  pub make_dir : ContainerDir → Action V
  pub make_parents : String → Action V
  pub push : ConfigFile → String → Action V
  pub enable_site : String → Action V

-- The handler: its files that changed since the last restart, its status, and the container.
pub record Handler (V : Type 0) : Type 0 where
  pub files_changed : List String
  pub status : StatusBase
  pub container : V

module _ {V : Type 0} where
  -- An action of the container, in the handler.
  abbrev pub on_container : Action V → Action (Handler V)
  on_container m h = let (r, v) = m h.container in (r, record h { container = v })

  unfoldable pub set_status : StatusBase → Action (Handler V)
  set_status st h = (ok tt, record h { status = st })

  unfoldable pub reset_files_changed : Action (Handler V)
  reset_files_changed h = (ok tt, record h { files_changed = [] })

  unfoldable pub extend_files_changed : List String → Action (Handler V)
  extend_files_changed files h = (ok tt, record h { files_changed = h.files_changed ++ files })

-- The parts that a subclass may override: `_restart_methods`, the directories, the configuration
-- files with their rendered contents, the layers, and the hook `files_changed`.
pub record Parts (V : Type 0) : Type 0 where
  pub service_name : String
  pub restart_methods : String → Option (Action V)
  pub directories : List ContainerDir
  pub container_configs : List ConfigFile
  pub rendered : ConfigFile → String
  pub has_healthcheck_layer : Bool
  pub on_files_changed : List String → Action (Handler V)

-- The names of the checks that are not up.
unfoldable pub failed_checks : Dict Bool → List String
failed_checks checks = keys (keep (λ (k : String × Bool). not k.1) checks)

unfoldable pub failure_message : List String → String
failure_message names = concat (
    "healthcheck" ∷ (if ltb 1 (length names) then "s" else "") ∷ " failed: " ∷ join ", " names ∷ [])

module _ {V : Type 0} (c : Container V) (parts : Parts V) where
  unfoldable pub pebble_ready : V → Bool
  pebble_ready v = c.can_connect v

  unfoldable pub service_ready : V → Bool
  service_ready v =
      if pebble_ready v then all_of (λ (s : String × Bool). s.1) (c.get_services v) else false

  -- templating.py, `sidecar_config_write`: writes the file if its contents differ.
  unfoldable pub sidecar_config_write : ConfigFile → String → Exec V Bool
  sidecar_config_write config contents v =
      if elim (c.pull config.path v) [ none ↦ false | some t ↦ t == contents ]
      then (ok false, v)
      else (let dir = parent config.path in
            do
              (λ w. if c.is_dir dir w then (ok tt, w) else c.make_parents dir w)
              c.push config contents
              pure true)
          v

  abbrev note_changed : ConfigFile → List String → Bool → List String
  note_changed config files changed = if changed then files ++ (config.path ∷ []) else files

  unfoldable pub write_all : List ConfigFile → List String → V → Result (List String) × V
  write_all [] files v = (ok files, v)
  write_all (config ∷ rest) files v =
      continue (λ changed. write_all rest (note_changed config files changed))
        (sidecar_config_write config (parts.rendered config) v)

  -- `write_config`: the paths of the files that were updated.
  unfoldable pub write_config : V → Result (List String) × V
  write_config v = write_all parts.container_configs [] v

  unfoldable pub setup_dirs : Action V
  setup_dirs v = for_each parts.directories (λ d. c.make_dir d) v

  abbrev write_and_extend : Action (Handler V)
  write_and_extend h =
      let (r, v) = write_config h.container in
      continue extend_files_changed (r, record h { container = v })

  unfoldable pub configure_container : Action (Handler V)
  configure_container = do
    on_container setup_dirs
    write_and_extend
    (λ h. parts.on_files_changed h.files_changed h)

  -- `_restart_methods.get(service_name, self._restart_service)`
  unfoldable pub restart_one : String → Action V
  restart_one name = elim (parts.restart_methods name) [ none ↦ c.restart name | some m ↦ m ]

  -- The loop body of `start_all`, for a service that did or did not run when the loop began.
  unfoldable pub start_or_restart : Bool → String × Bool → Action (Handler V)
  start_or_restart restart (name, running) =
      if running
      then if restart then on_container (restart_one name) >> reset_files_changed else skip
      else on_container (c.start name) >> reset_files_changed

  unfoldable pub start_all : Bool → Action (Handler V)
  start_all restart h =
      if c.can_connect h.container
      then for_each (c.get_services h.container) (start_or_restart restart) h
      else (ok tt, h)

  unfoldable pub stop_all : Action V
  stop_all v =
      if c.can_connect v
      then if is_empty (c.get_services v) then (ok tt, v) else c.stop (keys (c.get_services v)) v
      else (ok tt, v)

  -- `start_service` of ServicePebbleHandler, and `start_wsgi` of WSGIPebbleHandler, which looks for
  -- its WSGI service: the layer is added if the service is not known.
  unfoldable pub start_named : String → Bool → Action (Handler V)
  start_named name restart = do
    on_container (λ v.
        if contains name (keys (c.get_services v))
        then (ok tt, v)
        else c.add_layer parts.service_name v)
    start_all restart

  -- PebbleHandler.init_service
  unfoldable pub init_service : Action (Handler V)
  init_service = do configure_container; set_status (active_status "")

  abbrev restart_if_changed : String → Action (Handler V)
  restart_if_changed name h = start_named name (not (is_empty h.files_changed)) h

  -- ServicePebbleHandler.init_service
  unfoldable pub service_init_service : Action (Handler V)
  service_init_service = do
    configure_container
    restart_if_changed parts.service_name
    set_status (active_status "")

  -- An `a2ensite` that fails is logged and ignored.
  abbrev ignore_exec_error : Exc → Action V
  ignore_exec_error (exec_error m) = skip
  ignore_exec_error e = raise e

  -- WSGIPebbleHandler.init_service
  unfoldable pub wsgi_init_service : String → Action (Handler V)
  wsgi_init_service wsgi_service_name = do
    configure_container
    on_container (try c.enable_site wsgi_service_name except ignore_exec_error)
    write_and_extend
    (λ h. parts.on_files_changed h.files_changed h)
    restart_if_changed wsgi_service_name
    set_status (active_status "")

  abbrev ignore_connection_error : Exc → Action V
  ignore_connection_error (connection_error m) = skip
  ignore_connection_error e = raise e

  -- The layer is added only to a plan that has no checks.
  unfoldable pub add_healthchecks : Action V
  add_healthchecks v =
      if parts.has_healthcheck_layer
      then (try (do
        some_checks ← (λ w. (c.plan_has_checks w, w))
        if some_checks then skip else c.add_layer "healthchecks")
            except ignore_connection_error)
          v
      else (ok tt, v)

  -- Alive checks count only where there are no ready checks.
  unfoldable pub failed : V → List String
  failed v =
      let checks = c.ready_checks v in
      if is_empty checks then failed_checks (c.alive_checks v) else failed_checks checks

  -- The status that `_on_update_status` sets.
  unfoldable pub assessed : V → StatusBase
  assessed v =
      if not (pebble_ready v)
      then waiting_status "pebble not ready"
      else if not (service_ready v)
      then waiting_status "service not ready"
      else if not (is_empty (failed v))
      then blocked_status (failure_message (failed v))
      else active_status ""

  unfoldable pub on_update_status : Action (Handler V)
  on_update_status h = (ok tt, record h { status = assessed h.container })
