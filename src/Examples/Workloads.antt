-- ===== src/Examples/Workloads.antt =====
-- Containers and snaps at concrete inputs.
use sunbeam_charms.Prelude.{
  String, ◌≡◌, refl, ap, sym, ◌∙◌, eq_refl, Bool, true, false, Option, none, some, [], ◌∷◌, map,
  ◌==◌, if◌then◌else◌,
}
use sunbeam_charms.Dict.{Dict, lookup, insert, lookup-insert, IsUnique}
use sunbeam_charms.Text.{rsplit_once}
use sunbeam_charms.Exec.{Action, ok, raised, for_each, skip, change_error}
use sunbeam_charms.Status.{unknown_status}
use sunbeam_charms.Pebble.{ConfigFile, Container, Parts, Handler, start_all, service_ready}
use sunbeam_charms.Pebble.Restart.{mark, StartWorks, start_all-ready}
use sunbeam_charms.Pebble.Files.{PushWrites}
use sunbeam_charms.Relations.{Event, other_event}
use sunbeam_charms.Charm.{Charm, not_ready, check_leader_ready, check_relation_handlers_ready}
use sunbeam_charms.Kubernetes.{Pebbles, configure_unit, containers_ready, run_db_sync}
use sunbeam_charms.Kubernetes.Sequence.{configure_unit-ready}
use sunbeam_charms.Snap.{
  Snap, Snapd, Setting, value, old_value, is_written, collect, ensure_snap_present,
}
use sunbeam_charms.Snap
use sunbeam_charms.Jobs
use sunbeam_charms.Peers
use sunbeam_charms.Kubernetes
use sunbeam_charms.Charm
use sunbeam_charms.Relations
use sunbeam_charms.Dict
use sunbeam_charms.Examples.Data.{World, charm, peers_ready, in_world}

-- A container of services and files, in which the service "broken" cannot be restarted.
record Box : Type 0 where
  services : Dict Bool
  files : Dict String

abbrev restart : String → Action Box
restart name b = if name == "broken" then (raised (change_error name), b) else (ok tt, b)

abbrev box : Container Box
box = record {
  can_connect = λ b. true;
  get_services = λ b. b.services;
  ready_checks = λ b. [];
  alive_checks = λ b. ("alive", true) ∷ [];
  plan_has_checks = λ b. ok true;
  start = λ name b. (ok tt, record b { services = map (mark name) b.services });
  restart = restart;
  stop = λ names. skip;
  add_layer = λ name. skip;
  pull = λ path b. lookup path b.files;
  is_dir = λ path b. true;
  make_dir = λ dir. skip;
  make_parents = λ path. skip;
  push = λ config contents b. (ok tt, record b { files = insert config.path contents b.files });
  enable_site = λ name. skip;
}

abbrev parts : Parts Box
parts = record {
  service_name = "api";
  restart_methods = λ name. none;
  directories = [];
  container_configs = [];
  rendered = λ config. "";
  has_healthcheck_layer = false;
  on_files_changed = λ files. skip;
}

abbrev half : Box
half = record { services = ("api", true) ∷ ("worker", false) ∷ []; files = [] }

abbrev in_handler : Box → Handler Box
in_handler b = record {
  files_changed = "/etc/api.conf" ∷ [];
  status = unknown_status;
  container = b;
}

start_works : StartWorks box parts
start_works = record { returns = λ name b. refl; marks = λ name b. refl; stays = λ name b. refl }

start_all-ready_example :
    (h : Handler Box) × (start_all box parts false (in_handler half) ≡ (ok tt, h))
    × (service_ready box parts h.container ≡ true)
start_all-ready_example = start_all-ready box parts (in_handler half) start_works refl

push_writes : PushWrites box parts
push_writes config contents v w h =
    ap (λ r. lookup config.path r.1.files) (sym h)
    ∙ lookup-insert config.path config.path contents v.files
    ∙ rw (eq_refl config.path)

abbrev config : ConfigFile
config = record { path = "/etc/api.conf"; user = "root"; group = "root"; permissions = none }

abbrev written : Box
written = record half { files = ("/etc/api.conf", "debug") ∷ [] }

-- One container, whose service runs, and no commands for the database.
abbrev pebbles : Pebbles World
pebbles = record {
  pebble_handlers = "api" ∷ [];
  pebble_ready = λ name c. true;
  service_ready = λ name c. true;
  configure_container = λ name. skip;
  init_service = λ name. skip;
  stop_all = λ name. skip;
  add_healthchecks = λ name. skip;
  open_ports = skip;
  db_sync_cmds = some (("manage" ∷ "sync" ∷ []) ∷ []);
  retry_db_sync = λ cmd. skip;
}

abbrev follower : Charm World
follower = charm false true peers_ready

abbrev synced : Charm World
synced = record follower { world = some (("db-sync", "t0") ∷ []) }

all_ready : not_ready other_event follower ≡ []
unfolding not_ready Relations.get_mandatory_relations_not_ready Relations.difference
    Relations.ready_relations Relations.check_broken_relations Dict.contains Relations.is_broken
all_ready = refl

ran :
    configure_unit pebbles in_world "t0" other_event follower
    ≡ (ok tt, record synced { unit_bootstrapped = true })
unfolding configure_unit check_leader_ready Charm.supports_peer_relation Charm.is_leader_ready
    Peers.is_leader_ready Peers.get_app_data Peers.json_loads check_relation_handlers_ready
    Kubernetes.configure_containers Kubernetes.if_ready run_db_sync Jobs.run_once_per_unit
    Jobs.open_storage Jobs.has_run Jobs.add_label Kubernetes.db_sync
    Kubernetes.init_container_services Kubernetes.check_pebble_handlers_ready
    Kubernetes.check_service Charm.set_unit_bootstrapped for_each insert Dict.lookup Dict.has_key
    Dict.contains
ran = rw all_ready

configure_unit-ready_example :
    (b : Charm World) × (record synced { unit_bootstrapped = true }
      ≡ record b { unit_bootstrapped = true })
    × (containers_ready pebbles in_world b ≡ true)
configure_unit-ready_example =
    configure_unit-ready pebbles in_world "t0" other_event follower
      (record synced { unit_bootstrapped = true }) ran

-- A snap that is installed in strict confinement, at the channel's revision.
abbrev old : Dict Setting
old = ("debug", value (some "true")) ∷ ("rpc", Snap.group (("timeout", some "60") ∷ [])) ∷ []

abbrev wanted : Dict (Option String)
wanted = ("debug", some "true") ∷ ("rpc.timeout", some "90") ∷ ("proxy", none) ∷ []

abbrev new_settings : Dict (Option String)
new_settings = ("debug", some "true") ∷ ("rpc.timeout", some "90") ∷ []

collected : collect old wanted [] ≡ ok new_settings
unfolding collect old_value is_written lookup insert rsplit_once
collected = refl
