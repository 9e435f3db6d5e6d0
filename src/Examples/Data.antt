-- ===== src/Examples/Data.antt =====
-- Concrete instances of the libraries that the charms call, and concrete objects.
use sunbeam_charms.Prelude.{
  ℕ, String, ◌≡◌, ◌≢◌, refl, ap, sym, Bool, true, false, Option, none, some, [], ◌∷◌, nat_eq,
  if◌then◌else◌, arith,
}
use sunbeam_charms.Dict.{Dict}
use sunbeam_charms.Exec.{Action, skip}
use sunbeam_charms.Status.{
  Kind, blocked, waiting, maintenance, active, unknown, StatusBase, blocked_status, waiting_status,
  maintenance_status, active_status, unknown_status, Ops, Status, Pool, name, text, init,
}
use sunbeam_charms.Jobs.{Storage}
use sunbeam_charms.Peers.{PeerRelation, OperatorPeers}
use sunbeam_charms.Relations.{Handler}
use sunbeam_charms.Charm.{Charm}

abbrev from_name : Kind → String → StatusBase
from_name blocked m = blocked_status m
from_name waiting m = waiting_status m
from_name maintenance m = maintenance_status m
from_name active m = active_status m
from_name unknown m = unknown_status

pub name-from_name : (k : Kind) (m : String) → name (from_name k m) ≡ k
unfolding name
name-from_name blocked m = refl
name-from_name waiting m = refl
name-from_name maintenance m = refl
name-from_name active m = refl
name-from_name unknown m = refl

pub text-from_name : (k : Kind) (m : String) → k ≢ unknown → text (from_name k m) ≡ m
unfolding text
text-from_name blocked m h = refl
text-from_name waiting m h = refl
text-from_name maintenance m h = refl
text-from_name active m h = refl
text-from_name unknown m h = ground (arith, h refl)

instance abbrev pub ops_by_name : Ops
ops_by_name = record {
  from_name = from_name;
  name-from_name = name-from_name;
  text-from_name = text-from_name;
}

-- A pool of two statuses, the workload's at 0 and the bootstrap's at 1.
abbrev no_objects : ℕ → Status
no_objects i = init "" 0

abbrev workload : Status
workload = record {
  label = "workload";
  prio = 100;
  never_set = false;
  status = active_status "up";
  has_on_update = true;
}

abbrev bootstrap : Status
bootstrap = record {
  label = "bootstrap";
  prio = 90;
  never_set = false;
  status = blocked_status "no db";
  has_on_update = true;
}

abbrev two_objects : ℕ → Status
two_objects i = if nat_eq i 0 then workload else if nat_eq i 1 then bootstrap else no_objects i

abbrev pub two_statuses : Pool
two_statuses = record {
  objects = two_objects;
  next = 2;
  pool = ("workload", 0) ∷ ("bootstrap", 1) ∷ [];
  status_state = [];
  snapshot = none;
  unit_status = unknown_status;
}

abbrev pub fresh_objects : ℕ → Status
fresh_objects i = init "" 0

abbrev pub joined_relation : PeerRelation
joined_relation = record {
  app_data = ("leader_ready", "true") ∷ [];
  unit_data = λ u. [];
  units = "app/1" ∷ [];
  planned_units = 2;
}

abbrev pub peers_ready : OperatorPeers
peers_ready = record { peers_rel = some joined_relation; local_unit = "app/0" }

abbrev pub peers_waiting : OperatorPeers
peers_waiting = record {
  peers_rel = some (record joined_relation { app_data = [] });
  local_unit = "app/0";
}

abbrev pub World : Type 0
World = Option (Dict String)

abbrev pub amqp : Bool → Handler
amqp is_ready = record { relation_name = "amqp"; mandatory = true; ready = is_ready }

-- A charm with one mandatory relation.
abbrev pub charm : Bool → Bool → OperatorPeers → Charm World
charm leads is_ready peers = record {
  status_pool = two_statuses;
  status = 0;
  bootstrap_status = 1;
  unit_bootstrapped = false;
  unit_is_leader = leads;
  relations = "peers" ∷ "amqp" ∷ [];
  mandatory_relations = "amqp" ∷ [];
  relation_handlers = amqp is_ready ∷ [];
  peers = some peers;
  deferred = false;
  world = none;
}

abbrev pub no_update : Handler → Action (Charm World)
no_update h = skip

-- The stored state of the unit, in the charm's world.
abbrev pub in_world : Storage (Charm World)
in_world = record {
  run_once = λ c. c.world;
  put = λ d c. record c { world = some d };
  run_once-put = λ d c. refl;
  put_same = λ d c h. ap (λ w. record c { world = w }) (sym h);
}
