-- ===== src/Relations.antt =====
-- ops-sunbeam/ops_sunbeam/charm.py: the handlers of a charm's relations, which of them are added,
-- and which mandatory relations are not ready. Sets of names are lists.
pub mod Ready
pub mod Added
use sunbeam_charms.Prelude.{
  String, Bool, true, false, not, ◌&&◌, Option, none, some, List, [], ◌∷◌, ◌++◌, map, keep, ◌==◌,
  if◌then◌else◌,
}
use sunbeam_charms.Dict.{Dict, contains, keys}
use sunbeam_charms.Status.{
  StatusBase, blocked_status, waiting_status, active_status, unknown_status,
}

-- A relation handler, with what its `ready` property answers.
pub record Handler : Type 0 where
  pub relation_name : String
  pub mandatory : Bool
  pub ready : Bool

-- The events that the charms tell apart. The first carries the name of the broken relation; the
-- last three are those of clusterd, with the unit they are about.
pub data Event : Type 0 where
  relation_broken : String → Event
  ingress_revoked identity_service_gone_away rabbitmq_gone_away ovsdb_cms_gone_away : Event
  identity_credentials_gone_away identity_ops_gone_away gnocchi_service_gone_away : Event
  ceph_access_gone_away bind_rndc_gone_away other_event : Event
  new_node node_added remove_node : Option String → Event

abbrev pub database_relations : List String
database_relations = "database" ∷ "api-database" ∷ "cell-database" ∷ []

-- The loop body of `check_broken_relations`: is the relation broken by this event?
unfoldable pub is_broken : String → Event → Bool
unfolding contains
is_broken r (relation_broken n) = contains r database_relations && contains n database_relations
is_broken r ingress_revoked = contains r ("ingress-public" ∷ "ingress-internal" ∷ [])
is_broken r identity_service_gone_away = r == "identity-service"
is_broken r rabbitmq_gone_away = r == "amqp"
is_broken r ovsdb_cms_gone_away = r == "ovsdb-cms"
is_broken r identity_credentials_gone_away = r == "identity-credentials"
is_broken r identity_ops_gone_away = r == "identity-ops"
is_broken r gnocchi_service_gone_away = r == "gnocchi-db"
is_broken r ceph_access_gone_away = r == "ceph-access"
is_broken r bind_rndc_gone_away = r == "dns-backend"
is_broken r _ = false

unfoldable pub check_broken_relations : List String → Event → List String
check_broken_relations relations event = keep (λ r. is_broken r event) relations

-- `a.difference(b)`
unfoldable pub difference : List String → List String → List String
difference xs ys = keep (λ x. not (contains x ys)) xs

unfoldable pub ready_relations : List Handler → List String
ready_relations handlers =
    map (λ (h : Handler). h.relation_name) (keep (λ (h : Handler). h.mandatory && h.ready) handlers)

unfoldable pub get_mandatory_relations_not_ready : List Handler → List String → Event → List String
get_mandatory_relations_not_ready handlers mandatory event =
    let ready = ready_relations handlers in
    difference mandatory (difference ready (check_broken_relations ready event))

-- `can_add_handler`, for the relations of the charm's metadata.
unfoldable pub can_add_handler : List String → String → List Handler → Bool
can_add_handler relations name handlers =
    contains name relations && not (contains name (map (λ (h : Handler). h.relation_name) handlers))

-- RelationHandler.set_status: `related` says whether the model has such a relation.
unfoldable pub handler_status : Bool → Handler → StatusBase
handler_status related h =
    if not related
    then if h.mandatory then blocked_status "integration missing" else unknown_status
    else if h.ready
    then active_status ""
    else waiting_status "integration incomplete"

-- `requires_relations.union(self.mandatory_relations)` of the constructor, where `requires` says
-- of each required relation of the metadata whether it is optional.
unfoldable pub mandatory_union : Dict Bool → List String → List String
mandatory_union requires class_mandatory =
    keys (keep (λ (e : String × Bool). not e.1) requires) ++ class_mandatory

-- `get_relation_handlers` of the three base classes. `is_ready` answers for each new handler, and
-- `databases` lists the keys of the charm's `databases`.
module _ (relations mandatory databases : List String) (is_ready : String → Bool) where
  -- One `if self.can_add_handler(…): … handlers.append(…)`.
  unfoldable pub add_handler : String → Bool → List Handler → List Handler
  add_handler name required handlers =
      if can_add_handler relations name handlers
      then handlers
        ++ (record { relation_name = name; mandatory = required; ready = is_ready name } ∷ [])
      else handlers

  unfoldable pub add_mandatory : String → List Handler → List Handler
  add_mandatory name handlers = add_handler name (contains name mandatory) handlers

  unfoldable pub add_databases : List String → List Handler → List Handler
  add_databases [] handlers = handlers
  add_databases (name ∷ rest) handlers = add_databases rest (add_mandatory name handlers)

  -- OSBaseOperatorCharm; the tracing handler is not appended.
  unfoldable pub base_handlers : List Handler → List Handler
  base_handlers handlers =
      let amqp = add_mandatory "amqp" handlers in
      let dbs = add_databases databases amqp in
      let peers = add_handler "peers" false dbs in
      let certificates = add_mandatory "certificates" peers in
      let credentials = add_mandatory "identity-credentials" certificates in
      let ceph = add_mandatory "ceph-access" credentials in add_handler "receive-ca-cert" false ceph

  -- OSBaseOperatorCharmK8S
  unfoldable pub k8s_handlers : List Handler → List Handler
  k8s_handlers handlers = base_handlers (add_mandatory "logging" handlers)

  -- OSBaseOperatorAPICharm
  unfoldable pub api_handlers : List Handler → List Handler
  api_handlers handlers =
      let internal = add_mandatory "ingress-internal" handlers in
      let public = add_mandatory "ingress-public" internal in
      k8s_handlers (add_mandatory "identity-service" public)
