-- ===== src/Examples/Charms.antt =====
-- The charm's configuration, its relations and its peers at concrete inputs.
use sunbeam_charms.Prelude.{
  String, ◌≡◌, refl, inl, Bool, true, false, not, ◌&&◌, ◌||◌, List, [], ◌∷◌,
}
use sunbeam_charms.Dict.{contains, lookup}
use sunbeam_charms.Exec.{ok}
use sunbeam_charms.Status.{active_status, waiting_status}
use sunbeam_charms.Peers.{OperatorPeers, set_app_data, get_app_data, ready}
use sunbeam_charms.Peers
use sunbeam_charms.Relations.{
  Handler, Event, other_event, relation_broken, is_broken, api_handlers, base_handlers,
  get_mandatory_relations_not_ready,
}
use sunbeam_charms.Relations
use sunbeam_charms.Relations.Ready.{has_ready_handler, not_ready_iff}
use sunbeam_charms.Relations.Added.{mandatory_tracing_never_ready}
use sunbeam_charms.Charm.{
  base_class, configure_charm, not_ready, supports_peer_relation, set_status, set_bootstrap_status,
}
use sunbeam_charms.Charm.Configure.{
  IsQuiet, announce, marked, configure_charm-leader, configure_charm-non_leader,
  configure_charm-relations_not_ready,
}
use sunbeam_charms.Charm.Bootstrap.{unit_bootstrapped-configure_charm}
use sunbeam_charms.Examples.Data.{ops_by_name, charm, peers_ready, peers_waiting, no_update, amqp}

quiet : IsQuiet no_update
quiet h c = inl refl

all_ready :
    (leads : Bool) (peers : OperatorPeers) → not_ready other_event (charm leads true peers) ≡ []
unfolding not_ready get_mandatory_relations_not_ready Relations.difference Relations.ready_relations
    Relations.check_broken_relations contains is_broken
all_ready leads peers = refl

amqp_missing : not_ready other_event (charm true false peers_ready) ≡ "amqp" ∷ []
unfolding not_ready get_mandatory_relations_not_ready Relations.difference Relations.ready_relations
    Relations.check_broken_relations contains is_broken
amqp_missing = refl

configure_charm-leader_example :
    configure_charm (base_class no_update) other_event (charm true true peers_waiting) ≡ (
      ok tt,
      set_status (active_status "") (
          set_bootstrap_status
            (active_status "")
            (announce (marked (charm true true peers_waiting)))),
    )
configure_charm-leader_example =
    configure_charm-leader no_update quiet other_event (charm true true peers_waiting) refl
      (all_ready true peers_waiting)

configure_charm-non_leader_example :
    configure_charm (base_class no_update) other_event (charm false true peers_ready) ≡ (
      ok tt,
      set_status
          (active_status "")
          (set_bootstrap_status (active_status "") (marked (charm false true peers_ready))),
    )
configure_charm-non_leader_example =
    configure_charm-non_leader no_update quiet other_event (charm false true peers_ready) refl
      (unfold supports_peer_relation contains in refl)
      (unfold Peers.is_leader_ready get_app_data lookup Peers.json_loads in refl)
      (all_ready false peers_ready)

configure_charm-relations_not_ready_example :
    configure_charm (base_class no_update) other_event (charm true false peers_ready) ≡ (
      ok tt,
      set_status (waiting_status "Not all relations are ready") (charm true false peers_ready),
    )
configure_charm-relations_not_ready_example =
    configure_charm-relations_not_ready no_update quiet other_event (charm true false peers_ready)
      refl (rw amqp_missing)

unit_bootstrapped-configure_charm_example :
    (configure_charm
      (base_class no_update)
      other_event
      (charm true false peers_ready)).1.unit_bootstrapped
    ≡ false
unit_bootstrapped-configure_charm_example =
    unit_bootstrapped-configure_charm no_update other_event (charm true false peers_ready) quiet
      (rw amqp_missing)

not_ready_iff_example :
    contains "amqp" (
      get_mandatory_relations_not_ready (amqp true ∷ []) ("amqp" ∷ []) (relation_broken "database"))
    ≡ (contains "amqp" ("amqp" ∷ [])
        && (not (has_ready_handler "amqp" (amqp true ∷ []))
            || is_broken "amqp" (relation_broken "database")))
not_ready_iff_example =
    not_ready_iff "amqp" (amqp true ∷ []) ("amqp" ∷ []) (relation_broken "database")

abbrev declared : List String
declared = "amqp" ∷ "identity-service" ∷ "tracing" ∷ []

abbrev never : String → Bool
never r = false

mandatory_tracing_never_ready_example :
    contains "tracing" (
      get_mandatory_relations_not_ready
        (base_handlers declared declared [] never [])
        declared
        other_event)
    ≡ true
mandatory_tracing_never_ready_example =
    mandatory_tracing_never_ready declared declared [] never other_event (unfold contains in refl)
      (unfold contains in refl)
