-- ===== src/Clusterd/Peers/Events.antt =====
-- relation_handlers.py of sunbeam-clusterd: which events the peer relation emits, and who acts.
use sunbeam_charms.Prelude.{
  String, ◌≡◌, ◌≢◌, ◌↔◌, Bool, true, false, ◌⊎◌, Option, none, some, arith, eq_iff, eq_refl,
}
use sunbeam_charms.Dict.{contains}
use sunbeam_charms.Exec.{ok}
use sunbeam_charms.Relations.{Event, new_node, node_added, remove_node}
use sunbeam_charms.Clusterd.Peers.{
  ClusterdPeers, join_token_key, token_keys, on_changed, on_changed_leader, on_changed_other,
  dispatch, ignored, called_back, on_add_node, on_node_added, on_remove_node,
}

abbrev pub has_token : String → ClusterdPeers → Bool
has_token unit p = contains (join_token_key unit) (token_keys p)

-- A change of the relation asks for a node to be added exactly on the leader, for the unit that
-- changed, as long as no join token of that unit is in the application's data.
pub on_changed-new_node :
    (changed : Option String) (unit : String) (p : ClusterdPeers)
    → ((on_changed changed p).1 ≡ some (new_node (some unit)))
      ↔ ((p.is_leader ≡ true) × (changed ≡ some unit) × (has_token unit p ≡ false))
unfolding on_changed on_changed_leader on_changed_other
on_changed-new_node none unit p = ground arith
on_changed-new_node (some u) unit p = ground arith

-- A unit reports itself as added exactly when its join token is there, it has not joined yet, and
-- it is not the leader at a change of some unit; the event is about the unit itself.
pub on_changed-node_added :
    (changed : Option String) (unit : String) (p : ClusterdPeers)
    → ((on_changed changed p).1 ≡ some (node_added (some unit))) ↔ (
        ((changed ≡ none) ⊎ (p.is_leader ≡ false))
        × (unit ≡ p.local_unit)
        × (p.joined ≡ false)
        × (has_token p.local_unit p ≡ true))
unfolding on_changed on_changed_leader on_changed_other
on_changed-node_added none unit p = ground arith
on_changed-node_added (some u) unit p = ground arith

-- No event that a change emits is ignored by the handler of the unit that emitted it, whether or
-- not the leader is ready.
pub dispatch-on_changed :
    (changed : Option String) (p : ClusterdPeers) (b : Bool) (e : Event)
    → (on_changed changed p).1 ≡ some e
    → dispatch (ok b) e (on_changed changed p).0 ≢ ok ignored
unfolding on_changed on_changed_leader on_changed_other dispatch on_add_node on_node_added
dispatch-on_changed none p b e h k = ground (arith, eq_refl p.local_unit)
dispatch-on_changed (some u) p b e h k = ground (arith, eq_refl p.local_unit)

-- The departure of a unit is acted on by the leader and by the departing unit, and by no other.
pub dispatch-remove_node :
    (departing : String) (p : ClusterdPeers)
    → (dispatch (ok true) (remove_node (some departing)) p ≡ ok called_back)
      ↔ ((p.is_leader ≡ true) ⊎ (p.local_unit ≡ departing))
unfolding dispatch on_remove_node
dispatch-remove_node departing p = ground (arith, eq_iff p.local_unit departing)
