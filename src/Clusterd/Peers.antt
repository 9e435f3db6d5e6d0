-- ===== src/Clusterd/Peers.antt =====
-- charms/sunbeam-clusterd/src/relation_handlers.py: the peer relation of the cluster's units, the
-- events that it emits, and what its handler does with them.
pub mod Events
use sunbeam_charms.Prelude.{
  String, Bool, true, false, not, ◌&&◌, Option, none, some, List, [], ◌∷◌, keep, is_empty, ◌==◌,
  if◌then◌else◌,
}
use sunbeam_charms.Text.{concat, ends_with}
use sunbeam_charms.Dict.{contains, keys}
use sunbeam_charms.Exec.{Result, ok, raised}
use sunbeam_charms.Peers.{OperatorPeers, get_all_app_data}
use sunbeam_charms.Relations.{Event, new_node, node_added, remove_node}

-- ClusterdPeers: the interface, its stored flag, and whether the unit leads.
pub record ClusterdPeers : Type 0 where
  pub interface : OperatorPeers
  pub open interface use {local_unit}
  pub joined : Bool
  pub is_leader : Bool

unfoldable pub join_token_key : String → String
join_token_key unit = concat (unit ∷ ".join_token" ∷ [])

-- The keys of the join tokens in the application's data.
unfoldable pub token_keys : ClusterdPeers → List String
token_keys p = keep (λ k. ends_with ".join_token" k) (keys (get_all_app_data p.interface))

-- `on_changed`, below the branch of a leader that was told the unit.
unfoldable pub on_changed_leader : String → ClusterdPeers → ClusterdPeers × Option Event
on_changed_leader unit p =
    let tokens = token_keys p in
    let seeded = if is_empty tokens then record p { joined = true } else p in
    if contains (join_token_key unit) tokens
    then (seeded, none)
    else (seeded, some (new_node (some unit)))

unfoldable pub on_changed_other : ClusterdPeers → ClusterdPeers × Option Event
on_changed_other p =
    if p.joined
    then (p, none)
    else if contains (join_token_key p.local_unit) (token_keys p)
    then (p, some (node_added (some p.local_unit)))
    else (p, none)

-- `on_changed`, with the event's unit: the new state and the event that is emitted, if any.
unfoldable pub on_changed : Option String → ClusterdPeers → ClusterdPeers × Option Event
on_changed none p = on_changed_other p
on_changed (some unit) p = if p.is_leader then on_changed_leader unit p else on_changed_other p

-- `on_departed`, with the departing unit.
unfoldable pub on_departed : Option String → Option Event
on_departed none = none
on_departed (some unit) = some (remove_node (some unit))

-- What ClusterdPeerHandler does with an event: nothing, defer it, or call back the charm.
pub data Decision : Type 0 where
  ignored deferred called_back : Decision

abbrev if_leader_ready : Result Bool → Result Decision
if_leader_ready (ok true) = ok called_back
if_leader_ready (ok false) = ok deferred
if_leader_ready (raised e) = raised e

module _ (p : ClusterdPeers) (leader_ready : Result Bool) where
  unfoldable pub on_add_node : Result Decision
  on_add_node = if p.is_leader then if_leader_ready leader_ready else ok ignored

  unfoldable pub on_remove_node : Option String → Result Decision
  on_remove_node none = ok ignored
  on_remove_node (some departing) =
      if not p.is_leader && not (p.local_unit == departing)
      then ok ignored
      else if_leader_ready leader_ready

unfoldable pub on_node_added : String → ClusterdPeers → Decision
on_node_added unit p = if p.local_unit == unit then called_back else ignored

-- The handler's answer to an emitted event.
unfoldable pub dispatch : Result Bool → Event → ClusterdPeers → Result Decision
dispatch leader_ready (new_node unit) p = on_add_node p leader_ready
dispatch leader_ready (node_added (some unit)) p = ok (on_node_added unit p)
dispatch leader_ready (remove_node unit) p = on_remove_node p leader_ready unit
dispatch leader_ready _ p = ok ignored
