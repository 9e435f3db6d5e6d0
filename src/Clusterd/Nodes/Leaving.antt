-- ===== src/Clusterd/Nodes/Leaving.antt =====
-- charms/sunbeam-clusterd/src/charm.py: how a node leaves the cluster.
use sunbeam_charms.Prelude.{
  ℕ, suc, ◌%◌, String, Bool, true, false, not, ◌&&◌, ◌||◌, Option, none, some, List, [], ◌∷◌,
  nat_eq, ◌==◌, if◌then◌else◌,
}
use sunbeam_charms.Text.{contains_text}
use sunbeam_charms.Dict.{remove}
use sunbeam_charms.Exec.{
  Response, Exc, ok, Exec, Action, waiting_error, unavailable, http_error, ◌>>=◌, ◌>>◌, pure, raise,
  gets, try◌except◌, skip,
}
use sunbeam_charms.Status.{waiting_status}
use sunbeam_charms.Peers.{OperatorPeers}
use sunbeam_charms.Clusterd.Client.{Http, Member, get_members, get_member, remove_node, is_status}
use sunbeam_charms.Clusterd.Peers.{join_token_key}
use sunbeam_charms.Clusterd.Nodes.{
  Node, Retry, member_name, false_if_retried, on_daemon, set_status, defer, set_interface,
}

unfoldable pub voters : List Member → ℕ
voters [] = 0
voters (m ∷ rest) = let n = voters rest in if m.role == "voter" then suc n else n

unfoldable pub is_settled : List Member → Bool
unfolding voters
is_settled members = not (nat_eq (voters members % 2) 0)

abbrev uninitialized : Response → Bool
uninitialized r = contains_text "Daemon not yet initialized" r.body

abbrev pub leaving_message : Bool → String
leaving_message self_departing =
    if self_departing
    then "Waiting for roles to settle before leaving cluster"
    else "Waiting for roles to settle before removing member"

abbrev drop_token : String → OperatorPeers → OperatorPeers
drop_token unit p = elim p.peers_rel [
  | none ↦ p
  | some r ↦ record p {
    peers_rel = some (record r { app_data = remove (join_token_key unit) r.app_data });
  }
]

module _ {W : Type 0} where
  -- The `except` clause around one look for the local member.
  unfoldable pub has_left : Exc → Exec W Bool
  has_left (http_error m (some r)) =
      if contains_text "database is closed" r.body || uninitialized r
      then pure true
      else raise (http_error m (some r))
  has_left e = raise e

  -- The errors that `_remove_member_from_cluster` passes over.
  unfoldable pub removal_error : Bool → Exc → Action (Node W)
  removal_error self_departing (unavailable m) =
      if contains_text "Remote end closed connection without response" m
      then skip
      else raise (unavailable m)
  removal_error self_departing (http_error m (some r)) =
      if not self_departing || not (is_status 503 r || is_status 500 r)
      then raise (http_error m (some r))
      else skip
  removal_error self_departing e = raise e

  -- The errors that `_wait_for_roles_to_settle_before_removal` passes over: every HTTP error. The
  -- answer says that the member has left the cluster already.
  unfoldable pub unsettled_error : Bool → Exc → Exec (Node W) Bool
  unsettled_error self_departing (http_error m (some r)) = pure (uninitialized r && self_departing)
  unsettled_error self_departing (http_error m none) = pure false
  unsettled_error self_departing e = raise e

  abbrev deferred_waiting : {A : Type 0} → String → Exec (Node W) A
  deferred_waiting m = do defer; raise (waiting_error m)

  abbrev settled_or_deferred : String → Bool → Exec (Node W) Bool
  settled_or_deferred message true = pure false
  settled_or_deferred message false = deferred_waiting message

  abbrev pub leader_drops_token : String → Action (Node W)
  leader_drops_token unit n =
      (ok tt, if n.peers.is_leader then set_interface (drop_token unit) n else n)

  abbrev pub returned_or_waiting : String → Bool → Action (Node W)
  returned_or_waiting message true = skip
  returned_or_waiting message false = deferred_waiting message

module _ {W : Type 0} (http : Http W) where
  unfoldable pub roles_settled : Exec W Bool
  roles_settled = do members ← get_members http; pure (is_settled members)

  unfoldable pub local_member_left : String → Exec W Bool
  local_member_left unit = try (do get_member http (member_name unit); pure false) except has_left

  unfoldable pub remove_member_from_cluster : String → Action (Node W)
  unfolding removal_error
  remove_member_from_cluster departing n =
      (try on_daemon (remove_node http (member_name departing) true true)
          except removal_error (departing == n.unit_name))
        n

module _ {W : Type 0} (http : Http W) (retry : Retry W) where
  unfoldable pub wait_until_roles_are_settled : Exec W Bool
  wait_until_roles_are_settled =
      try retry.until_true 60 (roles_settled http) except false_if_retried

  unfoldable pub wait_until_local_member_left : String → Exec W Bool
  wait_until_local_member_left unit =
      try retry.until_true 60 (local_member_left http unit) except false_if_retried

  -- The `try` covers the wait; the waiting error that it raises is no HTTP error.
  unfoldable pub wait_for_roles_to_settle_before_removal : Bool → Exec (Node W) Bool
  unfolding unsettled_error
  wait_for_roles_to_settle_before_removal self_departing = do
    set_status (waiting_status (leaving_message self_departing))
    try (do
      settled ← on_daemon wait_until_roles_are_settled
      settled_or_deferred (leaving_message self_departing) settled)
        except unsettled_error self_departing

  abbrev pub settle : Bool → Action (Node W)
  settle true = do
    set_status (waiting_status "Waiting for removal")
    unit ← gets (λ (n : Node W). n.unit_name)
    left ← on_daemon (wait_until_local_member_left unit)
    returned_or_waiting "Waiting for member to leave cluster" left
  settle false = do
    set_status (waiting_status "Waiting for roles to settle")
    settled ← on_daemon wait_until_roles_are_settled
    returned_or_waiting "Waiting for roles to settle" settled

  abbrev pub removal : String → Bool → Bool → Action (Node W)
  removal departing self_departing true = skip
  removal departing self_departing false = do
    remove_member_from_cluster http departing
    leader_drops_token departing
    settle self_departing

  unfoldable pub remove_node_from_cluster : Option String → Action (Node W)
  remove_node_from_cluster none = skip
  remove_node_from_cluster (some departing) = do
    self_departing ← gets (λ (n : Node W). departing == n.unit_name)
    already_left ← wait_for_roles_to_settle_before_removal self_departing
    removal departing self_departing already_left
