-- ===== src/Clusterd/Nodes/Removal.antt =====
-- charm.py of sunbeam-clusterd: the removal of a node.
use mathlib.Core.Path.{subst}
use sunbeam_charms.Prelude.{
  ℕ, String, ◌≡◌, ◌≢◌, refl, ap, ◌∙◌, Bool, true, false, some, List, ◌==◌, eq_iff, arith,
}
use sunbeam_charms.Exec.{
  Response, Result, ok, raised, Exec, waiting_error, http_error, continue, continue-ok, handle,
}
use sunbeam_charms.Status.{waiting_status}
use sunbeam_charms.Clusterd.Client.{Http, Member, get_members}
use sunbeam_charms.Clusterd.Nodes.{Node, Retry, with_daemon, false_if_retried}
use sunbeam_charms.Clusterd.Nodes.Leaving.{
  is_settled, roles_settled, wait_until_roles_are_settled, leaving_message, unsettled_error,
  wait_for_roles_to_settle_before_removal, removal, settle, remove_node_from_cluster,
  returned_or_waiting, remove_member_from_cluster, leader_drops_token,
}

-- A call that is retried until it answers True: an answer is True, and is that of the last try.
abbrev pub EndsInTry : {W : Type 0} → Retry W → Type 0
EndsInTry {W} retry =
    (seconds : ℕ) (try_once : Exec W Bool) (b : Bool) (w v : W)
    → retry.until_true seconds try_once w ≡ (ok b, v)
    → (b ≡ true) × (u : W) × (try_once u ≡ (ok true, v))

module _ {W : Type 0} (http : Http W) where
  settled_members :
      (u v : W)
      → roles_settled http u ≡ (ok true, v)
      → (members : List Member) × (get_members http u ≡ (ok members, v))
        × (is_settled members ≡ true)
  unfolding roles_settled
  settled_members u v h =
      let (members, k, e, q) = continue-ok _ (get_members http u) h in
      (members, e ∙ ap (λ x. (ok members, x)) (ap (λ r. r.1) q), ground arith)

other_unit :
    {W : Type 0} (departing : String) (n : Node W)
    → departing ≢ n.unit_name
    → (departing == n.unit_name) ≡ false
other_unit departing n ne = ground (arith, eq_iff departing n.unit_name)

module _ {W : Type 0} (http : Http W) (retry : Retry W) where
  -- If the wait ends with the roles of the cluster not settled, no node is removed: the event is
  -- deferred, and a waiting error is raised.
  pub remove_node_from_cluster-unsettled :
      (departing : String) (n : Node W) (w : W)
      → wait_until_roles_are_settled http retry n.daemon ≡ (ok false, w)
      → let message = leaving_message (departing == n.unit_name) in
        remove_node_from_cluster http retry (some departing) n ≡ (
          raised (waiting_error message),
          record n { status = waiting_status message; daemon = w; deferred = true },
        )
  unfolding remove_node_from_cluster wait_for_roles_to_settle_before_removal unsettled_error
  remove_node_from_cluster-unsettled departing n w h = rw h

  -- An HTTP error of the wait for settled roles, with a response, does not stop the removal of
  -- another unit: the removal goes on.
  pub remove_node_from_cluster-error :
      (departing msg : String) (answer : Response) (n : Node W) (w : W)
      → wait_until_roles_are_settled http retry n.daemon
        ≡ (raised (http_error msg (some answer)), w)
      → departing ≢ n.unit_name
      → remove_node_from_cluster http retry (some departing) n
        ≡ removal http retry departing false false
            (record n { status = waiting_status (leaving_message false); daemon = w })
  unfolding remove_node_from_cluster wait_for_roles_to_settle_before_removal unsettled_error
  remove_node_from_cluster-error departing msg answer n w h ne =
      rw (h, other_unit departing n ne) (ground arith)

  -- Only a unit that departs itself can find that it has left already.
  stays :
      (n k : Node W) (b : Bool)
      → wait_for_roles_to_settle_before_removal http retry false n ≡ (ok b, k)
      → b ≡ false
  unfolding wait_for_roles_to_settle_before_removal unsettled_error
  stays n k b h = ground arith

  module _ (ends : EndsInTry retry) where
    waited :
        (w v : W)
        → wait_until_roles_are_settled http retry w ≡ (ok true, v)
        → (u : W) × (roles_settled http u ≡ (ok true, v))
    unfolding wait_until_roles_are_settled
    waited w v h = go (retry.until_true 60 (roles_settled http) w) refl h
      where
        go :
            (r : Result Bool × W)
            → retry.until_true 60 (roles_settled http) w ≡ r
            → handle false_if_retried r ≡ (ok true, v)
            → (u : W) × (roles_settled http u ≡ (ok true, v))
        go (ok b, k) e q = let (_, u, t) = ends 60 (roles_settled http) true w v (e ∙ q) in (u, t)
        go (raised x, k) e q = ground arith

    last_wait :
        (k m : Node W)
        → settle http retry false k ≡ (ok tt, m)
        → (w : W) × (wait_until_roles_are_settled http retry w ≡ (ok true, m.daemon))
    last_wait k m h = go (wait_until_roles_are_settled http retry k.daemon) refl h
      where
        there : Node W
        there = record k { status = waiting_status "Waiting for roles to settle" }

        go :
            (r : Result Bool × W)
            → wait_until_roles_are_settled http retry k.daemon ≡ r
            → continue (returned_or_waiting "Waiting for roles to settle") (with_daemon there r)
              ≡ (ok tt, m)
            → (w : W) × (wait_until_roles_are_settled http retry w ≡ (ok true, m.daemon))
        go (ok true, v) e q = (k.daemon, e ∙ ap (λ r. (ok true, r.1.daemon)) q)
        go (ok false, v) e q = cc
        go (raised x, v) e q = cc

    -- If retried calls end with a try that answered True, then a removal of another unit that
    -- returned leaves the cluster with settled roles: in the list of the members that the daemon
    -- gave last, the number of voters is odd.
    pub remove_node_from_cluster-settled :
        (departing : String) (n m : Node W)
        → departing ≢ n.unit_name
        → remove_node_from_cluster http retry (some departing) n ≡ (ok tt, m)
        → (members : List Member) × (u : W) × (get_members http u ≡ (ok members, m.daemon))
          × (is_settled members ≡ true)
    unfolding remove_node_from_cluster
    remove_node_from_cluster-settled departing n m ne h =
        let (b, k1, e1, h1) =
          continue-ok _ (wait_for_roles_to_settle_before_removal http retry false n)
            (rw (other_unit departing n ne) at h) in
        let h2 =
          subst (λ x. removal http retry departing false x k1 ≡ (ok tt, m)) (stays n k1 b e1) h1 in
        let (_, k2, _, h3) = continue-ok _ (remove_member_from_cluster http departing k1) h2 in
        let (w, e4) = last_wait (leader_drops_token departing k2).1 m h3 in
        let (u, e5) = waited w m.daemon e4 in
        let (members, e6, odd) = settled_members http u m.daemon e5 in (members, u, e6, odd)
