-- ===== src/Clusterd/Application/Leading.antt =====
-- charm.py of sunbeam-clusterd: a leader that configures the application again.
use sunbeam_charms.Prelude.{String, ◌≡◌, refl, ap, sym, ◌∙◌, true, arith, Option-cases, inl, inr}
use sunbeam_charms.Dict.{Dict}
use sunbeam_charms.Exec.{ok, continue-ok}
use sunbeam_charms.Peers.{OperatorPeers, ready, set_app_data, set_leader_ready, is_leader_ready}
use sunbeam_charms.Peers.Readiness.{is_leader_ready-set}
use sunbeam_charms.Relations.{other_event}
use sunbeam_charms.Clusterd.Client.{Http}
use sunbeam_charms.Clusterd.Client
use sunbeam_charms.Clusterd.Nodes.{Node, Retry, clusterd_ready, configure_certificates}
use sunbeam_charms.Clusterd.Application.{
  announce_leader, leader_is_ready, require_clusterd, bootstrap_unless, after_bootstrap,
  configure_app_leader,
}

ready-set_leader_ready : (p : OperatorPeers) → ready (set_leader_ready p) ≡ ready p
unfolding ready set_leader_ready set_app_data
ready-set_leader_ready p = elim (Option-cases p.peers_rel) [
  | inl e ↦ ground arith
  | inr (r, e) ↦ ground arith
]

announced :
    (p q : OperatorPeers) → set_leader_ready p ≡ q → ready q ≡ true → is_leader_ready q ≡ ok true
announced p q e r =
    ap is_leader_ready (sym e)
    ∙ is_leader_ready-set p
    ∙ ap ok (sym (ready-set_leader_ready p) ∙ ap ready e ∙ r)

module _ {W : Type 0} (http : Http W) (retry : Retry W) (hash : Dict String → String) where
  -- A leader whose configuration of the application returned, at an event that asks for no new node
  -- and with a peer relation, does not bootstrap the cluster when it configures the application
  -- again: if clusterd answers that it is ready, the run goes on from the certificates.
  pub configure_app_leader-again :
      (n m : Node W) (w : W)
      → configure_app_leader http retry hash other_event n ≡ (ok tt, m)
      → ready m.peers.interface ≡ true
      → retry.until_available 10 (Client.ready http) m.daemon ≡ (ok true, w)
      → configure_app_leader http retry hash other_event m
        ≡ after_bootstrap http retry hash other_event (record m { daemon = w })
  unfolding configure_app_leader clusterd_ready announce_leader
  configure_app_leader-again n m w h r c = rw (c, leads) refl
    where
      leads : is_leader_ready m.peers.interface ≡ ok true
      leads =
          let (b, k1, _, h1) = continue-ok _ (clusterd_ready http retry n) h in
          let (_, k2, _, h2) = continue-ok _ (require_clusterd b k1) h1 in
          let (d, k3, _, h3) = continue-ok _ (leader_is_ready k2) h2 in
          let (_, k4, _, h4) = continue-ok _ (bootstrap_unless http retry hash d k3) h3 in
          let (_, k5, _, h5) = continue-ok _ (configure_certificates http hash k4) h4 in
          announced k5.peers.interface m.peers.interface (ap (λ r. r.1.peers.interface) h5) r
