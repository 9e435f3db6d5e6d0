-- ===== src/Ovn/Central/Announced.antt =====
-- charms/ovn-central-k8s/src/charm.py: what the other units are told when the leader has run.
use mathlib.Core.Path.{subst}
use sunbeam_charms.Prelude.{
  String, ◌≡◌, ◌==◌, refl, sym, ap, ◌∙◌, true, false, Option, none, some, [], ◌∷◌, arith,
  Option-cases, inl, inr, if◌then◌else◌,
}
use sunbeam_charms.Dict.{Dict, update, last_value}
use sunbeam_charms.Exec.{Exec, Result, ok, raised, attribute_error, continue-ok}
use sunbeam_charms.Peers.{
  leader_ready_key, json_true, OperatorPeers, ready, set_app_data, get_app_data, set_leader_ready,
  is_leader_ready, leader_set,
}
use sunbeam_charms.Peers.Readiness.{get_app_data-set, is_leader_ready-set}
use sunbeam_charms.Ovn.Clustering.{ClusterStatus}
use sunbeam_charms.Ovn.Central.{
  Central, Parts, on_world, start_databases, configure_listeners, status_of, tell_peers,
  configure_app_leader, start_northd, northd_container,
}

-- Writing to the data of the application does not make or end the relation.
ready-set : (settings : Dict String) (p : OperatorPeers) → ready (set_app_data settings p) ≡ ready p
unfolding ready set_app_data
ready-set settings p = ground arith

if_ready :
    (k : String) (p : OperatorPeers)
    → (if ready p then get_app_data k p else none) ≡ get_app_data k p
unfolding ready get_app_data
if_ready k p = elim (Option-cases p.peers_rel) [ inl e ↦ rw e refl | inr (r, e) ↦ rw e refl ]

cid-set_leader_ready :
    (k : String) (p : OperatorPeers)
    → (leader_ready_key == k) ≡ false
    → get_app_data k (set_leader_ready p) ≡ get_app_data k p
unfolding set_leader_ready last_value
cid-set_leader_ready k p h =
    get_app_data-set k ((leader_ready_key, json_true) ∷ []) p ∙ rw h (if_ready k p)

-- What a unit of the application finds once the leader is done: the leader is ready, and the ids of
-- the two clusters stand under their keys.
abbrev pub IsAnnounced : String → String → OperatorPeers → Type 0
IsAnnounced nb sb p =
    (is_leader_ready p ≡ ok true)
    × (get_app_data "nb_cid" p ≡ some nb)
    × (get_app_data "sb_cid" p ≡ some sb)

announced :
    (nb sb : String) (p : OperatorPeers)
    → let q = leader_set (("nb_cid", nb) ∷ ("sb_cid", sb) ∷ []) [] (set_leader_ready p) in
      ready q ≡ true → IsAnnounced nb sb (set_leader_ready q)
unfolding leader_set update last_value
announced nb sb p h =
    let settings : Dict String = ("nb_cid", nb) ∷ ("sb_cid", sb) ∷ [] in
    let told = set_leader_ready p in
    let related = sym (ready-set settings told) ∙ h in
    (
      is_leader_ready-set (set_app_data settings told) ∙ ap ok h,
      cid-set_leader_ready "nb_cid" (set_app_data settings told) refl
          ∙ (get_app_data-set "nb_cid" settings told ∙ rw related refl),
      cid-set_leader_ready "sb_cid" (set_app_data settings told) refl
          ∙ (get_app_data-set "sb_cid" settings told ∙ rw related refl),
    )

module _ {V : Type 0} where
  on_world-peers :
      (A : Type 0) (m : Exec V A) (c d : Central V) (r : Result A)
      → on_world m c ≡ (r, d)
      → d.peers ≡ c.peers
  on_world-peers A m c d r h = ap (λ (x : Result A × Central V). x.1.peers) (sym h)

module _ {V Num : Type 0} (p : Parts V Num) where
  -- If the databases were started and their listeners configured, but the state of the northbound
  -- cluster could not be read, the leader's handler ends with an AttributeError, and the units are
  -- told all the same that the leader is ready, if there is a peer relation; the id of the cluster
  -- is as it was.
  pub configure_app_leader-unread :
      (c c₁ c₂ c₃ c₄ : Central V) (sb : Option (ClusterStatus Num))
      → start_databases p c ≡ (ok tt, c₁)
      → configure_listeners p c₁ ≡ (ok tt, c₂)
      → status_of p "nb" "ovnnb_db" c₂ ≡ (ok none, c₃)
      → status_of p "sb" "ovnsb_db" c₃ ≡ (ok sb, c₄)
      → let (result, d) = configure_app_leader p c in
        (result ≡ raised (attribute_error "'NoneType' object has no attribute 'cluster_id'"))
        × (is_leader_ready d.peers ≡ ok (ready c₄.peers))
        × (get_app_data "nb_cid" d.peers ≡ get_app_data "nb_cid" c₄.peers)
  unfolding configure_app_leader
  configure_app_leader-unread c c₁ c₂ c₃ c₄ sb h₁ h₂ h₃ h₄ = rw h₁ (
      rw h₂ (
        rw h₃ (
          rw h₄ (refl, is_leader_ready-set c₄.peers, cid-set_leader_ready "nb_cid" c₄.peers refl))))

  told :
      (nb sb : Option (ClusterStatus Num)) (c d : Central V)
      → tell_peers p nb sb c ≡ (ok tt, d)
      → ready d.peers ≡ true
      → (n m : ClusterStatus Num) × (nb ≡ some n)
        × (sb ≡ some m)
        × IsAnnounced n.cluster_id m.cluster_id d.peers
  unfolding start_northd set_leader_ready leader_set update
  told none sb c d h r = cc
  told (some nb) none c d h r = cc
  told (some nb) (some sb) c d h r =
      let q =
        leader_set (("nb_cid", nb.cluster_id) ∷ ("sb_cid", sb.cluster_id) ∷ []) []
          (set_leader_ready c.peers) in
      let c₁ : Central V = record c { peers = set_leader_ready q } in
      let (_, c₂, e₁, h₁) = continue-ok _ (start_northd p c₁) h in
      let same : d.peers ≡ set_leader_ready q =
        on_world-peers (Unit {0}) p.check_pebble_handlers_ready c₂ d _ h₁
        ∙ on_world-peers (Unit {0}) (p.start_service northd_container) c₁ c₂ _ e₁ in
      (
        nb,
        sb,
        refl,
        refl,
        subst (IsAnnounced nb.cluster_id sb.cluster_id) (sym same) (
            announced nb.cluster_id sb.cluster_id c.peers
              (sym (ready-set ((leader_ready_key, json_true) ∷ []) q) ∙ (ap ready (sym same) ∙ r))),
      )

  -- If the leader's handler returns and there is a peer relation, the databases were started and
  -- their listeners configured, then the state of the northbound cluster and that of the southbound
  -- cluster were read, and the other units find the leader ready, the first one's id under nb_cid
  -- and the second one's under sb_cid.
  pub configure_app_leader-announced :
      (c d : Central V)
      → configure_app_leader p c ≡ (ok tt, d)
      → ready d.peers ≡ true
      → (nb sb : ClusterStatus Num) × (c₁ c₂ c₃ c₄ : Central V) × (start_databases p c
          ≡ (ok tt, c₁))
        × (configure_listeners p c₁ ≡ (ok tt, c₂))
        × (status_of p "nb" "ovnnb_db" c₂ ≡ (ok (some nb), c₃))
        × (status_of p "sb" "ovnsb_db" c₃ ≡ (ok (some sb), c₄))
        × IsAnnounced nb.cluster_id sb.cluster_id d.peers
  unfolding configure_app_leader
  configure_app_leader-announced c d h r =
      let (_, c₁, e₁, h₁) = continue-ok _ (start_databases p c) h in
      let (_, c₂, e₂, h₂) = continue-ok _ (configure_listeners p c₁) h₁ in
      let (nb, c₃, e₃, h₃) = continue-ok _ (status_of p "nb" "ovnnb_db" c₂) h₂ in
      let (sb, c₄, e₄, h₄) = continue-ok _ (status_of p "sb" "ovnsb_db" c₃) h₃ in
      let (n, m, is_n, is_m, told_both) = told nb sb c₄ d h₄ r in
      (n, m, c₁, c₂, c₃, c₄, e₁, e₂, rw (← is_n) e₃, rw (← is_m) e₄, told_both)
