-- ===== src/Kubernetes/Sequence.antt =====
-- charm.py, OSBaseOperatorCharmK8S: what a configured unit has been through.
use sunbeam_charms.Prelude.{
  String, ◌≡◌, refl, ap, sym, ◌∙◌, true, false, List, [], ◌∷◌, ◌++◌, all_of, arith, Bool-cases, inl,
  inr,
}
use sunbeam_charms.Exec.{Done, ok, raised, continue-ok, for_each, for_each-append, waiting_error}
use sunbeam_charms.Jobs.{Storage, has_run}
use sunbeam_charms.Jobs.Once.{skips, has_run-run_once_per_unit}
use sunbeam_charms.Relations.{Event}
use sunbeam_charms.Charm.{
  Charm, check_leader_ready, check_relation_handlers_ready, set_unit_bootstrapped,
}
use sunbeam_charms.Kubernetes.{
  Pebbles, check_service, check_pebble_handlers_ready, containers_ready, configure_unit,
  run_db_sync, db_sync, stop_services, configure_containers, init_container_services, if_ready,
}

module _ {W : Type 0} (p : Pebbles W) (storage : Storage (Charm W)) where
  -- The services that the loop has passed all ran.
  checked :
      (names : List String) (c d : Charm W)
      → for_each names (check_service p storage) c ≡ (ok tt, d)
      → (d ≡ c) × (all_of (λ name. p.service_ready name c) names ≡ true)
  unfolding for_each check_service
  checked [] c d h = (sym (ap (λ (r : Done × Charm W). r.1) h), refl)
  checked (name ∷ rest) c d h = elim (Bool-cases (p.service_ready name c)) [
    | inl e ↦ let k = checked rest c d (rw e at h) in (k.0, rw (e, k.1))
    | inr e ↦ ground arith
  ]

  -- A unit that `configure_unit` returns from is marked as bootstrapped, and every service of every
  -- container was found running in the state that it leaves, but for that mark.
  pub configure_unit-ready :
      (now : String) (event : Event) (c d : Charm W)
      → configure_unit p storage now event c ≡ (ok tt, d)
      → (b : Charm W) × (d ≡ record b { unit_bootstrapped = true })
        × (containers_ready p storage b ≡ true)
  unfolding configure_unit check_pebble_handlers_ready set_unit_bootstrapped containers_ready
  configure_unit-ready now event c d h =
      let (_, c1, _, h1) = continue-ok _ (check_leader_ready c) h in
      let (_, c2, _, h2) =
        continue-ok _ (check_relation_handlers_ready (stop_services p storage) event c1) h1 in
      let (_, c3, _, h3) = continue-ok _ (p.open_ports c2) h2 in
      let (_, c4, _, h4) = continue-ok _ (configure_containers p storage c3) h3 in
      let (_, c5, _, h5) = continue-ok _ (run_db_sync p storage now c4) h4 in
      let (_, c6, _, h6) = continue-ok _ (init_container_services p storage c5) h5 in
      let (_, c7, e7, h7) = continue-ok _ (check_pebble_handlers_ready p storage c6) h6 in
      let (same, up) = checked p.pebble_handlers c6 c7 e7 in
      (
        c6,
        sym (ap (λ (r : Done × Charm W). r.1) h7)
            ∙ ap (λ (b : Charm W). record b { unit_bootstrapped = true }) same,
        up,
      )

  -- Once `run_db_sync` has returned, whether or not the unit led, it returns at once and changes
  -- nothing in every later state that has the same record of the job, also if the unit leads by
  -- then.
  pub run_db_sync-once :
      (now later : String) (c d e : Charm W)
      → run_db_sync p storage now c ≡ (ok tt, d)
      → has_run storage "db-sync" e ≡ has_run storage "db-sync" d
      → run_db_sync p storage later e ≡ (ok tt, e)
  unfolding run_db_sync
  run_db_sync-once now later c d e h k = skips storage "db-sync" later (db_sync p storage) e (
      k
      ∙ sym (ap (λ (r : Done × Charm W). has_run storage "db-sync" r.1) h)
      ∙ has_run-run_once_per_unit storage "db-sync" now (db_sync p storage) c
          (ap (λ (r : Done × Charm W). r.0) h))

  -- A container that cannot be reached ends the configuration of the containers with a waiting
  -- error, after the containers in front of it and before those behind it.
  pub configure_containers-not_ready :
      (front rest : List String) (name : String) (c d : Charm W)
      → p.pebble_handlers ≡ front ++ (name ∷ rest)
      → for_each front (if_ready p storage p.configure_container) c ≡ (ok tt, d)
      → p.pebble_ready name d ≡ false
      → configure_containers p storage c ≡ (raised (waiting_error "Payload container not ready"), d)
  unfolding configure_containers
  configure_containers-not_ready front rest name c d e h n =
      ap (λ names. for_each names (if_ready p storage p.configure_container) c) e
      ∙ for_each-append (if_ready p storage p.configure_container) front (name ∷ rest) c
      ∙ rw h (unfold for_each if_ready in rw n)
