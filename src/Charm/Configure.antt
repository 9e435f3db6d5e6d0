-- ===== src/Charm/Configure.antt =====
-- charm.py: how `configure_charm` ends, in every class and in a class that overrides nothing.
use sunbeam_charms.Prelude.{
  String, ◌≡◌, refl, ◌∙◌, ◌⊎◌, inl, inr, Bool, true, false, List, [], ◌∷◌, arith, is_empty,
  if◌then◌else◌,
}
use sunbeam_charms.Exec.{
  ok, raised, Action, for_each, not_implemented, waiting_error, skip, modify, ◌>>◌,
}
use sunbeam_charms.Status.{Ops, active_status, waiting_status}
use sunbeam_charms.Guard.{to_status}
use sunbeam_charms.Guard.Outcomes.{guard-returns, guard_ok, guard_status}
use sunbeam_charms.Relations.{Handler, Event}
use sunbeam_charms.Charm.{
  Charm, Class, base_class, announced, leader_ready, supports_peer_relation, is_leader_ready,
  set_leader_ready, bootstrapped, check_leader_ready, not_ready, set_unit_bootstrapped,
  check_relation_handlers_ready, update_relations, base_configure_unit, configure_app,
  base_configure_app_leader, base_configure_app_non_leader, set_status, set_bootstrap_status,
  base_post_config_setup, bootstrapping, configure_charm,
}

module _ {W : Type 0} ⦃ops : Ops⦄ where
  -- Whatever the class and the event, `configure_charm` returns: no exception of the charm's code
  -- reaches the framework from it.
  pub configure_charm-returns :
      (cls : Class W) (event : Event) (c : Charm W) → (configure_charm cls event c).0 ≡ ok tt
  unfolding configure_charm
  configure_charm-returns cls event c = guard-returns set_status true (bootstrapping cls event) c

module _ {W : Type 0} where
  -- A handler's update that leaves the charm as it is, or is not implemented.
  abbrev pub IsQuiet : (Handler → Action (Charm W)) → Type 0
  IsQuiet update =
      (h : Handler) (c : Charm W)
      → (update h c ≡ (ok tt, c)) ⊎ ((m : String) × (update h c ≡ (raised (not_implemented m), c)))

  for_each-quiet :
      (body : Handler → Action (Charm W)) (hs : List Handler) (c : Charm W)
      → ((h : Handler) → body h c ≡ (ok tt, c))
      → for_each hs body c ≡ (ok tt, c)
  unfolding for_each
  for_each-quiet body [] c q = refl
  for_each-quiet body (h ∷ hs) c q = rw (q h) (for_each-quiet body hs c q)

  pub update_relations-quiet :
      (cls : Class W) (c : Charm W)
      → IsQuiet cls.update_relation_data
      → update_relations cls c ≡ (ok tt, c)
  unfolding update_relations
  update_relations-quiet cls c q =
      for_each-quiet _ c.relation_handlers c λ h. elim (q h c) [ inl e ↦ rw e | inr (m, e) ↦ rw e ]

-- The steps of the section, one equation for each branch.
module _ {W : Type 0} where
  pub check_leader_ready-leads :
      (c : Charm W) → c.unit_is_leader ≡ true → check_leader_ready c ≡ (ok tt, c)
  unfolding check_leader_ready
  check_leader_ready-leads c l = ground arith

  pub check_leader_ready-follows :
      (c : Charm W) (b : Bool)
      → c.unit_is_leader ≡ false
      → supports_peer_relation c ≡ true
      → leader_ready c.peers ≡ ok b
      → check_leader_ready c ≡ (if b then ok tt else raised (waiting_error "Leader not ready"), c)
  unfolding check_leader_ready is_leader_ready
  check_leader_ready-follows c true l s r = ground arith
  check_leader_ready-follows c false l s r = ground arith

  pub check_relation_handlers-pass :
      (stop : List String → Action (Charm W)) (event : Event) (c : Charm W)
      → not_ready event c ≡ []
      → check_relation_handlers_ready stop event c ≡ (ok tt, c)
  unfolding check_relation_handlers_ready
  check_relation_handlers-pass stop event c n = rw n

  pub check_relation_handlers-fail :
      (stop : List String → Action (Charm W)) (event : Event) (c d : Charm W)
      → is_empty (not_ready event c) ≡ false
      → stop (not_ready event c) c ≡ (ok tt, d)
      → check_relation_handlers_ready stop event c
        ≡ (raised (waiting_error "Not all relations are ready"), d)
  unfolding check_relation_handlers_ready
  check_relation_handlers-fail stop event c d n k = rw n (rw k)

  pub configure_app-leads :
      (cls : Class W) (event : Event) (c : Charm W)
      → c.unit_is_leader ≡ true
      → configure_app cls event c ≡ cls.configure_app_leader event c
  unfolding configure_app
  configure_app-leads cls event c l = ground arith

  pub configure_app-follows :
      (cls : Class W) (event : Event) (c : Charm W)
      → c.unit_is_leader ≡ false
      → configure_app cls event c ≡ cls.configure_app_non_leader event c
  unfolding configure_app
  configure_app-follows cls event c l = ground arith

  abbrev pub marked : Charm W → Charm W
  marked c = record c { unit_bootstrapped = true }

  abbrev pub announce : Charm W → Charm W
  announce c = record c { peers = announced c.peers }

module _ {W : Type 0} ⦃ops : Ops⦄ (update : Handler → Action (Charm W)) (q : IsQuiet update) where
  -- What the guarded section does once the handlers were asked to update.
  pub bootstrapping_rest :
      (event : Event) (c : Charm W)
      → bootstrapping (base_class update) event c
        ≡ (base_configure_unit (λ missing. skip) event
              >> (configure_app (base_class update) event
                  >> (modify (set_bootstrap_status (active_status "")) >> base_post_config_setup)))
            c
  unfolding bootstrapping
  bootstrapping_rest event c = rw (update_relations-quiet (base_class update) c q)

  -- The leader of a charm that overrides nothing, whose handlers' updates change nothing and whose
  -- mandatory relations are all ready, is marked as bootstrapped, tells its peers that it is ready,
  -- and sets both of the base class's statuses to active with no message; nothing else of the charm
  -- changes.
  pub configure_charm-leader :
      (event : Event) (c : Charm W)
      → c.unit_is_leader ≡ true
      → not_ready event c ≡ []
      → configure_charm (base_class update) event c ≡ (
        ok tt,
        set_status
            (active_status "")
            (set_bootstrap_status (active_status "") (announce (marked c))),
      )
  unfolding configure_charm base_configure_unit set_unit_bootstrapped base_configure_app_leader
      set_leader_ready base_post_config_setup
  configure_charm-leader event c l n = guard_ok set_status true true _ c _ (
      bootstrapping_rest event c
      ∙ rw (
        check_leader_ready-leads c l,
        check_relation_handlers-pass (λ missing. skip) event c n,
        configure_app-leads (base_class update) event (marked c) l,
      ))

  -- A unit that does not lead, of a charm that overrides nothing and whose handlers' updates change
  -- nothing, in an application with a peer relation whose leader is ready and whose mandatory
  -- relations are ready, is marked as bootstrapped and sets both statuses to active, but announces
  -- nothing.
  pub configure_charm-non_leader :
      (event : Event) (c : Charm W)
      → c.unit_is_leader ≡ false
      → supports_peer_relation c ≡ true
      → leader_ready c.peers ≡ ok true
      → not_ready event c ≡ []
      → configure_charm (base_class update) event c ≡ (
        ok tt,
        set_status (active_status "") (set_bootstrap_status (active_status "") (marked c)),
      )
  unfolding configure_charm base_configure_unit set_unit_bootstrapped base_configure_app_non_leader
      bootstrapped is_leader_ready base_post_config_setup
  configure_charm-non_leader event c l s r n = guard_ok set_status true true _ c _ (
      bootstrapping_rest event c
      ∙ rw
          (
            check_leader_ready-follows c true l s r,
            check_relation_handlers-pass (λ missing. skip) event c n,
            configure_app-follows (base_class update) event (marked c) l,
          )
          (rw r))

  -- A unit that does not lead, of a charm that overrides nothing and whose handlers' updates change
  -- nothing, in an application with a peer relation whose leader is not ready, only sets its status
  -- to waiting.
  pub configure_charm-leader_not_ready :
      (event : Event) (c : Charm W)
      → c.unit_is_leader ≡ false
      → supports_peer_relation c ≡ true
      → leader_ready c.peers ≡ ok false
      → configure_charm (base_class update) event c
        ≡ (ok tt, set_status (waiting_status "Leader not ready") c)
  unfolding configure_charm base_configure_unit
  configure_charm-leader_not_ready event c l s r =
      guard_status set_status true true _ c c (waiting_error "Leader not ready") _
        (bootstrapping_rest event c ∙ rw (check_leader_ready-follows c false l s r))
        (unfold to_status in refl)

  -- While a mandatory relation is not ready, the leader of a charm that overrides nothing and whose
  -- handlers' updates change nothing only sets its status to waiting: it is not marked as
  -- bootstrapped, and the application is not configured.
  pub configure_charm-relations_not_ready :
      (event : Event) (c : Charm W)
      → c.unit_is_leader ≡ true
      → is_empty (not_ready event c) ≡ false
      → configure_charm (base_class update) event c
        ≡ (ok tt, set_status (waiting_status "Not all relations are ready") c)
  unfolding configure_charm base_configure_unit
  configure_charm-relations_not_ready event c l n =
      guard_status set_status true true _ c c (waiting_error "Not all relations are ready") _
        (bootstrapping_rest event c
          ∙ rw (
            check_leader_ready-leads c l,
            check_relation_handlers-fail (λ missing. skip) event c c n refl,
          ))
        (unfold to_status in refl)
