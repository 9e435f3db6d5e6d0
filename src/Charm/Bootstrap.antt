-- ===== src/Charm/Bootstrap.antt =====
-- charm.py: when a unit is marked as bootstrapped, and what its statuses show until then.
use sunbeam_charms.Prelude.{◌≡◌, refl, ◌∙◌, true, false, Option, arith, is_empty}
use sunbeam_charms.Exec.{Exc, ok, raised, Action, waiting_error, skip, Done, continue}
use sunbeam_charms.Status.{StatusBase, Ops}
use sunbeam_charms.Guard.{guard_except, to_status}
use sunbeam_charms.Guard.Outcomes.{guard_raised}
use sunbeam_charms.Relations.{Handler, Event}
use sunbeam_charms.Charm.{
  Charm, base_class, is_leader_ready, check_leader_ready, not_ready, base_configure_unit,
  set_status, bootstrapping, configure_charm,
}
use sunbeam_charms.Charm.Configure.{IsQuiet, check_relation_handlers-fail, bootstrapping_rest}

module _ {W : Type 0} where
  -- The check reads the charm and leaves it alone.
  check_leader_ready-state : (c : Charm W) → (check_leader_ready c).1 ≡ c
  unfolding check_leader_ready is_leader_ready
  check_leader_ready-state c = ground arith

  abbrev FailsAt : Charm W → Done × Charm W → Type 0
  FailsAt c r = (e : Exc) × (r ≡ (raised e, c))

  continue_fails :
      (f : Unit {0} → Action (Charm W)) (r : Done × Charm W) (c : Charm W) (x : Exc)
      → r.1 ≡ c
      → f tt c ≡ (raised x, c)
      → FailsAt c (continue f r)
  continue_fails f (ok u, d) c x e h = (x, rw e h)
  continue_fails f (raised y, d) c x e h = (y, rw e)

  unit_fails :
      (event : Event) (c : Charm W)
      → is_empty (not_ready event c) ≡ false
      → FailsAt c (base_configure_unit (λ missing. skip) event c)
  unfolding base_configure_unit
  unit_fails event c n =
      continue_fails _ (check_leader_ready c) c (waiting_error "Not all relations are ready")
        (check_leader_ready-state c)
        (rw (check_relation_handlers-fail (λ missing. skip) event c c n refl))

module _ {W : Type 0} ⦃ops : Ops⦄ where
  flag-guard_except :
      (e : Exc) (o : Option StatusBase) (c : Charm W)
      → (guard_except set_status true true e o c).1.unit_bootstrapped ≡ c.unit_bootstrapped
  unfolding guard_except set_status
  flag-guard_except e o c = ground arith

  -- In a class that overrides nothing and whose handlers' updates change nothing, no event marks a
  -- unit as bootstrapped, or takes the mark away, while a mandatory relation is not ready, whether
  -- or not the unit leads.
  pub unit_bootstrapped-configure_charm :
      (update : Handler → Action (Charm W)) (event : Event) (c : Charm W)
      → IsQuiet update
      → is_empty (not_ready event c) ≡ false
      → (configure_charm (base_class update) event c).1.unit_bootstrapped ≡ c.unit_bootstrapped
  unfolding configure_charm
  unit_bootstrapped-configure_charm update event c q n =
      let (e, h) = unit_fails event c n in
      rw
        (guard_raised set_status true true (bootstrapping (base_class update) event) c c e
          (bootstrapping_rest update q event c ∙ rw h))
        (flag-guard_except e (to_status e) c)
