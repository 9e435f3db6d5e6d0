-- ===== src/Pebble/Health.antt =====
-- container_handlers.py: when `_on_update_status` reports a handler as active.
use sunbeam_charms.Prelude.{
  String, ◌≡◌, ◌↔◌, refl, Bool, true, [], ◌∷◌, all_of, is_empty, arith, if◌then◌else◌,
}
use sunbeam_charms.Dict.{Dict, keys}
use sunbeam_charms.Status.{active_status}
use sunbeam_charms.Pebble.{
  Container, Parts, pebble_ready, service_ready, failed_checks, failed, assessed,
}

abbrev pub all_up : Dict Bool → Bool
all_up checks = all_of (λ (k : String × Bool). k.1) checks

is_empty-failed_checks : (checks : Dict Bool) → is_empty (failed_checks checks) ≡ all_up checks
unfolding failed_checks keys
is_empty-failed_checks [] = refl
is_empty-failed_checks ((name, up) ∷ rest) = ground (arith, is_empty-failed_checks rest)

module _ {V : Type 0} (c : Container V) (parts : Parts V) where
  -- The checks that count: those of level ready, or else those of level alive.
  abbrev pub checks : V → Dict Bool
  checks v = if is_empty (c.ready_checks v) then c.alive_checks v else c.ready_checks v

  is_empty-failed : (v : V) → is_empty (failed c parts v) ≡ all_up (checks v)
  unfolding failed
  is_empty-failed v =
      ground (
        arith,
        is_empty-failed_checks (c.ready_checks v),
        is_empty-failed_checks (c.alive_checks v),
      )

  -- An update-status event makes the handler active exactly when Pebble can be reached, all its
  -- services run, and every check that counts is up: those of level ready, or, if there are none,
  -- those of level alive.
  pub assessed-active :
      (v : V)
      → (assessed c parts v ≡ active_status "") ↔ (
          (pebble_ready c parts v ≡ true)
          × (all_up (c.get_services v) ≡ true)
          × (all_up (checks v) ≡ true))
  unfolding assessed service_ready
  assessed-active v = ground (arith, is_empty-failed v)
