-- ===== src/Guard.antt =====
-- ops-sunbeam/ops_sunbeam/guard.py: the context manager that turns exceptions into statuses.
pub mod Outcomes
use sunbeam_charms.Prelude.{String, Bool, true, false, Option, none, some, [], ◌∷◌, if◌then◌else◌}
use sunbeam_charms.Text.{concat}
use sunbeam_charms.Exec.{
  Exc, Done, ok, raised, Action, Response, guard_error, blocked_error, waiting_error,
  maintenance_error, not_implemented, unavailable, snap_error, snap_not_found,
  snap_installation_error, timeout, value_error, key_error, attribute_error, assertion_error,
  change_error, exec_error, path_error, keystone_error, pebble_timeout, connection_error,
  retry_error, http_error, other_error,
}
use sunbeam_charms.Status.{StatusBase, blocked_status, waiting_status, maintenance_status}

-- `str(e)`
unfoldable pub exc_text : Exc → String
exc_text (guard_error m) = m
exc_text (blocked_error m) = m
exc_text (waiting_error m) = m
exc_text (maintenance_error m) = m
exc_text (not_implemented m) = m
exc_text (unavailable m) = m
exc_text (snap_error m) = m
exc_text (snap_not_found m) = m
exc_text (snap_installation_error m) = m
exc_text (timeout m) = m
exc_text (value_error m) = m
exc_text (key_error m) = m
exc_text (attribute_error m) = m
exc_text (assertion_error m) = m
exc_text (change_error m) = m
exc_text (exec_error m) = m
exc_text (path_error m) = m
exc_text (keystone_error m) = m
exc_text (pebble_timeout m) = m
exc_text (connection_error m) = m
exc_text (retry_error m) = m
exc_text (http_error m r) = m
exc_text (other_error m) = m

-- The exceptions that stand for a status, `to_status`.
unfoldable pub to_status : Exc → Option StatusBase
to_status (blocked_error m) = some (blocked_status m)
to_status (waiting_error m) = some (waiting_status m)
to_status (maintenance_error m) = some (maintenance_status m)
to_status _ = none

abbrev pub is_guard_error : Exc → Bool
is_guard_error (guard_error m) = true
is_guard_error _ = false

unfoldable pub unexpected_status : Exc → StatusBase
unfolding concat exc_text
unexpected_status e = blocked_status (concat ("Error in charm (see logs): " ∷ exc_text e ∷ []))

-- `set_status` is `charm.status.set`.
module _ {S : Type 0} (set_status : StatusBase → S → S)
    (handle_exception log_traceback : Bool) where
  unfoldable pub guard_except : Exc → Option StatusBase → Action S
  guard_except e (some st) s = (ok tt, set_status st s)
  guard_except e none s =
      if is_guard_error e
      then (ok tt, s)
      else if handle_exception
      then (ok tt, if log_traceback then set_status (unexpected_status e) s else s)
      else (raised e, s)

  abbrev pub guard_end : Done × S → Done × S
  guard_end (ok a, s) = (ok a, s)
  guard_end (raised e, s) = guard_except e (to_status e) s

  -- `with guard(charm, section, handle_exception, log_traceback): body`
  unfoldable pub guard : Action S → Action S
  unfolding guard_except to_status unexpected_status
  guard body s = guard_end (body s)
