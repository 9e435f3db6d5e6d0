-- ===== src/Examples/Statuses.antt =====
-- Compound statuses, guarded sections and jobs at concrete inputs.
use mathlib.Core.List.{Mem}
use sunbeam_charms.Prelude.{ℕ, ◌≤◌, ◌≡◌, ◌≢◌, refl, ◌⊎◌, true, some, All, arith}
use sunbeam_charms.Exec.{Action, Exc, ok, raised, raise, skip, snap_error}
use sunbeam_charms.Status.{
  StatusBase, blocked, blocked_status, active_status, unknown_status, Status, Pool, name, init,
  status_priorities, priority, before, compute_status, display, insert_sorted, sorted, statuses,
  on_update, on_commit, add,
}
use sunbeam_charms.Status
use sunbeam_charms.Dict.{values, lookup}
use sunbeam_charms.Status.Display.{rank, compute_status-most_urgent, on_update-most_urgent}
use sunbeam_charms.Status.Members.{IsValid}
use sunbeam_charms.Status.Persist.{Same, next_run, next_run-restores}
use sunbeam_charms.Jobs.{has_run, open_storage, run_once_per_unit}
use sunbeam_charms.Jobs.Once.{run_once_per_unit-once}
use sunbeam_charms.Charm.{Charm}
use sunbeam_charms.Jobs
use sunbeam_charms.Dict
use sunbeam_charms.Examples.Data.{
  ops_by_name, two_statuses, fresh_objects, World, charm, peers_ready, in_world,
}

-- The blocked bootstrap status comes before the active workload status.
abbrev shown : StatusBase
shown = blocked_status "(bootstrap) no db"

shown_now : compute_status two_statuses ≡ some shown
unfolding compute_status sorted before priority status_priorities name statuses values display
    insert_sorted Status.prefixed
shown_now = refl

compute_status-most_urgent_example :
    All (λ t. status_priorities (name shown) ≤ rank t) (statuses two_statuses)
compute_status-most_urgent_example = compute_status-most_urgent two_statuses shown shown_now

on_update-most_urgent_example :
    ((st : StatusBase) × (name st ≢ Status.active)
      × (on_update two_statuses ≡ record two_statuses { unit_status = st })
      × ((t : Status.Status) × Mem t (statuses two_statuses) × (name t.status ≡ name st))
      × All (λ t. status_priorities (name st) ≤ rank t) (statuses two_statuses))
    ⊎ ((on_update two_statuses ≡ two_statuses) × All (λ t. 4 ≤ rank t) (statuses two_statuses))
on_update-most_urgent_example = on_update-most_urgent two_statuses

two_statuses-IsValid : IsValid two_statuses
two_statuses-IsValid = record {
  unique = (unfold lookup in refl, (unfold lookup in refl, tt));
  entries = ((refl, refl, ground arith), ((refl, refl, ground arith), tt));
}

next_run-restores_example :
    Same
      (((next_run "bootstrap" 90 fresh_objects unknown_status (on_commit two_statuses)).objects
        0).status)
      (blocked_status "no db")
next_run-restores_example =
    next_run-restores "bootstrap" 90 1 fresh_objects unknown_status two_statuses
      two_statuses-IsValid (unfold lookup in refl)

-- A section that notes a number and then fails.
abbrev failing : Exc → Action (ℕ × StatusBase)
failing e s = (raised e, (1, s.1))

-- A job on the unit's stored state.
abbrev unit : Charm World
unit = charm true true peers_ready

run_once_per_unit-once_example :
    run_once_per_unit in_world "db-sync" "t1"
      (raise (snap_error "again"))
      (run_once_per_unit in_world "db-sync" "t0" skip unit).1
    ≡ (ok tt, (run_once_per_unit in_world "db-sync" "t0" skip unit).1)
run_once_per_unit-once_example =
    run_once_per_unit-once in_world "db-sync" "t0" "t1" skip (raise (snap_error "again")) unit (
      unfold run_once_per_unit open_storage has_run Jobs.add_label in
      unfold Dict.has_key Dict.lookup in refl)
