-- ===== src/Keystone/Setup/Failures.antt =====
-- charms/keystone-k8s/src/charm.py, keystone_bootstrap: what a failed command becomes.
use sunbeam_charms.Prelude.{String, Bool, true, false, ◌≡◌, refl, List, arith, Option, none, some}
use sunbeam_charms.Exec.{
  Exc, Action, Done, ok, raised, exec_error, keystone_error, continue, handle, raise, for_each,
}
use sunbeam_charms.Status.{StatusBase, maintenance_status}
use sunbeam_charms.Guard.{guard, guard_end, to_status, guard_except}
use sunbeam_charms.Keystone.Keys.{Folders, fernet_folder}
use sunbeam_charms.Keystone.Setup.{
  Juju, Identity, chown_keystone, as_keystone_error, keystone_step, fernet_setup, credential_setup,
  bootstrap, setup_keystone, keystone_bootstrap,
}

-- The result is not that a command failed.
abbrev pub no_exec_error : Done → Bool
no_exec_error (ok u) = true
no_exec_error (raised (exec_error m)) = false
no_exec_error (raised e) = true

as_keystone_error-no_exec_error :
    (failure : String) (e : Exc) → no_exec_error (raised (as_keystone_error failure e)) ≡ true
as_keystone_error-no_exec_error failure e = ground arith

module _ {S : Type 0} where
  continue-no_exec_error :
      (n : Action S) (r : Done × S)
      → no_exec_error r.0 ≡ true
      → ((s : S) → no_exec_error (n s).0 ≡ true)
      → no_exec_error (continue (λ _. n) r).0 ≡ true
  continue-no_exec_error n (ok u, s) h k = k s
  continue-no_exec_error n (raised e, s) h k = h

  guard-no_exec_error :
      (set_status : StatusBase → S → S) (body : Action S) (s : S)
      → no_exec_error (body s).0 ≡ true
      → no_exec_error (guard set_status false true body s).0 ≡ true
  unfolding guard guard_except
  guard-no_exec_error set_status body s h = ended (body s) h
    where
      chosen :
          (e : Exc) (o : Option StatusBase) (t : S)
          → no_exec_error (raised e) ≡ true
          → no_exec_error (guard_except set_status false true e o t).0 ≡ true
      chosen e none t g = ground arith
      chosen e (some st) t g = refl

      ended :
          (r : Done × S)
          → no_exec_error r.0 ≡ true
          → no_exec_error (guard_end set_status false true r).0 ≡ true
      ended (ok u, t) g = refl
      ended (raised e, t) g = chosen e (to_status e) t g

module _ {S : Type 0} (run : List String → Action S) (set_unit_status : StatusBase → S → S) where
  keystone_step-no_exec_error :
      (message : String) (commands : List (List String)) (failure : String) (s : S)
      → no_exec_error (keystone_step run set_unit_status message commands failure s).0 ≡ true
  unfolding keystone_step
  keystone_step-no_exec_error message commands failure s =
      converted (for_each commands run (set_unit_status (maintenance_status message) s))
    where
      converted :
          (r : Done × S)
          → no_exec_error (handle (λ e. raise (as_keystone_error failure e)) r).0 ≡ true
      converted (ok u, t) = refl
      converted (raised e, t) = as_keystone_error-no_exec_error failure e

  -- A failed command never leaves `setup_keystone` as an ExecError.
  pub setup_keystone-no_exec_error :
      (set_status : StatusBase → S → S) (i : Identity) (s : S)
      → no_exec_error (setup_keystone run set_unit_status set_status i s).0 ≡ true
  unfolding setup_keystone fernet_setup credential_setup bootstrap
  setup_keystone-no_exec_error set_status i s = guard-no_exec_error set_status _ s (
      continue-no_exec_error (bootstrap run set_unit_status i) _
        (continue-no_exec_error (credential_setup run set_unit_status) _
          (keystone_step-no_exec_error _ _ _ s) (keystone_step-no_exec_error _ _ _))
        (keystone_step-no_exec_error _ _ _))

  -- If the first command that the leader runs fails, keystone_bootstrap ends with Keystone's own
  -- exception, and not as blocked.
  pub keystone_bootstrap-failed_command :
      (c : Folders S) (juju : Juju S) (set_status : StatusBase → S → S) (i : Identity)
      (accounts : Action S) (m : String) (s t : S)
      → juju.is_leader s ≡ true
      → run
          (chown_keystone fernet_folder)
          (set_unit_status (maintenance_status "Setting up fernet tokens") s)
        ≡ (raised (exec_error m), t)
      → keystone_bootstrap c juju
          (setup_keystone run set_unit_status set_status i)
          accounts
          set_unit_status
          s
        ≡ (raised (keystone_error "Fernet setup failed."), t)
  unfolding keystone_bootstrap setup_keystone guard guard_except to_status fernet_setup
      keystone_step for_each
  keystone_bootstrap-failed_command c juju set_status i accounts m s t leader failed =
      rw (leader, failed) refl
