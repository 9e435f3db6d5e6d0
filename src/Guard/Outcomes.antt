-- ===== src/Guard/Outcomes.antt =====
-- guard.py: how a guarded section ends.
use sunbeam_charms.Prelude.{◌≡◌, refl, Bool, true, false, if◌then◌else◌, Option, none, some, arith}
use sunbeam_charms.Exec.{Exc, Done, ok, raised, Action}
use sunbeam_charms.Status.{StatusBase}
use sunbeam_charms.Guard.{
  guard, guard_except, guard_end, to_status, is_guard_error, unexpected_status,
}

module _ {S : Type 0} (set_status : StatusBase → S → S) (log_traceback : Bool) where
  except_returns :
      (e : Exc) (o : Option StatusBase) (s : S)
      → (guard_except set_status true log_traceback e o s).0 ≡ ok tt
  unfolding guard_except
  except_returns e o s = ground arith

  end_returns : (r : Done × S) → (guard_end set_status true log_traceback r).0 ≡ ok tt
  end_returns (ok tt, s) = refl
  end_returns (raised e, s) = except_returns e (to_status e) s

  -- With handle_exception a guarded section never raises, whatever its body does.
  pub guard-returns :
      (body : Action S) (s : S) → (guard set_status true log_traceback body s).0 ≡ ok tt
  unfolding guard
  guard-returns body s = end_returns (body s)

module _ {S : Type 0} (set_status : StatusBase → S → S)
    (handle_exception log_traceback : Bool) where
  -- A body that returns is left alone.
  pub guard_ok :
      (body : Action S) (s t : S)
      → body s ≡ (ok tt, t)
      → guard set_status handle_exception log_traceback body s ≡ (ok tt, t)
  unfolding guard
  guard_ok body s t e = rw e

  pub guard_raised :
      (body : Action S) (s t : S) (e : Exc)
      → body s ≡ (raised e, t)
      → guard set_status handle_exception log_traceback body s
        ≡ guard_except set_status handle_exception log_traceback e (to_status e) t
  unfolding guard
  guard_raised body s t e h = rw h

  -- An exception that stands for a status sets that status on the state that the body left, and
  -- goes no further, whether or not other exceptions are handled.
  pub guard_status :
      (body : Action S) (s t : S) (e : Exc) (st : StatusBase)
      → body s ≡ (raised e, t)
      → to_status e ≡ some st
      → guard set_status handle_exception log_traceback body s ≡ (ok tt, set_status st t)
  unfolding guard
  guard_status body s t e st h k = rw (h, k) (unfold guard_except in refl)

-- An exception that stands for no status and is not the guard's own is raised again, with the state
-- that the body left, exactly when handle_exception is False; otherwise it sets a blocked status,
-- but only if log_traceback.
pub guard_unexpected :
    {S : Type 0} (set_status : StatusBase → S → S) (handle_exception log_traceback : Bool)
    (body : Action S) (s t : S) (e : Exc)
    → body s ≡ (raised e, t)
    → to_status e ≡ none
    → is_guard_error e ≡ false
    → guard set_status handle_exception log_traceback body s ≡ (
        if handle_exception
        then (ok tt, if log_traceback then set_status (unexpected_status e) t else t)
        else (raised e, t))
unfolding guard
guard_unexpected set_status handle_exception log_traceback body s t e h k g =
    rw (h, k) (unfold guard_except in rw g)
