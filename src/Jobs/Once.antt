-- ===== src/Jobs/Once.antt =====
-- job_ctrl.py: how often a job runs.
use sunbeam_charms.Prelude.{
  String, ◌≡◌, refl, true, false, arith, if◌then◌else◌, eq_refl, Option-cases, inl, inr,
}
use sunbeam_charms.Dict.{has_key, insert, lookup, lookup-insert}
use sunbeam_charms.Exec.{Action, Done, Exc, ok, raised, continue}
use sunbeam_charms.Jobs.{Storage, open_storage, has_run, add_label, run_once_per_unit}

module _ {S : Type 0} (storage : Storage S) where
  has_run-add_label :
      (label now : String) (s : S)
      → (add_label storage label now s).0 ≡ ok tt
      → has_run storage label (add_label storage label now s).1 ≡ true
  unfolding add_label has_run has_key
  has_run-add_label label now s h = elim (Option-cases (storage.run_once s)) [
    | inl e ↦ ground arith
    | inr (d, e) ↦ ground (
      arith,
      storage.run_once-put (insert label now d) s,
      lookup-insert label label now d,
      eq_refl label,
    )
  ]

  after_job :
      (label now : String) (r : Done × S)
      → (continue (λ _. add_label storage label now) r).0 ≡ ok tt
      → has_run storage label (continue (λ _. add_label storage label now) r).1 ≡ true
  after_job label now (ok u, s) h = has_run-add_label label now s h
  after_job label now (raised e, s) h = ground arith

  pub skips :
      (label now : String) (f : Action S) (s : S)
      → has_run storage label s ≡ true
      → run_once_per_unit storage label now f s ≡ (ok tt, s)
  unfolding run_once_per_unit open_storage has_run has_key lookup
  skips label now f s h = elim (Option-cases (storage.run_once s)) [
    | inl e ↦ ground arith
    | inr (d, e) ↦ ground arith
  ]

  pub has_run-run_once_per_unit :
      (label now : String) (f : Action S) (s : S)
      → (run_once_per_unit storage label now f s).0 ≡ ok tt
      → has_run storage label (run_once_per_unit storage label now f s).1 ≡ true
  unfolding run_once_per_unit
  has_run-run_once_per_unit label now f s =
      let t = open_storage storage s in
      let rest = continue (λ _. add_label storage label now) (f t) in
      (elim (has_run storage label t)
          as (λ b.
            has_run storage label t ≡ b
            → (if b then (ok tt, t) else rest).0 ≡ ok tt
            → has_run storage label (if b then (ok tt, t) else rest).1 ≡ true) [
              | true ↦ λ e h. e
              | false ↦ λ e h. after_job label now (f t) h
            ])
        refl

  -- After a job has returned once, nothing runs again under its label on the unit: the next call
  -- returns at once and changes nothing.
  pub run_once_per_unit-once :
      (label now later : String) (f g : Action S) (s : S)
      → (run_once_per_unit storage label now f s).0 ≡ ok tt
      → run_once_per_unit storage label later g (run_once_per_unit storage label now f s).1
        ≡ (ok tt, (run_once_per_unit storage label now f s).1)
  run_once_per_unit-once label now later f g s h =
      skips label later g _ (has_run-run_once_per_unit label now f s h)

  -- A job that has not run and that raises is not recorded: the exception goes on to the caller
  -- with the state that the job left.
  pub run_once_per_unit-raised :
      (label now : String) (f : Action S) (s t : S) (e : Exc)
      → has_run storage label (open_storage storage s) ≡ false
      → f (open_storage storage s) ≡ (raised e, t)
      → run_once_per_unit storage label now f s ≡ (raised e, t)
  unfolding run_once_per_unit
  run_once_per_unit-raised label now f s t e h k = rw h (rw k)
