-- ===== src/Jobs.antt =====
-- ops-sunbeam/ops_sunbeam/job_ctrl.py: jobs that run once for each instantiation of a unit.
pub mod Once
use sunbeam_charms.Prelude.{String, ◌≡◌, Bool, Option, none, some, [], if◌then◌else◌}
use sunbeam_charms.Dict.{Dict, has_key, insert}
use sunbeam_charms.Exec.{Action, ok, raised, attribute_error, continue}

-- The unit's stored state belongs to ops: an attribute of it that may be missing, which reads back
-- what was written last.
pub record Storage (S : Type 0) : Type 0 where
  pub run_once : S → Option (Dict String)
  pub put : Dict String → S → S
  pub run_once-put : (d : Dict String) (s : S) → run_once (put d s) ≡ some d
  pub put_same : (d : Dict String) (s : S) → run_once s ≡ some d → put d s ≡ s

abbrev pub or_empty : Option (Dict String) → Dict String
or_empty none = []
or_empty (some d) = d

module _ {S : Type 0} (storage : Storage S) where
  -- `LocalJobStorage.__init__`
  unfoldable pub open_storage : S → S
  open_storage s = elim (storage.run_once s) [ none ↦ storage.put [] s | some d ↦ s ]

  -- `__contains__`, over `get_labels`
  unfoldable pub has_run : String → S → Bool
  has_run label s = has_key label (or_empty (storage.run_once s))

  -- `add`; `now` is the text of the current time.
  unfoldable pub add_label : String → String → Action S
  add_label label now s = elim (storage.run_once s) [
    | none ↦ (raised (attribute_error "run_once"), s)
    | some d ↦ (ok tt, storage.put (insert label now d) s)
  ]

  -- `wrapped_f`: the label is recorded only after the job returned.
  unfoldable pub run_once_per_unit : String → String → Action S → Action S
  run_once_per_unit label now f s =
      let t = open_storage s in
      if has_run label t then (ok tt, t) else continue (λ _. add_label label now) (f t)
