-- ===== src/Tempest/Schedule.antt =====
-- charms/tempest-k8s/src/utils/validators.py: whether a cron schedule is accepted.
pub mod Sampled
use mathlib.Core.Path.{subst}
use Prim.Native.Char.{code}
use sunbeam_charms.Prelude.{
  ℕ, zero, suc, ◌-◌, ◌*◌, ◌≤◌, String, ◌≡◌, ◌⊎◌, ap, Bool, true, false, ◌||◌, Option, none, some,
  List, [], ◌∷◌, arith, ltb, nat_eq, ◌==◌, eq_iff, if◌then◌else◌, Bool-cases, inl, inr,
}
use sunbeam_charms.Text.{contains_text}
use sunbeam_charms.Exec.{Exc, Result, ok, raised, value_error}

pub record Schedule : Type 0 where
  pub value : String
  pub valid : Bool
  pub err : String
  pub max_interval : ℕ
  pub min_interval : ℕ

-- The library croniter: an iterator over the times of a schedule, in seconds. None stands for a
-- CroniterBadDateError.
pub record Croniter (K : Type 0) : Type 0 where
  pub start : String → Result K
  pub get_next : K → Option ℕ × K
  pub bad_length : String

-- `except ValueError`
abbrev pub value_error_text : Exc → Option String
value_error_text (value_error m) = some m
value_error_text _ = none

abbrev pub is_space : ℕ → Bool
is_space c = nat_eq c b' ' || nat_eq c 9 || nat_eq c 10 || nat_eq c 11 || nat_eq c 12 || nat_eq c 13

-- `len(schedule.split())`, from inside a field or not.
unfoldable pub fields_from : Bool → String → ℕ
fields_from inside String.[] = zero
fields_from inside (String.◌∷◌ c s) =
    let between = fields_from false s in
    let within = fields_from true s in
    if is_space (code c) then between else (if inside then within else suc within)

abbrev pub refused : String → String → Schedule
refused schedule message = record {
  value = schedule;
  valid = false;
  err = message;
  max_interval = 0;
  min_interval = 0;
}

abbrev pub five_columns : String
five_columns = "Exactly 5 columns must be specified for iterator expression."

abbrev pub min_of : ℕ → List ℕ → ℕ
min_of n [] = n
min_of n (m ∷ ms) = min_of (if ltb m n then m else n) ms

abbrev pub max_of : ℕ → List ℕ → ℕ
max_of n [] = n
max_of n (m ∷ ms) = max_of (if ltb n m then m else n) ms

-- 15 minutes, in seconds.
abbrev pub shortest : ℕ
shortest = 15 * 60

-- `min` and `max` of no interval would raise; there are five.
abbrev pub judged : String → List ℕ → Schedule
judged schedule [] = refused schedule "min() arg is an empty sequence"
judged schedule (n ∷ ns) =
    if ltb (min_of n ns) shortest
    then refused schedule "Cannot schedule periodic check to run faster than every 15 minutes."
    else record {
      value = schedule;
      valid = true;
      err = "";
      max_interval = max_of n ns;
      min_interval = min_of n ns;
    }

abbrev pub sampled : String → Option (List ℕ) → Schedule
sampled schedule none =
    refused schedule
      "Could not calculate a range of values from the schedule; please check the schedule or try a shorter schedule period."
sampled schedule (some ns) = judged schedule ns

module _ {K : Type 0} (c : Croniter K) where
  abbrev pub and_interval : ℕ → ℕ → Option (List ℕ) → Option (List ℕ)
  and_interval last time none = none
  and_interval last time (some ns) = some ((time - last) ∷ ns)

  -- The loop: the differences of the next times. A time before the last would give a negative
  -- interval, which is 0 here, and both are refused.
  unfoldable pub intervals : ℕ → ℕ → K → Option (List ℕ)
  intervals zero last k = some []
  intervals (suc n) last k =
      let (o, l) = c.get_next k in
      elim o [ none ↦ none | some time ↦ and_interval last time (intervals n time l) ]

  abbrev pub sample : K → Option (List ℕ)
  sample k = let (o, l) = c.get_next k in elim o [ none ↦ none | some time ↦ intervals 5 time l ]

  abbrev pub not_started : String → Exc → Option String → Result Schedule
  not_started schedule e none = raised e
  not_started schedule e (some m) =
      ok (refused schedule (if contains_text c.bad_length m then five_columns else m))

  abbrev pub started : String → Result K → Result Schedule
  started schedule (ok k) = ok (sampled schedule (sample k))
  started schedule (raised e) = not_started schedule e (value_error_text e)

  unfoldable pub validated_schedule : String → Result Schedule
  unfolding fields_from intervals contains_text
  validated_schedule schedule =
      if schedule == ""
      then ok
          (record { value = schedule; valid = true; err = ""; max_interval = 0; min_interval = 0 })
      else (if nat_eq (fields_from false schedule) 5
          then started schedule (c.start schedule)
          else ok (
              refused schedule
                "This cron only support Vixie cron in schedule (5 fields). Exactly 5 columns must be specified for iterator expression."))
