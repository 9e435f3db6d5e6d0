-- ===== src/Examples/Listeners.antt =====
-- Listeners of a database of OVN at concrete inputs.

use Prim.Native.String as Str
use text.Mathlib.TextLemmas.{append_cancel_left, append_cancel_right}
use sunbeam_charms.Prelude.{
  is_some, suc, String, ◌≡◌, refl, true, false, some, List, [], ◌∷◌, length, All, arith, ◌==◌,
  eq_iff, Bool-cases, inl, inr, if◌then◌else◌,
}
use sunbeam_charms.Text.{concat}
use sunbeam_charms.Text.Strip.{append-ne-nil}
use sunbeam_charms.Dict.{Dict, lookup, contains, keys}
use sunbeam_charms.Exec.{Result, ok}
use sunbeam_charms.Ovn.Clustering.{Executor}
use sunbeam_charms.Ovn.Listeners.{target_condition, create_command, ensure_all}
use sunbeam_charms.Ovn.Listeners.Ports.{Documented, at_least_one, ensure_all-counts}
use sunbeam_charms.Ovn.Database.{Table, find, run_quietly, set, find_command}

-- A database that holds the targets of its listeners; its output has a mark for each that is found.
abbrev marks : String → List String → String
marks c [] = ""
marks c (d ∷ ds) = if d == c then String.◌∷◌ "x" (marks c ds) else marks c ds

abbrev rows_of : String → List (Dict String)
rows_of String.[] = []
rows_of (String.◌∷◌ c s) = (("_uuid", "1") ∷ []) ∷ rows_of s

abbrev tools : Executor (List String)
tools (tool ∷ verb ∷ a ∷ b ∷ c ∷ condition ∷ more) held =
    if verb == "-f"
    then (ok (marks condition held), held)
    else if verb == "--"
    then (ok "", condition ∷ held)
    else (ok "", held)
tools _ held = (ok "", held)

abbrev table : Table
table = record { tool = "ovn-nbctl"; table = "connection"; args = [] }

condition_not_empty : (port : String) → (target_condition port == "") ≡ false
unfolding target_condition concat
condition_not_empty port = ground (
  arith,
  eq_iff (target_condition port) "",
  append-ne-nil "target=\"pssl:" (Str.◌++◌ port "\"") (append-ne-nil port "\"" (λ e. cc)),
)

condition-injective :
    (port probe : String) → target_condition port ≡ target_condition probe → port ≡ probe
unfolding target_condition concat
condition-injective port probe e =
    append_cancel_right port probe "\"" (append_cancel_left "target=\"pssl:" _ _ e)

same_condition :
    (port probe : String) → (target_condition port == target_condition probe) ≡ (port == probe)
same_condition port probe = ground (
  arith,
  eq_iff port probe,
  eq_iff (target_condition port) (target_condition probe),
  condition-injective port probe,
)

rows-has_id :
    (c : String) (s : List String)
    → All (λ row. is_some (lookup "_uuid" row) ≡ true) (rows_of (marks c s))
unfolding lookup
rows-has_id c [] = tt
rows-has_id c (d ∷ s) = elim (Bool-cases (d == c)) [
  | inl e ↦ rw e (refl, rows-has_id c s)
  | inr e ↦ rw e (rows-has_id c s)
]

counted :
    (port probe : String) (s : List String)
    → length (rows_of (marks (target_condition probe) (target_condition port ∷ s))) ≡ (
        if port == probe
        then suc (length (rows_of (marks (target_condition probe) s)))
        else length (rows_of (marks (target_condition probe) s)))
counted port probe s = elim (Bool-cases (port == probe)) [
  | inl e ↦ rw (same_condition port probe) (rw e refl)
  | inr e ↦ rw (same_condition port probe) (rw e refl)
]

finds :
    (port : String) (s : List String)
    → find tools (λ output. ok (rows_of output)) table (some (target_condition port)) s
      ≡ (ok (rows_of (marks (target_condition port) s)), s)
unfolding find find_command
finds port s = rw (condition_not_empty port) refl

creates :
    (port : String) (s : List String)
    → run_quietly tools (create_command "ovn-nbctl" "NB_Global" port) s
      ≡ (ok tt, target_condition port ∷ s)
unfolding run_quietly create_command
creates port s = refl

sets : (uuid k v : String) (s : List String) → set tools table uuid k v s ≡ (ok tt, s)
unfolding set
sets uuid k v s = refl

documented : Documented tools (λ output. ok (rows_of output)) "NB_Global" table
documented = record {
  listeners = λ held port. rows_of (marks (target_condition port) held);
  found = finds;
  has_id = λ port s. rows-has_id (target_condition port) s;
  created = λ port s. rw (creates port s) refl;
  counts_created = λ port probe s. rw (creates port s) (counted port probe s);
  is_set = λ uuid k v s. rw (sets uuid k v s) refl;
  counts_set = λ uuid k v probe s. rw (sets uuid k v s) refl;
}

abbrev two_ports : Dict (Dict String)
two_ports = ("6641", ("inactivity_probe", "60000") ∷ []) ∷ ("6642", []) ∷ []

abbrev configured : List String → Result (Unit {0}) × List String
configured = ensure_all tools (λ output. ok (rows_of output)) "NB_Global" table two_ports

ensure_all-counts_example :
    ((configured []).0 ≡ ok tt)
    × ((probe : String)
        → length (documented.listeners ((configured []).1) probe) ≡ (
            if contains probe (keys two_ports)
            then at_least_one (length (documented.listeners [] probe))
            else length (documented.listeners [] probe)))
ensure_all-counts_example =
    ensure_all-counts tools (λ output. ok (rows_of output)) "NB_Global" table documented two_ports
      []
