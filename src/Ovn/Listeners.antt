-- ===== src/Ovn/Listeners.antt =====
-- charms/ovn-central-k8s/src/charm.py, OVNCentralOperatorCharm: the state of a database's cluster and
-- the listeners that the cluster's leader keeps.
pub mod Ports
use sunbeam_charms.Prelude.{
  ℕ, zero, suc, ◌*◌, String, Bool, true, false, Option, none, some, List, [], ◌∷◌, is_empty, ◌==◌,
  if◌then◌else◌,
}
use sunbeam_charms.Text.{Unicode, concat}
use sunbeam_charms.Dict.{Dict, lookup}
use sunbeam_charms.Exec.{
  Exc, Exec, Action, Result, ok, raised, value_error, key_error, exec_error, retry_error, continue,
  ◌>>=◌, ◌>>◌, pure, skip, for_each,
}
use sunbeam_charms.Ovn.Addresses.{db_nb_port, db_sb_port, db_sb_admin_port}
use sunbeam_charms.Ovn.Clustering.{
  Executor, Readers, ClusterStatus, is_cluster_leader, cluster_status,
}
use sunbeam_charms.Ovn.Database.{Table, open_table, find, set, run_quietly}

-- `except ValueError`
abbrev is_value_error : Exc → Bool
is_value_error (value_error m) = true
is_value_error _ = false

abbrev is_exec_error : Exc → Bool
is_exec_error (exec_error m) = true
is_exec_error _ = false

module _ {S Num : Type 0} (u : Unicode) (r : Readers Num) where
  abbrev or_none : Result (ClusterStatus Num) × S → Result (Option (ClusterStatus Num)) × S
  or_none (ok st, s) = (ok (some st), s)
  or_none (raised e, s) = if is_value_error e then (ok none, s) else (raised e, s)

  abbrev attempt : String → Executor S → Exec S (Option (ClusterStatus Num))
  attempt db run s = or_none (cluster_status u r db none false (some "/var/run/ovn") run s)

  abbrev again :
      Exec S (Option (ClusterStatus Num))
      → Result (Option (ClusterStatus Num)) × S
      → Result (Option (ClusterStatus Num)) × S
  again next (ok o, s) = (ok o, s)
  again next (raised e, s) = if is_exec_error e then next s else (raised e, s)

  -- tenacity: another attempt after an ExecError, and a RetryError after the last.
  unfoldable pub retried : ℕ → String → Executor S → Exec S (Option (ClusterStatus Num))
  unfolding cluster_status
  retried zero db run s = (raised (retry_error "RetryError"), s)
  retried (suc n) db run s = again (retried n db run) (attempt db run s)

  unfoldable pub charm_cluster_status : String → Executor S → Exec S (Option (ClusterStatus Num))
  unfolding retried
  charm_cluster_status db run = retried 3 db run

-- A listener's target, and the condition that finds it.
unfoldable pub target_condition : String → String
unfolding concat
target_condition port = concat ("target=\"pssl:" ∷ port ∷ "\"" ∷ [])

unfoldable pub create_command : String → String → String → List String
unfolding target_condition
create_command tool global port =
    tool
    ∷ "--"
    ∷ "--id=@connection"
    ∷ "create"
    ∷ "connection"
    ∷ target_condition port
    ∷ "--"
    ∷ "add"
    ∷ global
    ∷ "."
    ∷ "connections"
    ∷ "@connection"
    ∷ []

module _ {S : Type 0} (run : Executor S) (rows : String → Result (List (Dict String)))
    (global : String) (t : Table) where
  abbrev pub create_unless : List (Dict String) → String → Action S
  create_unless [] port = run_quietly run (create_command t.tool global port)
  create_unless (row ∷ others) port = skip

  abbrev pub set_one : Option String → String × String → Action S
  set_one none (k, v) s = (raised (key_error "_uuid"), s)
  set_one (some uuid) (k, v) s = set run t uuid k v s

  abbrev pub set_row : Dict String → Dict String → Action S
  set_row settings row = for_each settings (set_one (lookup "_uuid" row))

  -- The body of the loop: a listener is made if none is found, and all that are found are set.
  unfoldable pub ensure_listener : String × Dict String → Action S
  unfolding target_condition create_command find set run_quietly
  ensure_listener (port, settings) = do
    found ← find run rows t (some (target_condition port))
    create_unless found port
    listeners ← find run rows t (some (target_condition port))
    for_each listeners (set_row settings)

  abbrev pub ensure_all : Dict (Dict String) → Action S
  ensure_all port_map = for_each port_map ensure_listener

abbrev pub tool_of : String → String
tool_of db = concat ("ovn-" ∷ db ∷ "ctl" ∷ [])

abbrev database_of : String → String
database_of db = concat ("ovn" ∷ db ∷ "_db" ∷ [])

-- `"{}_Global".format(db.upper())`
abbrev global_of : String → String
global_of db = if db == "nb" then "NB_Global" else "SB_Global"

-- `executor` runs commands in the container of a database, and `number` is `str` of a number.
module _ {S Num : Type 0} (u : Unicode) (r : Readers Num) (executor : String → Executor S)
    (rows : String → Result (List (Dict String))) (number : ℕ → String) where
  abbrev on_table : String → Dict (Dict String) → Result Table → Action S
  on_table db port_map (ok t) s = ensure_all (executor db) rows (global_of db) t port_map s
  on_table db port_map (raised e) s = (raised e, s)

  abbrev if_leader : String → Dict (Dict String) → Option (ClusterStatus Num) → Action S
  if_leader db port_map none s = (ok tt, s)
  if_leader db port_map (some st) s =
      if is_cluster_leader st
      then on_table db port_map (open_table (tool_of db) "connection" []) s
      else (ok tt, s)

  -- Of a database that is nb or sb.
  unfoldable pub configure_ovn_listener : String → Dict (Dict String) → Action S
  unfolding charm_cluster_status is_cluster_leader open_table ensure_listener concat
  configure_ovn_listener db port_map = do
    status ← charm_cluster_status u r (database_of db) (executor db)
    if_leader db port_map status

  -- The probe of the configuration is in seconds.
  unfoldable pub configure_ovn : ℕ → Action S
  unfolding configure_ovn_listener
  configure_ovn probe =
      let settings = ("inactivity_probe", number (probe * 1000)) ∷ [] in
      do
        configure_ovn_listener "nb" ((number db_nb_port, settings) ∷ [])
        configure_ovn_listener "sb" ((number db_sb_port, settings) ∷ [])
        configure_ovn_listener "sb" ((number db_sb_admin_port, settings) ∷ [])
