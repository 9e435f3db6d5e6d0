-- ===== src/Ovn/Clustering.antt =====
-- charms/ovn-central-k8s/src/ovn.py: the state of a clustered database, read off the lines that
-- ovn-appctl prints.
pub mod Lines
use sunbeam_charms.Prelude.{
  String, Bool, true, false, not, ◌&&◌, ◌||◌, Option, none, some, is_some, any_of, List, [], ◌∷◌,
  ◌++◌, ◌==◌, if◌then◌else◌,
}
use sunbeam_charms.Text.{
  Unicode, concat, has_prefix, contains_text, after_char, until_char, replace_char, lstrip, words,
  has_char, splitlines,
}
use sunbeam_charms.Dict.{Dict, insert, lookup, contains}
use sunbeam_charms.Exec.{
  Exc, Exec, Result, ok, raised, other_error, key_error, attribute_error, value_error, continue,
  handle,
}
use sunbeam_charms.Endpoints.{if_given}

-- Runs a command, given by its words, and answers with what it prints.
abbrev pub Executor : Type 0 → Type 0
Executor S = List String → Exec S String

-- `os.path.join(rundir or OVN_RUNDIR, target + ".ctl")`, of a directory with no slash at its end.
abbrev control_socket : Option String → String → String
control_socket rundir target =
    concat (if_given rundir (λ dir. dir) "/var/run/ovn" ∷ "/" ∷ target ∷ ".ctl" ∷ [])

unfoldable pub ovn_appctl :
    {S : Type 0} → String → List String → Option String → Bool → Executor S → Exec S String
unfolding contains concat
ovn_appctl target args rundir use_ovs_appctl run = run (
    (if use_ovs_appctl then "ovs-appctl" else "ovn-appctl")
    ∷ "-t"
    ∷ (if contains target ("ovnnb_db" ∷ "ovnsb_db" ∷ [])
        then control_socket rundir target
        else target)
    ∷ args)

-- What is kept under a key: a text, the words of an id, or a list that the next lines fill, with
-- lines or with the tuples of servers.
pub data Item : Type 0 where
  line : String → Item
  server : List String → Item

pub data Value : Type 0 where
  text : String → Value
  ids : List String → Value
  items : List Item → Value

-- `xs[0:4:3]`
abbrev pub first_and_fourth : List String → List String
first_and_fourth [] = []
first_and_fourth (a ∷ b ∷ c ∷ d ∷ rest) = a ∷ d ∷ []
first_and_fourth (a ∷ rest) = a ∷ []

-- `status[k].append(item)`
abbrev appended : String → Item → Dict Value → Option Value → Result (String × Dict Value)
appended k item d none = raised (key_error k)
appended k item d (some (items xs)) = ok (k, insert k (items (xs ++ (item ∷ []))) d)
appended k item d (some (ids ws)) =
    raised (attribute_error "'tuple' object has no attribute 'append'")
appended k item d (some (text t)) =
    raised (attribute_error "'str' object has no attribute 'append'")

module _ (u : Unicode) where
  abbrev pub item_of : String → String → Item
  item_of k l =
      if k == "servers"
      then server (first_and_fourth (words u (lstrip u.is_space (replace_char b')' "" l))))
      else line (lstrip u.is_space l)

  -- `k.lower().replace(" ", "_")`
  unfoldable pub key_of : String → String
  unfolding replace_char
  key_of k = replace_char b' ' "_" (u.lower k)

  unfoldable pub value_of : String → String → Value
  unfolding words lstrip replace_char contains
  value_of k v =
      if v == ""
      then items []
      else (if contains k ("cluster_id" ∷ "server_id" ∷ [])
          then ids (words u (replace_char b')' "" (replace_char b'(' "" v)))
          else text (lstrip u.is_space v))

  -- The line has a colon.
  abbrev keyed : String → Option String → String × Dict Value → Result (String × Dict Value)
  keyed l none (k, d) = ok (k, d)
  keyed l (some v) (k, d) =
      let name = key_of (until_char b':' l) in ok (name, insert name (value_of name v) d)

  unfoldable pub read_line : String → String × Dict Value → Result (String × Dict Value)
  unfolding key_of value_of insert lookup after_char until_char
  read_line l (k, d) =
      if not (k == "") && has_prefix " " l
      then appended k (item_of k l) d (lookup k d)
      else keyed l (after_char b':' l) (k, d)

  abbrev then_lines :
      (String × Dict Value → Result (String × Dict Value))
      → Result (String × Dict Value)
      → Result (String × Dict Value)
  then_lines f (ok st) = f st
  then_lines f (raised e) = raised e

  unfoldable pub read_lines : List String → String × Dict Value → Result (String × Dict Value)
  unfolding read_line
  read_lines [] st = ok st
  read_lines (l ∷ ls) st = then_lines (read_lines ls) (read_line l st)

-- OVNClusterStatus, with `Num` for the numbers of Python.
pub record ClusterStatus (Num : Type 0) : Type 0 where
  pub name : Value
  pub cluster_id : String
  pub server_id : String
  pub address : Value
  pub status : Value
  pub role : Value
  pub term : Num
  pub leader : Value
  pub vote : Value
  pub election_timer : Num
  pub log : Value
  pub entries_not_yet_committed : Num
  pub entries_not_yet_applied : Num
  pub connections : Value
  pub servers : Value

unfoldable pub is_cluster_leader : {Num : Type 0} → ClusterStatus Num → Bool
is_cluster_leader s = elim s.leader [ text t ↦ t == "self" | ids ws ↦ false | items xs ↦ false ]

-- `str(uuid.UUID(t))` and `int(t)`; None is a ValueError.
pub record Readers (Num : Type 0) : Type 0 where
  pub uuid : String → Option String
  pub int : String → Option Num

abbrev or_value_error : {A : Type 0} → String → Option A → Result A
or_value_error m none = raised (value_error m)
or_value_error m (some a) = ok a

abbrev index_error : {A : Type 0} → Result A
index_error = raised (other_error "index out of range")

abbrev bind : {A B : Type 0} → Result A → (A → Result B) → Result B
bind (ok a) f = f a
bind (raised e) f = raised e

module _ {Num : Type 0} (r : Readers Num) where
  abbrev field : Dict Value → String → Result Value
  field d k = elim (lookup k d) [ none ↦ raised (key_error k) | some v ↦ ok v ]

  abbrev uuid_of : String → Result String
  uuid_of t = or_value_error "badly formed hexadecimal UUID string" (r.uuid t)

  -- `uuid.UUID(value[1])`. No id is kept as a text; of one, this would be the second character.
  abbrev second_id : Value → Result String
  second_id (ids (a ∷ b ∷ rest)) = uuid_of b
  second_id (ids _) = index_error
  second_id (items (a ∷ line t ∷ rest)) = uuid_of t
  second_id (items (a ∷ server ws ∷ rest)) = raised (attribute_error "'tuple' object")
  second_id (items _) = index_error
  second_id (text t) = raised (value_error "badly formed hexadecimal UUID string")

  abbrev number_of : Value → Result Num
  number_of (text t) = or_value_error "invalid literal for int()" (r.int t)
  number_of (ids ws) = raised (other_error "int() argument must be a string")
  number_of (items xs) = raised (other_error "int() argument must be a string")

  unfoldable pub status_of : Dict Value → Result (ClusterStatus Num)
  unfolding lookup
  status_of d = bind (field d "name") λ name.
      bind (bind (field d "cluster_id") second_id) λ cluster_id.
        bind (bind (field d "server_id") second_id) λ server_id. bind (field d "address") λ address.
          bind (field d "status") λ status. bind (field d "role") λ role.
            bind (bind (field d "term") number_of) λ term. bind (field d "leader") λ leader.
              bind (field d "vote") λ vote.
                bind (bind (field d "election_timer") number_of) λ election_timer.
                  bind (field d "log") λ log.
                    bind (bind (field d "entries_not_yet_committed") number_of) λ committed.
                      bind (bind (field d "entries_not_yet_applied") number_of) λ applied.
                        bind (field d "connections") λ connections.
                          bind (field d "servers") λ servers. ok (record {
                            name = name;
                            cluster_id = cluster_id;
                            server_id = server_id;
                            address = address;
                            status = status;
                            role = role;
                            term = term;
                            leader = leader;
                            vote = vote;
                            election_timer = election_timer;
                            log = log;
                            entries_not_yet_committed = committed;
                            entries_not_yet_applied = applied;
                            connections = connections;
                            servers = servers;
                          })

-- The schema's name for a database.
abbrev schema_map : Dict String
schema_map = ("ovnnb_db", "OVN_Northbound") ∷ ("ovnsb_db", "OVN_Southbound") ∷ []

abbrev schema_for : String → Option String → Result String
schema_for target none = elim (lookup target schema_map) [
  | none ↦ raised (key_error target)
  | some t ↦ ok t
]
schema_for target (some schema) = ok schema

-- An empty schema counts as none, and an unknown one is a RuntimeError.
abbrev checked_schema : String → Option String → Result String
checked_schema target none = schema_for target none
checked_schema target (some schema) =
    if schema == ""
    then schema_for target none
    else if is_some (lookup schema schema_map)
    then ok schema
    else raised (other_error (concat ("Unknown schema provided: \"" ∷ schema ∷ "\"" ∷ [])))

unfoldable pub read_status :
    {Num : Type 0} → Unicode → Readers Num → String → Result (ClusterStatus Num)
unfolding read_lines status_of splitlines
read_status u r output =
    bind (read_lines u (splitlines output) ("", []))
      (λ (st : String × Dict Value). status_of r st.1)

module _ {S Num : Type 0} (u : Unicode) (r : Readers Num) where
  abbrev on_output : Result String × S → Result (ClusterStatus Num) × S
  on_output (ok output, s) = (read_status u r output, s)
  on_output (raised e, s) = (raised e, s)

  abbrev with_schema :
      String → Option String → Bool → Executor S → Result String → Exec S (ClusterStatus Num)
  with_schema target rundir use_ovs_appctl run (raised e) s = (raised e, s)
  with_schema target rundir use_ovs_appctl run (ok schema) s =
      on_output (ovn_appctl target ("cluster/status" ∷ schema ∷ []) rundir use_ovs_appctl run s)

  unfoldable pub cluster_status :
      String → Option String → Bool → Option String → Executor S → Exec S (ClusterStatus Num)
  unfolding ovn_appctl read_status lookup
  cluster_status target schema use_ovs_appctl rundir run =
      with_schema target rundir use_ovs_appctl run (checked_schema target schema)

abbrev is_active_line : String → Bool
is_active_line l = has_prefix "Status:" l && contains_text "active" l

module _ {S : Type 0} (is_called_process_error : Exc → Bool) where
  abbrev northd_answer : Result String × S → Result Bool × S
  northd_answer (ok output, s) = (ok (any_of is_active_line (splitlines output)), s)
  northd_answer (raised e, s) = if is_called_process_error e then (ok false, s) else (raised e, s)

  unfoldable pub is_northd_active : Executor S → Exec S Bool
  unfolding ovn_appctl splitlines contains_text
  is_northd_active run s = northd_answer (ovn_appctl "ovn-northd" ("status" ∷ []) none false run s)
