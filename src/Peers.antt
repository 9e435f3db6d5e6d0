-- ===== src/Peers.antt =====
-- ops-sunbeam/ops_sunbeam/interfaces.py, OperatorPeers, and BasePeerHandler of
-- ops_sunbeam/relation_handlers.py: the data that the units of an application share.
pub mod Readiness
use sunbeam_charms.Prelude.{
  ℕ, String, Bool, true, false, not, Option, none, some, List, [], ◌∷◌, ◌++◌, ◌==◌, if◌then◌else◌,
}
use sunbeam_charms.Text.{replace_char}
use sunbeam_charms.Dict.{Dict, lookup, insert, update}
use sunbeam_charms.Exec.{Exec, Result, ok, raised, value_error}

-- The peer relation: the application's data bag, the data bag of each unit, the remote units, and
-- the number of units that are planned.
pub record PeerRelation : Type 0 where
  pub app_data : Dict String
  pub unit_data : String → Dict String
  pub units : List String
  pub planned_units : ℕ

-- The interface object; `peers_rel` is None before the relation exists.
pub record OperatorPeers : Type 0 where
  pub peers_rel : Option PeerRelation
  pub local_unit : String

abbrev put_all : Dict String → PeerRelation → PeerRelation
put_all settings r = record r { app_data = update r.app_data settings }

-- `set_app_data`: without a relation the writes go to a dictionary that is thrown away.
unfoldable pub set_app_data : Dict String → OperatorPeers → OperatorPeers
set_app_data settings p = elim p.peers_rel [
  | none ↦ p
  | some r ↦ record p { peers_rel = some (put_all settings r) }
]

unfoldable pub get_app_data : String → OperatorPeers → Option String
get_app_data key p = elim p.peers_rel [ none ↦ none | some r ↦ lookup key r.app_data ]

unfoldable pub get_all_app_data : OperatorPeers → Dict String
get_all_app_data p = elim p.peers_rel [ none ↦ [] | some r ↦ r.app_data ]

abbrev to_list : Option String → List String
to_list none = []
to_list (some v) = v ∷ []

unfoldable pub remote_values : String → (String → Dict String) → List String → List String
remote_values key unit_data [] = []
remote_values key unit_data (unit ∷ rest) =
    to_list (lookup key (unit_data unit)) ++ remote_values key unit_data rest

-- The local value counts only if it is there and not the empty text.
abbrev local_value : Option String → List String
local_value none = []
local_value (some v) = if v == "" then [] else v ∷ []

unfoldable pub get_all_unit_values : String → Bool → OperatorPeers → List String
unfolding remote_values
get_all_unit_values key include_local_unit p = elim p.peers_rel [
  | none ↦ []
  | some r ↦
      remote_values key r.unit_data r.units
      ++ (if include_local_unit then local_value (lookup key (r.unit_data p.local_unit)) else [])
]

unfoldable pub set_unit_data : Dict String → OperatorPeers → OperatorPeers
set_unit_data settings p = elim p.peers_rel [
  | none ↦ p
  | some r ↦ record p {
    peers_rel = some (record r {
      unit_data = λ u. if u == p.local_unit then update (r.unit_data u) settings else r.unit_data u;
    });
  }
]

unfoldable pub all_joined_units : OperatorPeers → List String
all_joined_units p = elim p.peers_rel [ none ↦ [] | some r ↦ r.units ]

unfoldable pub expected_peer_units : OperatorPeers → ℕ
expected_peer_units p = elim p.peers_rel [ none ↦ 0 | some r ↦ r.planned_units ]

-- BasePeerHandler.ready
unfoldable pub ready : OperatorPeers → Bool
ready p = elim p.peers_rel [ none ↦ false | some r ↦ true ]

-- LEADER_READY_KEY
abbrev pub leader_ready_key : String
leader_ready_key = "leader_ready"

-- `json.dumps(True)`
abbrev pub json_true : String
json_true = "true"

-- `json.loads`, on the two documents of a truth value. The charms write only the first.
unfoldable pub json_loads : String → Result Bool
json_loads t =
    if t == json_true
    then ok true
    else if t == "false"
    then ok false
    else raised (value_error "not a truth value")

unfoldable pub set_leader_ready : OperatorPeers → OperatorPeers
unfolding set_app_data
set_leader_ready p = set_app_data ((leader_ready_key, json_true) ∷ []) p

unfoldable pub is_leader_ready : OperatorPeers → Result Bool
is_leader_ready p = elim (get_app_data leader_ready_key p) [
  | none ↦ ok false
  | some t ↦ json_loads t
]

-- `leader_set`: keyword arguments come over the settings.
unfoldable pub leader_set : Dict String → Dict String → OperatorPeers → OperatorPeers
leader_set settings kwargs p = set_app_data (update settings kwargs) p

-- The key as templates know it: "/", "." and "-" become "_".
unfoldable pub translate : String → String
unfolding replace_char
translate k = replace_char b'-' "_" (replace_char b'.' "_" (replace_char b'/' "_" k))

unfoldable pub context_of : Dict String → Dict String → Dict String
context_of [] d = d
context_of ((k, v) ∷ rest) d = context_of rest (insert (translate k) v d)

-- `context`
unfoldable pub context : OperatorPeers → Dict String
context p = context_of (get_all_app_data p) []
