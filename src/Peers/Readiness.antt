-- ===== src/Peers/Readiness.antt =====
-- interfaces.py and BasePeerHandler: writing to the peer relation and reading from it.
use sunbeam_charms.Prelude.{String, ◌≡◌, none, arith, if◌then◌else◌, Option-cases, inl, inr}
use sunbeam_charms.Dict.{Dict, update, or_else, last_value, lookup-insert, lookup-update}
use sunbeam_charms.Exec.{ok}
use sunbeam_charms.Peers.{
  OperatorPeers, set_app_data, get_app_data, ready, set_leader_ready, is_leader_ready, json_loads,
  json_true, leader_ready_key,
}

-- Reading a key after a write of settings gives the last setting of that key, or else what was
-- there, once the relation exists; without a relation nothing is read.
pub get_app_data-set :
    (key : String) (settings : Dict String) (p : OperatorPeers)
    → get_app_data key (set_app_data settings p)
      ≡ (if ready p then or_else (last_value key settings) (get_app_data key p) else none)
unfolding get_app_data set_app_data ready
get_app_data-set key settings p = elim (Option-cases p.peers_rel) [
  | inl e ↦ ground arith
  | inr (r, e) ↦ rw e (lookup-update key settings r.app_data)
]

-- A leader that has announced itself is ready, exactly when the relation exists.
pub is_leader_ready-set : (p : OperatorPeers) → is_leader_ready (set_leader_ready p) ≡ ok (ready p)
unfolding is_leader_ready set_leader_ready json_loads get_app_data ready update
is_leader_ready-set p = elim (Option-cases p.peers_rel) [
  | inl e ↦ ground arith
  | inr (r, e) ↦
      ground (arith, lookup-insert leader_ready_key leader_ready_key json_true r.app_data)
]
