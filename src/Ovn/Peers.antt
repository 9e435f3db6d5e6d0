-- ===== src/Ovn/Peers.antt =====
-- ops-sunbeam/ops_sunbeam/ovn/relation_handlers.py, OVNDBClusterPeerHandler: the names that the units
-- of the central charm publish for one another, and the connections that they make of them.
use sunbeam_charms.Prelude.{
  ℕ, ◌-◌, ◌≤◌, suc, String, ◌≡◌, refl, ap, Bool, true, false, Option, none, List, [], ◌∷◌, ◌++◌,
  ltb, length, arith, ◌==◌, if◌then◌else◌,
}
use sunbeam_charms.Dict.{Dict, update}
use sunbeam_charms.Peers.{
  OperatorPeers, set_unit_data, get_all_unit_values, all_joined_units, expected_peer_units, context,
}
use sunbeam_charms.Endpoints.{if_given}
use sunbeam_charms.Ovn.Addresses.{
  db_connection_strs, db_nb_port, db_sb_admin_port, db_nb_cluster_port, db_sb_cluster_port,
}

-- `local_hostname` is what `socket.getfqdn` answers.
unfoldable pub publish_cluster_local_hostname :
    String → Option String → OperatorPeers → OperatorPeers
unfolding set_unit_data
publish_cluster_local_hostname local_hostname hostname p =
    let name = if_given hostname (λ h. h) local_hostname in
    if name == "" then p else set_unit_data (("bound-hostname", name) ∷ []) p

unfoldable pub on_peers_relation_joined : String → OperatorPeers → OperatorPeers
unfolding publish_cluster_local_hostname
on_peers_relation_joined local_hostname p = publish_cluster_local_hostname local_hostname none p

unfoldable pub cluster_remote_hostnames : OperatorPeers → List String
unfolding get_all_unit_values
cluster_remote_hostnames p = get_all_unit_values "bound-hostname" false p

-- Where no unit is expected the source compares with -1 and this with 0: no length is below either.
unfoldable pub expected_peers_available : OperatorPeers → Bool
unfolding cluster_remote_hostnames all_joined_units expected_peer_units
expected_peers_available p =
    let expected_remote_units = expected_peer_units p - 1 in
    if ltb (length (all_joined_units p)) expected_remote_units
    then false
    else if ltb (length (cluster_remote_hostnames p)) expected_remote_units
    then false
    else true

-- The connections of the local unit and of the remote ones, over a port.
unfoldable pub peer_connection_strs : (ℕ → String) → String → ℕ → OperatorPeers → List String
unfolding db_connection_strs cluster_remote_hostnames
peer_connection_strs number local_hostname port p =
    db_connection_strs number (local_hostname ∷ []) port "ssl"
    ++ db_connection_strs number (cluster_remote_hostnames p) port "ssl"

-- A value of the context that the templates get.
pub data Value : Type 0 where
  text : String → Value
  number : ℕ → Value
  texts : List String → Value

abbrev as_values : Dict String → Dict Value
as_values [] = []
as_values ((k, v) ∷ d) = (k, text v) ∷ as_values d

unfoldable pub peer_context : (ℕ → String) → String → OperatorPeers → Dict Value
unfolding peer_connection_strs context update
peer_context show local_hostname p =
    let strs : ℕ → Value = λ port. texts (peer_connection_strs show local_hostname port p) in
    update (as_values (context p)) (
      ("cluster_local_hostname", text local_hostname)
      ∷ ("cluster_remote_hostnames", texts (cluster_remote_hostnames p))
      ∷ ("db_nb_cluster_connection_strs", strs db_nb_cluster_port)
      ∷ ("db_sb_cluster_connection_strs", strs db_sb_cluster_port)
      ∷ ("db_sb_cluster_port", number db_sb_cluster_port)
      ∷ ("db_nb_cluster_port", number db_nb_cluster_port)
      ∷ ("db_nb_connection_strs", strs db_nb_port)
      ∷ ("db_sb_connection_strs", strs db_sb_admin_port)
      ∷ [])

length-db_connection_strs :
    (show : ℕ → String) (hostnames : List String) (port : ℕ) (proto : String)
    → length (db_connection_strs show hostnames port proto) ≡ length hostnames
unfolding db_connection_strs
length-db_connection_strs show [] port proto = refl
length-db_connection_strs show (h ∷ hostnames) port proto =
    ap suc (length-db_connection_strs show hostnames port proto)

-- Once the expected peers are there, each of the connection lists that a unit renders has at least
-- as many connections as the cluster is planned to have units.
pub peer_connection_strs-IsComplete :
    (show : ℕ → String) (local_hostname : String) (port : ℕ) (p : OperatorPeers)
    → expected_peers_available p ≡ true
    → expected_peer_units p ≤ length (peer_connection_strs show local_hostname port p)
unfolding expected_peers_available peer_connection_strs db_connection_strs
peer_connection_strs-IsComplete show local_hostname port p h =
    ground (arith, length-db_connection_strs show (cluster_remote_hostnames p) port "ssl")
