-- ===== src/Examples/Databases.antt =====
-- The databases of OVN at concrete inputs.

use sunbeam_charms.Prelude.{
  ℕ, suc, ◌≤◌, String, ◌≡◌, refl, true, false, Option, none, some, List, [], ◌∷◌, map, length, ◌==◌,
  if◌then◌else◌,
}
use sunbeam_charms.Text.{lower, until_char, after_char}
use sunbeam_charms.Dict.{update, lookup}
use sunbeam_charms.Exec.{for_each, ok, raised, attribute_error}
use sunbeam_charms.Peers.{OperatorPeers, expected_peer_units, ready, is_leader_ready, get_app_data}
use sunbeam_charms.Ovn.Addresses.{IpLibrary, db_connection_strs}
use sunbeam_charms.Ovn.Peers.{
  expected_peers_available, peer_connection_strs, peer_connection_strs-IsComplete,
}
use sunbeam_charms.Ovn.Clients.{addresses_strs, remote_proxied, remote_ready, requires_context}
use sunbeam_charms.Ovn.Clients.Published.{
  CentralUnit, related_to, address_of, addresses_strs-published, remote_ready-no_address,
}
use sunbeam_charms.Ovn.Clustering.{key_of, read_lines, Readers, Executor}
use sunbeam_charms.Ovn.Clustering.Lines.{Block, entry, lines_of, read_lines-blocks}
use sunbeam_charms.Ovn.Listeners.{configure_ovn}
use sunbeam_charms.Ovn.Clustering.{ClusterStatus}
use sunbeam_charms.Ovn.Central.{
  start_databases, configure_listeners, status_of, Central, Parts, configure_app_leader,
}
use sunbeam_charms.Ovn.Central.Announced.{
  IsAnnounced, configure_app_leader-announced, configure_app_leader-unread,
}
use sunbeam_charms.Examples.Services.{ascii}

abbrev shown_port : ℕ → String
shown_port n = "6643"

-- Two units are planned, and the other one has published its name.
abbrev two_units : OperatorPeers
two_units = record {
  peers_rel = some (record {
    app_data = [];
    unit_data = λ u. ("bound-hostname", "ovn-1") ∷ [];
    units = "ovn/1" ∷ [];
    planned_units = 2;
  });
  local_unit = "ovn/0";
}

peer_connection_strs-IsComplete_example :
    expected_peer_units two_units ≤ length (peer_connection_strs shown_port "ovn-0" 6643 two_units)
unfolding expected_peers_available lookup
peer_connection_strs-IsComplete_example =
    peer_connection_strs-IsComplete shown_port "ovn-0" 6643 two_units refl

-- Two addresses that Python's library takes.
abbrev addresses : IpLibrary
addresses a =
    if a == "10.0.0.1"
    then some (record { is_v6 = false; text = a })
    else if a == "fd00::2"
    then some (record { is_v6 = true; text = a })
    else none

abbrev at_address : String → Option String → CentralUnit
at_address name address = record {
  before = ("bound-hostname", "old") ∷ [];
  hostname = name;
  local_addr = address;
  ingress_addr = none;
}

abbrev reachable : List CentralUnit
reachable = at_address "a" (some "10.0.0.1") ∷ at_address "b" (some "fd00::2") ∷ []

addresses_strs-published_example :
    addresses_strs addresses shown_port "bound-address" 6641 (related_to [] [] reachable)
    ≡ db_connection_strs shown_port (map (address_of addresses) reachable) 6641 "ssl"
addresses_strs-published_example =
    addresses_strs-published addresses shown_port 6641 [] [] reachable (
      ("10.0.0.1", record { is_v6 = false; text = "10.0.0.1" }, refl, refl),
      (("fd00::2", record { is_v6 = true; text = "fd00::2" }, refl, refl), tt),
    )

abbrev unreachable : List CentralUnit
unreachable = at_address "a" none ∷ []

remote_ready-no_address_example :
    (remote_ready false (related_to [] [] unreachable) ≡ true)
    × ((requires_context addresses shown_port (related_to [] [] unreachable)).db_nb_connection_strs
        ≡ "")
unfolding remote_proxied related_to
remote_ready-no_address_example =
    remote_ready-no_address addresses shown_port [] [] unreachable refl (((λ e. cc), refl), tt) refl

abbrev blocks : List Block
blocks =
    record {
      head = "Cluster ID: 0ea6 (0ea6-1)";
      key = "Cluster ID";
      rest = " 0ea6 (0ea6-1)";
      body = [];
    }
    ∷ record {
      head = "Servers:";
      key = "Servers";
      rest = "";
      body = "    0ea6 (0ea6 at ssl:192.0.2.42:6643) (self)" ∷ [];
    }
    ∷ []

read_lines-blocks_example :
    (last : String) × (read_lines ascii (lines_of blocks) ("", [])
      ≡ ok (last, update [] (map (entry ascii) blocks)))
unfolding key_of lower until_char after_char
read_lines-blocks_example =
    read_lines-blocks ascii blocks "" []
      ((refl, refl, refl, tt, λ e. cc), ((refl, refl, refl, (refl, tt), λ e. (refl, λ f. cc)), tt))

-- The text that ovn-appctl prints for a cluster whose leader is another server.
abbrev printed : String
printed =
    "0ea6\nName: OVN_Northbound\nCluster ID: 0ea6 (id-1)\nServer ID: 81cb (id-2)\nAddress: ssl:a:6643\nStatus: cluster member\nRole: follower\nTerm: 1\nLeader: 95ad\nVote: 95ad\nElection timer: 4000\nLog: [2, 5]\nEntries not yet committed: 0\nEntries not yet applied: 0\nConnections: ->0000\nServers:\n    0ea6 (0ea6 at ssl:a:6643)\n"

abbrev prints : String → String → Executor ℕ
prints text db command n = (ok text, suc n)

abbrev readers : Readers ℕ
readers = record {
  uuid = λ t. if t == "id-1" then some "0ea6-1" else if t == "id-2" then some "81cb-2" else none;
  int = λ t. some 0;
}

abbrev parts : String → Parts ℕ ℕ
parts text = record {
  unicode = ascii;
  readers = readers;
  number = shown_port;
  rows = λ output. ok [];
  executor = prints text;
  start_service = λ name n. (ok tt, n);
  run_script = λ container script n. (ok tt, n);
  probe = 60;
  check_pebble_handlers_ready = λ n. (ok tt, n);
  check_relation_handlers_ready = λ c. (ok tt, c);
  init_container_services = λ n. (ok tt, n);
}

abbrev leading : ℕ → Central ℕ
leading n = record {
  peers = two_units;
  supports_peer_relation = true;
  is_leader = true;
  unit_bootstrapped = false;
  ports = [];
  world = n;
}

configure_app_leader-announced_example :
    (nb sb : ClusterStatus ℕ) × (c₁ c₂ c₃ c₄ : Central ℕ) × (start_databases
        (parts printed)
        (leading 0)
      ≡ (ok tt, c₁))
    × (configure_listeners (parts printed) c₁ ≡ (ok tt, c₂))
    × (status_of (parts printed) "nb" "ovnnb_db" c₂ ≡ (ok (some nb), c₃))
    × (status_of (parts printed) "sb" "ovnsb_db" c₃ ≡ (ok (some sb), c₄))
    × IsAnnounced nb.cluster_id sb.cluster_id
        (configure_app_leader (parts printed) (leading 0)).1.peers
unfolding configure_app_leader for_each lower ready
configure_app_leader-announced_example =
    configure_app_leader-announced (parts printed) (leading 0) _ refl refl

-- A cluster whose id is not there yet.
configure_app_leader-unread_example :
    let (result, d) = configure_app_leader (parts "Name: a\nCluster ID: x y\n") (leading 0) in
    (result ≡ raised (attribute_error "'NoneType' object has no attribute 'cluster_id'"))
    × (is_leader_ready d.peers ≡ ok (ready two_units))
    × (get_app_data "nb_cid" d.peers ≡ get_app_data "nb_cid" two_units)
unfolding start_databases for_each configure_ovn lower
configure_app_leader-unread_example =
    configure_app_leader-unread (parts "Name: a\nCluster ID: x y\n") (leading 0) (leading 0)
      (leading 3) (leading 4) (leading 5) none refl refl refl refl
