-- ===== src/Examples/Cluster.antt =====
-- The cluster daemon's client, its peers and its nodes at concrete inputs.
use sunbeam_charms.Prelude.{
  ℕ, suc, ◌&&◌, String, ◌≡◌, ◌≢◌, refl, ap, ◌∙◌, Bool, true, false, none, some, List, [], ◌∷◌, leb,
  ◌==◌, if◌then◌else◌, arith, eq_iff,
}
use sunbeam_charms.Dict.{Dict}
use sunbeam_charms.Text.{strip_slash, concat}
use sunbeam_charms.Exec.{Response, Result, ok, raised, retry_error, waiting_error}
use sunbeam_charms.Status.{waiting_status, unknown_status}
use sunbeam_charms.Peers.{OperatorPeers, get_app_data, set_app_data}
use sunbeam_charms.Relations.{other_event}
use sunbeam_charms.Clusterd.Client.{
  Http, Member, Request, request, get_members, generate_token, ready,
}
use sunbeam_charms.Clusterd.Client
use sunbeam_charms.Text
use sunbeam_charms.Dict
use sunbeam_charms.Peers
use sunbeam_charms.Clusterd.Peers.{ClusterdPeers, join_token_key}
use sunbeam_charms.Clusterd.Nodes.{
  Node, Retry, configure_certificates, add_node_to_cluster, join_node_to_cluster,
}
use sunbeam_charms.Clusterd.Nodes.Leaving.{
  is_settled, removal, leaving_message, remove_node_from_cluster, wait_until_roles_are_settled,
}
use sunbeam_charms.Clusterd.Nodes
use sunbeam_charms.Clusterd.Nodes.Leaving
use sunbeam_charms.Clusterd.Application
use sunbeam_charms.Clusterd.Application.{configure_app_leader, after_bootstrap}
use sunbeam_charms.Clusterd.Nodes.Joining.{add_node_to_cluster-once}
use sunbeam_charms.Clusterd.Nodes.Removal.{
  EndsInTry, remove_node_from_cluster-unsettled, remove_node_from_cluster-settled,
}
use sunbeam_charms.Examples.Data.{joined_relation}

-- Two texts of which the test finds that they differ.
apart : (a b : String) → (a == b) ≡ false → a ≢ b
apart a b h e = ground (arith, eq_iff a b)

abbrev with_code : ℕ → Response
with_code code = record { status_code = code; body = "" }

abbrev voter : String → Member
voter name = record { name = name; role = "voter" }

-- A daemon that counts its requests and answers each with the same code.
abbrev daemon : ℕ → List Member → Http ℕ
daemon code members = record {
  send = λ req calls. (ok (with_code code), suc calls);
  status_error =
      λ r. if leb 400 r.status_code && leb r.status_code 599 then some "failed" else none;
  json_error = λ r. none;
  json_members = λ r. ok members;
  json_metadata = λ r. ok "token";
}

-- One try.
abbrev only_true : Result Bool × ℕ → Result Bool × ℕ
only_true (ok true, w) = (ok true, w)
only_true (ok false, w) = (raised (retry_error "gave up"), w)
only_true (raised e, w) = (raised e, w)

abbrev one_try : Retry ℕ
one_try = record {
  until_true = λ seconds m w. only_true (m w);
  until_available = λ attempts m w. only_true (m w);
}

ends_in_try : EndsInTry one_try
ends_in_try seconds m b w v h = go (m w) refl h
  where
    go :
        (r : Result Bool × ℕ)
        → m w ≡ r
        → only_true r ≡ (ok b, v)
        → (b ≡ true) × (u : ℕ) × (m u ≡ (ok true, v))
    go (ok true, k) e q = (ground arith, w, e ∙ ap (λ r. (ok true, r.1)) q)
    go (ok false, k) e q = cc
    go (raised x, k) e q = cc

-- The leader's data: one token.
abbrev interface : OperatorPeers
interface = record {
  peers_rel = some (record joined_relation { app_data = ("u/1.join_token", "t1") ∷ [] });
  local_unit = "u/0";
}

abbrev leader : ClusterdPeers
leader = record { interface = interface; joined = true; is_leader = true }

abbrev node : ClusterdPeers → Node ℕ
node peers = record {
  unit_name = "u/0";
  port = "7000";
  network = some (some "10.0.0.1");
  peers = peers;
  status = unknown_status;
  deferred = false;
  certs_ready = true;
  certs = ("ca_cert", "ca") ∷ ("key", "k") ∷ ("cert", "c") ∷ [];
  certs_hash = "";
  daemon = 0;
}

abbrev digest : Dict String → String
digest d = "digest"

abbrev configured : Node ℕ
configured = record (node leader) { certs_hash = "digest"; daemon = 2 }

-- A unit that has a token and has not joined.
abbrev newcomer : Node ℕ
newcomer = node (record {
  interface = record interface { local_unit = "u/1" };
  joined = false;
  is_leader = false;
})

abbrev newcomer_unit : Node ℕ
newcomer_unit = record newcomer { unit_name = "u/1" }

abbrev joined_unit : Node ℕ
joined_unit = (join_node_to_cluster (daemon 200 (voter "u-1" ∷ [])) one_try newcomer_unit).1

joined_now :
    join_node_to_cluster (daemon 200 (voter "u-1" ∷ [])) one_try newcomer_unit
    ≡ (ok tt, joined_unit)
unfolding join_node_to_cluster get_app_data Dict.lookup join_token_key concat
    Nodes.wait_until_role_set Nodes.role_set Client.get_member get_members Client.find_member
    Client.join request strip_slash Nodes.binding_address Nodes.member_name Text.replace_char
joined_now = refl

abbrev led : Node ℕ
led = (configure_app_leader (daemon 200 []) one_try digest other_event (node leader)).1

led_now :
    configure_app_leader (daemon 200 []) one_try digest other_event (node leader) ≡ (ok tt, led)
unfolding configure_app_leader Nodes.clusterd_ready ready request Peers.is_leader_ready get_app_data
    Dict.lookup Nodes.bootstrap_cluster Nodes.binding_address Client.bootstrap
    configure_certificates Client.set_certs Application.announce_leader
led_now = refl

add_node_to_cluster-once_example :
    (m : Node ℕ) × (add_node_to_cluster (daemon 200 []) (some "u/2") (node leader) ≡ (ok tt, m))
    × (get_app_data (join_token_key "u/2") m.peers.interface ≡ some "token")
    × (add_node_to_cluster (daemon 200 []) (some "u/2") m ≡ (ok tt, m))
add_node_to_cluster-once_example =
    add_node_to_cluster-once (daemon 200 []) "u/2" "token" (node leader)
      (record joined_relation { app_data = ("u/1.join_token", "t1") ∷ [] }) 1 refl
      (unfold get_app_data Dict.lookup join_token_key concat in refl)
      (unfold generate_token request strip_slash in refl) (apart "token" "" refl)

abbrev removed : Node ℕ
removed =
    record (node (record leader {
      interface = record interface { peers_rel = some (record joined_relation { app_data = [] }) };
    })) { status = waiting_status "Waiting for roles to settle"; daemon = 3 }

removed_now :
    remove_node_from_cluster (daemon 200 (voter "u-0" ∷ [])) one_try (some "u/1") (node leader)
    ≡ (ok tt, removed)
unfolding remove_node_from_cluster Leaving.wait_for_roles_to_settle_before_removal
    wait_until_roles_are_settled Leaving.roles_settled get_members Leaving.voters is_settled
    Leaving.remove_member_from_cluster Client.remove_node request strip_slash Nodes.member_name
    Text.replace_char concat Dict.remove join_token_key
removed_now = refl

remove_node_from_cluster-settled_example :
    (members : List Member) × (u : ℕ) × (get_members (daemon 200 (voter "u-0" ∷ [])) u
      ≡ (ok members, 3))
    × (is_settled members ≡ true)
remove_node_from_cluster-settled_example =
    remove_node_from_cluster-settled (daemon 200 (voter "u-0" ∷ [])) one_try ends_in_try "u/1"
      (node leader) removed (apart "u/1" "u/0" refl) removed_now

remove_node_from_cluster-unsettled_example :
    remove_node_from_cluster (daemon 200 []) one_try (some "u/1") (node leader) ≡ (
      raised (waiting_error "Waiting for roles to settle before removing member"),
      record (node leader) {
        status = waiting_status "Waiting for roles to settle before removing member";
        daemon = 1;
        deferred = true;
      },
    )
remove_node_from_cluster-unsettled_example =
    remove_node_from_cluster-unsettled (daemon 200 []) one_try "u/1" (node leader) 1 (
      unfold wait_until_roles_are_settled Leaving.roles_settled get_members request strip_slash
        Leaving.voters is_settled in
      refl)
