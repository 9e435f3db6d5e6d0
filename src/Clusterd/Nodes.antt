-- ===== src/Clusterd/Nodes.antt =====
-- charms/sunbeam-clusterd/src/charm.py: the life of a node of the cluster, with its join token and
-- its removal, and the certificates that the leader hands to the daemon.
pub mod Joining
pub mod Leaving
pub mod Removal
use sunbeam_charms.Prelude.{
  ℕ, zero, suc, ◌+◌, ◌%◌, String, Bool, true, false, not, ◌&&◌, ◌||◌, Option, none, some, List, [],
  ◌∷◌, nat_eq, leb, ◌==◌, if◌then◌else◌,
}
use sunbeam_charms.Text.{replace_char, contains_text, concat}
use sunbeam_charms.Dict.{Dict, lookup, remove}
use sunbeam_charms.Exec.{
  Response, Exc, Result, ok, raised, Exec, Action, waiting_error, value_error, key_error,
  unavailable, http_error, retry_error, continue, ◌>>=◌, ◌>>◌, pure, raise, gets, handle,
  try◌except◌, modify, skip,
}
use sunbeam_charms.Status.{StatusBase, waiting_status, maintenance_status}
use sunbeam_charms.Peers.{OperatorPeers, get_app_data, set_app_data, set_unit_data}
use sunbeam_charms.Clusterd.Client.{
  Http, Member, ready, bootstrap, join, get_members, get_member, remove_node, generate_token,
  set_certs, is_status,
}
use sunbeam_charms.Clusterd.Peers.{ClusterdPeers, join_token_key}

-- The charm's unit and the daemon behind it. `network` is what ops knows of the binding of the
-- peer relation, with its address; `deferred` says that the event of this run is deferred.
pub record Node (W : Type 0) : Type 0 where
  pub unit_name : String
  pub port : String
  pub network : Option (Option String)
  pub peers : ClusterdPeers
  pub status : StatusBase
  pub deferred : Bool
  pub certs_ready : Bool
  pub certs : Dict String
  pub certs_hash : String
  pub daemon : W

-- What belongs to the library `tenacity`: a call that is tried again until it answers True, for a
-- number of seconds, and one that is also tried again when clusterd is unavailable.
pub record Retry (W : Type 0) : Type 0 where
  pub until_true : ℕ → Exec W Bool → Exec W Bool
  pub until_available : ℕ → Exec W Bool → Exec W Bool

-- `name.replace("/", "-")`
unfoldable pub member_name : String → String
member_name unit = replace_char b'/' "-" unit

abbrev address_of : Option (Option String) → Result String
address_of none = raised (value_error "Missing binding peers")
address_of (some none) = raised (value_error "Missing binding address")
address_of (some (some a)) = ok a

-- A token that is the empty text counts as none.
abbrev pub is_given : Option String → Bool
is_given none = false
is_given (some t) = not (t == "")

module _ {W : Type 0} where
  -- `except tenacity.RetryError: return False`
  abbrev pub false_if_retried : Exc → Exec W Bool
  false_if_retried (retry_error m) = pure false
  false_if_retried e = raise e

  -- A call of the daemon, from the charm.
  abbrev pub with_daemon : {A : Type 0} → Node W → Result A × W → Result A × Node W
  with_daemon n (r, w) = (r, record n { daemon = w })

  abbrev pub on_daemon : {A : Type 0} → Exec W A → Exec (Node W) A
  on_daemon m n = with_daemon n (m n.daemon)

  abbrev pub set_status : StatusBase → Action (Node W)
  set_status st = modify (λ n. record n { status = st })

  abbrev pub defer : Action (Node W)
  defer = modify (λ n. record n { deferred = true })

  abbrev pub set_interface : (OperatorPeers → OperatorPeers) → Node W → Node W
  set_interface f n = record n { peers = record n.peers { interface = f n.peers.interface } }

  abbrev pub set_joined : Node W → Node W
  set_joined n = record n { peers = record n.peers { joined = true } }

  unfoldable pub binding_address : Node W → Result String
  binding_address n = elim n.peers.interface.peers_rel [
    | none ↦ raised (value_error "Missing relation peers")
    | some r ↦ address_of n.network
  ]

  abbrev endpoint : Exec (Node W) String
  endpoint = do a ← (λ n. (binding_address n, n)); gets (λ n. concat (a ∷ ":" ∷ n.port ∷ []))

  -- `certs[key]`
  abbrev certificate : String → Exec (Node W) String
  certificate key n = elim (lookup key n.certs) [
    | none ↦ (raised (key_error key), n)
    | some v ↦ (ok v, n)
  ]

  -- A token that could not be generated: the event is deferred if the daemon failed.
  unfoldable pub token_error : Exc → Action (Node W)
  token_error (http_error m (some r)) =
      if leb 500 r.status_code then defer else raise (http_error m (some r))
  token_error e = raise e

  abbrev pub await_role : Bool → Action (Node W)
  await_role true = skip
  await_role false = defer

module _ {W : Type 0} (http : Http W) where
  unfoldable pub bootstrap_cluster : Action (Node W)
  bootstrap_cluster = do
    a ← endpoint
    name ← gets (λ (n : Node W). member_name n.unit_name)
    on_daemon (bootstrap http name a)

  -- One try of `_wait_until_role_set`.
  unfoldable pub role_set : String → Exec W Bool
  role_set name = do m ← get_member http name; pure (not (m.role == "PENDING"))

  -- `hash` is the digest of the text of a dictionary.
  unfoldable pub configure_certificates : (Dict String → String) → Action (Node W)
  configure_certificates hash n =
      if not n.peers.is_leader || (not n.certs_ready || hash n.certs == n.certs_hash)
      then (ok tt, n)
      else (do
        ca ← certificate "ca_cert"
        key ← certificate "key"
        cert ← certificate "cert"
        on_daemon (set_certs http ca cert key)
        modify (λ (m : Node W). record m { certs_hash = hash n.certs }))
          n

  abbrev new_token : String → Action (Node W)
  new_token unit = do
    token ← on_daemon (generate_token http (member_name unit))
    modify (set_interface (set_app_data ((join_token_key unit, token) ∷ [])))

  unfoldable pub add_node_to_cluster : Option String → Action (Node W)
  unfolding token_error
  add_node_to_cluster none n = (ok tt, n)
  add_node_to_cluster (some unit) n =
      if is_given (get_app_data (join_token_key unit) n.peers.interface)
      then (ok tt, n)
      else (try new_token unit except token_error) n

  abbrev pub join_with : String → Action (Node W)
  join_with token = do
    a ← endpoint
    name ← gets (λ (n : Node W). member_name n.unit_name)
    on_daemon (join http name a token)
    modify (λ (n : Node W). set_interface (set_unit_data (("joined", "true") ∷ [])) (set_joined n))

  abbrev pub join_unless : String → Action (Node W)
  join_unless token n = if n.peers.joined then (ok tt, n) else join_with token n

module _ {W : Type 0} (http : Http W) (retry : Retry W) where
  unfoldable pub clusterd_ready : Exec (Node W) Bool
  clusterd_ready = on_daemon (retry.until_available 10 (ready http))

  unfoldable pub wait_until_role_set : String → Exec W Bool
  wait_until_role_set name = try retry.until_true 300 (role_set http name) except false_if_retried

  abbrev pub wait_for_role : Action (Node W)
  wait_for_role = do
    set_status (waiting_status "Waiting for clusterd role")
    name ← gets (λ (n : Node W). member_name n.unit_name)
    set ← on_daemon (wait_until_role_set name)
    await_role set

  abbrev joining : Option String → Action (Node W)
  joining none = skip
  joining (some token) = do join_unless http token; wait_for_role

  unfoldable pub join_node_to_cluster : Action (Node W)
  join_node_to_cluster = do
    set_status (maintenance_status "Joining cluster")
    token ← gets (λ (n : Node W). get_app_data (join_token_key n.unit_name) n.peers.interface)
    joining token
