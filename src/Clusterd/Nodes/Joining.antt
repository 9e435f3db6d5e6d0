-- ===== src/Clusterd/Nodes/Joining.antt =====
-- charm.py of sunbeam-clusterd: tokens, joining and certificates.
use mathlib.Core.Path.{subst}
use sunbeam_charms.Prelude.{
  String, ◌≡◌, ◌≢◌, refl, ap, sym, ◌∙◌, Bool, true, false, not, ◌||◌, some, [], ◌∷◌, ◌==◌, eq_iff,
  arith, Bool-cases, Option-cases, inl, inr, if◌then◌else◌, leb,
}
use sunbeam_charms.Dict.{Dict, lookup, update, lookup-insert}
use sunbeam_charms.Exec.{
  Response, Exc, Done, Result, Result-cases, ok, raised, http_error, continue, continue-ok,
}
use sunbeam_charms.Peers.{OperatorPeers, PeerRelation, get_app_data, set_app_data, set_unit_data}
use sunbeam_charms.Clusterd.Client.{Http, generate_token, set_certs, join}
use sunbeam_charms.Status.{maintenance_status, waiting_status}
use sunbeam_charms.Text.{concat}
use sunbeam_charms.Clusterd.Peers.{join_token_key}
use sunbeam_charms.Clusterd.Nodes.{
  Node, Retry, member_name, token_error, configure_certificates, add_node_to_cluster,
  join_node_to_cluster, is_given, set_interface, with_daemon, set_joined, binding_address,
  join_unless, wait_for_role, await_role, wait_until_role_set,
}

-- What a call of the daemon and the note of the digest leave behind.
handed :
    {W : Type 0} (digest : String) (n m : Node W) (r : Done × W)
    → continue (λ _. λ (k : Node W). (ok tt, record k { certs_hash = digest })) (with_daemon n r)
      ≡ (ok tt, m)
    → (m.certs ≡ n.certs) × (m.certs_hash ≡ digest)
handed digest n m (ok u, w) h = (ap (λ r. r.1.certs) (sym h), ap (λ r. r.1.certs_hash) (sym h))
handed digest n m (raised e, w) h = cc

module _ {W : Type 0} (http : Http W) where
  unchanged :
      (hash : Dict String → String) (m : Node W)
      → hash m.certs ≡ m.certs_hash
      → configure_certificates http hash m ≡ (ok tt, m)
  unfolding configure_certificates
  unchanged hash m e = ground (arith, eq_iff (hash m.certs) m.certs_hash)

  -- Once the certificates were configured, configuring them again, with the same certificates at
  -- hand, does nothing: it makes no call of the daemon and leaves the state alone.
  pub configure_certificates-again :
      (hash : Dict String → String) (n m : Node W)
      → configure_certificates http hash n ≡ (ok tt, m)
      → configure_certificates http hash m ≡ (ok tt, m)
  unfolding configure_certificates
  configure_certificates-again hash n m h =
      elim (Bool-cases
        (not n.peers.is_leader || (not n.certs_ready || hash n.certs == n.certs_hash))) [
          | inl e ↦
              let q : n ≡ m = ap (λ r. r.1) (rw e at h) in
              subst (λ x. configure_certificates http hash x ≡ (ok tt, x)) q (rw e)
          | inr e ↦ elim (Option-cases (lookup "ca_cert" n.certs)) [
            | inl a ↦ ground arith
            | inr (ca, a) ↦ elim (Option-cases (lookup "key" n.certs)) [
              | inl b ↦ ground arith
              | inr (key, b) ↦ elim (Option-cases (lookup "cert" n.certs)) [
                | inl c ↦ ground arith
                | inr (cert, c) ↦
                    let (same, k) =
                      handed (hash n.certs) n m (set_certs http ca cert key n.daemon)
                        (ground arith) in
                    unchanged hash m (ap hash same ∙ sym k)
              ]
            ]
          ]
        ]

-- A setting that was written is read back, once the relation exists.
token_read :
    (key token : String) (p : OperatorPeers) (r : PeerRelation)
    → p.peers_rel ≡ some r
    → get_app_data key (set_app_data ((key, token) ∷ []) p) ≡ some token
unfolding get_app_data set_app_data update
token_read key token p r e = rw (e, lookup-insert key key token r.app_data, (eq_iff key key).1 refl)

given : (token : String) → token ≢ "" → is_given (some token) ≡ true
given token h = ground (arith, eq_iff token "")

module _ {W : Type 0} (http : Http W) where
  kept :
      (unit token : String) (m : Node W)
      → token ≢ ""
      → get_app_data (join_token_key unit) m.peers.interface ≡ some token
      → add_node_to_cluster http (some unit) m ≡ (ok tt, m)
  unfolding add_node_to_cluster
  kept unit token m ne e = rw (e, given token ne)

  -- A unit gets one join token: where the peer relation exists, the unit has no token and the
  -- daemon generates one that is not empty, the token is in the application's data afterwards, and
  -- handling the same request again calls no daemon and changes nothing.
  pub add_node_to_cluster-once :
      (unit token : String) (n : Node W) (r : PeerRelation) (v : W)
      → n.peers.interface.peers_rel ≡ some r
      → is_given (get_app_data (join_token_key unit) n.peers.interface) ≡ false
      → generate_token http (member_name unit) n.daemon ≡ (ok token, v)
      → token ≢ ""
      → (m : Node W) × (add_node_to_cluster http (some unit) n ≡ (ok tt, m))
        × (get_app_data (join_token_key unit) m.peers.interface ≡ some token)
        × (add_node_to_cluster http (some unit) m ≡ (ok tt, m))
  unfolding add_node_to_cluster
  add_node_to_cluster-once unit token n r v e none_yet g ne =
      let key = join_token_key unit in
      let m = set_interface (set_app_data ((key, token) ∷ [])) (record n { daemon = v }) in
      let read = token_read key token n.peers.interface r e in
      (m, rw (none_yet, g), read, kept unit token m ne read)

  -- A token that cannot be generated leaves the application's data alone. The event is deferred if
  -- the daemon answered with a code from 500 on; any other HTTP error is raised.
  pub add_node_to_cluster-failed :
      (unit msg : String) (n : Node W) (answer : Response) (v : W)
      → is_given (get_app_data (join_token_key unit) n.peers.interface) ≡ false
      → generate_token http (member_name unit) n.daemon ≡ (raised (http_error msg (some answer)), v)
      → add_node_to_cluster http (some unit) n ≡ (
          if leb 500 answer.status_code
          then (ok tt, record n { daemon = v; deferred = true })
          else (raised (http_error msg (some answer)), record n { daemon = v }))
  unfolding add_node_to_cluster token_error
  add_node_to_cluster-failed unit msg n answer v none_yet g = rw (none_yet, g) (ground arith)

module _ {W : Type 0} (http : Http W) (retry : Retry W) where
  after_join :
      (token : String) (n m : Node W)
      → join_unless http token n ≡ (ok tt, m)
      → m.peers.joined ≡ true
  after_join token n m h = elim (Bool-cases n.peers.joined) [
    | inl e ↦ ground arith
    | inr e ↦ elim (Result-cases (binding_address n)) [
      | inr (x, b) ↦ ground arith
      | inl (a, b) ↦
          marked
            (join http (member_name n.unit_name) (concat (a ∷ ":" ∷ n.port ∷ [])) token n.daemon)
            (ground arith)
    ]
  ]
    where
      marked :
          (r : Done × W)
          → continue
              (λ _. λ (k : Node W).
                (ok tt, set_interface (set_unit_data (("joined", "true") ∷ [])) (set_joined k)))
              (with_daemon n r)
            ≡ (ok tt, m)
          → m.peers.joined ≡ true
      marked (ok u, w) k = ap (λ r. r.1.peers.joined) (sym k)
      marked (raised x, w) k = cc

  after_wait :
      (n m : Node W) → wait_for_role http retry n ≡ (ok tt, m) → m.peers.joined ≡ n.peers.joined
  after_wait n m h = waited (wait_until_role_set http retry (member_name n.unit_name) n.daemon) h
    where
      waited :
          (r : Result Bool × W)
          → continue await_role
              (with_daemon (record n { status = waiting_status "Waiting for clusterd role" }) r)
            ≡ (ok tt, m)
          → m.peers.joined ≡ n.peers.joined
      waited (ok true, w) k = ap (λ r. r.1.peers.joined) (sym k)
      waited (ok false, w) k = ap (λ r. r.1.peers.joined) (sym k)
      waited (raised x, w) k = cc

  -- A unit whose token is there and whose handling of the event returned has joined.
  pub join_node_to_cluster-joined :
      (token : String) (n m : Node W)
      → get_app_data (join_token_key n.unit_name) n.peers.interface ≡ some token
      → join_node_to_cluster http retry n ≡ (ok tt, m)
      → m.peers.joined ≡ true
  unfolding join_node_to_cluster
  join_node_to_cluster-joined token n m e h =
      let (_, k, j, w) =
        continue-ok _
          (join_unless http token (record n { status = maintenance_status "Joining cluster" }))
          (rw e at h) in
      after_wait k m w ∙ after_join token _ k j

  -- A unit whose request to join fails is not marked as joined, so that the next event tries again.
  pub join_node_to_cluster-failed :
      (token address : String) (error : Exc) (n : Node W) (v : W)
      → get_app_data (join_token_key n.unit_name) n.peers.interface ≡ some token
      → n.peers.joined ≡ false
      → binding_address n ≡ ok address
      → join http (member_name n.unit_name) (concat (address ∷ ":" ∷ n.port ∷ [])) token n.daemon
        ≡ (raised error, v)
      → join_node_to_cluster http retry n
        ≡ (raised error, record n { status = maintenance_status "Joining cluster"; daemon = v })
  unfolding join_node_to_cluster binding_address
  join_node_to_cluster-failed token address error n v e j b q = ground arith
