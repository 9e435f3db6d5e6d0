-- ===== src/Keystone/Certificates/Uploads.antt =====
-- charms/keystone-k8s/src/charm.py: the actions that upload, remove and list certificates.
pub mod Stored
use sunbeam_charms.Prelude.{
  String, ◌≡◌, refl, Bool, true, false, not, Option, none, some, List, [], ◌∷◌, all_of, ◌==◌,
  if◌then◌else◌, keep,
}
use sunbeam_charms.Text.{contains_text, replace_char}
use sunbeam_charms.Dict.{Dict, lookup, insert, remove, has_key, keys, update}
use sunbeam_charms.Exec.{Exec, Action, Result, ok, raised, value_error, continue, handle}
use sunbeam_charms.Guard.{exc_text}
use sunbeam_charms.Keystone.Setup.{Juju}
use sunbeam_charms.Keystone.Certificates.{Bundle, certificate_is_valid, ca_chain_is_valid}

-- What the actions call: base64, the search for certificates in a text, and `cryptography`. What
-- `decode` and `find_certificates` raise is what the actions catch.
pub record Tools (X : Type 0) : Type 0 where
  pub decode : Option String → Result String
  pub find_certificates : String → List String
  pub load : String → Option X
  pub issued_by : X → X → Bool

module _ {X : Type 0} (tools : Tools X) where
  abbrev found_chain : List String → Result (List String)
  found_chain [] = raised (value_error "No certificate found in chain file")
  found_chain (x ∷ xs) = ok (x ∷ xs)

  unfoldable pub parse_ca_chain : String → Result (List String)
  parse_ca_chain pem = found_chain (tools.find_certificates pem)

-- The event and the peers' data: `fail` is `event.fail`, `loads` and `dumps` are json's.
pub record Event (S : Type 0) : Type 0 where
  pub fail : String → S → S
  pub set_results : Dict Bundle → S → S
  pub loads : String → Dict Bundle
  pub dumps : Dict Bundle → String

abbrev pub certs_label : String
certs_label = "certs_to_transfer"

abbrev not_leader : String
not_leader = "Please run action on lead unit."

-- `self.peers.get_app_data(…) or "{}"`
abbrev pub or_braces : Option String → String
or_braces none = "{}"
or_braces (some t) = if t == "" then "{}" else t

module _ {S X : Type 0} (juju : Juju S) (event : Event S) (tools : Tools X) where
  -- The chain of an upload: None when the method returned. A chain that is not valid fails the
  -- event, and the method goes on.
  abbrev checked_list : String → String → List String → Exec S (Option Bundle)
  checked_list ca_cert chain_certs certificates s =
      if not (all_of (certificate_is_valid tools.load) certificates)
      then (ok none, event.fail "Invalid certificate in CA Chain" s)
      else (
        ok (some (record { ca = some ca_cert; chain = some chain_certs })),
        if ca_chain_is_valid tools.load tools.issued_by certificates
            then s
            else event.fail "Invalid CA Chain" s,
      )

  abbrev checked_chain : String → Option String → Exec S (Option Bundle)
  checked_chain ca_cert none s = (ok (some (record { ca = some ca_cert; chain = none })), s)
  checked_chain ca_cert (some chain) s =
      if chain == ""
      then (ok (some (record { ca = some ca_cert; chain = none })), s)
      else continue
          (λ chain_certs. (λ t.
            continue (checked_list ca_cert chain_certs) (parse_ca_chain tools chain_certs, t)))
          (tools.decode (some chain), s)

  abbrev checked_ca : Option String → String → Exec S (Option Bundle)
  checked_ca chain ca_cert s =
      if certificate_is_valid tools.load ca_cert
      then checked_chain ca_cert chain s
      else (ok none, event.fail "Invalid CA certificate" s)

  unfoldable pub checked_upload : Option String → Option String → Exec S (Option Bundle)
  unfolding certificate_is_valid ca_chain_is_valid parse_ca_chain
  checked_upload ca chain s =
      handle (λ e. λ t. (ok none, event.fail (exc_text e) t))
        (continue (checked_ca chain) (tools.decode ca, s))

  abbrev pub certificates : S → Dict Bundle
  certificates s = event.loads (or_braces (juju.get_app_data certs_label s))

  abbrev pub keep_certificates : Dict Bundle → S → S
  keep_certificates d s = juju.set_app_data ((certs_label, event.dumps d) ∷ []) s

  -- `transfer` is `_handle_certificate_transfers`.
  abbrev take_upload : Action S → String → Option Bundle → Action S
  take_upload transfer name none s = (ok tt, s)
  take_upload transfer name (some b) s =
      if has_key name (certificates s)
      then (ok tt, event.fail "Certificate bundle already transferred" s)
      else transfer (keep_certificates (insert name b (certificates s)) s)

  unfoldable pub add_ca_certs_action : Action S → String → Option String → Option String → Action S
  unfolding checked_upload
  add_ca_certs_action transfer name ca chain s =
      if juju.is_leader s
      then continue (take_upload transfer name) (checked_upload ca chain s)
      else (ok tt, event.fail not_leader s)

module _ {S : Type 0} (juju : Juju S) (event : Event S) where
  unfoldable pub remove_ca_certs_action : Action S → String → Action S
  remove_ca_certs_action transfer name s =
      if not (juju.is_leader s)
      then (ok tt, event.fail not_leader s)
      else let d = event.loads (or_braces (juju.get_app_data certs_label s)) in
        if has_key name d
        then transfer (juju.set_app_data ((certs_label, event.dumps (remove name d)) ∷ []) s)
        else (ok tt, event.fail "Certificate bundle does not exist" s)

-- The loop over the names with a dot, each moved to the name with a dash in its place.
abbrev put_back : String → Option Bundle → Dict Bundle → Dict Bundle
put_back name none d = d
put_back name (some b) d = remove name (insert (replace_char b'.' "-" name) b d)

unfoldable pub without_dots : List String → Dict Bundle → Dict Bundle
unfolding replace_char
without_dots [] d = d
without_dots (name ∷ names) d = without_dots names (put_back name (lookup name d) d)

module _ {S : Type 0} (juju : Juju S) (event : Event S) where
  -- `received` is `_get_received_ca_relation_bundles()`.
  unfoldable pub list_ca_certs_action : Dict Bundle → Action S
  unfolding without_dots contains_text
  list_ca_certs_action received s =
      if juju.is_leader s
      then (let d = event.loads (or_braces (juju.get_app_data certs_label s)) in
          (
            ok tt,
            event.set_results (update (without_dots (keep (contains_text ".") (keys d)) d) received)
                s,
          ))
      else (ok tt, event.fail not_leader s)
