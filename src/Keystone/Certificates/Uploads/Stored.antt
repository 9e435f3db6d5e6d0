-- ===== src/Keystone/Certificates/Uploads/Stored.antt =====
-- charms/keystone-k8s/src/charm.py: what an upload whose certificates are no chain leaves.
use sunbeam_charms.Prelude.{
  String, ◌≡◌, refl, ap, ◌∙◌, true, false, some, Option, List, [], ◌∷◌, all_of, ◌==◌,
}
use sunbeam_charms.Dict.{Dict, insert, has_key}
use sunbeam_charms.Exec.{Action, ok}
use sunbeam_charms.Keystone.Setup.{Juju}
use sunbeam_charms.Keystone.Certificates.{Bundle, certificate_is_valid, ca_chain_is_valid}
use sunbeam_charms.Keystone.Certificates.Uploads.{
  Tools, Event, certs_label, or_braces, certificates, keep_certificates, parse_ca_chain,
  checked_upload, add_ca_certs_action,
}

-- What ops and json document: failing an event is on record and leaves the data of the application,
-- data that was written is read, and a dictionary that is written as a text is read as it was.
pub record Documented {S : Type 0} (juju : Juju S) (event : Event S) : Type 0 where
  pub failures : S → List String
  pub failures-fail : (m : String) (s : S) → failures (event.fail m s) ≡ m ∷ failures s
  pub get-fail :
      (k m : String) (s : S) → juju.get_app_data k (event.fail m s) ≡ juju.get_app_data k s
  pub failures-set : (d : Dict String) (s : S) → failures (juju.set_app_data d s) ≡ failures s
  pub get-set :
      (k v : String) (s : S)
      → (v == "") ≡ false
      → juju.get_app_data k (juju.set_app_data ((k, v) ∷ []) s) ≡ some v
  pub loads-dumps : (d : Dict Bundle) → event.loads (event.dumps d) ≡ d
  pub dumps_text : (d : Dict Bundle) → (event.dumps d == "") ≡ false

-- An upload of which every certificate is valid, but those of the chain do not issue one another.
pub record IsUnchained {X : Type 0} (tools : Tools X) (ca : Option String) (chain : String)
    (bundle : String × String) : Type 0 where
  pub first : String
  pub rest : List String
  pub ca_decoded : tools.decode ca ≡ ok bundle.0
  pub ca_valid : certificate_is_valid tools.load bundle.0 ≡ true
  pub chain_given : (chain == "") ≡ false
  pub chain_decoded : tools.decode (some chain) ≡ ok bundle.1
  pub chain_found : tools.find_certificates bundle.1 ≡ first ∷ rest
  pub all_valid : all_of (certificate_is_valid tools.load) (first ∷ rest) ≡ true
  pub unchained : ca_chain_is_valid tools.load tools.issued_by (first ∷ rest) ≡ false

module _ {S X : Type 0} (juju : Juju S) (event : Event S) (tools : Tools X)
    (d : Documented juju event) where
  abbrev stored : S → Dict Bundle
  stored = certificates juju event tools

  stored-fail : (m : String) (s : S) → stored (event.fail m s) ≡ stored s
  stored-fail m s = ap (λ o. event.loads (or_braces o)) (d.get-fail certs_label m s)

  stored-keep : (b : Dict Bundle) (s : S) → stored (keep_certificates juju event tools b s) ≡ b
  stored-keep b s =
      ap (λ o. event.loads (or_braces o)) (d.get-set certs_label (event.dumps b) s (d.dumps_text b))
      ∙ rw (d.dumps_text b) (d.loads-dumps b)

  -- If ops and json work as documented, and the leader is given a bundle under a new name, all of
  -- whose certificates are valid but are no chain, then the event fails, and the state in which the
  -- certificates are transferred has stored the bundle beside those that were stored.
  pub add_ca_certs_action-no_chain :
      (transfer : Action S) (name : String) (ca : Option String) (chain : String)
      (bundle : String × String) (s : S)
      → juju.is_leader s ≡ true
      → IsUnchained tools ca chain bundle
      → has_key name (stored s) ≡ false
      → (t : S) × (add_ca_certs_action juju event tools transfer name ca (some chain) s
          ≡ transfer t)
        × (d.failures t ≡ "Invalid CA Chain" ∷ d.failures s)
        × (stored t ≡ insert name (record { ca = some bundle.0; chain = some bundle.1 }) (stored s))
  unfolding add_ca_certs_action checked_upload parse_ca_chain
  add_ca_certs_action-no_chain transfer name ca chain bundle s l i new =
      let failed = event.fail "Invalid CA Chain" s in
      let same = stored-fail "Invalid CA Chain" s in
      let all =
        insert name (record { ca = some bundle.0; chain = some bundle.1 }) (stored failed) in
      (
        keep_certificates juju event tools all failed,
        rw
            (
              l,
              i.ca_decoded,
              i.ca_valid,
              i.chain_given,
              i.chain_decoded,
              i.chain_found,
              i.all_valid,
              i.unchained,
              ap (has_key name) same ∙ new,
            )
            refl,
        d.failures-set _ failed ∙ d.failures-fail "Invalid CA Chain" s,
        stored-keep all failed ∙ ap (insert name _) same,
      )
