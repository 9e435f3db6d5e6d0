-- ===== src/Examples/Uploads.antt =====
-- The upload of certificates at a concrete bundle.
use text.Mathlib.TextLemmas.{cons-ne-nil}
use sunbeam_charms.Prelude.{
  String, ◌≡◌, refl, ap, ◌∙◌, true, Option, none, some, List, [], ◌∷◌, ◌==◌, ◌&&◌, if◌then◌else◌,
  eq_refl, eq_iff, arith,
}
use sunbeam_charms.Dict.{Dict, insert, lookup, update, has_key, lookup-insert}
use sunbeam_charms.Exec.{Action, ok}
use sunbeam_charms.Keystone.Setup.{Juju}
use sunbeam_charms.Keystone.Certificates.{Bundle, certificate_is_valid, ca_chain_is_valid}
use sunbeam_charms.Keystone.Certificates.Uploads.{Tools, Event, add_ca_certs_action, certificates}
use sunbeam_charms.Keystone.Certificates.Uploads.Stored.{
  Documented, IsUnchained, add_ca_certs_action-no_chain,
}
use sunbeam_charms.Examples.Users.{names, dumps, loads, read_names, read_names-names}

-- Bundles as lists of texts: a mark before each certificate that is there.
abbrev shown : Option String → String
shown none = ""
shown (some t) = String.◌∷◌ "+" t

abbrev read : String → Option String
read String.[] = none
read (String.◌∷◌ c t) = some t

read-shown : (o : Option String) → read (shown o) ≡ o
read-shown none = refl
read-shown (some t) = refl

flat : Dict Bundle → List String
flat [] = []
flat ((name, b) ∷ d) = name ∷ shown b.ca ∷ shown b.chain ∷ flat d

bundles : List String → Dict Bundle
bundles (name ∷ ca ∷ chain ∷ rest) =
    (name, record { ca = read ca; chain = read chain }) ∷ bundles rest
bundles other = []

bundles-flat : (d : Dict Bundle) → bundles (flat d) ≡ d
unfolding bundles flat
bundles-flat [] = refl
bundles-flat ((name, b) ∷ d) = rw (read-shown b.ca, read-shown b.chain, bundles-flat d) refl

-- The data of the application, the failures, and the transfers.
record Desk : Type 0 where
  app : Dict String
  failures : List String
  transfers : List String

abbrev juju : Juju Desk
juju = record {
  is_leader = λ s. true;
  get_app_data = λ key s. lookup key s.app;
  set_app_data = λ d s. record s { app = update s.app d };
  get_content = λ secret s. (ok [], s);
  set_content = λ secret d s. (ok tt, s);
  add_secret = λ d label rotate s. (ok "secret:1", s);
}

abbrev event : Event Desk
event = record {
  fail = λ m s. record s { failures = m ∷ s.failures };
  set_results = λ d s. s;
  loads = λ t. bundles (loads t);
  dumps = λ d. dumps (flat d);
}

documented : Documented juju event
unfolding update
documented = record {
  failures = λ s. s.failures;
  failures-fail = λ m s. refl;
  get-fail = λ k m s. refl;
  failures-set = λ d s. refl;
  get-set = λ k v s e. lookup-insert k k v s.app ∙ rw (eq_refl k) refl;
  loads-dumps = λ d. ap bundles (read_names-names (flat d)) ∙ bundles-flat d;
  dumps_text = λ d. ground (arith, eq_iff (dumps (flat d)) "", cons-ne-nil "[" (names (flat d)));
}

abbrev load : String → Option String
load t = if t == "" then none else some t

-- The root has not issued the other certificate.
abbrev tools : Tools String
tools = record {
  decode = λ o. ok "leaf";
  find_certificates = λ t. "leaf" ∷ "other" ∷ [];
  load = load;
  issued_by = λ x y. x == "leaf" && y == "root";
}

unchained : IsUnchained tools (some "bGVhZg==") "bGVhZg==" ("leaf", "leaf")
unfolding certificate_is_valid ca_chain_is_valid
unchained = record {
  first = "leaf";
  rest = "other" ∷ [];
  ca_decoded = refl;
  ca_valid = refl;
  chain_given = refl;
  chain_decoded = refl;
  chain_found = refl;
  all_valid = refl;
  unchained = refl;
}

abbrev transfer : Action Desk
transfer s = (ok tt, record s { transfers = "sent" ∷ s.transfers })

abbrev empty_desk : Desk
empty_desk = record { app = []; failures = []; transfers = [] }

abbrev leaves : Bundle
leaves = record { ca = some "leaf"; chain = some "leaf" }

add_ca_certs_action-no_chain_example :
    (t : Desk) × (add_ca_certs_action juju event tools transfer "bundle"
        (some "bGVhZg==")
        (some "bGVhZg==")
        empty_desk
      ≡ transfer t)
    × (documented.failures t ≡ "Invalid CA Chain" ∷ documented.failures empty_desk)
    × (certificates juju event tools t
        ≡ insert "bundle" leaves (certificates juju event tools empty_desk))
add_ca_certs_action-no_chain_example =
    add_ca_certs_action-no_chain juju event tools documented transfer "bundle" (some "bGVhZg==")
      "bGVhZg==" ("leaf", "leaf") empty_desk refl unchained
      (unfold lookup bundles read_names has_key in refl)
