-- ===== src/Keystone/Certificates.antt =====
-- charms/keystone-k8s/src/charm.py and utils/certs.py: the certificates that are uploaded, received
-- and passed on.
pub mod Entries
pub mod Uploads
use sunbeam_charms.Prelude.{
  ℕ, String, Bool, true, false, not, ◌&&◌, ◌||◌, Option, none, some, List, [], ◌∷◌, ◌++◌, is_empty,
  all_of, map, ◌==◌, if◌then◌else◌,
}
use sunbeam_charms.Text.{concat, join, contains_text, replace_char}
use sunbeam_charms.Dict.{Dict, lookup, insert, remove, has_key, contains, update}
use sunbeam_charms.Exec.{
  Exec, Action, Result, ok, raised, continue, ◌>>=◌, ◌>>◌, pure, modify, skip, for_each,
}
use sunbeam_charms.Keystone.Setup.{Juju}

-- certs.py, over the library `cryptography`: `load` is load_pem_x509_certificate, None where it
-- raises a ValueError, and `issued_by` whether verify_directly_issued_by returns.
module _ {X : Type 0} (load : String → Option X) where
  unfoldable pub certificate_is_valid : String → Bool
  certificate_is_valid text = elim (load text) [ none ↦ false | some x ↦ true ]

  abbrev pub verified : (X → X → Bool) → Option X → Option X → Bool
  verified issued_by (some x) (some y) = issued_by x y
  verified issued_by (some x) none = false
  verified issued_by none o = false

  abbrev pub in_order : (X → X → Bool) → List String → Bool
  in_order issued_by [] = true
  in_order issued_by (x ∷ []) = true
  in_order issued_by (x ∷ y ∷ rest) =
      verified issued_by (load x) (load y) && in_order issued_by (y ∷ rest)

  unfoldable pub ca_chain_is_valid : (X → X → Bool) → List String → Bool
  unfolding certificate_is_valid
  ca_chain_is_valid issued_by [] = true
  ca_chain_is_valid issued_by (x ∷ []) = certificate_is_valid x
  ca_chain_is_valid issued_by (x ∷ y ∷ rest) = in_order issued_by (x ∷ y ∷ rest)

-- `seen` is what the result holds already.
unfoldable pub dedupe_from : List String → List String → List String
unfolding contains
dedupe_from seen [] = []
dedupe_from seen (x ∷ xs) =
    if x == "" || contains x seen then dedupe_from seen xs else x ∷ dedupe_from (x ∷ seen) xs

unfoldable pub dedupe_preserve_order : List String → List String
unfolding dedupe_from
dedupe_preserve_order entries = dedupe_from [] entries

-- A relation with receive-ca-cert: the data bag of each of its sides.
pub record CaRelation : Type 0 where
  pub name : String
  pub id : String
  pub bags : List (Dict String)

-- A bundle of the action add-ca-certs.
pub record Bundle : Type 0 where
  pub ca : Option String
  pub chain : Option String

abbrev pub given : Option String → List String
given none = []
given (some t) = if t == "" then [] else t ∷ []

-- `loads_text` is `json.loads`: None where it fails, and else the text if it is one.
abbrev text_or : String → Option (Option String) → Option String
text_or raw none = some raw
text_or raw (some none) = some raw
text_or raw (some (some t)) = some t

unfoldable pub decode_relation_cert_value :
    (String → Option (Option String)) → Option String → Option String
decode_relation_cert_value loads_text none = none
decode_relation_cert_value loads_text (some v) =
    if v == "" then some v else text_or v (loads_text v)

abbrev chain_of : (String → Option (List String)) → Option String → List String
chain_of loads_list none = []
chain_of loads_list (some t) = elim (loads_list t) [ none ↦ [] | some xs ↦ xs ]

-- `loads_list` is `json.loads` of a list, None where it fails.
module _ (loads_text : String → Option (Option String))
    (loads_list : String → Option (List String)) where
  abbrev pub cas_in : List (Dict String) → List String
  cas_in [] = []
  cas_in (d ∷ bags) = given (decode_relation_cert_value loads_text (lookup "ca" d)) ++ cas_in bags

  abbrev pub chains_in : List (Dict String) → List String
  chains_in [] = []
  chains_in (d ∷ bags) = chain_of loads_list (lookup "chain" d) ++ chains_in bags

  unfoldable pub get_receive_ca_relation_entries : CaRelation → List String × List String
  unfolding dedupe_preserve_order decode_relation_cert_value
  get_receive_ca_relation_entries r =
      (dedupe_preserve_order (cas_in r.bags), dedupe_preserve_order (chains_in r.bags))

  abbrev pub all_cas : List CaRelation → List String
  all_cas [] = []
  all_cas (r ∷ rs) = (get_receive_ca_relation_entries r).0 ++ all_cas rs

  abbrev pub all_chains : List CaRelation → List String
  all_chains [] = []
  all_chains (r ∷ rs) = (get_receive_ca_relation_entries r).1 ++ all_chains rs

  unfoldable pub get_received_ca_and_chain : List CaRelation → List String × List String
  unfolding dedupe_preserve_order get_receive_ca_relation_entries
  get_received_ca_and_chain rs =
      (dedupe_preserve_order (all_cas rs), dedupe_preserve_order (all_chains rs))

  abbrev or_none : String → Option String
  or_none t = if t == "" then none else some t

  unfoldable pub get_received_ca_relation_bundles : List CaRelation → Dict Bundle → Dict Bundle
  unfolding get_receive_ca_relation_entries
  get_received_ca_relation_bundles [] d = d
  get_received_ca_relation_bundles (r ∷ rs) d =
      let (cas, chains) = get_receive_ca_relation_entries r in
      get_received_ca_relation_bundles rs (
        if is_empty cas && is_empty chains
        then d
        else insert (concat (r.name ∷ "-" ∷ r.id ∷ "-relation" ∷ []))
            (record { ca = some (join "\n" cas); chain = or_none (join "\n" chains) }) d)

-- The entries of the uploaded bundles.
abbrev pub bundle_cas : Dict Bundle → List String
bundle_cas [] = []
bundle_cas ((name, b) ∷ d) = given b.ca ++ bundle_cas d

abbrev pub bundle_chains : Dict Bundle → List String
bundle_chains [] = []
bundle_chains ((name, b) ∷ d) = given b.chain ++ bundle_chains d

unfoldable pub get_uploaded_ca_and_chain_entries : Dict Bundle → List String × List String
unfolding dedupe_preserve_order
get_uploaded_ca_and_chain_entries d =
    (dedupe_preserve_order (bundle_cas d), dedupe_preserve_order (bundle_chains d))

abbrev one_text : List String → List String
one_text [] = []
one_text (x ∷ xs) = join "\n" (x ∷ xs) ∷ []

unfoldable pub get_combined_ca_and_chain : Dict Bundle → String × List String
unfolding get_uploaded_ca_and_chain_entries join
get_combined_ca_and_chain d =
    let (cas, chains) = get_uploaded_ca_and_chain_entries d in (join "\n" cas, one_text chains)

unfoldable pub get_ca_and_chain : Dict Bundle → Option String
unfolding get_combined_ca_and_chain
get_ca_and_chain d =
    let (ca, chain) = get_combined_ca_and_chain d in
    if ca == "" then none else some (join "\n" (ca ∷ chain))

unfoldable pub get_transfer_ca_and_chain :
    List String × List String → Dict Bundle → String × List String
unfolding get_uploaded_ca_and_chain_entries dedupe_preserve_order join
get_transfer_ca_and_chain received d =
    let (cas, chains) = get_uploaded_ca_and_chain_entries d in
    (
      join "\n" (dedupe_preserve_order (cas ++ received.0)),
      one_text (dedupe_preserve_order (chains ++ received.1)),
    )
