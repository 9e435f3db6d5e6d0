-- ===== src/Keystone/Files.antt =====
-- charms/keystone-k8s/src/utils/manager.py: the certificates and metadata in Keystone's container.
use sunbeam_charms.Prelude.{
  String, Option, none, some, List, [], ◌∷◌, ◌++◌, ◌||◌, ◌==◌, if◌then◌else◌,
}
use sunbeam_charms.Text.{join}
use sunbeam_charms.Dict.{Dict}
use sunbeam_charms.Exec.{
  Exc, Action, ok, raised, path_error, value_error, ◌>>◌, raise, try◌except◌, for_each,
}
use sunbeam_charms.Pebble.{ConfigFile}
use sunbeam_charms.Keystone.Keys.{Folders, write_metadata_files}

abbrev combined_ca : ConfigFile
combined_ca = record {
  path = "/usr/local/share/ca-certificates/keystone-combined.crt";
  user = "root";
  group = "root";
  permissions = some "644";
}

abbrev metadata_folder : String
metadata_folder = "/etc/apache2/saml2-metadata"

abbrev saml_file : String → ConfigFile
saml_file path = record {
  path = path;
  user = "keystone";
  group = "www-data";
  permissions = some "440";
}

abbrev key_path : String
key_path = "/etc/apache2/saml2-metadata/saml_sp_key.pem"

abbrev cert_path : String
cert_path = "/etc/apache2/saml2-metadata/saml_sp_cert.pem"

abbrev provider_folder : String
provider_folder = "/etc/apache2/saml2-metadata/providers"

abbrev oidc_folder : String
oidc_folder = "/etc/apache2/oidc-metadata"

module _ {S : Type 0} (run : List String → Action S) where
  unfoldable pub ensure_metadata_folder : String → Action S
  ensure_metadata_folder path =
      for_each
        (("sudo" ∷ "mkdir" ∷ "-p" ∷ path ∷ [])
          ∷ ("sudo" ∷ "chown" ∷ "keystone:www-data" ∷ path ∷ [])
          ∷ ("sudo" ∷ "chmod" ∷ "550" ∷ path ∷ [])
          ∷ [])
        run

  unfoldable pub setup_oidc_metadata_folder : Action S
  unfolding ensure_metadata_folder
  setup_oidc_metadata_folder = ensure_metadata_folder oidc_folder

  unfoldable pub setup_saml2_metadata_folder : Action S
  unfolding ensure_metadata_folder
  setup_saml2_metadata_folder =
      ensure_metadata_folder metadata_folder >> ensure_metadata_folder provider_folder

  unfoldable pub remove_saml_key_and_cert : Action S
  remove_saml_key_and_cert =
      run ("sudo" ∷ "rm" ∷ "-f" ∷ key_path ∷ []) >> run ("sudo" ∷ "rm" ∷ "-f" ∷ cert_path ∷ [])

module _ {S : Type 0} (run : List String → Action S) (c : Folders S) where
  -- A file that is not there need not be removed.
  abbrev missing_file : Exc → Action S
  missing_file (path_error m) s = (ok tt, s)
  missing_file e s = (raised e, s)

  abbrev put_ca : List String → Action S
  put_ca [] = try c.remove_path combined_ca.path except missing_file
  put_ca (t ∷ ts) = c.push combined_ca (join "\n" (t ∷ ts))

  abbrev ca_texts : Option String → List String
  ca_texts none = []
  ca_texts (some t) = if t == "" then [] else t ∷ []

  -- The charm's own certificates, if there are any, and those of the identity providers.
  unfoldable pub write_combined_ca : Option String → List String → Action S
  unfolding join
  write_combined_ca ca_contents oauth_ca_certs =
      put_ca (ca_texts ca_contents ++ oauth_ca_certs)
      >> run ("sudo" ∷ "update-ca-certificates" ∷ "--fresh" ∷ [])

  unfoldable pub write_saml_metadata : Dict String → Action S
  unfolding setup_saml2_metadata_folder write_metadata_files
  write_saml_metadata metadata =
      setup_saml2_metadata_folder run >> write_metadata_files c metadata provider_folder

  unfoldable pub ensure_saml_cert_and_key_state : String → String → Action S
  unfolding setup_saml2_metadata_folder
  ensure_saml_cert_and_key_state cert key s =
      if key == "" || cert == ""
      then raise (value_error "key and cert are mandatory") s
      else (do
        setup_saml2_metadata_folder run
        c.push (saml_file key_path) key
        c.push (saml_file cert_path) cert)
          s

module _ {S : Type 0} (c : Folders S) where
  unfoldable pub write_oidc_metadata : Dict String → Action S
  unfolding write_metadata_files
  write_oidc_metadata metadata = write_metadata_files c metadata oidc_folder
