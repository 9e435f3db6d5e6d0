-- ===== src/Keystone/Domains.antt =====
-- charms/keystone-k8s/src/charm.py: the configuration files of the domains that LDAP backs.
use text.Mathlib.TextLemmas.{nil-append, cons-append, append_assoc}
use Prim.Native.Char.{Char}
use Prim.Native.String as Str
use sunbeam_charms.Prelude.{
  String, ◌≡◌, refl, ap, ◌∙◌, Bool, true, false, ◌&&◌, ◌||◌, Option, none, some, List, [], ◌∷◌,
  ◌++◌, is_empty, ◌==◌, map, if◌then◌else◌,
}
use sunbeam_charms.Text.Parts.{after_char-append, until_char-append}
use sunbeam_charms.Text.{concat, second_part, has_char}
use sunbeam_charms.Dict.{contains}
use sunbeam_charms.Exec.{
  Exc, Exec, Action, ok, raised, path_error, other_error, continue, ◌>>=◌, ◌>>◌, pure, handle, skip,
}
use sunbeam_charms.Pebble.{ConfigFile}
use sunbeam_charms.Keystone.Api.{Domain, Api}
use sunbeam_charms.Keystone.Lookup.{get_domain_object}
use sunbeam_charms.Keystone.Client.{create_domain}
use sunbeam_charms.Keystone.Keys.{FileInfo, Folders, path_in}

-- What the relation asks for.
pub record DomainConfig : Type 0 where
  pub domain_name : String
  pub config_contents : String
  pub ca : Option String

abbrev pub conf_name : String → String
conf_name domain = concat ("keystone." ∷ domain ∷ ".conf" ∷ [])

abbrev pub ca_name : String → String
ca_name domain = concat ("keystone." ∷ domain ∷ ".crt" ∷ [])

-- `name.split(".")[1]`
unfoldable pub domain_on_disk : String → Option String
unfolding second_part
domain_on_disk name = second_part b'.' name

abbrev active_domains : List DomainConfig → List String
active_domains configs = map (λ c. c.domain_name) configs

abbrev index_error : Exc
index_error = other_error "list index out of range"

module _ {S : Type 0} (c : Folders S) (active : List String) where
  abbrev remove_conf : FileInfo → Option String → Exec S (List String)
  remove_conf f none s = (raised index_error, s)
  remove_conf f (some domain) s =
      if contains domain active
      then (ok [], s)
      else continue (λ _. λ t. (ok (domain ∷ []), t)) (c.remove_path f.path s)

  unfoldable pub remove_confs : List FileInfo → Exec S (List String)
  unfolding domain_on_disk contains
  remove_confs [] s = (ok [], s)
  remove_confs (f ∷ fs) s =
      continue
        (λ removed. λ t. continue (λ rest. λ u. (ok (removed ++ rest), u)) (remove_confs fs t))
        (remove_conf f (domain_on_disk f.name) s)

  abbrev remove_ca : FileInfo → Option String → Action S
  remove_ca f none s = (raised index_error, s)
  remove_ca f (some domain) s =
      if contains domain active || contains f.name ("ca-bundle.crt" ∷ "keystone-combined.crt" ∷ [])
      then (ok tt, s)
      else c.remove_path f.path s

  unfoldable pub remove_cas : List FileInfo → Action S
  unfolding domain_on_disk contains
  remove_cas [] s = (ok tt, s)
  remove_cas (f ∷ fs) s = continue (λ _. remove_cas fs) (remove_ca f (domain_on_disk f.name) s)

module _ {S : Type 0} (c : Folders S) (config_dir ca_dir : String) where
  unfoldable pub remove_old_domains : List DomainConfig → Exec S (List String)
  unfolding remove_confs remove_cas
  remove_old_domains configs = do
    files ← c.list_files config_dir
    removed ← remove_confs c (active_domains configs) files
    ca_files ← c.list_files ca_dir
    remove_cas c (active_domains configs) ca_files
    pure removed

-- A file that is missing is None.
abbrev no_file : {S : Type 0} → Exc → Exec S (Option String)
no_file (path_error m) s = (ok none, s)
no_file e s = (raised e, s)

abbrev is_text : Option String → String → Bool
is_text none text = false
is_text (some t) text = t == text

module _ {S : Type 0} (c : Folders S) where
  -- Whether the file was written.
  unfoldable pub update_file : ConfigFile → String → Exec S Bool
  update_file file text s =
      continue
        (λ original. λ t.
          if is_text original text
          then (ok false, t)
          else continue (λ _. λ u. (ok true, u)) (c.push file text t))
        (handle no_file (continue (λ text. λ t. (ok (some text), t)) (c.pull file.path s)))

module _ {S : Type 0} (api : Api S) (c : Folders S) (config_dir ca_dir : String) where
  abbrev ensure_domain : String → Option Domain → Action S
  ensure_domain name none s =
      continue (λ _. skip) (create_domain api name "Created by Juju" true true s)
  ensure_domain name (some d) s = (ok tt, s)

  abbrev conf_file : String → ConfigFile
  conf_file domain = record {
    path = path_in config_dir (conf_name domain);
    user = "keystone";
    group = "keystone";
    permissions = some "600";
  }

  abbrev ca_file : String → ConfigFile
  ca_file domain = record {
    path = path_in ca_dir (ca_name domain);
    user = "keystone";
    group = "keystone";
    permissions = some "644";
  }

  abbrev update_ca : String → Option String → Exec S Bool
  update_ca domain none s = (ok false, s)
  update_ca domain (some text) s =
      if text == "" then (ok false, s) else update_file c (ca_file domain) text s

  abbrev if_updated : String → Bool → List String
  if_updated domain updated = if updated then domain ∷ [] else []

  unfoldable pub update_domain_config : List DomainConfig → Exec S (List String)
  unfolding update_file concat
  update_domain_config [] s = (ok [], s)
  update_domain_config (config ∷ configs) s =
      (do
        d ← get_domain_object api (some config.domain_name)
        ensure_domain config.domain_name d
        conf ← update_file c (conf_file config.domain_name) config.config_contents
        ca ← update_ca config.domain_name config.ca
        rest ← update_domain_config configs
        pure (if_updated config.domain_name conf ++ (if_updated config.domain_name ca ++ rest)))
        s

  -- `is_dir`, `make_dir` and `restart` are the container's and the Pebble handler's.
  abbrev ensure_dir : (String → S → Bool) → (String → Action S) → String → Action S
  ensure_dir is_dir make_dir d s = if is_dir d s then (ok tt, s) else make_dir d s

  unfoldable pub configure_domains :
      (String → S → Bool) → (String → Action S) → Action S → List DomainConfig → Action S
  unfolding remove_old_domains update_domain_config
  configure_domains is_dir make_dir restart configs = do
    ensure_dir is_dir make_dir config_dir
    ensure_dir is_dir make_dir ca_dir
    removed ← remove_old_domains c config_dir ca_dir configs
    updated ← update_domain_config configs
    λ s. if is_empty removed && is_empty updated then (ok tt, s) else restart s

abbrev dot : Char
dot = Str.char_at "." 0

dotted : (rest : String) → Str.◌++◌ "keystone." rest ≡ Str.◌++◌ "keystone" (String.◌∷◌ dot rest)
dotted rest =
    append_assoc "keystone" "." rest
    ∙ ap (λ t. Str.◌++◌ "keystone" t)
        (cons-append dot "" rest ∙ ap (λ t. String.◌∷◌ dot t) (nil-append rest))

-- The configuration file of a domain whose name has no dot is taken for that domain's.
pub domain_on_disk-conf_name :
    (domain : String)
    → has_char b'.' domain ≡ false
    → domain_on_disk (conf_name domain) ≡ some domain
unfolding domain_on_disk second_part concat has_char
domain_on_disk-conf_name domain n = rw (dotted (Str.◌++◌ domain ".conf")) (
    rw (after_char-append b'.' "keystone" (Str.◌++◌ domain ".conf") dot refl refl)
      (ap some (until_char-append b'.' domain "conf" dot refl n)))
