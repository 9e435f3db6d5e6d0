-- ===== src/Examples/Identity.antt =====
-- Keystone's client, its actions and its requests at concrete inputs.
use mathlib.Core.Path.{subst}
use sunbeam_charms.Prelude.{
  String, ◌≡◌, ◌↔◌, refl, Bool, true, false, ◌&&◌, Option, none, some, List, [], ◌∷◌, map, All,
  ◌==◌, if◌then◌else◌,
}
use sunbeam_charms.Text.{concat}
use sunbeam_charms.Dict.{Dict}
use sunbeam_charms.Exec.{
  Result, ok, raised, Action, Exec, other_error, exec_error, keystone_error, attribute_error, skip,
}
use sunbeam_charms.Guard.{exc_text}
use sunbeam_charms.Status.{StatusBase, maintenance_status}
use sunbeam_charms.Keystone.Keys.{Folders}
use sunbeam_charms.Keystone.Requests
use sunbeam_charms.Keystone.Client
use sunbeam_charms.Keystone.Api.{Domain, Api}
use sunbeam_charms.Keystone.Lookup.{get_domain_object, first_in}
use sunbeam_charms.Keystone.Client.{Field, text, flag, convert_domain, create_domain, is_missing}
use sunbeam_charms.Keystone.Client.Again.{ListsAgain, ListsCreated, create_domain-again}
use sunbeam_charms.Keystone.Setup.{Juju, Identity, setup_keystone, keystone_bootstrap}
use sunbeam_charms.Keystone.Setup.Failures.{keystone_bootstrap-failed_command}
use sunbeam_charms.Keystone.Actions.{
  retrieve_or_set_secret, regenerate_password_action, regenerate_password_action-fails,
}
use sunbeam_charms.Keystone.Requests.{
  Value, string, Op, Answer, was_run, sanitize_secrets, handle_op_request,
  handle_op_request-was_run,
}
use sunbeam_charms.Keystone.Certificates.{ca_chain_is_valid}
use sunbeam_charms.Keystone.Certificates.Entries.{IsChain, ca_chain_is_valid-IsChain}

abbrev refuse : {S A : Type 0} → Exec S A
refuse s = (raised (other_error "not asked for"), s)

-- A service that has no projects and no users, and refuses the rest.
abbrev silent : {S : Type 0} → Api S
silent = record {
  domains_list = λ s. (ok (some []), s);
  domains_create = λ _ _ _ s. refuse s;
  domains_update = λ _ _ _ _ s. refuse s;
  domains_delete = λ _ s. refuse s;
  projects_list = λ _ s. (ok (some []), s);
  projects_create = λ _ _ _ s. refuse s;
  projects_update = λ _ _ _ _ _ s. refuse s;
  projects_delete = λ _ s. refuse s;
  users_list = λ _ _ s. (ok (some []), s);
  users_create = λ _ s. refuse s;
  users_update = λ _ _ s. refuse s;
  users_delete = λ _ s. refuse s;
  roles_list = λ _ s. refuse s;
  roles_create = λ _ _ s. refuse s;
  roles_update = λ _ _ s. refuse s;
  roles_delete = λ _ s. refuse s;
  roles_grant = λ _ _ _ _ s. refuse s;
  services_list = λ _ _ s. refuse s;
  services_create = λ _ _ _ s. refuse s;
  endpoints_list = λ _ _ _ s. refuse s;
  endpoints_update = λ _ _ s. refuse s;
  endpoints_create = λ _ _ _ _ s. refuse s;
}

abbrev domain_called : String → String → Bool → Domain
domain_called name description enable = record {
  id = name;
  name = name;
  description = description;
  enabled = enable;
}

-- A service that keeps its domains, the newest first.
abbrev api : Api (List Domain)
api = record (silent {S = List Domain}) {
  domains_list = λ s. (ok (some s), s);
  domains_create = λ name description enable s.
      (ok (domain_called name description enable), domain_called name description enable ∷ s);
}

lists_again : ListsAgain api
lists_again o s t h =
    subst (λ v. api.domains_list v ≡ (ok o, v)) (listed_same o s t h) (lists_one o s t h)
  where
    listed_same :
        (o : Option (List Domain)) (s t : List Domain) → api.domains_list s ≡ (ok o, t) → s ≡ t
    listed_same o s t h = cc

    lists_one :
        (o : Option (List Domain)) (s t : List Domain)
        → api.domains_list s ≡ (ok o, t)
        → api.domains_list s ≡ (ok o, s)
    lists_one o s t h = cc

lists_created : ListsCreated api
lists_created name description enable o d s t listing making =
    let new = domain_called name description enable in
    let is_new : new ≡ d = cc in
    let is_state : new ∷ s ≡ t = cc in
    let is_list : some s ≡ o = cc in
    (rw (← is_new) refl, ([], s, rw (← is_list) refl, rw (← is_state) (rw (← is_new) refl)))

abbrev ldap : Domain
ldap = domain_called "ldap" "" true

create_domain-again_example :
    create_domain api "ldap" "" true true (ldap ∷ []) ≡ (ok (convert_domain ldap), ldap ∷ [])
unfolding create_domain get_domain_object first_in Client.ensure
create_domain-again_example =
    create_domain-again api "ldap" "" true (convert_domain ldap) [] (ldap ∷ []) lists_again
      lists_created refl

-- A unit whose state is the lines that it has written, and whose commands fail.
abbrev juju : Juju (List String)
juju = record {
  is_leader = λ s. true;
  get_app_data = λ key s. some "secret:1";
  set_app_data = λ d s. s;
  get_content = λ secret s. (ok [], s);
  set_content = λ secret d s. (ok tt, "set" ∷ s);
  add_secret = λ d label rotate s. (ok "secret:1", s);
}

regenerate_password_action-fails_example :
    regenerate_password_action silent juju
      (λ s. "pw")
      (λ m s. m ∷ s)
      (λ d s. "done" ∷ s)
      (λ e. false)
      (λ secret s. (ok tt, s))
      "admin"
      []
    ≡ (
      ok tt,
      concat ("Regeneration of password failed: " ∷ is_missing "User" (some "admin") ∷ []) ∷ [],
    )
unfolding retrieve_or_set_secret
regenerate_password_action-fails_example =
    regenerate_password_action-fails silent juju (λ s. "pw") (λ m s. m ∷ s) (λ d s. "done" ∷ s)
      (λ e. false) (λ secret s. (ok tt, s)) "admin" "secret:1" [] [] [] refl refl refl refl

abbrev identity : Identity
identity = record {
  charm_user = "_charm-keystone-admin";
  charm_password = "pw";
  admin_role = "admin";
  admin_endpoint = "http://k:5000/v3";
  public_endpoint = "http://k:5000/v3";
  internal_endpoint = "http://k:5000/v3";
  region = "RegionOne";
}

abbrev empty_folders : Folders (List String)
empty_folders = record {
  list_files = λ folder s. (ok [], s);
  pull = λ path s. (ok "", s);
  push = λ file t s. (ok tt, s);
  remove_path = λ path s. (ok tt, s);
}

abbrev failing : List String → Action (List String)
failing command s = (raised (exec_error "chown failed"), s)

abbrev line : StatusBase → String
line (maintenance_status m) = m
line st = ""

abbrev keep_line : StatusBase → List String → List String
keep_line st s = line st ∷ s

keystone_bootstrap-failed_command_example :
    keystone_bootstrap empty_folders juju
      (setup_keystone failing keep_line keep_line identity)
      skip
      keep_line
      []
    ≡ (raised (keystone_error "Fernet setup failed."), "Setting up fernet tokens" ∷ [])
keystone_bootstrap-failed_command_example =
    keystone_bootstrap-failed_command failing keep_line empty_folders juju keep_line identity skip
      "chown failed" [] ("Setting up fernet tokens" ∷ []) refl refl

-- Two operations, the first of which raises.
abbrev method : Option String → Result (Dict (Value String) → Exec (List String) String)
method none = raised (attribute_error "None")
method (some name) =
    if name == "show_domain"
    then ok (λ params s. (ok "ldap", name ∷ s))
    else raised (attribute_error name)

abbrev tools : Requests.Tools (List String) String String
tools = record {
  method = method;
  render = λ t context. ok t;
  get_content = λ secret s. (ok [], s);
  is_model_error = λ e. true;
  repr = exc_text;
  null = "None";
}

abbrev two_ops : List (Op String)
two_ops =
    record { name = some "no_such"; params = [] }
    ∷ record { name = some "show_domain"; params = ("name", string "ldap") ∷ [] }
    ∷ []

abbrev request : Requests.Request String
request = record { id = some "r1"; tag = some "t1"; ops = two_ops }

abbrev respond : Requests.Response String → Action (List String)
respond response s = (ok tt, s)

handle_op_request-was_run_example :
    (response : Requests.Response String) × (u : List String) × (handle_op_request tools respond
        request []
      ≡ respond response u)
    × (response.id ≡ some "r1")
    × (response.tag ≡ some "t1")
    × (map (λ a. a.name) response.ops ≡ map (λ o. o.name) two_ops)
    × All (λ a. was_run a.return_code ≡ true) response.ops
unfolding sanitize_secrets Requests.sanitize_params
handle_op_request-was_run_example =
    handle_op_request-was_run tools respond request two_ops [] [] refl

abbrev signs : String → String → Bool
signs x y = x == "leaf" && y == "root"

abbrev load : String → Option String
load t = if t == "" then none else some t

ca_chain_is_valid-IsChain_example :
    (ca_chain_is_valid load signs ("leaf" ∷ "root" ∷ []) ≡ true)
    ↔ IsChain load signs ("leaf" ∷ "root" ∷ [])
ca_chain_is_valid-IsChain_example = ca_chain_is_valid-IsChain load signs ("leaf" ∷ "root" ∷ [])
