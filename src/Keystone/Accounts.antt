-- ===== src/Keystone/Accounts.antt =====
-- charms/keystone-k8s/src/utils/manager.py: the domains, projects, users and roles that Keystone
-- begins with, the accounts of services, and Keystone's own entry in the catalogue.
use sunbeam_charms.Prelude.{
  String, true, false, Option, none, some, List, [], ◌∷◌, ◌==◌, if◌then◌else◌,
}
use sunbeam_charms.Dict.{Dict, lookup}
use sunbeam_charms.Exec.{
  Exec, Action, ok, attribute_error, ◌>>=◌, ◌>>◌, pure, raise, skip, for_each,
}
use sunbeam_charms.Status.{StatusBase}
use sunbeam_charms.Guard.{guard}
use sunbeam_charms.Keystone.Api.{Domain, Service, Api}
use sunbeam_charms.Keystone.Lookup.{get_domain_object}
use sunbeam_charms.Keystone.Client.{
  Field, text, flag, nothing, create_domain, create_project, create_service, create_endpoint,
}
use sunbeam_charms.Keystone.Client.Users.{create_user}
use sunbeam_charms.Keystone.Client.Roles.{create_role, grant_role}

-- The charm's `_state`, as far as the manager writes it.
pub record Stored : Type 0 where
  pub default_domain_id : Option String
  pub admin_domain_id : Option String
  pub admin_domain_name : Option String
  pub service_project_id : Option String

-- The charm's constants and endpoints.
pub record Settings : Type 0 where
  pub admin_user : String
  pub admin_password : String
  pub admin_role : String
  pub service_project : String
  pub admin_endpoint : String
  pub internal_endpoint : String
  pub public_endpoint : String
  pub regions : List String

-- What `.get(key)` answers with, where a text is asked for.
abbrev pub as_text : Option Field → Option String
as_text none = none
as_text (some (text t)) = some t
as_text (some (flag b)) = none
as_text (some nothing) = none

abbrev pub get_text : String → Dict Field → Option String
get_text key d = as_text (lookup key d)

-- `if not domain: domain = default`
abbrev or_default : String → Option String → String
or_default default none = default
or_default default (some t) = if t == "" then default else t

-- `read` and `write` are the charm's `_state` in the state.
module _ {S : Type 0} (api : Api S) (read : S → Stored) (write : Stored → S → S)
    (settings : Settings) where
  abbrev store : (Stored → Stored) → Action S
  store f s = (ok tt, write (f (read s)) s)

  abbrev domain_id : Option Domain → Exec S String
  domain_id none = raise (attribute_error "'NoneType' object has no attribute 'id'")
  domain_id (some d) = pure d.id

  abbrev admin_domain : Exec S (Option String)
  admin_domain s = (ok ((read s).admin_domain_name), s)

  -- The three grants: in the admin project as a member and as an admin, and in the domain.
  unfoldable pub grant_admin : Option String → Option String → Option String → Action S
  grant_admin domain member project = do
    grant_role api member none project (some settings.admin_user) domain domain none
    grant_role api (some settings.admin_role) none project (some settings.admin_user) domain domain
        none
    grant_role api (some settings.admin_role) domain none (some settings.admin_user) none domain
        none

  unfoldable pub setup_admin_accounts : Action S
  unfolding grant_admin
  setup_admin_accounts = do
    default_domain ← get_domain_object api (some "default")
    default_id ← domain_id default_domain
    store (λ st. record st { default_domain_id = some default_id })
    domain ← create_domain api "admin_domain" "Created by Juju" true true
    store (λ st. record st {
      admin_domain_id = get_text "id" domain;
      admin_domain_name = get_text "name" domain;
    })
    name ← admin_domain
    project ← create_project api "admin" name "Created by Juju" true true
    create_user api settings.admin_user settings.admin_password none none name none none true true
    member ← create_role api "member" none true
    create_role api settings.admin_role none true
    grant_admin name (get_text "name" member) (get_text "name" project)

  unfoldable pub setup_service_accounts : Action S
  setup_service_accounts = do
    domain ← create_domain api "service_domain" "Created by Juju" true true
    project ←
        create_project api settings.service_project (get_text "name" domain) "Created by Juju" true
          true
    store (λ st. record st { service_project_id = get_text "id" project })

-- The parts that do not touch `_state`.
module _ {S : Type 0} (api : Api S) (settings : Settings) where
  abbrev extra_role : String → String → Option String → String → Action S
  extra_role project domain user role = do
    create_role api role none true
    grant_role api (some role) none (some project) user (some domain) (some domain) none

  -- The user is made in `domain`; the first two grants look it up in service_domain.
  abbrev account_in : String → String → String → String → List String → Exec S (Dict Field)
  account_in username password project domain extra_roles = do
    user ← create_user api username password none none (some domain) none none true true
    grant_role api (some settings.admin_role) none (some project) (get_text "name" user)
        (some "service_domain") (some "service_domain") none
    grant_role api (some "service") none (some project) (get_text "name" user)
        (some "service_domain") (some "service_domain") none
    for_each extra_roles (extra_role project domain (get_text "name" user))
    pure user

  unfoldable pub create_service_account :
      String → String → Option String → Option String → List String → Exec S (Dict Field)
  create_service_account username password project domain extra_roles =
      account_in username password (or_default settings.service_project project)
        (or_default "service_domain" domain) extra_roles

  abbrev endpoint_in : Service → String → String × String → Action S
  endpoint_in service region (interface, url) = do
    create_endpoint api service url interface region true
    skip

  abbrev endpoints_in : Service → String → Action S
  endpoints_in service region s =
      if region == ""
      then (ok tt, s)
      else for_each
          (("admin", settings.admin_endpoint)
            ∷ ("internal", settings.internal_endpoint)
            ∷ ("public", settings.public_endpoint)
            ∷ [])
          (endpoint_in service region) s

  unfoldable pub update_service_catalog_for_keystone : Action S
  update_service_catalog_for_keystone = do
    service ← create_service api "keystone" "identity" "Keystone Identity Service" true
    for_each settings.regions (endpoints_in service)

module _ {S : Type 0} (api : Api S) (read : S → Stored) (write : Stored → S → S)
    (settings : Settings) (set_status : StatusBase → S → S) where
  unfoldable pub setup_initial_projects_and_users : Action S
  unfolding setup_admin_accounts setup_service_accounts update_service_catalog_for_keystone
  setup_initial_projects_and_users = guard set_status false true (
      setup_admin_accounts api read write settings
      >> setup_service_accounts api read write settings
      >> update_service_catalog_for_keystone api settings)
