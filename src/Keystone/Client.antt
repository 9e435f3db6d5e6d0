-- ===== src/Keystone/Client.antt =====
-- charms/keystone-k8s/src/utils/client.py, KeystoneClient: listing, creating, updating and deleting.
pub mod Users
pub mod Roles
pub mod Again
pub mod Updates
use sunbeam_charms.Prelude.{
  String, Bool, true, false, not, ◌&&◌, Option, none, some, List, [], ◌∷◌, map, keep, is_empty,
  ◌==◌, if◌then◌else◌,
}
use sunbeam_charms.Text.{concat, contains_text, lower}
use sunbeam_charms.Dict.{Dict}
use sunbeam_charms.Exec.{
  Exc, Result, ok, raised, Exec, Action, keystone_error, value_error, assertion_error,
  attribute_error, continue, ◌>>=◌, ◌>>◌, pure, raise, handle, try◌except◌, skip,
}
use sunbeam_charms.Keystone.Api.{
  Domain, Project, User, Role, Service, Endpoint, Ref, object, identifier, UserFields, Api,
}
use sunbeam_charms.Keystone.Lookup.{
  or_empty, get_domain_object, get_project_object, get_user_object, get_role_object,
  resolve_project,
}

-- The values in the dictionaries that the client answers with.
pub data Field : Type 0 where
  text : String → Field
  flag : Bool → Field
  nothing : Field

abbrev optional : Option String → Field
optional none = nothing
optional (some t) = text t

unfoldable pub convert_endpoint : Endpoint → Dict Field
convert_endpoint e =
    ("id", text e.id)
    ∷ ("service_id", text e.service_id)
    ∷ ("interface", text e.interface)
    ∷ ("region", text e.region)
    ∷ ("url", text e.url)
    ∷ ("enabled", flag e.enabled)
    ∷ []

unfoldable pub convert_domain : Domain → Dict Field
convert_domain d =
    ("id", text d.id)
    ∷ ("name", text d.name)
    ∷ ("description", text d.description)
    ∷ ("enabled", flag d.enabled)
    ∷ []

unfoldable pub convert_project : Project → Dict Field
convert_project p =
    ("id", text p.id)
    ∷ ("name", text p.name)
    ∷ ("domain_id", text p.domain_id)
    ∷ ("description", text p.description)
    ∷ ("enabled", flag p.enabled)
    ∷ ("is_domain", flag p.is_domain)
    ∷ []

unfoldable pub convert_user : User → Dict Field
convert_user u =
    ("id", text u.id)
    ∷ ("name", text u.name)
    ∷ ("domain_id", text u.domain_id)
    ∷ ("enabled", flag u.enabled)
    ∷ ("password_expires_at", optional u.password_expires_at)
    ∷ []

unfoldable pub convert_role : Role → Dict Field
convert_role r =
    ("id", text r.id)
    ∷ ("name", text r.name)
    ∷ ("domain_id", optional r.domain_id)
    ∷ ("description", optional r.description)
    ∷ []

abbrev called_domain : String → Domain → Bool
called_domain name d = lower d.name == lower name

-- An optional name inside an f-string.
abbrev pub shown : Option String → String
shown none = "None"
shown (some t) = t

abbrev pub is_missing : String → Option String → String
is_missing what name = concat (what ∷ " " ∷ shown name ∷ " does not exist" ∷ [])

-- `if name:`
abbrev pub is_given : Option String → Bool
is_given none = false
is_given (some t) = not (t == "")

abbrev only : List (Dict Field) → Option (Dict Field)
only [] = none
only (d ∷ []) = some d
only (d ∷ e ∷ rest) = none

-- A list that is iterated must be there.
abbrev pub iterated {ℓ} : {A : Type ℓ} → Option (List A) → Result (List A)
iterated none = raised (attribute_error "'NoneType' object is not iterable")
iterated (some xs) = ok xs

abbrev domains_named : Option String → List Domain → List Domain
domains_named none ds = ds
domains_named (some name) ds = if name == "" then ds else keep (called_domain name) ds

module _ {S : Type 0} where
  abbrev pub lift : {A : Type 0} → Result A → Exec S A
  lift r s = (r, s)

  -- `if x: return …` after a lookup, and else the creation.
  unfoldable pub found_or : {A : Type 0} → Exec S A → Option A → Exec S A
  found_or create none = create
  found_or create (some a) = pure a

  -- The shape of the `create_` methods: with may_exist, what is found is returned.
  unfoldable pub ensure : {A : Type 0} → Bool → Exec S (Option A) → Exec S A → Exec S A
  unfolding found_or
  ensure true find create s = continue (found_or create) (find s)
  ensure false find create s = create s

  abbrev pub required : {A : Type 0} → String → Option A → Exec S A
  required message none = raise (keystone_error message)
  required message (some a) = pure a

module _ {S : Type 0} (api : Api S) where
  abbrev pub first_service : List Service → Option Service
  first_service [] = none
  first_service (s ∷ rest) = some s

  unfoldable pub create_service : String → String → String → Bool → Exec S Service
  create_service name service_type description may_exist =
      ensure may_exist
        (do services ← api.services_list name (some service_type); pure (first_service services))
        (api.services_create name service_type description)

  -- More than one endpoint is an assertion error; one with another url is updated.
  unfoldable pub keep_endpoint : Exec S Endpoint → String → List Endpoint → Exec S Endpoint
  keep_endpoint create url [] s = create s
  keep_endpoint create url (e ∷ []) s =
      if e.url == url then (ok e, s) else api.endpoints_update e url s
  keep_endpoint create url (e ∷ f ∷ rest) s = (raised (assertion_error ""), s)

  unfoldable pub create_endpoint : Service → String → String → String → Bool → Exec S Endpoint
  unfolding keep_endpoint
  create_endpoint service url interface region true = do
    endpoints ← api.endpoints_list (some service) (some interface) (some region)
    keep_endpoint (api.endpoints_create service url interface region) url (or_empty endpoints)
  create_endpoint service url interface region false =
      api.endpoints_create service url interface region

  abbrev endpoints_of : Option Service → Option String → Option String → Exec S (List (Dict Field))
  endpoints_of service interface region = do
    endpoints ← api.endpoints_list service interface region
    pure (map convert_endpoint (or_empty endpoints))

  abbrev endpoints_if_one :
      Option String → Option String → List Service → Exec S (List (Dict Field))
  endpoints_if_one interface region [] s = (ok [], s)
  endpoints_if_one interface region (x ∷ []) s = endpoints_of (some x) interface region s
  endpoints_if_one interface region (x ∷ y ∷ rest) s = (ok [], s)

  unfoldable pub list_endpoint :
      Option String → Option String → Option String → Exec S (List (Dict Field))
  list_endpoint none interface region s = endpoints_of none interface region s
  list_endpoint (some name) interface region s =
      (do services ← api.services_list name none; endpoints_if_one interface region services) s

  unfoldable pub list_domain : Option String → Exec S (List (Dict Field))
  list_domain name = do
    domains ← api.domains_list
    ds ← lift (iterated domains)
    pure (map convert_domain (domains_named name ds))

  unfoldable pub show_domain : String → Exec S (Option (Dict Field))
  show_domain name = do domains ← list_domain (some name); pure (only domains)

  unfoldable pub create_domain : String → String → Bool → Bool → Exec S (Dict Field)
  create_domain name description enable may_exist = do
    d ←
        ensure may_exist (get_domain_object api (some name))
          (api.domains_create name description enable)
    pure (convert_domain d)

  unfoldable pub update_domain :
      Option String → Option String → String → Option Bool → Exec S (Dict Field)
  update_domain domain name description enable = do
    d ← get_domain_object api domain
    there ← required (is_missing "Domain" domain) d
    updated ← api.domains_update there name description enable
    pure (convert_domain updated)

  unfoldable pub delete_domain : String → Action S
  delete_domain name = api.domains_delete name

  unfoldable pub list_project : Option String → Exec S (List (Dict Field))
  list_project domain = do
    d ← get_domain_object api domain
    projects ← api.projects_list d
    ps ← lift (iterated projects)
    pure (map convert_project ps)

  unfoldable pub show_project : String → Option String → Exec S (Option (Dict Field))
  show_project name domain = do
    p ← get_project_object api (some name) (identifier domain)
    pure (elim p [ none ↦ none | some project ↦ some (convert_project project) ])

  -- The parameter `enable` is not passed on.
  unfoldable pub create_project :
      String → Option String → String → Bool → Bool → Exec S (Dict Field)
  create_project name domain description enable may_exist = do
    p ←
        ensure may_exist (get_project_object api (some name) (identifier domain))
          (do d ← get_domain_object api domain; api.projects_create name description d)
    pure (convert_project p)

  unfoldable pub update_project :
      Option String → Option String → Option String → String → Option Bool → Exec S (Dict Field)
  update_project project name domain description enable = do
    p ← get_project_object api project (identifier domain)
    there ← required (is_missing "Project" project) p
    d ← get_domain_object api domain
    updated ← api.projects_update there name d description enable
    pure (convert_project updated)

  unfoldable pub delete_project : Option String → Option String → Action S
  delete_project name domain = do
    p ← get_project_object api name (identifier domain)
    there ← required (is_missing "Project" name) p
    api.projects_delete there
