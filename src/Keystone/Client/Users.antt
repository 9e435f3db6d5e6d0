-- ===== src/Keystone/Client/Users.antt =====
-- charms/keystone-k8s/src/utils/client.py, KeystoneClient: the users.
use sunbeam_charms.Prelude.{
  String, ◌≡◌, refl, Bool, true, false, Option, none, some, List, [], ◌∷◌, if◌then◌else◌,
}
use sunbeam_charms.Text.{contains_text}
use sunbeam_charms.Dict.{Dict}
use sunbeam_charms.Exec.{
  Exc, keystone_error, attribute_error, Result, ok, raised, Exec, ◌>>=◌, ◌>>◌, pure, try◌except◌,
}
use sunbeam_charms.Keystone.Api.{Project, User, Ref, object, identifier, Api}
use sunbeam_charms.Keystone.Lookup.{
  get_domain_object, get_project_object, get_user_object, resolve_project,
}
use sunbeam_charms.Keystone.Client.{
  Field, text, convert_user, lift, required, iterated, is_missing, found_or,
}

-- `_convert_user_to_dict` of something that need not be a user: a project has no attribute
-- password_expires_at, and None has no id.
abbrev not_a_user : Option Project → Result (Dict Field)
not_a_user none = raised (attribute_error "'NoneType' object has no attribute 'id'")
not_a_user (some p) = raised (attribute_error "password_expires_at")

-- The comprehension converts the project once for each user.
unfoldable pub converted_users : Option Project → List User → Result (List (Dict Field))
converted_users project [] = ok []
converted_users project (u ∷ rest) = elim (not_a_user project) [
  | raised e ↦ raised e
  | ok d ↦ elim (converted_users project rest) [ raised e ↦ raised e | ok ds ↦ ok (d ∷ ds) ]
]

abbrev as_ref : Option Project → Ref Project
as_ref none = identifier none
as_ref (some p) = object p

module _ {S : Type 0} (api : Api S) where
  unfoldable pub list_user : Option String → Option String → Exec S (List (Dict Field))
  unfolding converted_users
  list_user domain project = do
    d ← get_domain_object api domain
    p ← resolve_project api (identifier project) d
    users ← api.users_list d p
    us ← lift (iterated users)
    lift (converted_users p us)

  -- The `except KeystoneExceptionError` of the methods below: the variable keeps what it held,
  -- unless the name is that of several projects, which asks again in the project's domain.
  unfoldable other_domain :
      Option String → Option String → Option String → Exc → Exec S (Ref Project)
  other_domain kept wanted project_domain (keystone_error message) s =
      if contains_text "More than one project with same name" message
      then (do p ← get_project_object api wanted (identifier project_domain); pure (as_ref p)) s
      else (ok (identifier kept), s)
  other_domain kept wanted project_domain e s = (raised e, s)

  -- The variable `project` after the `try`: `kept` is the parameter of that name.
  unfoldable project_to_use :
      Option String → Option String → Option String → Option String → Exec S (Ref Project)
  unfolding other_domain
  project_to_use kept wanted domain project_domain =
      try (do p ← get_project_object api wanted (identifier domain); pure (as_ref p))
      except (other_domain kept wanted project_domain)

  unfoldable pub show_user :
      String → Option String → Option String → Option String → Exec S (Option (Dict Field))
  unfolding project_to_use
  show_user name domain project project_domain = do
    p ← project_to_use project project domain project_domain
    u ← get_user_object api (some name) (identifier domain) p
    pure (elim u [ none ↦ none | some user ↦ some (convert_user user) ])

  unfoldable create_in :
      String
      → String
      → Option String
      → Option String
      → Option String
      → Bool
      → Ref Project
      → Exec S User
  create_in name password email description domain enable project = do
    d ← get_domain_object api domain
    api.users_create (record {
      name = some name;
      domain = d;
      password = some password;
      email = email;
      description = description;
      enabled = enable;
      default_project = project;
    })

  unfoldable pub create_user :
      String
      → String
      → Option String
      → Option String
      → Option String
      → Option String
      → Option String
      → Bool
      → Bool
      → Exec S (Dict Field)
  unfolding project_to_use create_in
  create_user name password email description domain project project_domain enable true = do
    p ← project_to_use project project domain project_domain
    u ← get_user_object api (some name) (identifier domain) p
    user ← found_or (create_in name password email description domain enable p) u
    pure (convert_user user)
  create_user name password email description domain project project_domain enable false = do
    user ← create_in name password email description domain enable (identifier project)
    pure (convert_user user)

  -- The project and the user are looked up by the parameter `name`, the new name.
  unfoldable pub update_user :
      Option String
      → Option String
      → Option String
      → Option String
      → Option String
      → Option String
      → Option String
      → Option String
      → Bool
      → Exec S (Dict Field)
  unfolding project_to_use
  update_user user name password email description domain project project_domain enable = do
    p ← project_to_use project name domain project_domain
    u ← get_user_object api name (identifier domain) p
    there ← required (is_missing "User" user) u
    d ← get_domain_object api domain
    updated ← api.users_update there (record {
      name = name;
      domain = d;
      password = password;
      email = email;
      description = description;
      enabled = enable;
      default_project = p;
    })
    pure (convert_user updated)

  -- The user that is not there is deleted as None.
  unfoldable pub delete_user : String → Option String → Exec S (Dict Field)
  delete_user name domain = do
    u ← get_user_object api (some name) (identifier domain) (identifier none)
    api.users_delete u
    pure (("name", text name) ∷ [])

  -- An update that gives no new name never finds the user, and changes nothing.
  pub update_user-unnamed :
      (user password email description domain project project_domain : Option String)
      (enable : Bool) (s : S)
      → update_user user none password email description domain project project_domain enable s
        ≡ (raised (keystone_error (is_missing "User" user)), s)
  unfolding update_user project_to_use other_domain get_project_object get_user_object
  update_user-unnamed user password email description domain project project_domain enable s = refl
