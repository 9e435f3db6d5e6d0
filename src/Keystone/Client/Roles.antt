-- ===== src/Keystone/Client/Roles.antt =====
-- charms/keystone-k8s/src/utils/client.py, KeystoneClient: the roles.
use sunbeam_charms.Prelude.{String, Bool, Option, none, some, List, map, not, ◌&&◌, if◌then◌else◌}
use sunbeam_charms.Dict.{Dict}
use sunbeam_charms.Exec.{Exec, Action, value_error, ◌>>=◌, pure, raise}
use sunbeam_charms.Keystone.Api.{identifier, Api}
use sunbeam_charms.Keystone.Lookup.{
  get_domain_object, get_project_object, get_user_object, get_role_object,
}
use sunbeam_charms.Keystone.Client.{
  Field, convert_role, lift, ensure, required, iterated, is_given, is_missing,
}

module _ {S : Type 0} (api : Api S) where
  unfoldable pub list_role : Option String → Exec S (List (Dict Field))
  list_role domain = do
    d ← get_domain_object api domain
    roles ← api.roles_list d
    rs ← lift (iterated roles)
    pure (map convert_role rs)

  unfoldable pub create_role : String → Option String → Bool → Exec S (Dict Field)
  create_role name domain may_exist = do
    r ←
        ensure may_exist (get_role_object api (some name) (identifier domain))
          (do d ← get_domain_object api domain; api.roles_create name d)
    pure (convert_role r)

  -- The role is looked up by the parameter `name`, the new name.
  unfoldable pub update_role : Option String → Option String → Option String → Exec S (Dict Field)
  update_role role name domain = do
    r ← get_role_object api name (identifier domain)
    there ← required (is_missing "Role" role) r
    updated ← api.roles_update there name
    pure (convert_role updated)

  unfoldable pub delete_role : String → Option String → Action S
  delete_role name domain = do
    r ← get_role_object api (some name) (identifier domain)
    api.roles_delete r

  unfoldable granted :
      Option String
      → Option String
      → Option String
      → Option String
      → Option String
      → Option String
      → Option String
      → Action S
  granted role domain project user project_domain user_domain role_domain = do
    r ← get_role_object api role (identifier role_domain)
    u ← get_user_object api user (identifier user_domain) (identifier none)
    d ← get_domain_object api domain
    p ← get_project_object api project (identifier project_domain)
    api.roles_grant r u d p

  unfoldable pub grant_role :
      Option String
      → Option String
      → Option String
      → Option String
      → Option String
      → Option String
      → Option String
      → Action S
  unfolding granted
  grant_role role domain project user project_domain user_domain role_domain s =
      if is_given project && is_given domain
      then raise (value_error "Project and domain are mutually exclusive") s
      else if not (is_given project) && not (is_given domain)
      then raise (value_error "Project or domain must be specified") s
      else granted role domain project user project_domain user_domain role_domain s
