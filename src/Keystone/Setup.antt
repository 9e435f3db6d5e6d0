-- ===== src/Keystone/Setup.antt =====
-- charms/keystone-k8s/src/utils/manager.py and charm.py: the first configuration of Keystone, its
-- commands, the secrets with its keys, and the rotation of the keys.
pub mod Failures
use sunbeam_charms.Prelude.{
  String, Bool, true, false, not, ◌&&◌, Option, none, some, List, [], ◌∷◌, ◌++◌, is_empty, ◌==◌,
  if◌then◌else◌,
}
use sunbeam_charms.Dict.{Dict}
use sunbeam_charms.Exec.{
  Exc, Exec, Action, ok, raised, blocked_error, exec_error, connection_error, keystone_error,
  continue, ◌>>=◌, ◌>>◌, pure, raise, handle, try◌except◌, modify, skip, for_each,
}
use sunbeam_charms.Status.{StatusBase, maintenance_status}
use sunbeam_charms.Guard.{guard}
use sunbeam_charms.Keystone.Keys.{
  Folders, read_keys, renamed, add_key_prefix, same_dict, fernet_folder, credential_folder,
  rotate_into_secret,
}

-- The secrets of Juju and the peers' data. A secret is known by its id.
pub record Juju (S : Type 0) : Type 0 where
  pub is_leader : S → Bool
  pub get_app_data : String → S → Option String
  pub set_app_data : Dict String → S → S
  pub get_content : String → Exec S (Dict String)
  pub set_content : String → Dict String → Action S
  pub add_secret : Dict String → String → String → Exec S String

-- What the command of `_bootstrap` is given.
pub record Identity : Type 0 where
  pub charm_user : String
  pub charm_password : String
  pub admin_role : String
  pub admin_endpoint : String
  pub public_endpoint : String
  pub internal_endpoint : String
  pub region : String

abbrev pub as_keystone : List String → List String
as_keystone command = "sudo" ∷ "-u" ∷ "keystone" ∷ "keystone-manage" ∷ command

abbrev pub with_user : String → List String
with_user command =
    as_keystone (command ∷ "--keystone-user" ∷ "keystone" ∷ "--keystone-group" ∷ "keystone" ∷ [])

abbrev pub chown_keystone : String → List String
chown_keystone folder = "sudo" ∷ "chown" ∷ "keystone:keystone" ∷ folder ∷ []

abbrev pub bootstrap_command : Identity → List String
bootstrap_command i =
    "keystone-manage" ∷ "--debug" ∷ "bootstrap" ∷ "--bootstrap-username" ∷ i.charm_user
    ∷ "--bootstrap-password" ∷ i.charm_password ∷ "--bootstrap-project-name" ∷ "admin"
    ∷ "--bootstrap-role-name" ∷ i.admin_role ∷ "--bootstrap-service-name" ∷ "keystone"
    ∷ "--bootstrap-admin-url" ∷ i.admin_endpoint ∷ "--bootstrap-public-url" ∷ i.public_endpoint
    ∷ "--bootstrap-internal-url" ∷ i.internal_endpoint ∷ "--bootstrap-region-id" ∷ i.region ∷ []

-- `except ops.pebble.ExecError: raise KeystoneExceptionError(failure)`
abbrev pub as_keystone_error : String → Exc → Exc
as_keystone_error failure (exec_error m) = keystone_error failure
as_keystone_error failure e = e

-- `except (ops.pebble.ExecError, ops.pebble.ConnectionError): raise BlockedExceptionError(failure)`
abbrev pub as_blocked : String → Exc → Exc
as_blocked failure (exec_error m) = blocked_error failure
as_blocked failure (connection_error m) = blocked_error failure
as_blocked failure e = e

-- `run` executes a command in the container; the two setters are `unit.status = …` and
-- `charm.status.set`.
module _ {S : Type 0} (run : List String → Action S) (set_unit_status : StatusBase → S → S) where
  unfoldable pub keystone_step : String → List (List String) → String → Action S
  keystone_step message commands failure =
      try modify (set_unit_status (maintenance_status message)) >> for_each commands run
      except (λ e. raise (as_keystone_error failure e))

  unfoldable pub sync_database : Action S
  unfolding keystone_step
  sync_database =
      keystone_step "Syncing database"
        (as_keystone ("--config-dir" ∷ "/etc/keystone" ∷ "db_sync" ∷ []) ∷ [])
        "Database sync failed"

  unfoldable pub fernet_setup : Action S
  unfolding keystone_step
  fernet_setup =
      keystone_step "Setting up fernet tokens"
        (chown_keystone fernet_folder ∷ with_user "fernet_setup" ∷ []) "Fernet setup failed."

  unfoldable pub credential_setup : Action S
  unfolding keystone_step
  credential_setup =
      keystone_step "Setting up credentials"
        (chown_keystone credential_folder ∷ with_user "credential_setup" ∷ [])
        "Credential setup failed."

  unfoldable pub bootstrap : Identity → Action S
  unfolding keystone_step
  bootstrap i = keystone_step "Bootstrapping Keystone" (bootstrap_command i ∷ []) "Bootstrap failed"

module _ {S : Type 0} (run : List String → Action S) (set_unit_status : StatusBase → S → S)
    (set_status : StatusBase → S → S) where
  unfoldable pub setup_keystone : Identity → Action S
  unfolding fernet_setup credential_setup bootstrap
  setup_keystone i = guard set_status false true (
      fernet_setup run set_unit_status
      >> credential_setup run set_unit_status
      >> bootstrap run set_unit_status i)

module _ {S : Type 0} (run : List String → Action S) (set_status : StatusBase → S → S) where
  unfoldable pub rotate_fernet_keys : Action S
  rotate_fernet_keys = guard set_status true true (run (with_user "fernet_rotate"))

  unfoldable pub rotate_credential_keys : Action S
  rotate_credential_keys =
      guard set_status true true
        (run (with_user "credential_migrate") >> run (with_user "credential_rotate"))

module _ {S : Type 0} (c : Folders S) (juju : Juju S) where
  abbrev refresh_secret : Dict String → String → Dict String → Action S
  refresh_secret d secret_id content s =
      if not (is_empty content) && not (same_dict content d)
      then juju.set_content secret_id d s
      else (ok tt, s)

  abbrev new_secret : String → String → String → Dict String → Action S
  new_secret id_key label rotate d = do
    secret_id ← juju.add_secret d label rotate
    modify (juju.set_app_data ((id_key, secret_id) ∷ []))

  abbrev put_secret : Option String → String → String → String → Dict String → Action S
  put_secret none id_key label rotate d s = new_secret id_key label rotate d s
  put_secret (some secret_id) id_key label rotate d s =
      if secret_id == ""
      then new_secret id_key label rotate d s
      else continue (refresh_secret d secret_id) (juju.get_content secret_id s)

  -- The id is looked up before the keys are read.
  unfoldable pub create_repository_secret : String → String → String → String → Action S
  unfolding read_keys add_key_prefix
  create_repository_secret folder id_key label rotate s =
      continue
        (λ d.
          put_secret (juju.get_app_data id_key s) id_key label rotate (renamed add_key_prefix d))
        (read_keys c folder s)

  unfoldable pub create_fernet_secret : Action S
  unfolding create_repository_secret
  create_fernet_secret =
      create_repository_secret fernet_folder "fernet-secret-id" "fernet-keys" "daily"

  unfoldable pub create_credential_keys_secret : Action S
  unfolding create_repository_secret
  create_credential_keys_secret =
      create_repository_secret credential_folder "credential-keys-secret-id" "credential-keys"
        "monthly"

-- `setup` and `accounts` are `setup_keystone` and `setup_initial_projects_and_users`. The decorator
-- that runs it once for a unit is in Jobs.antt.
module _ {S : Type 0} (c : Folders S) (juju : Juju S) (setup accounts : Action S)
    (set_unit_status : StatusBase → S → S) where
  abbrev leader_bootstrap : Action S
  leader_bootstrap =
      (try setup except (λ e. raise (as_blocked "Failed to bootstrap" e)))
      >> (try create_fernet_secret c juju >> create_credential_keys_secret c juju
          except (λ e. raise (as_blocked "Failed to create fernet keys" e)))
      >> (try accounts except (λ e. raise (blocked_error "Failed to setup projects and users")))

  unfoldable pub keystone_bootstrap : Action S
  unfolding create_fernet_secret create_credential_keys_secret
  keystone_bootstrap s =
      continue (λ _. modify (set_unit_status (maintenance_status "Starting Keystone")))
        (if juju.is_leader s then leader_bootstrap s else (ok tt, s))
