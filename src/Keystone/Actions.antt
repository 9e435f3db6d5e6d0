-- ===== src/Keystone/Actions.antt =====
-- charms/keystone-k8s/src/charm.py: the action that gives an account a new password.
use sunbeam_charms.Prelude.{
  String, ◌≡◌, refl, Bool, true, false, Option, none, some, [], ◌∷◌, ◌==◌, if◌then◌else◌,
}
use sunbeam_charms.Text.{concat}
use sunbeam_charms.Dict.{Dict}
use sunbeam_charms.Exec.{Exc, Exec, Action, ok, keystone_error, continue, ◌>>◌, modify, handle}
use sunbeam_charms.Guard.{exc_text}
use sunbeam_charms.Keystone.Api.{Api}
use sunbeam_charms.Keystone.Setup.{Juju}
use sunbeam_charms.Keystone.Client.{is_missing}
use sunbeam_charms.Keystone.Client.Users.{update_user, update_user-unnamed}

-- `_retrieve_or_set_secret` without a scope; `label` is of the user's credentials, and `pwgen` the
-- password that is generated.
module _ {S : Type 0} (juju : Juju S) (pwgen : S → String) where
  abbrev credentials_label : String → String
  credentials_label username = concat ("credentials_" ∷ username ∷ [])

  abbrev new_credentials : String → Exec S String
  new_credentials username s =
      continue
        (λ secret_id.
          λ t. (ok secret_id, juju.set_app_data ((credentials_label username, secret_id) ∷ []) t))
        (juju.add_secret (("username", username) ∷ ("password", pwgen s) ∷ [])
          (credentials_label username) "never" s)

  abbrev known_credentials : Option String → String → Exec S String
  known_credentials none username s = new_credentials username s
  known_credentials (some secret_id) username s =
      if secret_id == "" then new_credentials username s else (ok secret_id, s)

  unfoldable pub retrieve_or_set_secret : String → Exec S String
  unfolding concat
  retrieve_or_set_secret username s =
      known_credentials (juju.get_app_data (credentials_label username) s) username s

-- The action's event: `is_not_found` tells a SecretNotFoundError.
module _ {S : Type 0} (api : Api S) (juju : Juju S) (pwgen : S → String) (fail : String → S → S)
    (set_results : Dict String → S → S) (is_not_found : Exc → Bool) where
  -- `credentials` is the secret, which `get_secret` found.
  abbrev with_credentials : (String → Action S) → String → String → Action S
  with_credentials get_secret username secret_id = do
    get_secret secret_id
    λ s.
        continue
          (λ _.
            juju.set_content secret_id (("username", username) ∷ ("password", pwgen s) ∷ [])
            >> modify (set_results (("password", pwgen s) ∷ [])))
          (update_user api (some username) none (some (pwgen s)) none none none none none true s)

  abbrev failure : String → Exc → Action S
  failure username e s = (
    ok tt,
    fail
        (if is_not_found e
          then concat ("Secret for " ∷ username ∷ " not found" ∷ [])
          else concat ("Regeneration of password failed: " ∷ exc_text e ∷ []))
        s,
  )

  unfoldable pub regenerate_password_action : (String → Action S) → String → Action S
  unfolding retrieve_or_set_secret update_user concat exc_text
  regenerate_password_action get_secret username s =
      if juju.is_leader s
      then handle (failure username) (
          continue (with_credentials get_secret username)
            (retrieve_or_set_secret juju pwgen username s))
      else (ok tt, fail "Please run action on lead unit." s)

  -- The leader's action never sets a new password: if the credentials and their secret are at hand,
  -- and the client's exception is not taken for a missing secret, the event fails with the message
  -- that the user does not exist.
  pub regenerate_password_action-fails :
      (get_secret : String → Action S) (username secret_id : String) (s t u : S)
      → juju.is_leader s ≡ true
      → is_not_found (keystone_error (is_missing "User" (some username))) ≡ false
      → retrieve_or_set_secret juju pwgen username s ≡ (ok secret_id, t)
      → get_secret secret_id t ≡ (ok tt, u)
      → regenerate_password_action get_secret username s ≡ (
        ok tt,
        fail
            (concat ("Regeneration of password failed: " ∷ is_missing "User" (some username) ∷ []))
            u,
      )
  unfolding regenerate_password_action exc_text
  regenerate_password_action-fails get_secret username secret_id s t u l n h g =
      rw
        (
          l,
          h,
          g,
          update_user-unnamed api (some username) (some (pwgen u)) none none none none none true u,
        )
        (rw n refl)
