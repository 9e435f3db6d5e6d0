-- ===== src/Users/Requested.antt =====
-- The request for a user, as the charm of Keystone runs it: ops_sunbeam/relation_handlers.py and
-- charms/keystone-k8s/src/charm.py.
use sunbeam_charms.Prelude.{String, ◌≡◌, refl, ap, Bool, true, false, [], ◌∷◌, ◌++◌, some}
use sunbeam_charms.Text.{has_prefix}
use sunbeam_charms.Dict.{Dict, lookup}
use sunbeam_charms.Exec.{Exec, Result, ok, raised, continue}
use sunbeam_charms.Keystone.Requests.{Value, string, Tools, sanitize_params}
use sunbeam_charms.Users.{
  User, Host, Request, Ops, request_of, create_user_tag, create_role_requests, credentials, label,
  user_params, before_user, creation, op, create_user_request, ensure_credentials,
}
use sunbeam_charms.Users.Rotated.{Documented, Holds, get_credentials-Holds}

module _ {S T R : Type 0} (u : User) (h : Host S) (d : Documented h) (tools : Tools T Bool R) where
  abbrev resolved_of : Result (Dict (Value Bool)) × T → Dict (Value Bool)
  resolved_of (ok r, x) = r
  resolved_of (raised e, x) = []

  abbrev put : String → String → Dict (Value Bool) → Exec T (Dict (Value Bool))
  put k v rest x = (ok ((k, string v) ∷ rest), x)

  put_both :
      (a b : String) (r : Result (Dict (Value Bool)) × T) (resolved : Dict (Value Bool)) (y : T)
      → continue (put "name" a) (continue (put "password" b) r) ≡ (ok resolved, y)
      → (lookup "name" resolved ≡ some (string a)) × (lookup "password" resolved ≡ some (string b))
  unfolding lookup
  put_both a b (ok rest, x) resolved y e = rw (← ap resolved_of e) (refl, refl)
  put_both a b (raised m, x) resolved y e = cc

  -- The first two parameters as Keystone's handler resolves them.
  sanitize_params-user :
      (username password id : String) (rest resolved : Dict (Value Bool)) (x y : T)
      → has_prefix "secret://" username ≡ false
      → has_prefix "secret://" id ≡ true
      → tools.get_content id x ≡ (ok (credentials username password), x)
      → sanitize_params tools (("name", string username) ∷ ("password", string id) ∷ rest) x
        ≡ (ok resolved, y)
      → (lookup "name" resolved ≡ some (string username))
        × (lookup "password" resolved ≡ some (string password))
  unfolding sanitize_params lookup
  sanitize_params-user username password id rest resolved x y n p g e =
      put_both username password (sanitize_params tools rest x) resolved y (rw (n, p, g) at e)

  -- If Juju works as documented, the charm's secret holds credentials, whose name does not begin
  -- with secret:// and whose id does, and the charm of Keystone reads the same secret and resolves
  -- the parameters, then the request changes nothing and asks for the user by the secret's id, and
  -- the name and the password that Keystone resolves are those that the secret holds.
  pub create_user_request-opened :
      (id username password : String) (resolved : Dict (Value Bool)) (s : S) (x y : T)
      → Holds u h d (label u h) id username password s
      → has_prefix "secret://" username ≡ false
      → has_prefix "secret://" id ≡ true
      → tools.get_content id x ≡ (ok (credentials username password), x)
      → sanitize_params tools (user_params u h username id) x ≡ (ok resolved, y)
      → ((request : Request) × (later : Ops) × (create_user_request u h s ≡ (ok request, s))
          × (request.ops
              ≡ before_user u h ++ op u h "create_user" (user_params u h username id) ∷ later))
        × ((lookup "name" resolved ≡ some (string username))
            × (lookup "password" resolved ≡ some (string password)))
  unfolding create_user_request ensure_credentials
  create_user_request-opened id username password resolved s x y a n p g e = (
    (
      request_of u h (create_user_tag u h) (creation u h username id),
      create_role_requests u h username ++ u.extra_ops,
      rw a.0 (rw a.1 (rw (get_credentials-Holds u h d id username password s a) refl)),
      refl,
    ),
    sanitize_params-user username password id _ resolved x y n p g e,
  )
