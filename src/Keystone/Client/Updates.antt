-- ===== src/Keystone/Client/Updates.antt =====
-- charms/keystone-k8s/src/utils/client.py: listing users, updating roles and granting them.
use sunbeam_charms.Prelude.{
  String, ◌≡◌, refl, Option, none, some, List, [], ◌∷◌, arith, Bool-cases, inl, inr,
}
use sunbeam_charms.Dict.{Dict}
use sunbeam_charms.Exec.{Exc, ok, raised, value_error, continue, continue-ok}
use sunbeam_charms.Keystone.Api.{Project, User, Api, identifier}
use sunbeam_charms.Keystone.Lookup.{get_domain_object, resolve_project}
use sunbeam_charms.Keystone.Client.{Field, is_given, lift, iterated}
use sunbeam_charms.Keystone.Client.Users.{converted_users, list_user}
use sunbeam_charms.Keystone.Client.Roles.{grant_role}

module _ {S : Type 0} (api : Api S) where
  listed_none :
      (p : Option Project) (o : Option (List User)) (ds : List (Dict Field)) (s t : S)
      → continue (λ us. lift (converted_users p us)) (lift (iterated o) s) ≡ (ok ds, t)
      → ds ≡ []
  unfolding converted_users
  listed_none p none ds s t h = cc
  listed_none p (some []) ds s t h = ground arith
  listed_none none (some (u ∷ us)) ds s t h = cc
  listed_none (some p) (some (u ∷ us)) ds s t h = cc

  -- A list of users that is answered is empty: no user is ever listed.
  pub list_user-none :
      (domain project : Option String) (ds : List (Dict Field)) (s t : S)
      → list_user api domain project s ≡ (ok ds, t)
      → ds ≡ []
  unfolding list_user
  list_user-none domain project ds s t h =
      let (d, u, found, rest) = continue-ok _ (get_domain_object api domain s) h in
      let (p, v, resolved, more) =
        continue-ok _ (resolve_project api (identifier project) d u) rest in
      let (us, w, listed, end) = continue-ok _ (api.users_list d p v) more in
      listed_none p us ds w t end

  -- A grant that names both a project and a domain, or neither, is refused before anything is asked
  -- of the service.
  pub grant_role-refused :
      (role domain project user project_domain user_domain role_domain : Option String) (s : S)
      → is_given project ≡ is_given domain
      → (e : Exc) × (grant_role api role domain project user project_domain user_domain role_domain
            s
          ≡ (raised e, s))
  unfolding grant_role
  grant_role-refused role domain project user project_domain user_domain role_domain s h =
      elim (Bool-cases (is_given domain)) [
        | inl d ↦ (value_error "Project and domain are mutually exclusive", rw (h, d) refl)
        | inr d ↦ (value_error "Project or domain must be specified", rw (h, d) refl)
      ]
