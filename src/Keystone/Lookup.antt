-- ===== src/Keystone/Lookup.antt =====
-- charms/keystone-k8s/src/utils/client.py: the objects behind names and ids.
pub mod Found
use sunbeam_charms.Prelude.{
  String, Bool, ◌||◌, Option, none, some, List, [], ◌∷◌, keep, ◌==◌, if◌then◌else◌,
}
use sunbeam_charms.Text.{lower}
use sunbeam_charms.Exec.{Result, ok, raised, Exec, keystone_error, continue, ◌>>=◌, pure}
use sunbeam_charms.Keystone.Api.{Domain, Project, User, Role, Ref, object, identifier, Api}

-- `x.id == identifier or x.name.lower() == identifier.lower()`
abbrev pub is_called : String → String → String → Bool
is_called wanted id name = id == wanted || lower name == lower wanted

abbrev pub domain_called : String → Domain → Bool
domain_called wanted d = is_called wanted d.id d.name

abbrev pub project_called : String → Project → Bool
project_called wanted p = is_called wanted p.id p.name

abbrev pub user_called : String → User → Bool
user_called wanted u = is_called wanted u.id u.name

abbrev pub role_called : String → Role → Bool
role_called wanted r = is_called wanted r.id r.name

module _ {A : Type 0} where
  -- The loop that returns the first object that matches; no list is no object.
  unfoldable pub first_in : (A → Bool) → List A → Option A
  first_in p [] = none
  first_in p (x ∷ xs) = if p x then some x else first_in p xs

  abbrev pub or_empty : Option (List A) → List A
  or_empty none = []
  or_empty (some xs) = xs

  -- The count of the matching objects: one, more than one, or none.
  abbrev pub only_one : String → List A → Result (Option A)
  only_one message [] = ok none
  only_one message (x ∷ []) = ok (some x)
  only_one message (x ∷ y ∷ rest) = raised (keystone_error message)

  unfoldable pub one_in : String → (A → Bool) → List A → Result (Option A)
  one_in message p xs = only_one message (keep p xs)

module _ {S : Type 0} (api : Api S) where
  unfoldable pub get_domain_object : Option String → Exec S (Option Domain)
  unfolding first_in lower
  get_domain_object none = pure none
  get_domain_object (some wanted) = do
    domains ← api.domains_list
    pure (first_in (domain_called wanted) (or_empty domains))

  -- `if not isinstance(domain, Domain): domain = self.get_domain_object(domain)`
  unfoldable pub resolve_domain : Ref Domain → Exec S (Option Domain)
  resolve_domain (object d) = pure (some d)
  resolve_domain (identifier name) = get_domain_object name

  unfoldable pub get_project_object : Option String → Ref Domain → Exec S (Option Project)
  unfolding one_in lower
  get_project_object none domain s = (ok none, s)
  get_project_object (some wanted) domain s =
      (do
        d ← resolve_domain domain
        projects ← api.projects_list d
        (λ t. (
          one_in "More than one project with same name exists" (project_called wanted)
              (or_empty projects),
          t,
        )))
        s

  unfoldable pub resolve_project : Ref Project → Option Domain → Exec S (Option Project)
  resolve_project (object p) domain s = (ok (some p), s)
  resolve_project (identifier name) (some d) s = get_project_object name (object d) s
  resolve_project (identifier name) none s = get_project_object name (identifier none) s

  unfoldable pub get_user_object : Option String → Ref Domain → Ref Project → Exec S (Option User)
  unfolding one_in lower
  get_user_object none domain project s = (ok none, s)
  get_user_object (some wanted) domain project s =
      (do
        d ← resolve_domain domain
        p ← resolve_project project d
        users ← api.users_list d p
        (λ t. (
          one_in "More than one user with same name exists" (user_called wanted) (or_empty users),
          t,
        )))
        s

  unfoldable pub get_role_object : Option String → Ref Domain → Exec S (Option Role)
  unfolding first_in lower
  get_role_object none domain s = (ok none, s)
  get_role_object (some wanted) domain s =
      (do
        d ← resolve_domain domain
        roles ← api.roles_list d
        pure (first_in (role_called wanted) (or_empty roles)))
        s
