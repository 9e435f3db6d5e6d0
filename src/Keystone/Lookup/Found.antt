-- ===== src/Keystone/Lookup/Found.antt =====
-- charms/keystone-k8s/src/utils/client.py: what the lookups find.
use sunbeam_charms.Prelude.{
  String, ◌≡◌, Bool, true, some, List, [], ◌∷◌, keep, arith, Bool-cases, inl, inr,
}
use sunbeam_charms.Exec.{ok, continue-ok}
use sunbeam_charms.Keystone.Api.{Domain, Project, Ref, Api}
use sunbeam_charms.Keystone.Lookup.{
  first_in, or_empty, only_one, one_in, domain_called, project_called, get_domain_object,
  get_project_object, resolve_domain,
}

module _ {A : Type 0} (p : A → Bool) where
  first_in-found : (xs : List A) (a : A) → first_in p xs ≡ some a → p a ≡ true
  unfolding first_in
  first_in-found [] a h = ground arith
  first_in-found (x ∷ xs) a h = elim (Bool-cases (p x)) [
    | inl e ↦ ground arith
    | inr e ↦ first_in-found xs a (ground arith)
  ]

  keep-head : (xs : List A) (a : A) (rest : List A) → keep p xs ≡ a ∷ rest → p a ≡ true
  keep-head [] a rest h = ground arith
  keep-head (x ∷ xs) a rest h = elim (Bool-cases (p x)) [
    | inl e ↦ ground arith
    | inr e ↦ keep-head xs a rest (ground arith)
  ]

  one_in-found :
      (message : String) (xs : List A) (a : A) → one_in message p xs ≡ ok (some a) → p a ≡ true
  unfolding one_in
  one_in-found message xs a h = found (keep p xs) (keep-head xs a) h
    where
      found :
          (ys : List A)
          → ((rest : List A) → ys ≡ a ∷ rest → p a ≡ true)
          → only_one message ys ≡ ok (some a)
          → p a ≡ true
      found [] f g = ground arith
      found (y ∷ []) f g = f [] (ground arith)
      found (y ∷ z ∷ ys) f g = cc

module _ {S : Type 0} (api : Api S) where
  -- The domain that is found is the one that is asked for, by id or by name in any case.
  pub get_domain_object-called :
      (wanted : String) (d : Domain) (s t : S)
      → get_domain_object api (some wanted) s ≡ (ok (some d), t)
      → domain_called wanted d ≡ true
  unfolding get_domain_object
  get_domain_object-called wanted d s t h =
      let (ds, u, listing, end) = continue-ok _ (api.domains_list s) h in
      first_in-found (domain_called wanted) (or_empty ds) d (ground arith)

  -- The project that is found is called as it is asked for, by id or by name in any
  -- case.
  pub get_project_object-called :
      (wanted : String) (domain : Ref Domain) (p : Project) (s t : S)
      → get_project_object api (some wanted) domain s ≡ (ok (some p), t)
      → project_called wanted p ≡ true
  unfolding get_project_object
  get_project_object-called wanted domain p s t h =
      let (d, u, resolving, rest) = continue-ok _ (resolve_domain api domain s) h in
      let (ps, v, listing, end) = continue-ok _ (api.projects_list d u) rest in
      one_in-found (project_called wanted) "More than one project with same name exists"
        (or_empty ps) p (ground arith)
