-- ===== src/Keystone/Client/Again.antt =====
-- charms/keystone-k8s/src/utils/client.py: creating what is there, and the url of an endpoint.
use mathlib.Core.Path.{subst}
use sunbeam_charms.Prelude.{
  String, ◌≡◌, refl, ap, Bool, true, false, Option, none, some, List, [], ◌∷◌, ◌++◌, arith, ◌==◌,
  eq_iff, eq_refl, Bool-cases, inl, inr,
}
use sunbeam_charms.Text.{lower}
use sunbeam_charms.Dict.{Dict}
use sunbeam_charms.Exec.{Result, ok, Exec, continue, continue-ok}
use sunbeam_charms.Keystone.Api.{Domain, Service, Endpoint, Api}
use sunbeam_charms.Keystone.Lookup.{get_domain_object, or_empty, first_in, domain_called}
use sunbeam_charms.Keystone.Client.{
  Field, ensure, found_or, create_domain, keep_endpoint, create_endpoint,
}

-- Making sure twice is making sure once, where what was made or found is found again.
module _ {S A : Type 0} (find : Exec S (Option A)) (create : Exec S A) where
  ensure-again :
      (a : A) (s t : S)
      → ((o : Option A) (u : S) → find s ≡ (ok o, u) → find u ≡ (ok o, u))
      → ((u : S) → find s ≡ (ok none, u) → create u ≡ (ok a, t) → find t ≡ (ok (some a), t))
      → ensure true find create s ≡ (ok a, t)
      → ensure true find create t ≡ (ok a, t)
  unfolding ensure found_or
  ensure-again a s t again made h =
      let (o, u, finding, end) = continue-ok _ (find s) h in chosen o u finding end
    where
      chosen :
          (o : Option A) (u : S)
          → find s ≡ (ok o, u)
          → found_or create o u ≡ (ok a, t)
          → continue (found_or create) (find t) ≡ (ok a, t)
      chosen none u f e = rw (made u f e) refl
      chosen (some x) u f e =
          subst (λ v. continue (found_or create) (find v) ≡ (ok a, t))
            (ap (λ (r : Result A × S). r.1) e) (rw (again (some x) u f) e)

-- An object that the search did not find among the others is found where it is put.
first_in-put :
    {A : Type 0} (p : A → Bool) (a : A) (xs ys : List A)
    → first_in p (xs ++ ys) ≡ none
    → p a ≡ true
    → first_in p (xs ++ a ∷ ys) ≡ some a
unfolding first_in
first_in-put p a [] ys h k = rw k refl
first_in-put p a (x ∷ xs) ys h k = ground (arith, first_in-put p a xs ys)

module _ {S : Type 0} (api : Api S) where
  -- Two documented properties of Keystone's list of domains: asking again gives the same list and
  -- changes nothing, and a domain that is created has the name that was asked for and stands
  -- somewhere among the domains that were listed.
  abbrev pub ListsAgain : Type 0
  ListsAgain =
      (o : Option (List Domain)) (s t : S)
      → api.domains_list s ≡ (ok o, t)
      → api.domains_list t ≡ (ok o, t)

  abbrev pub ListsCreated : Type 0
  ListsCreated =
      (name description : String) (enable : Bool) (o : Option (List Domain)) (d : Domain) (s t : S)
      → api.domains_list s ≡ (ok o, s)
      → api.domains_create name description enable s ≡ (ok d, t)
      → (d.name ≡ name)
        × ((xs ys : List Domain) × (or_empty o ≡ xs ++ ys)
            × (api.domains_list t ≡ (ok (some (xs ++ d ∷ ys)), t)))

  listed :
      (name : String) (o : Option Domain) (s t : S)
      → get_domain_object api (some name) s ≡ (ok o, t)
      → (ds : Option (List Domain)) × (api.domains_list s ≡ (ok ds, t))
        × (first_in (domain_called name) (or_empty ds) ≡ o)
  unfolding get_domain_object
  listed name o s t h =
      let (ds, u, listing, end) = continue-ok _ (api.domains_list s) h in
      (ds, rw (← ap (λ (r : Result (Option Domain) × S). r.1) end) listing, cc)

  called : (name : String) (d : Domain) → d.name ≡ name → domain_called name d ≡ true
  called name d h = rw h (ground (arith, eq_refl (lower name)))

  found_again :
      (name : String) (o : Option Domain) (s t : S)
      → ListsAgain
      → get_domain_object api (some name) s ≡ (ok o, t)
      → get_domain_object api (some name) t ≡ (ok o, t)
  unfolding get_domain_object
  found_again name o s t again h =
      let (ds, listing, found) = listed name o s t h in rw (again ds s t listing) (rw found refl)

  found_created :
      (name description : String) (enable : Bool) (d : Domain) (s u t : S)
      → ListsAgain
      → ListsCreated
      → get_domain_object api (some name) s ≡ (ok none, u)
      → api.domains_create name description enable u ≡ (ok d, t)
      → get_domain_object api (some name) t ≡ (ok (some d), t)
  unfolding get_domain_object
  found_created name description enable d s u t again created h k =
      let (ds, listing, found) = listed name none s u h in
      let (named, (xs, ys, before, after)) =
        created name description enable ds d u t (again ds s u listing) k in
      rw after (
        rw (first_in-put (domain_called name) d xs ys (rw (← before) found) (called name d named))
          refl)

  -- If Keystone lists its domains as documented (asking again gives the same list and changes
  -- nothing, and a domain that is created has the name that was asked for and stands among those
  -- that were listed), then creating a domain that may exist a second time answers with the same
  -- domain and changes nothing.
  pub create_domain-again :
      (name description : String) (enable : Bool) (x : Dict Field) (s t : S)
      → ListsAgain
      → ListsCreated
      → create_domain api name description enable true s ≡ (ok x, t)
      → create_domain api name description enable true t ≡ (ok x, t)
  unfolding create_domain
  create_domain-again name description enable x s t again created h =
      let (d, u, making, end) =
        continue-ok _
          (ensure true (get_domain_object api (some name))
            (api.domains_create name description enable) s)
          h in
      subst (λ v. create_domain api name description enable true v ≡ (ok x, t))
        (ap (λ (r : Result (Dict Field) × S). r.1) end)
        (rw
          (ensure-again (get_domain_object api (some name))
            (api.domains_create name description enable) d s u (λ o v. found_again name o s v again)
            (λ v f. found_created name description enable d s v u again created f) making)
          end)

  -- An endpoint that is created or found has the url that is asked for, if creating and updating an
  -- endpoint set the url.
  pub url-create_endpoint :
      (service : Service) (url interface region : String) (may_exist : Bool) (e : Endpoint)
      (s t : S)
      → ((e : Endpoint) (s t : S)
          → api.endpoints_create service url interface region s ≡ (ok e, t)
          → e.url ≡ url)
      → ((old e : Endpoint) (s t : S) → api.endpoints_update old url s ≡ (ok e, t) → e.url ≡ url)
      → create_endpoint api service url interface region may_exist s ≡ (ok e, t)
      → e.url ≡ url
  unfolding create_endpoint keep_endpoint
  url-create_endpoint service url interface region false e s t created updated h = created e s t h
  url-create_endpoint service url interface region true e s t created updated h =
      let (o, u, listing, end) =
        continue-ok _ (api.endpoints_list (some service) (some interface) (some region) s) h in
      kept (or_empty o) u end
    where
      kept :
          (es : List Endpoint) (u : S)
          → keep_endpoint api (api.endpoints_create service url interface region) url es u
            ≡ (ok e, t)
          → e.url ≡ url
      kept [] u g = created e u t g
      kept (x ∷ []) u g = elim (Bool-cases (x.url == url)) [
        | inl q ↦ ground (arith, eq_iff x.url url)
        | inr q ↦ updated x e u t (ground arith)
      ]
      kept (x ∷ y ∷ ys) u g = cc
