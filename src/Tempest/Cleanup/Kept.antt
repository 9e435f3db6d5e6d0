-- ===== src/Tempest/Cleanup/Kept.antt =====
-- charms/tempest-k8s/src/utils/cleanup.py: what a clean-up leaves alone.
use sunbeam_charms.Prelude.{
  String, ◌≡◌, refl, Bool, true, false, not, ◌&&◌, List, [], ◌∷◌, arith, if◌then◌else◌, All,
}
use sunbeam_charms.Dict.{contains}
use sunbeam_charms.Exec.{Action, Exec, Result, ok, raised, continue, for_each}
use sunbeam_charms.Tempest.Cleanup.{
  Resource, Connection, is_test, delete_user_unless, cleanup_users,
}

-- What holds of a state and is kept by the steps is kept by the loop.
module _ {S : Type 0} (Inv : S → Type 0) where
  continue-keeps :
      {A B : Type 0} (f : A → Exec S B) (r : Result A × S)
      → ((a : A) (s : S) → Inv s → Inv (f a s).1)
      → Inv r.1
      → Inv (continue f r).1
  continue-keeps f (ok a, s) h i = h a s i
  continue-keeps f (raised e, s) h i = i

  if_keeps :
      (b : Bool) (m : Action S) (s : S)
      → (b ≡ true → Inv (m s).1)
      → Inv s
      → Inv (if b then m s else (ok tt, s)).1
  if_keeps true m s h i = h refl
  if_keeps false m s h i = i

  -- The body is only run on what meets a predicate.
  for_all-keeps :
      {A : Type 0} (Known : A → Type 0) (body : A → Action S) (xs : List A) (s : S)
      → ((x : A) (t : S) → Known x → Inv t → Inv (body x t).1)
      → All Known xs
      → Inv s
      → Inv (for_each xs body s).1
  unfolding for_each
  for_all-keeps Known body [] s h a i = i
  for_all-keeps Known body (x ∷ xs) s h a i =
      continue-keeps (λ _. for_each xs body) (body x s) (λ _ t. for_all-keeps Known body xs t h a.1)
        (h x s a.0 i)

abbrev pub AllListed : (Resource → Type 0) → Result (List Resource) → Type 0
AllListed Known (ok us) = All Known us
AllListed Known (raised e) = Unit

module _ {S : Type 0} (conn : Connection S) (Inv : S → Type 0) (Known : Resource → Type 0) where
  deleting-keeps :
      (exclude : List String) (r : Result (List Resource) × S)
      → ((u : Resource) (t : S)
          → Known u
          → is_test u.name ≡ true
          → contains u.name exclude ≡ false
          → Inv t
          → Inv (conn.delete_user u.id t).1)
      → AllListed Known r.0
      → Inv r.1
      → Inv (continue (λ users. for_each users (delete_user_unless conn exclude)) r).1
  deleting-keeps exclude (ok users, s) deletes known i =
      for_all-keeps Inv Known (delete_user_unless conn exclude) users s
        (λ u v k j.
          if_keeps Inv (is_test u.name && not (contains u.name exclude)) (conn.delete_user u.id) v
            (λ e. deletes u v k (ground arith) (ground arith) j) j)
        known i
  deleting-keeps exclude (raised e, s) deletes known i = i

  -- Cleaning up the users keeps whatever is kept by listing the users and by deleting a listed user
  -- whose name has the prefix and is not excluded.
  pub cleanup_users-keeps :
      (domain_id : String) (exclude : List String) (s : S)
      → ((t : S)
          → Inv t
          → AllListed Known (conn.users domain_id t).0 × Inv (conn.users domain_id t).1)
      → ((u : Resource) (t : S)
          → Known u
          → is_test u.name ≡ true
          → contains u.name exclude ≡ false
          → Inv t
          → Inv (conn.delete_user u.id t).1)
      → Inv s
      → Inv (cleanup_users conn domain_id exclude s).1
  unfolding cleanup_users
  cleanup_users-keeps domain_id exclude s lists deletes i =
      deleting-keeps exclude (conn.users domain_id s) deletes (lists s i).0 (lists s i).1
