-- ===== src/Tempest/Cleanup.antt =====
-- charms/tempest-k8s/src/utils/cleanup.py: removing what the tests leave behind in a cloud.
pub mod Bounds
pub mod Kept
use sunbeam_charms.Prelude.{
  String, Bool, true, false, not, ◌&&◌, Option, none, some, List, [], ◌∷◌, ◌++◌, keep, map,
  is_empty, ◌==◌, if◌then◌else◌,
}
use sunbeam_charms.Text.{has_prefix, concat, join}
use sunbeam_charms.Dict.{contains}
use sunbeam_charms.Exec.{
  Exc, Exec, Action, Done, Result, ok, raised, other_error, continue, ◌>>=◌, ◌>>◌, pure, raise,
  skip, for_each, handle, try◌except◌,
}
use sunbeam_charms.Guard.{exc_text}

pub record Resource : Type 0 where
  pub id : String
  pub name : String

-- An image with its owner, and a router with whether it has an external gateway.
pub record Image : Type 0 where
  pub id : String
  pub owner : String

pub record Router : Type 0 where
  pub id : String
  pub name : String
  pub has_gateway : Bool

-- The connection of the library openstacksdk. A listing is read as a whole, before what it lists is
-- deleted. The lists take the project's, the device's or the domain's id.
pub record Connection (S : Type 0) : Type 0 where
  pub servers : String → Exec S (List Resource)
  pub delete_server : String → Action S
  pub keypairs : Exec S (List Resource)
  pub delete_keypair : Resource → Action S
  pub snapshots : String → Exec S (List Resource)
  pub delete_snapshot : String → Action S
  pub volumes : String → Exec S (List Resource)
  pub delete_volume : String → Action S
  pub images : Exec S (List Image)
  pub delete_image : String → Action S
  pub routers : String → Exec S (List Router)
  pub unset_gateway : Router → Action S
  pub ports : String → Exec S (List String)
  pub remove_interface : Router → String → Action S
  pub delete_router : String → Action S
  pub networks : String → Exec S (List Resource)
  pub delete_network : String → Action S
  pub stacks : String → Exec S (List Resource)
  pub delete_stack : String → Action S
  pub projects : String → Exec S (List Resource)
  pub delete_project : String → Action S
  pub users : String → Exec S (List Resource)
  pub delete_user : String → Action S
  pub is_endpoint_not_found : Exc → Bool
  pub is_unauthorized : Exc → Bool

abbrev pub is_test : String → Bool
is_test name = has_prefix "tempest-" name

module _ {S : Type 0} where
  -- The loops that delete what has the prefix.
  abbrev pub delete_if_test : (Resource → Action S) → Resource → Action S
  delete_if_test delete r s = if is_test r.name then delete r s else (ok tt, s)

  unfoldable pub delete_tests : (Resource → Action S) → List Resource → Action S
  delete_tests delete resources = for_each resources (delete_if_test delete)

module _ {S : Type 0} (conn : Connection S) where
  unfoldable pub get_test_projects_in_domain : String → List String → Exec S (List String)
  unfolding contains
  get_test_projects_in_domain domain_id exclude = do
    projects ← conn.projects domain_id
    pure (map (λ p. p.id) (keep (λ p. is_test p.name && not (contains p.name exclude)) projects))

  unfoldable pub cleanup_compute_resources : String → Action S
  unfolding delete_tests
  cleanup_compute_resources project_id = do
    servers ← conn.servers project_id
    delete_tests (λ r. conn.delete_server r.id) servers
    keypairs ← conn.keypairs
    delete_tests conn.delete_keypair keypairs

  unfoldable pub cleanup_block_resources : String → Action S
  unfolding delete_tests
  cleanup_block_resources project_id = do
    snapshots ← conn.snapshots project_id
    delete_tests (λ r. conn.delete_snapshot r.id) snapshots
    volumes ← conn.volumes project_id
    delete_tests (λ r. conn.delete_volume r.id) volumes

  unfoldable pub cleanup_images : String → Action S
  cleanup_images project_id = do
    images ← conn.images
    for_each images
        (λ i. λ s. if i.owner == project_id then conn.delete_image i.id s else (ok tt, s))

  abbrev cleanup_router : Router → Action S
  cleanup_router r s =
      if is_test r.name
      then (do
        λ t. if r.has_gateway then conn.unset_gateway r t else (ok tt, t)
        ports ← conn.ports r.id
        for_each ports (conn.remove_interface r)
        conn.delete_router r.id)
          s
      else (ok tt, s)

  unfoldable pub cleanup_networks_resources : String → Action S
  unfolding delete_tests
  cleanup_networks_resources project_id = do
    routers ← conn.routers project_id
    for_each routers cleanup_router
    networks ← conn.networks project_id
    delete_tests (λ r. conn.delete_network r.id) networks

  unfoldable pub cleanup_stacks : String → Action S
  unfolding delete_tests
  cleanup_stacks project_id =
      try (do stacks ← conn.stacks project_id; delete_tests (λ r. conn.delete_stack r.id) stacks)
      except (λ e. λ s. if conn.is_endpoint_not_found e then (ok tt, s) else (raised e, s))

  abbrev pub delete_user_unless : List String → Resource → Action S
  delete_user_unless exclude u s =
      if is_test u.name && not (contains u.name exclude)
      then conn.delete_user u.id s
      else (ok tt, s)

  unfoldable pub cleanup_users : String → List String → Action S
  cleanup_users domain_id exclude = do
    users ← conn.users domain_id
    for_each users (delete_user_unless exclude)

abbrev pub failure : String → Done → List String
failure name (ok u) = []
failure name (raised e) = concat ("Error calling " ∷ name ∷ ": " ∷ exc_text e ∷ []) ∷ []

-- A clean-up function with its name.
abbrev pub Function : Type 0 → Type 0
Function S = String × (String → Action S)

module _ {S : Type 0} where
  -- The two loops. Whatever a function raises becomes a message.
  unfoldable pub run_functions : String → List (Function S) → S → List String × S
  unfolding concat exc_text
  run_functions project_id [] s = ([], s)
  run_functions project_id ((name, func) ∷ functions) s =
      let (r, t) = func project_id s in
      let (rest, u) = run_functions project_id functions t in (failure name r ++ rest, u)

  unfoldable pub run_cleanup_functions : List String → List (Function S) → S → List String × S
  unfolding run_functions
  run_cleanup_functions [] functions s = ([], s)
  run_cleanup_functions (project_id ∷ projects) functions s =
      let (failures, t) = run_functions project_id functions s in
      let (rest, u) = run_cleanup_functions projects functions t in (failures ++ rest, u)

-- `CleanUpError`
abbrev cleanup_error : String → Exc
cleanup_error message = other_error message

-- The excluded names: of the projects and of the users in the accounts file.
pub record Excluded : Type 0 where
  pub projects : List String
  pub users : List String

module _ {S : Type 0} (conn : Connection S) (domain_id : String) where
  abbrev not_authorized : {A : Type 0} → Exc → Exec S A
  not_authorized e s =
      (raised (if conn.is_unauthorized e then cleanup_error "Operation not authorized." else e), s)

  abbrev user_failure : Done → List String
  user_failure (ok u) = []
  user_failure (raised e) = concat ("\nError cleaning up users: " ∷ exc_text e ∷ []) ∷ []

  abbrev finished : List String → Action S
  finished [] s = (ok tt, s)
  finished (m ∷ ms) s = (raised (cleanup_error (join "\n" (m ∷ ms))), s)

  -- The users are deleted last, whatever failed before.
  abbrev clean_users : List String → List String → Action S
  clean_users exclude failures s =
      let (r, t) = cleanup_users conn domain_id exclude s in finished (failures ++ user_failure r) t

  abbrev project_lists : List String → Exec S (List String × List String)
  project_lists exclude =
      try (do
        projects ← get_test_projects_in_domain conn domain_id []
        filtered ← get_test_projects_in_domain conn domain_id exclude
        pure (projects, filtered))
      except not_authorized

  abbrev quick : Excluded → List String × List String → Action S
  quick excluded (projects, filtered) s =
      let (failures, t) =
        run_cleanup_functions projects
          (("_cleanup_compute_resources", cleanup_compute_resources conn)
            ∷ ("_cleanup_block_resources", cleanup_block_resources conn)
            ∷ ("_cleanup_images", cleanup_images conn)
            ∷ ("_cleanup_stacks", cleanup_stacks conn)
            ∷ [])
          s in
      let (more, u) =
        run_cleanup_functions filtered
          (("_cleanup_networks_resources", cleanup_networks_resources conn)
            ∷ ("_cleanup_project", conn.delete_project)
            ∷ [])
          t in
      clean_users excluded.users (failures ++ more) u

  -- `excluded` is what reading the accounts file gave.
  unfoldable pub run_quick_cleanup : Result Excluded → Action S
  unfolding get_test_projects_in_domain run_cleanup_functions cleanup_users join
      cleanup_compute_resources cleanup_block_resources cleanup_images cleanup_stacks
      cleanup_networks_resources
  run_quick_cleanup (raised e) s = (raised e, s)
  run_quick_cleanup (ok excluded) s = continue (quick excluded) (project_lists excluded.projects s)

  abbrev extensive : List String → Action S
  extensive projects s =
      let (failures, t) =
        run_cleanup_functions projects
          (("_cleanup_compute_resources", cleanup_compute_resources conn)
            ∷ ("_cleanup_block_resources", cleanup_block_resources conn)
            ∷ ("_cleanup_images", cleanup_images conn)
            ∷ ("_cleanup_stacks", cleanup_stacks conn)
            ∷ ("_cleanup_networks_resources", cleanup_networks_resources conn)
            ∷ ("_cleanup_project", conn.delete_project)
            ∷ [])
          s in
      clean_users [] failures t

  unfoldable pub run_extensive_cleanup : Action S
  unfolding get_test_projects_in_domain run_cleanup_functions cleanup_users join
      cleanup_compute_resources cleanup_block_resources cleanup_images cleanup_stacks
      cleanup_networks_resources
  run_extensive_cleanup s =
      continue extensive (handle not_authorized (get_test_projects_in_domain conn domain_id [] s))
