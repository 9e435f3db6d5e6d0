-- ===== src/Tempest/Cleanup/Bounds.antt =====
-- charms/tempest-k8s/src/utils/cleanup.py, _run_cleanup_functions: how many messages there are.
use sunbeam_charms.Prelude.{ℕ, suc, ◌+◌, ◌*◌, ◌≤◌, String, ◌≡◌, List, [], ◌∷◌, ◌++◌, length, arith}
use sunbeam_charms.Exec.{Done, ok, raised}
use sunbeam_charms.Tempest.Cleanup.{Function, failure, run_functions, run_cleanup_functions}

one_more : (p f a b : ℕ) → a ≤ f → b ≤ p * f → a + b ≤ suc p * f
one_more p f a b h k = omega arith

length-append : (xs ys : List String) → length (xs ++ ys) ≡ length xs + length ys
length-append [] ys = ground arith
length-append (x ∷ xs) ys = rw (length-append xs ys) (omega arith)

length-failure : (name : String) (r : Done) → length (failure name r) ≤ 1
length-failure name (ok u) = omega arith
length-failure name (raised e) = omega arith

module _ {S : Type 0} where
  length-run_functions :
      (project_id : String) (functions : List (Function S)) (s : S)
      → length (run_functions project_id functions s).0 ≤ length functions
  unfolding run_functions
  length-run_functions project_id [] s = omega arith
  length-run_functions project_id ((name, func) ∷ functions) s =
      let (r, t) = func project_id s in
      let rest = run_functions project_id functions t in
      rw (length-append (failure name r) (rest.0))
        (ground (arith, length-failure name r, length-run_functions project_id functions t))

  -- Running the clean-up functions ends, whatever they raise, with at most one message for each
  -- project and function.
  pub length-run_cleanup_functions :
      (projects : List String) (functions : List (Function S)) (s : S)
      → length (run_cleanup_functions projects functions s).0 ≤ length projects * length functions
  unfolding run_cleanup_functions
  length-run_cleanup_functions [] functions s = omega arith
  length-run_cleanup_functions (project_id ∷ projects) functions s =
      let now = run_functions project_id functions s in
      let rest = run_cleanup_functions projects functions (now.1) in
      rw (length-append (now.0) (rest.0)) (
        one_more (length projects) (length functions) (length (now.0)) (length (rest.0))
          (length-run_functions project_id functions s)
          (length-run_cleanup_functions projects functions (now.1)))
