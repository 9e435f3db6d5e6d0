-- ===== src/Ovn/Listeners/Ports.antt =====
-- charms/ovn-central-k8s/src/charm.py: which listeners there are after they were configured.
use sunbeam_charms.Prelude.{
  ℕ, zero, suc, String, ◌≡◌, refl, sym, ap, ◌∙◌, Bool, true, false, ◌||◌, Option, none, some, List,
  [], ◌∷◌, All, is_some, length, arith, ◌==◌, eq_iff, Bool-cases, inl, inr, if◌then◌else◌,
}
use sunbeam_charms.Dict.{Dict, lookup, keys, contains}
use sunbeam_charms.Exec.{continue_done, Action, Done, Result, ok, continue, for_each, ◌>>=◌}
use sunbeam_charms.Ovn.Clustering.{Executor}
use sunbeam_charms.Ovn.Database.{Table, find, set, run_quietly}
use sunbeam_charms.Ovn.Listeners.{
  target_condition, create_command, create_unless, set_one, set_row, ensure_listener, ensure_all,
}

-- What the tools of OVN document: finding by a target answers with the listeners that have it, which
-- have an id, and changes nothing; creating one adds it, and setting a value keeps all of them.
pub record Documented {S : Type 0} (run : Executor S) (rows : String → Result (List (Dict String)))
    (global : String) (t : Table) : Type 0 where
  pub listeners : S → String → List (Dict String)
  pub found :
      (port : String) (s : S)
      → find run rows t (some (target_condition port)) s ≡ (ok (listeners s port), s)
  pub has_id :
      (port : String) (s : S) → All (λ row. is_some (lookup "_uuid" row) ≡ true) (listeners s port)
  pub created :
      (port : String) (s : S) → (run_quietly run (create_command t.tool global port) s).0 ≡ ok tt
  pub counts_created :
      (port probe : String) (s : S)
      → length (listeners ((run_quietly run (create_command t.tool global port) s).1) probe)
        ≡ (if port == probe then suc (length (listeners s probe)) else length (listeners s probe))
  pub is_set : (uuid k v : String) (s : S) → (set run t uuid k v s).0 ≡ ok tt
  pub counts_set :
      (uuid k v probe : String) (s : S)
      → length (listeners ((set run t uuid k v s).1) probe) ≡ length (listeners s probe)

all_given : {A : Type 0} (xs : List A) → All (λ _. Unit {0}) xs
all_given [] = tt
all_given (x ∷ xs) = (tt, all_given xs)

abbrev pub at_least_one : ℕ → ℕ
at_least_one zero = 1
at_least_one (suc n) = suc n

abbrev wanted : Bool → ℕ → ℕ
wanted asked n = if asked then at_least_one n else n

-- Asking twice is asking once.
twice : (a b : Bool) (m n : ℕ) → m ≡ wanted a n → wanted b m ≡ wanted (a || b) n
twice true true m zero h = rw h refl
twice true true m (suc n) h = rw h refl
twice true false m n h = h
twice false b m n h = rw h refl

module _ {S : Type 0} (run : Executor S) (rows : String → Result (List (Dict String)))
    (global : String) (t : Table) (d : Documented run rows global t) where
  abbrev count : S → String → ℕ
  count s probe = length (d.listeners s probe)

  -- A run that returns and keeps the number of listeners of each port.
  abbrev IsKeeping : Done × S → S → Type 0
  IsKeeping r s = (r.0 ≡ ok tt) × ((probe : String) → count r.1 probe ≡ count s probe)

  for_each-IsKeeping :
      (A : Type 0) (body : A → Action S) (P : A → Type 0) (xs : List A) (s : S)
      → ((x : A) (r : S) → P x → IsKeeping (body x r) r)
      → All P xs
      → IsKeeping (for_each xs body s) s
  unfolding for_each
  for_each-IsKeeping A body P [] s h a = (refl, λ probe. refl)
  for_each-IsKeeping A body P (x ∷ xs) s h a =
      let (o, same) = h x s a.0 in
      let (p, rest) = for_each-IsKeeping A body P xs (body x s).1 h a.1 in
      rw (continue_done (for_each xs body) (body x s) o) (p, λ probe. rest probe ∙ same probe)

  set_row-IsKeeping :
      (settings row : Dict String) (s : S)
      → is_some (lookup "_uuid" row) ≡ true
      → IsKeeping (set_row run rows global t settings row s) s
  set_row-IsKeeping settings row s h = with_id (lookup "_uuid" row) h
    where
      with_id :
          (o : Option String)
          → is_some o ≡ true
          → IsKeeping (for_each settings (set_one run rows global t o) s) s
      with_id none e = absurd (ground arith)
      with_id (some uuid) e =
          for_each-IsKeeping (String × String) (set_one run rows global t (some uuid))
            (λ _. Unit {0}) settings s
            (λ (k, v) r _. (d.is_set uuid k v r, λ probe. d.counts_set uuid k v probe r))
            (all_given settings)

  abbrev set_found : String → Dict String → Action S
  set_found port settings =
      find run rows t (some (target_condition port))
      >>= (λ ls. for_each ls (set_row run rows global t settings))

  set_found-IsKeeping :
      (port : String) (settings : Dict String) (s : S) → IsKeeping (set_found port settings s) s
  set_found-IsKeeping port settings s = rw (d.found port s) (
      for_each-IsKeeping (Dict String) (set_row run rows global t settings) _ (d.listeners s port) s
        (λ row r h. set_row-IsKeeping settings row r h) (d.has_id port s))

  -- A run for a port that returns and leaves one listener of it at least, and no other more.
  abbrev IsCounted : String → S → Done × S → Type 0
  IsCounted port s r =
      (r.0 ≡ ok tt) × ((probe : String) → count r.1 probe ≡ wanted (port == probe) (count s probe))

  count_new :
      (port probe : String) (s : S)
      → d.listeners s port ≡ []
      → (if port == probe then suc (count s probe) else count s probe)
        ≡ wanted (port == probe) (count s probe)
  count_new port probe s e = elim (Bool-cases (port == probe)) [
    | inl z ↦ rw z (
        first (count s probe) (
          ap (count s) (sym ((eq_iff port probe).0 z))
          ∙ ap (λ (xs : List (Dict String)). length xs) e))
    | inr z ↦ rw z refl
  ]
    where
      first : (n : ℕ) → n ≡ 0 → suc n ≡ at_least_one n
      first n h = rw h refl

  count_found :
      (port probe : String) (s : S) (row : Dict String) (others : List (Dict String))
      → d.listeners s port ≡ row ∷ others
      → count s probe ≡ wanted (port == probe) (count s probe)
  count_found port probe s row others e = elim (Bool-cases (port == probe)) [
    | inl z ↦ rw z (
        more (count s probe) (length others) (
          ap (count s) (sym ((eq_iff port probe).0 z))
          ∙ ap (λ (xs : List (Dict String)). length xs) e))
    | inr z ↦ rw z refl
  ]
    where
      more : (n m : ℕ) → n ≡ suc m → n ≡ at_least_one n
      more n m h = rw h refl

  created-IsCounted :
      (port : String) (settings : Dict String) (s : S)
      → d.listeners s port ≡ []
      → IsCounted port s (
          continue
            (λ _. set_found port settings)
            (run_quietly run (create_command t.tool global port) s))
  created-IsCounted port settings s e =
      let (o, same) =
        set_found-IsKeeping port settings
          (run_quietly run (create_command t.tool global port) s).1 in
      rw
        (continue_done (set_found port settings)
          (run_quietly run (create_command t.tool global port) s) (d.created port s))
        (o, λ probe. same probe ∙ (d.counts_created port probe s ∙ count_new port probe s e))

  ensure_listener-counts :
      (port : String) (settings : Dict String) (s : S)
      → IsCounted port s (ensure_listener run rows global t (port, settings) s)
  unfolding ensure_listener
  ensure_listener-counts port settings s = rw (d.found port s) (from (d.listeners s port) refl)
    where
      from :
          (found : List (Dict String))
          → d.listeners s port ≡ found
          → IsCounted port s (
              continue
                (λ _. set_found port settings)
                (create_unless run rows global t found port s))
      from [] e = created-IsCounted port settings s e
      from (row ∷ others) e =
          let (o, same) = set_found-IsKeeping port settings s in
          (o, λ probe. same probe ∙ count_found port probe s row others e)

  -- If the tools of OVN work as documented, configuring the listeners of a map returns, and leaves
  -- for each of its ports one listener if there was none, and else as many as there were; every
  -- other port keeps as many listeners as it had.
  pub ensure_all-counts :
      (port_map : Dict (Dict String)) (s : S)
      → ((ensure_all run rows global t port_map s).0 ≡ ok tt)
        × ((probe : String)
            → length (d.listeners ((ensure_all run rows global t port_map s).1) probe) ≡ (
                if contains probe (keys port_map)
                then at_least_one (length (d.listeners s probe))
                else length (d.listeners s probe)))
  unfolding for_each contains keys
  ensure_all-counts [] s = (refl, λ probe. refl)
  ensure_all-counts ((port, settings) ∷ port_map) s =
      let ensure = ensure_listener run rows global t in
      let (o, first) = ensure_listener-counts port settings s in
      let (p, rest) = ensure_all-counts port_map (ensure (port, settings) s).1 in
      rw (continue_done (for_each port_map ensure) (ensure (port, settings) s) o) (
        p,
        λ probe.
            rest probe ∙ twice (port == probe) (contains probe (keys port_map)) _ _ (first probe),
      )
