-- ===== src/Keystone/Keys/Written.antt =====
-- charms/keystone-k8s/src/utils/manager.py, write_keys: the folder against the dictionary.
use sunbeam_charms.Prelude.{
  String, ◌≡◌, refl, ◌∙◌, true, false, none, some, List, [], ◌∷◌, map, arith, ◌==◌, eq_iff,
  if◌then◌else◌, All, Bool-cases, Option-cases, inl, inr,
}
use sunbeam_charms.Dict.{Dict, lookup, has_key, contains, IsUnique, last_value, or_else}
use sunbeam_charms.Exec.{ok, for_each}
use sunbeam_charms.Pebble.{ConfigFile}
use sunbeam_charms.Keystone.Keys.{
  FileInfo, Folders, path_in, push_entry, remove_stale, write_folder,
}

-- One folder of a container that works: what its files are, and what the methods do to them.
pub record Working {S : Type 0} (c : Folders S) (spec : String → ConfigFile) (folder : String)
    : Type 0 where
  pub contents : S → Dict String
  pub listed : S → List FileInfo
  pub pushed : String → String → S → S
  pub removed : String → S → S
  pub list_works : (s : S) → c.list_files folder s ≡ (ok (listed s), s)
  pub paths : (s : S) → All (λ f. f.path ≡ path_in folder f.name) (listed s)
  pub all_listed :
      (s : S) (k : String)
      → has_key k (contents s) ≡ true
      → contains k (map (λ f. f.name) (listed s)) ≡ true
  pub kinds : (s : S) → All (λ f. f.is_file ≡ has_key f.name (contents s)) (listed s)
  pub pull_works :
      (k t : String) (s : S)
      → lookup k (contents s) ≡ some t
      → c.pull (path_in folder k) s ≡ (ok t, s)
  pub push_works : (k t : String) (s : S) → c.push (spec k) t s ≡ (ok tt, pushed k t s)
  pub push_writes :
      (k j t : String) (s : S)
      → lookup j (contents (pushed k t s)) ≡ (if k == j then some t else lookup j (contents s))
  pub remove_works :
      (k : String) (s : S) → c.remove_path (path_in folder k) s ≡ (ok tt, removed k s)
  pub remove_removes :
      (k j : String) (s : S)
      → lookup j (contents (removed k s)) ≡ (if k == j then none else lookup j (contents s))

last_value-IsUnique : (k : String) (d : Dict String) → IsUnique d → last_value k d ≡ lookup k d
unfolding last_value lookup
last_value-IsUnique k [] u = refl
last_value-IsUnique k ((j, v) ∷ d) u = rw (last_value-IsUnique k d u.1) (ground (arith, eq_iff j k))

absent :
    (name k : String) (d : Dict String)
    → (name == k) ≡ true
    → lookup k d ≡ none
    → has_key name d ≡ false
unfolding has_key
absent name k d e h = rw ((eq_iff name k).0 e) (ground arith)

module _ {S : Type 0} {c : Folders S} {spec : String → ConfigFile} {folder : String}
    (w : Working c spec folder) where
  all_pushed : Dict String → S → S
  all_pushed [] s = s
  all_pushed ((k, t) ∷ d) s = all_pushed d (w.pushed k t s)

  for_each-all_pushed :
      (d : Dict String) (s : S) → for_each d (push_entry c spec) s ≡ (ok tt, all_pushed d s)
  unfolding for_each all_pushed
  for_each-all_pushed [] s = refl
  for_each-all_pushed ((k, t) ∷ d) s =
      rw (w.push_works k t s) (for_each-all_pushed d (w.pushed k t s))

  lookup-all_pushed :
      (k : String) (d : Dict String) (s : S)
      → lookup k (w.contents (all_pushed d s)) ≡ or_else (last_value k d) (lookup k (w.contents s))
  unfolding all_pushed last_value
  lookup-all_pushed k [] s = refl
  lookup-all_pushed k ((j, t) ∷ d) s =
      lookup-all_pushed k d (w.pushed j t s) ∙ rw (w.push_writes j k t s) (ground arith)

  all_removed : Dict String → List FileInfo → S → S
  all_removed d [] s = s
  all_removed d (f ∷ fs) s = all_removed d fs (if has_key f.name d then s else w.removed f.name s)

  for_each-all_removed :
      (d : Dict String) (fs : List FileInfo) (s : S)
      → All (λ f. f.path ≡ path_in folder f.name) fs
      → for_each fs (remove_stale c d) s ≡ (ok tt, all_removed d fs s)
  unfolding for_each all_removed
  for_each-all_removed d [] s h = refl
  for_each-all_removed d (f ∷ fs) s h = elim (Bool-cases (has_key f.name d)) [
    | inl e ↦ rw e (for_each-all_removed d fs s h.1)
    | inr e ↦ rw e (rw (h.0) (rw (w.remove_works f.name s) (for_each-all_removed d fs _ h.1)))
  ]

  -- A key of the dictionary is left alone, and a listed file that is no key goes.
  kept-all_removed :
      (k : String) (d : Dict String) (fs : List FileInfo) (s : S)
      → has_key k d ≡ true
      → lookup k (w.contents (all_removed d fs s)) ≡ lookup k (w.contents s)
  unfolding all_removed
  kept-all_removed k d [] s h = refl
  kept-all_removed k d (f ∷ fs) s h = elim (Bool-cases (has_key f.name d)) [
    | inl e ↦ rw e (kept-all_removed k d fs s h)
    | inr e ↦ rw e (
        kept-all_removed k d fs (w.removed f.name s) h
        ∙ ground (arith, w.remove_removes f.name k s, eq_iff f.name k))
  ]

  gone-all_removed :
      (k : String) (d : Dict String) (fs : List FileInfo) (s : S)
      → lookup k (w.contents s) ≡ none
      → lookup k (w.contents (all_removed d fs s)) ≡ none
  unfolding all_removed
  gone-all_removed k d [] s h = h
  gone-all_removed k d (f ∷ fs) s h = elim (Bool-cases (has_key f.name d)) [
    | inl e ↦ rw e (gone-all_removed k d fs s h)
    | inr e ↦
        rw e (
          gone-all_removed k d fs (w.removed f.name s)
            (ground (arith, w.remove_removes f.name k s)))
  ]

  cleared-all_removed :
      (k : String) (d : Dict String) (fs : List FileInfo) (s : S)
      → lookup k d ≡ none
      → contains k (map (λ f. f.name) fs) ≡ true
      → lookup k (w.contents (all_removed d fs s)) ≡ none
  unfolding all_removed contains
  cleared-all_removed k d [] s h m = ground arith
  cleared-all_removed k d (f ∷ fs) s h m = elim (Bool-cases (f.name == k)) [
    | inl e ↦
        rw (absent f.name k d e h) (
          gone-all_removed k d fs (w.removed f.name s)
            (ground (arith, w.remove_removes f.name k s)))
    | inr e ↦ cleared-all_removed k d fs _ h (ground arith)
  ]

  -- The state after the writes and the removals.
  written : Dict String → S → S
  written d s = all_removed d (w.listed (all_pushed d s)) (all_pushed d s)

  write_folder-written :
      (d : Dict String) (s : S) → write_folder c spec folder d s ≡ (ok tt, written d s)
  unfolding write_folder written
  write_folder-written d s = rw (for_each-all_pushed d s) (
      rw (w.list_works (all_pushed d s)) (
        for_each-all_removed d (w.listed (all_pushed d s)) (all_pushed d s)
          (w.paths (all_pushed d s))))

  stale :
      (k : String) (d : Dict String) (s : S)
      → lookup k d ≡ none
      → lookup k (w.contents (written d s)) ≡ none
  unfolding written has_key
  stale k d s h = elim (Option-cases (lookup k (w.contents (all_pushed d s)))) [
    | inl e ↦ gone-all_removed k d (w.listed (all_pushed d s)) (all_pushed d s) e
    | inr (t, e) ↦
        cleared-all_removed k d (w.listed (all_pushed d s)) (all_pushed d s) h
          (w.all_listed (all_pushed d s) k (rw e refl))
  ]

  fresh :
      (k t : String) (d : Dict String) (s : S)
      → IsUnique d
      → lookup k d ≡ some t
      → lookup k (w.contents (written d s)) ≡ some t
  unfolding written has_key
  fresh k t d s u h =
      kept-all_removed k d (w.listed (all_pushed d s)) (all_pushed d s) (rw h refl)
      ∙ (lookup-all_pushed k d s ∙ rw (last_value-IsUnique k d u) (rw h refl))

  lookup-written :
      (k : String) (d : Dict String) (s : S)
      → IsUnique d
      → lookup k (w.contents (written d s)) ≡ lookup k d
  lookup-written k d s u = elim (Option-cases (lookup k d)) [
    | inl h ↦ rw h (stale k d s h)
    | inr (t, h) ↦ rw h (fresh k t d s u h)
  ]

  -- In a container that works, writing a dictionary returns, and leaves in the folder just the
  -- dictionary's entries, whatever was in it.
  pub contents-write_folder :
      (d : Dict String) (s : S)
      → IsUnique d
      → (t : S) × (write_folder c spec folder d s ≡ (ok tt, t))
        × ((k : String) → lookup k (w.contents t) ≡ lookup k d)
  contents-write_folder d s u = (written d s, write_folder-written d s, λ k. lookup-written k d s u)
