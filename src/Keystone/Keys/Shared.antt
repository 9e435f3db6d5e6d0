-- ===== src/Keystone/Keys/Shared.antt =====
-- charms/keystone-k8s/src/charm.py: a key repository goes from one unit to another through a secret.

use sunbeam_charms.Prelude.{
  String, ◌≡◌, refl, sym, ◌∙◌, true, false, some, List, [], ◌∷◌, map, arith, ◌==◌, eq_iff,
  if◌then◌else◌, All, Bool-cases, Option-cases, inl, inr, is_empty, all_of,
}
use sunbeam_charms.Dict.{Dict, lookup, insert, has_key, contains, IsUnique, lookup-insert}
use sunbeam_charms.Exec.{ok}
use sunbeam_charms.Pebble.{ConfigFile}
use sunbeam_charms.Keystone.Keys.{
  FileInfo, Folders, path_in, key_file, read_files, read_keys, write_keys, renamed, add_key_prefix,
  store_content, same_dict, has_value, write_if_new,
}
use sunbeam_charms.Keystone.Keys.Written.{Working, contents-write_folder}
use sunbeam_charms.Keystone.Keys.Renamed.{renamed-strip_key-add_key_prefix}

has_all :
    (k v : String) (d e : Dict String)
    → all_of (has_value e) d ≡ true
    → lookup k d ≡ some v
    → lookup k e ≡ some v
unfolding lookup
has_all k v [] e h m = ground arith
has_all k v ((j, x) ∷ d) e h m = elim (Option-cases (lookup j e)) [
  | inl q ↦ ground (arith, has_all k v d e, eq_iff j k)
  | inr (y, q) ↦ ground (arith, has_all k v d e, eq_iff j k, eq_iff y x)
]

-- Dictionaries that are equal hold the same.
lookup-same_dict : (k : String) (d e : Dict String) → same_dict d e ≡ true → lookup k e ≡ lookup k d
lookup-same_dict k d e h = elim (Option-cases (lookup k d)) [
  | inl p ↦ elim (Option-cases (lookup k e)) [
    | inl q ↦ q ∙ sym p
    | inr (y, q) ↦ ground (arith, has_all k y e d)
  ]
  | inr (x, p) ↦ ground (arith, has_all k x d e)
]

some_text :
    (k : String) (d : Dict String) → has_key k d ≡ true → (t : String) × (lookup k d ≡ some t)
unfolding has_key
some_text k d h = elim (Option-cases (lookup k d)) [ inl e ↦ ground arith | inr x ↦ x ]

module _ {S : Type 0} {c : Folders S} {spec : String → ConfigFile} {folder : String}
    (w : Working c spec folder) where
  -- What reading the files of a list leaves in the dictionary.
  abbrev Reads : List FileInfo → Dict String → Dict String → S → Type 0
  Reads fs d e s =
      (read_files c fs d s ≡ (ok e, s))
      × ((k : String)
          → lookup k e ≡ (
              if contains k (map (λ f. f.name) fs)
              then (if has_key k (w.contents s) then lookup k (w.contents s) else lookup k d)
              else lookup k d))

  taken :
      (k : String) (f : FileInfo) (t : String) (names : List String) (d : Dict String) (s : S)
      → lookup f.name (w.contents s) ≡ some t
      → has_key f.name (w.contents s) ≡ true
      → (if contains k names
          then (if has_key k (w.contents s)
              then lookup k (w.contents s)
              else lookup k (insert f.name t d))
          else lookup k (insert f.name t d))
        ≡ (if contains k (f.name ∷ names)
            then (if has_key k (w.contents s) then lookup k (w.contents s) else lookup k d)
            else lookup k d)
  unfolding contains
  taken k f t names d s look h = elim (Bool-cases (f.name == k)) [
    | inl e ↦
        rw ((eq_iff f.name k).0 e) (ground (arith, lookup-insert f.name k t d, eq_iff f.name k))
    | inr e ↦ ground (arith, lookup-insert f.name k t d)
  ]

  reads :
      (fs : List FileInfo) (d : Dict String) (s : S)
      → All (λ f. f.path ≡ path_in folder f.name) fs
      → All (λ f. f.is_file ≡ has_key f.name (w.contents s)) fs
      → (e : Dict String) × Reads fs d e s
  unfolding read_files contains
  reads [] d s p q = (d, (refl, λ k. refl))
  reads (f ∷ fs) d s p q = elim (Bool-cases (has_key f.name (w.contents s))) [
    | inl h ↦
        let (t, look) = some_text f.name (w.contents s) h in
        let (e, ran) = reads fs (insert f.name t d) s p.1 q.1 in
        (
          e,
          (
            rw (q.0 ∙ h) (rw (p.0) (rw (w.pull_works f.name t s look) (ran.0))),
            λ k. ran.1 k ∙ taken k f t (map (λ g. g.name) fs) d s look h,
          ),
        )
    | inr h ↦
        let (e, ran) = reads fs d s p.1 q.1 in
        (e, (rw (q.0 ∙ h) (ran.0), λ k. ran.1 k ∙ ground (arith, eq_iff f.name k, h)))
  ]

  -- In a container that works, reading a repository changes nothing and finds just its files.
  pub lookup-read_keys :
      (s : S)
      → (e : Dict String) × (read_keys c folder s ≡ (ok e, s))
        × ((k : String) → lookup k e ≡ lookup k (w.contents s))
  unfolding read_keys has_key lookup
  lookup-read_keys s =
      let (e, ran) = reads (w.listed s) [] s (w.paths s) (w.kinds s) in
      (e, rw (w.list_works s) (ran.0), λ k. ran.1 k ∙ ground (arith, w.all_listed s k))

module _ {S : Type 0} {c : Folders S} {folder : String}
    (w : Working c (key_file folder) folder) where
  stored :
      (d existing : Dict String) (s : S)
      → is_empty d ≡ false
      → IsUnique d
      → ((k : String) → lookup k existing ≡ lookup k (w.contents s))
      → (t : S) × (write_if_new c folder d existing s ≡ (ok tt, t))
        × ((k : String) → lookup k (w.contents t) ≡ lookup k d)
  unfolding write_keys
  stored d existing s n u same = elim (Bool-cases (same_dict d existing)) [
    | inl e ↦ (s, rw (n, e) refl, λ k. sym (same k) ∙ lookup-same_dict k d existing e)
    | inr e ↦ let (t, run, looks) = contents-write_folder w d s u in (t, rw (n, e) run, looks)
  ]

  -- A repository that one unit put into the secret, with the prefix on its names, reaches the
  -- folder of another unit, in a container that works: if the repository is not empty and no name
  -- stands in it twice, storing the secret's content returns and leaves just the repository's files
  -- in the folder, whatever was in it.
  pub contents-store_content :
      (d : Dict String) (s : S)
      → is_empty d ≡ false
      → IsUnique d
      → (t : S) × (store_content c folder (renamed add_key_prefix d) s ≡ (ok tt, t))
        × ((k : String) → lookup k (w.contents t) ≡ lookup k d)
  unfolding store_content
  contents-store_content d s n u =
      let (existing, reading, same) = lookup-read_keys w s in
      let (t, run, looks) = stored d existing s n u same in
      (t, rw reading (rw (renamed-strip_key-add_key_prefix d u) run), looks)
