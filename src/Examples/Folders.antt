-- ===== src/Examples/Folders.antt =====
-- A key repository of Keystone at concrete inputs: a container that holds one folder.
use text.Mathlib.TextLemmas.{append-nil}
use sunbeam_charms.Prelude.{
  String, ◌≡◌, refl, sym, ap, ◌∙◌, true, Option, none, some, List, [], ◌∷◌, map, All, arith,
  eq_refl,
}
use sunbeam_charms.Text.{concat, drop_prefix}
use sunbeam_charms.Dict.{
  Dict, lookup, insert, remove, has_key, keys, contains, contains-keys, lookup-insert,
  lookup-remove,
}
use sunbeam_charms.Exec.{Result, ok, raised, path_error}
use sunbeam_charms.Keystone.Keys.{
  FileInfo, Folders, path_in, key_file, fernet_folder, store_content, renamed, add_key_prefix,
}
use sunbeam_charms.Keystone.Keys.Written.{Working}
use sunbeam_charms.Keystone.Keys.Renamed.{drop_prefix-append}
use sunbeam_charms.Keystone.Keys.Shared.{contents-store_content}

-- The name of a file of the folder, from its path.
unfoldable name_of : String → String
unfolding drop_prefix
name_of path = drop_prefix "/" (drop_prefix fernet_folder path)

name_of-path_in : (name : String) → name_of (path_in fernet_folder name) ≡ name
unfolding name_of concat
name_of-path_in name =
    ap (drop_prefix "/") (drop_prefix-append fernet_folder (concat ("/" ∷ name ∷ [])))
    ∙ (drop_prefix-append "/" (concat (name ∷ [])) ∙ append-nil name)

abbrev found : String → Option String → Result String
found path none = raised (path_error path)
found path (some t) = ok t

abbrev as_file : String → FileInfo
as_file name = record { name = name; path = path_in fernet_folder name; is_file = true }

-- The state is the folder's files by their names.
abbrev container : Folders (Dict String)
container = record {
  list_files = λ folder d. (ok (map as_file (keys d)), d);
  pull = λ path d. (found path (lookup (name_of path) d), d);
  push = λ file text d. (ok tt, insert (name_of file.path) text d);
  remove_path = λ path d. (ok tt, remove (name_of path) d);
}

all_paths :
    (names : List String) → All (λ f. f.path ≡ path_in fernet_folder f.name) (map as_file names)
all_paths [] = tt
all_paths (k ∷ ks) = (refl, all_paths ks)

all_files :
    (names : List String) (d : Dict String)
    → ((k : String) → contains k names ≡ true → has_key k d ≡ true)
    → All (λ f. f.is_file ≡ has_key f.name d) (map as_file names)
unfolding contains
all_files [] d h = tt
all_files (k ∷ ks) d h =
    (sym (h k (ground (arith, eq_refl k))), all_files ks d (λ j e. h j (ground arith)))

names_listed : (names : List String) → map (λ f. f.name) (map as_file names) ≡ names
names_listed [] = refl
names_listed (k ∷ ks) = ap (λ m. k ∷ m) (names_listed ks)

unfoldable working : Working container (key_file fernet_folder) fernet_folder
working = record {
  contents = λ d. d;
  listed = λ d. map as_file (keys d);
  pushed = λ k t d. insert k t d;
  removed = λ k d. remove k d;
  list_works = λ d. refl;
  paths = λ d. all_paths (keys d);
  kinds = λ d. all_files (keys d) d (λ k e. sym (contains-keys k d) ∙ e);
  all_listed = λ d k h. ap (contains k) (names_listed (keys d)) ∙ (contains-keys k d ∙ h);
  pull_works = λ k t d h. rw (name_of-path_in k, h) refl;
  push_works = λ k t d. rw (name_of-path_in k) refl;
  push_writes = λ k j t d. lookup-insert k j t d;
  remove_works = λ k d. rw (name_of-path_in k) refl;
  remove_removes = λ k j d. lookup-remove k j d;
}

-- The keys of one unit, and what another unit holds.
abbrev two_keys : Dict String
two_keys = ("0", "staged") ∷ ("1", "primary") ∷ []

abbrev old_keys : Dict String
old_keys = ("0", "primary") ∷ ("7", "gone") ∷ []

contents-store_content_example :
    (t : Dict String) × (store_content container fernet_folder
        (renamed add_key_prefix two_keys)
        old_keys
      ≡ (ok tt, t))
    × ((k : String) → lookup k t ≡ lookup k two_keys)
unfolding lookup working
contents-store_content_example =
    contents-store_content working two_keys old_keys refl (refl, (refl, tt))
