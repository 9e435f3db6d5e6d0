-- ===== src/Keystone/Keys.antt =====
-- charms/keystone-k8s/src/utils/manager.py and charm.py: the key repositories of Keystone, their
-- copies in secrets, and the metadata folders.
pub mod Written
pub mod Renamed
pub mod Shared
use sunbeam_charms.Prelude.{
  String, Bool, true, false, not, ◌&&◌, Option, none, some, List, [], ◌∷◌, ◌++◌, is_empty, ◌==◌,
  if◌then◌else◌, all_of, map,
}
use sunbeam_charms.Text.{concat, has_prefix, drop_prefix}
use sunbeam_charms.Dict.{Dict, lookup, insert, has_key}
use sunbeam_charms.Exec.{
  Exc, Exec, Action, Result, ok, raised, attribute_error, connection_error, continue, ◌>>=◌, ◌>>◌,
  pure, raise, handle, try◌except◌, skip, for_each,
}
use sunbeam_charms.Pebble.{ConfigFile}

-- `ops.pebble.FileInfo`, as far as it is read.
pub record FileInfo : Type 0 where
  pub name : String
  pub path : String
  pub is_file : Bool

-- The methods of `ops.Container` on files, over a state.
pub record Folders (S : Type 0) : Type 0 where
  pub list_files : String → Exec S (List FileInfo)
  pub pull : String → Exec S String
  pub push : ConfigFile → String → Action S
  pub remove_path : String → Action S

abbrev pub path_in : String → String → String
path_in folder name = concat (folder ∷ "/" ∷ name ∷ [])

-- The files of a repository are Keystone's own, and those of the metadata are read by Apache.
abbrev pub key_file : String → String → ConfigFile
key_file folder name = record {
  path = path_in folder name;
  user = "keystone";
  group = "keystone";
  permissions = some "600";
}

abbrev pub metadata_file : String → String → ConfigFile
metadata_file folder name = record {
  path = path_in folder name;
  user = "keystone";
  group = "www-data";
  permissions = some "440";
}

abbrev pub fernet_folder : String
fernet_folder = "/etc/keystone/fernet-keys"

abbrev pub credential_folder : String
credential_folder = "/etc/keystone/credential-keys"

abbrev pub key_prefix : String
key_prefix = "fernet-"

-- `k[prefix_len:] if k.startswith(FERNET_KEYS_PREFIX) else k`
unfoldable pub strip_key : String → String
strip_key k = if has_prefix key_prefix k then drop_prefix key_prefix k else k

unfoldable pub add_key_prefix : String → String
add_key_prefix k = concat (key_prefix ∷ k ∷ [])

-- The dictionary comprehensions that rename the keys: the last of equal names stands.
unfoldable pub renamed_onto : (String → String) → Dict String → Dict String → Dict String
renamed_onto f [] d = d
renamed_onto f ((k, v) ∷ e) d = renamed_onto f e (insert (f k) v d)

abbrev pub renamed : (String → String) → Dict String → Dict String
renamed f e = renamed_onto f e []

abbrev pub has_value : Dict String → String × String → Bool
has_value d (k, v) = elim (lookup k d) [ none ↦ false | some w ↦ w == v ]

-- `==` of two dictionaries.
abbrev pub same_dict : Dict String → Dict String → Bool
same_dict d e = all_of (has_value e) d && all_of (has_value d) e

module _ {S : Type 0} (c : Folders S) where
  unfoldable pub read_files : List FileInfo → Dict String → Exec S (Dict String)
  read_files [] d s = (ok d, s)
  read_files (f ∷ fs) d s =
      if f.is_file
      then continue (λ text. read_files fs (insert f.name text d)) (c.pull f.path s)
      else read_files fs d s

  unfoldable pub read_keys : String → Exec S (Dict String)
  unfolding read_files
  read_keys folder = do files ← c.list_files folder; read_files files []

  abbrev pub push_entry : (String → ConfigFile) → String × String → Action S
  push_entry spec (name, text) = c.push (spec name) text

  abbrev pub remove_stale : Dict String → FileInfo → Action S
  remove_stale d f s = if has_key f.name d then (ok tt, s) else c.remove_path f.path s

  -- The entries of the dictionary are written, and the files that are not in it removed.
  unfoldable pub write_folder : (String → ConfigFile) → String → Dict String → Action S
  write_folder spec folder d = do
    for_each d (push_entry spec)
    files ← c.list_files folder
    for_each files (remove_stale d)

  unfoldable pub write_keys : String → Dict String → Action S
  unfolding write_folder
  write_keys folder d = write_folder (key_file folder) folder d

  unfoldable pub write_metadata_files : Dict String → String → Action S
  unfolding write_folder
  write_metadata_files d folder = write_folder (metadata_file folder) folder d

  abbrev pub write_if_new : String → Dict String → Dict String → Action S
  write_if_new folder wanted existing s =
      if not (is_empty wanted) && not (same_dict wanted existing)
      then write_keys folder wanted s
      else (ok tt, s)

  -- A secret's content, brought to a repository.
  unfoldable pub store_content : String → Dict String → Action S
  unfolding write_keys strip_key read_keys
  store_content folder content = do
    existing ← read_keys folder
    write_if_new folder (renamed strip_key content) existing

  abbrev repository_found : Result (Dict String) × S → Result Bool × S
  repository_found (ok d, s) = (ok (not (is_empty d)), s)
  repository_found (raised (attribute_error m), s) = (ok false, s)
  repository_found (raised (connection_error m), s) = (ok false, s)
  repository_found (raised e, s) = (raised e, s)

  unfoldable pub unit_fernet_bootstrapped : Exec S Bool
  unfolding read_keys
  unit_fernet_bootstrapped s = repository_found (read_keys fernet_folder s)

-- `app_data` is `peers.get_app_data`, and `get_content` reads the newest content of the secret with
-- an id. `rotate` runs `keystone-manage` under its guard.
module _ {S : Type 0} (c : Folders S) (get_content : String → Exec S (Dict String)) where
  abbrev update_keys : String → Option String → Action S
  update_keys folder none s = (ok tt, s)
  update_keys folder (some secret_id) s =
      if secret_id == ""
      then (ok tt, s)
      else continue (store_content c folder) (get_content secret_id s)

  unfoldable pub update_fernet_keys_from_peer : (String → S → Option String) → Action S
  unfolding store_content
  update_fernet_keys_from_peer app_data = do
    λ s. update_keys fernet_folder (app_data "fernet-secret-id" s) s
    λ s. update_keys credential_folder (app_data "credential-keys-secret-id" s) s

  -- `_on_secret_changed` of the secret with an id and a label.
  unfoldable pub on_secret_changed : String → String → Action S
  unfolding store_content
  on_secret_changed secret_id label =
      if label == "fernet-keys"
      then get_content secret_id >>= store_content c fernet_folder
      else if label == "credential-keys"
      then get_content secret_id >>= store_content c credential_folder
      else get_content secret_id >> skip

module _ {S : Type 0} (c : Folders S) (set_content : Dict String → Action S) where
  -- The part of `_on_secret_rotate` that rotates a repository and puts it into the secret.
  unfoldable pub rotate_into_secret : Action S → String → Action S
  unfolding read_keys add_key_prefix
  rotate_into_secret rotate folder = do
    rotate
    d ← read_keys c folder
    set_content (renamed add_key_prefix d)
