-- ===== src/Snap.antt =====
-- ops-sunbeam/ops_sunbeam/charm.py, OSBaseOperatorCharmSnap: a charm whose workload is a snap.
pub mod Confinement
pub mod Settings
use Prim.Native.Char.{code}
use sunbeam_charms.Prelude.{
  ℕ, ◌-◌, ltb, leb, nat_eq, String, Bool, true, false, not, ◌&&◌, ◌||◌, Option, none, some, List,
  [], ◌∷◌, is_empty, ◌==◌, if◌then◌else◌,
}
use sunbeam_charms.Text.{contains_text, concat, rsplit_once}
use sunbeam_charms.Dict.{Dict, lookup, insert}
use sunbeam_charms.Exec.{
  Exc, Result, ok, raised, Exec, Action, blocked_error, snap_error, snap_not_found, attribute_error,
  continue, ◌>>=◌, ◌>>◌, pure, raise, handle, try◌except◌, skip,
}
use sunbeam_charms.Relations.{Event}
use sunbeam_charms.Charm.{
  Charm, check_leader_ready, check_relation_handlers_ready, set_unit_bootstrapped,
}

-- The snap as snapd's client knows it.
pub record Snap : Type 0 where
  pub present : Bool
  pub channel : String
  pub revision : String

-- The values of a setting; None is `none`.
pub data Setting : Type 0 where
  value : Option String → Setting
  group : Dict (Option String) → Setting

-- What belongs to the library of snapd's client. `in_cache` raises snap_not_found for a snap that
-- is not there; `published` tells the channel and the revision in the store, and the revision per
-- channel.
pub record Snapd (S : Type 0) : Type 0 where
  pub enable_parallel : Action S
  pub installed_snaps : Exec S (List (String × Bool))
  pub in_cache : String → Exec S Snap
  pub published : String → Exec S (Snap × Dict (Option String))
  pub ensure_latest : String → String → Bool → Action S
  pub hold : String → Action S
  pub unhold : String → Action S
  pub start : String → Action S
  pub stop : String → Action S
  pub get_settings : String → Option String → Exec S (Dict Setting)
  pub set_settings : String → Option String → Dict (Option String) → Action S

-- SnapError; SnapNotFoundError is no such error.
abbrev pub is_snap_error : Exc → Bool
is_snap_error (snap_error m) = true
is_snap_error e = false

-- SNAP_INSTANCE_KEY_REGEX_PATTERN: one to ten lower-case letters or digits; the pattern's end also
-- stands in front of a last newline.
abbrev in_class : ℕ → Bool
in_class c = (leb b'a' c && leb c b'z') || (leb b'0' c && leb c b'9')

unfoldable pub key_chars : ℕ → String → Bool
key_chars left String.[] = true
key_chars left (String.◌∷◌ c s) =
    (in_class (code c) && (ltb 0 left && key_chars (left - 1) s)) || (nat_eq (code c) 10 && s == "")

unfoldable pub is_instance_key : String → Bool
unfolding key_chars
is_instance_key String.[] = false
is_instance_key (String.◌∷◌ c s) = in_class (code c) && key_chars 9 s

-- The flag of the first snap of that name.
unfoldable pub devmode_of : String → List (String × Bool) → Bool
devmode_of name [] = false
devmode_of name ((n, devmode) ∷ rest) = if n == name then devmode else devmode_of name rest

abbrev flatten : Option (Option String) → Option String
flatten none = none
flatten (some v) = v

abbrev same_mode : Bool → Bool → Bool
same_mode true b = b
same_mode false b = not b

-- `target_revision is None or str(snap_svc.revision) == target_revision`
abbrev pub is_stuck : Snap → Option String → Bool
is_stuck snap none = true
is_stuck snap (some target) = snap.revision == target

-- `old_settings.get(group, {}).get(subkey)`
abbrev in_group : String → Option Setting → Result (Option Setting)
in_group subkey none = ok none
in_group subkey (some (value v)) = raised (attribute_error "get")
in_group subkey (some (group g)) = elim (lookup subkey g) [
  | none ↦ ok none
  | some v ↦ ok (some (value v))
]

abbrev by_parts : String → Dict Setting → Option (String × String) → Result (Option Setting)
by_parts key old none = ok (lookup key old)
by_parts key old (some (g, subkey)) = elim (rsplit_once b'.' g) [
  | none ↦ in_group subkey (lookup g old)
  | some more ↦ ok (lookup key old)
]

-- The old value of a key: a key of two parts is looked up in its group.
unfoldable pub old_value : String → Dict Setting → Result (Option Setting)
unfolding rsplit_once
old_value key old = by_parts key old (rsplit_once b'.' key)

-- `old_value is not None`
abbrev is_set : Option Setting → Bool
is_set none = false
is_set (some (value none)) = false
is_set (some s) = true

abbrev differs : Option Setting → Option String → Bool
differs (some (value (some v))) (some w) = not (v == w)
differs o w = true

abbrev is_value : Option String → Bool
is_value none = false
is_value (some v) = true

-- Whether a setting is written: the two branches of the loop.
unfoldable pub is_written : Option Setting → Option String → Bool
is_written old new = (is_set old && differs old new) || is_value new

-- `new_settings`, with the settings that the loop has collected before.
unfoldable pub collect :
    Dict Setting → Dict (Option String) → Dict (Option String) → Result (Dict (Option String))
unfolding old_value is_written
collect old [] new = ok new
collect old ((key, v) ∷ rest) new = elim (old_value key old) [
  | raised e ↦ raised e
  | ok o ↦ collect old rest (if is_written o v then insert key v new else new)
]

module _ {S : Type 0} (snapd : Snapd S) (snap_name snap_channel : String) where
  abbrev no_parallel : Exc → Action S
  no_parallel e =
      if is_snap_error e then raise (blocked_error "Failed to enable parallel snaps") else raise e

  unfoldable pub enable_parallel_snaps : Action S
  enable_parallel_snaps s =
      if contains_text "_" snap_name
      then (try snapd.enable_parallel except no_parallel) s
      else (ok tt, s)

  abbrev constructed : Snap × Dict (Option String) → Snap
  constructed info = record info.0 { present = false }

  abbrev or_constructed : String → Exc → Exec S Snap
  or_constructed base (snap_not_found m) = do info ← snapd.published base; pure (constructed info)
  or_constructed base e = raise e

  abbrev get_instance : Option (String × String) → Exec S Snap
  get_instance none s = (raised (blocked_error "Invalid snap name with instance key"), s)
  get_instance (some (base, key)) s =
      if is_instance_key key then (try snapd.in_cache snap_name except or_constructed base) s else (
        raised (blocked_error (concat ("Invalid snap name with instance key: " ∷ snap_name ∷ []))),
        s,
      )

  unfoldable pub get_snap : Exec S Snap
  get_snap s =
      if contains_text "_" snap_name
      then get_instance (rsplit_once b'_' snap_name) s
      else snapd.in_cache snap_name s

  abbrev base_of : Option (String × String) → String
  base_of none = snap_name
  base_of (some (base, key)) = base

  unfoldable pub snap_base_name : String
  snap_base_name = base_of (rsplit_once b'_' snap_name)

  unfoldable pub get_snap_channel_revision : Exec S (Option String)
  get_snap_channel_revision = do
    info ← snapd.published snap_base_name
    pure (flatten (lookup snap_channel info.1))

  abbrev install : Bool → Action S
  install want_devmode = snapd.ensure_latest snap_name snap_channel want_devmode

  abbrev change_mode : Bool → Snap → Option String → Action S
  change_mode want_devmode snap target s =
      if is_stuck snap target
      then (raised (blocked_error "Invalid snap state: see juju debug-logs"), s)
      else install want_devmode s

  -- The three branches under "Channel change management".
  unfoldable pub manage_channel : Bool → Bool → Snap → Action S
  manage_channel want_devmode is_devmode snap s =
      if snap.present && (snap.channel == snap_channel && same_mode want_devmode is_devmode)
      then (ok tt, s)
      else if snap.present && not (same_mode want_devmode is_devmode)
      then (do target ← get_snap_channel_revision; change_mode want_devmode snap target) s
      else install want_devmode s

  abbrev log_snap_error : Exc → Action S
  log_snap_error e = if is_snap_error e then skip else raise e

  -- `want_devmode` is the option experimental-devmode.
  unfoldable pub ensure_snap_present : Bool → Action S
  ensure_snap_present want_devmode = do
    enable_parallel_snaps
    installed ← snapd.installed_snaps
    try (do
      snap ← get_snap
      manage_channel want_devmode (devmode_of snap_name installed) snap
      snapd.hold snap_name)
        except log_snap_error

  unfoldable pub ensure_services_running : Action S
  ensure_services_running = do get_snap; snapd.start snap_name

  unfoldable pub stop_services : Action S
  stop_services = do get_snap; snapd.stop snap_name

  abbrev no_settings : Exc → Exec S (Dict Setting)
  no_settings e = if is_snap_error e then pure [] else raise e

  unfoldable pub set_snap_data : Dict (Option String) → Option String → Action S
  set_snap_data snap_data namespace = do
    get_snap
    old ← try snapd.get_settings snap_name namespace except no_settings
    new ← (λ s. (collect old snap_data [], s))
    if is_empty new then skip else snapd.set_settings snap_name namespace new

module _ {W : Type 0} (snapd : Snapd (Charm W)) (snap_name snap_channel : String) where
  -- `configure_snap` is the subclass's.
  unfoldable pub configure_unit : (Event → Action (Charm W)) → Bool → Event → Action (Charm W)
  configure_unit configure_snap want_devmode event = do
    ensure_snap_present snapd snap_name snap_channel want_devmode
    check_leader_ready
    check_relation_handlers_ready (λ missing. stop_services snapd snap_name snap_channel) event
    configure_snap event
    ensure_services_running snapd snap_name snap_channel
    set_unit_bootstrapped
