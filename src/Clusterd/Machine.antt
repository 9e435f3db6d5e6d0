-- ===== src/Clusterd/Machine.antt =====
-- charms/sunbeam-clusterd/src/charm.py: the snap of clusterd on the unit's machine, and the actions.
use sunbeam_charms.Prelude.{
  String, Bool, true, false, not, ◌||◌, Option, none, some, [], ◌∷◌, ◌==◌, is_empty, if◌then◌else◌,
}
use sunbeam_charms.Text.{concat}
use sunbeam_charms.Dict.{Dict, lookup, insert}
use sunbeam_charms.Exec.{
  Exc, Exec, Action, Result, ok, raised, snap_error, snap_not_found, snap_installation_error,
  value_error, continue, ◌>>=◌, ◌>>◌, pure, raise, modify, try◌except◌,
}

-- The snap "openstack" of snapd's cache, which opening the cache may fail to find, and the unit's
-- workload version and stored channel.
pub record LocalSnap (S V : Type 0) : Type 0 where
  pub open_cache : Action S
  pub present : S → Bool
  pub channel : S → String
  pub revision : S → String
  pub ensure_latest : Option String → Action S
  pub hold : Action S
  pub unhold : Action S
  pub get : String → Exec S V
  pub set : Dict V → Action S
  pub set_workload_version : String → S → S
  pub store_channel : String → S → S
  pub same : V → V → Bool

abbrev is_channel : Option String → String → Bool
is_channel none channel = false
is_channel (some t) channel = t == channel

module _ {S V : Type 0} (openstack : LocalSnap S V) where
  unfoldable pub set_workload_version : Action S
  unfolding concat
  set_workload_version = do
    openstack.open_cache
    λ s.
        if openstack.present s
        then (
          ok tt,
          openstack.set_workload_version
              (concat (openstack.channel s ∷ "(rev " ∷ openstack.revision s ∷ ")" ∷ [])) s,
        )
        else (ok tt, s)

  abbrev refreshed : Option String → Action S
  refreshed snap_channel = do
    openstack.ensure_latest snap_channel
    modify (λ s. openstack.store_channel (openstack.channel s) s)
    set_workload_version

  abbrev installation_error : Exc → Exc
  installation_error (snap_error m) = snap_installation_error "openstack snap installation failed"
  installation_error (snap_not_found m) =
      snap_installation_error "openstack snap installation failed"
  installation_error e = e

  unfoldable pub ensure_snap_present : Option String → Action S
  unfolding set_workload_version
  ensure_snap_present snap_channel =
      try (do
        openstack.open_cache
        λ s.
            if not (openstack.present s) || not (is_channel snap_channel (openstack.channel s))
            then refreshed snap_channel s
            else (ok tt, s)
        openstack.hold)
      except (λ e. raise (installation_error e))

  -- A setting that cannot be read is one to be set.
  abbrev differs : V → Result V → Result Bool
  differs v (ok w) = ok (not (openstack.same v w))
  differs v (raised (snap_error m)) = ok true
  differs v (raised e) = raised e

  unfoldable pub collect_settings : Dict V → Dict V → Exec S (Dict V)
  collect_settings [] settings s = (ok settings, s)
  collect_settings ((k, v) ∷ data_left) settings s =
      let (r, t) = openstack.get k s in
      continue (λ new. collect_settings data_left (if new then insert k v settings else settings))
        (differs v r, t)

  abbrev apply_settings : Dict V → Action S
  apply_settings settings s = if is_empty settings then (ok tt, s) else openstack.set settings s

  -- The one caller gives one setting, so the order of the keys is that of the dictionary.
  unfoldable pub set_snap_data : Dict V → Action S
  unfolding collect_settings
  set_snap_data snap_data = do
    openstack.open_cache
    settings ← collect_settings snap_data []
    apply_settings settings

  abbrev if_asked : Option (Action S) → Action S
  if_asked none s = (ok tt, s)
  if_asked (some remove_node) s = remove_node s

  -- `base` is the base class's `configure_unit`, `removal` what the event asks to remove, and
  -- `debug` the configuration's value.
  unfoldable pub configure_unit : Action S → Option (Action S) → Option String → V → Action S
  unfolding ensure_snap_present set_snap_data
  configure_unit base removal snap_channel debug = do
    base
    if_asked removal
    ensure_snap_present snap_channel
    set_snap_data (("daemon.debug", debug) ∷ [])

-- An action's end: `event.fail` or `event.set_results`.
pub data Ended : Type 0 where
  failed : String → Ended
  results : Dict String → Ended

module _ {S V : Type 0} (openstack : LocalSnap S V) where
  abbrev refresh_failed : Exc → Exec S Ended
  refresh_failed (snap_error m) s =
      (ok (failed (concat ("Failed to refresh snap openstack: " ∷ m ∷ []))), s)
  refresh_failed e s = (raised e, s)

  unfoldable pub on_refresh_snap_action : Option String → Exec S Ended
  unfolding set_workload_version concat
  on_refresh_snap_action snap_channel =
      try (do
        openstack.open_cache
        openstack.unhold
        openstack.ensure_latest snap_channel
        openstack.hold
        modify (λ s. openstack.store_channel (openstack.channel s) s)
        set_workload_version openstack
        pure (results (("result", "Snap openstack refreshed successfully") ∷ [])))
      except refresh_failed

-- The binding of the peer relation: the relation, its binding and the address may be missing.
unfoldable pub binding_address : Option (Option (Option String)) → Result String
binding_address none = raised (value_error "Missing relation peers")
binding_address (some none) = raised (value_error "Missing binding peers")
binding_address (some (some none)) = raised (value_error "Missing binding address")
binding_address (some (some (some address))) = ok address

abbrev text_of : Option String → String
text_of none = ""
text_of (some t) = t

abbrev credentials_in : Dict String → Dict String
credentials_in context =
    ("certificate-authority", text_of (lookup "ca_cert" context))
    ∷ ("certificate", text_of (lookup "cert" context))
    ∷ ("private-key-secret", text_of (lookup "key" context))
    ∷ []

abbrev with_url : Result String → String → Dict String → Result Ended
with_url (raised e) port credentials = raised e
with_url (ok address) port credentials =
    ok (results (("url", concat ("https://" ∷ address ∷ ":" ∷ port ∷ [])) ∷ credentials))

-- `relation` is whether the relation of certificates is active, if there is one.
unfoldable pub on_get_credentials_action :
    Bool → Option Bool → Dict String → Option (Option (Option String)) → String → Result Ended
unfolding binding_address concat
on_get_credentials_action false relation context binding port =
    ok (failed "Clusterd not joined yet")
on_get_credentials_action true none context binding port =
    with_url (binding_address binding) port []
on_get_credentials_action true (some true) context binding port =
    with_url (binding_address binding) port (credentials_in context)
on_get_credentials_action true (some false) context binding port =
    ok (failed "No credentials found yet")
