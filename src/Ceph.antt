-- ===== src/Ceph.antt =====
-- The pools of Ceph: ops-sunbeam/ops_sunbeam/relation_handlers.py, CephClientHandler, which requests
-- them, and ops-sunbeam/ops_sunbeam/config_contexts.py and
-- charms/storage/cinder-volume-ceph/src/charm.py, which name them for the templates.
pub mod Pools
use sunbeam_charms.Prelude.{
  String, Bool, true, false, not, ◌&&◌, Option, none, some, [], ◌∷◌, ◌==◌, if◌then◌else◌,
}
use sunbeam_charms.Text.{concat}
use sunbeam_charms.Dict.{Dict, lookup}
use sunbeam_charms.Exec.{Exec, Action, Result, continue, ◌>>=◌, ◌>>◌}

-- The value of an option: a text, or anything else.
pub data Setting (V : Type 0) : Type 0 where
  text : String → Setting V
  number : V → Setting V

-- What Python does with the other values, and its floats: `float`, `x * 0.01` and `x - y`.
pub record Python (V F : Type 0) : Type 0 where
  pub truthy : V → Bool
  pub str : V → String
  pub float : Option (Setting V) → Result F
  pub hundredth : F → F
  pub minus : F → F → F

pub record Profile (V : Type 0) : Type 0 where
  pub name : Setting V
  pub k : Option (Setting V)
  pub m : Option (Setting V)
  pub lrc_locality : Option (Setting V)
  pub lrc_crush_locality : Option (Setting V)
  pub shec_durability_estimator : Option (Setting V)
  pub clay_helper_chunks : Option (Setting V)
  pub clay_scalar_mds : Option (Setting V)
  pub device_class : Option (Setting V)
  pub erasure_type : Option (Setting V)
  pub erasure_technique : Option (Setting V)

pub record ErasurePool (V F : Type 0) : Type 0 where
  pub name : Setting V
  pub erasure_profile : Setting V
  pub weight : F
  pub allow_ec_overwrites : Bool
  pub app_name : Option String

pub record ReplicatedPool (V F : Type 0) : Type 0 where
  pub name : Setting V
  pub replicas : Option (Setting V)
  pub weight : F
  pub app_name : Option String

-- The methods of the interface that the handler calls.
pub record CephClient (S V F : Type 0) : Type 0 where
  pub create_erasure_profile : Profile V → Action S
  pub create_erasure_pool : ErasurePool V F → Action S
  pub create_replicated_pool : ReplicatedPool V F → Action S

-- The charm's options that are set, its name, and the arguments of the handler.
pub record CephCharm (V : Type 0) : Type 0 where
  pub options : Dict (Setting V)
  pub charm_app_name : String
  pub allow_ec_overwrites : Bool
  pub app_name : Option String

module _ {V F : Type 0} (py : Python V F) (c : CephCharm V) where
  abbrev pub config : String → Option (Setting V)
  config k = lookup k c.options

  abbrev pub is_given : Option (Setting V) → Bool
  is_given none = false
  is_given (some (text s)) = not (s == "")
  is_given (some (number v)) = py.truthy v

  -- `value or alternative`
  abbrev pub given_or : Option (Setting V) → Setting V → Setting V
  given_or none alternative = alternative
  given_or (some (text s)) alternative = if s == "" then alternative else text s
  given_or (some (number v)) alternative = if py.truthy v then number v else alternative

  abbrev pub is_text : String → Option (Setting V) → Bool
  is_text s none = false
  is_text s (some (text t)) = t == s
  is_text s (some (number v)) = false

  abbrev pub to_str : Setting V → String
  to_str (text s) = s
  to_str (number v) = py.str v

  abbrev pub suffixed : Setting V → String → Setting V
  suffixed v suffix = text (concat (to_str v ∷ suffix ∷ []))

  abbrev pub application : Setting V
  application = text c.charm_app_name

  abbrev pub is_erasure_coded : Bool
  is_erasure_coded = is_text "erasure-coded" (config "pool-type")

  -- The names that the handler requests.
  unfoldable pub data_pool_name : Setting V
  data_pool_name = given_or (config "rbd-pool-name") (given_or (config "rbd-pool") application)

  unfoldable pub metadata_pool_name : Setting V
  unfolding concat
  metadata_pool_name = given_or (config "ec-rbd-metadata-pool") (suffixed application "-metadata")

  abbrev pub profile_name : Setting V
  unfolding concat
  profile_name = given_or (config "ec-profile-name") (suffixed application "-profile")

  abbrev pub profile : Profile V
  profile = record {
    name = profile_name;
    k = config "ec-profile-k";
    m = config "ec-profile-m";
    lrc_locality = config "ec-profile-locality";
    lrc_crush_locality = config "ec-profile-crush-locality";
    shec_durability_estimator = config "ec-profile-durability-estimator";
    clay_helper_chunks = config "ec-profile-helper-chunks";
    clay_scalar_mds = config "ec-profile-scalar-mds";
    device_class = config "ec-profile-device-class";
    erasure_type = config "ec-profile-plugin";
    erasure_technique = config "ec-profile-technique";
  }

  abbrev pub erasure_pool : F → ErasurePool V F
  erasure_pool weight = record {
    name = data_pool_name;
    erasure_profile = profile_name;
    weight = weight;
    allow_ec_overwrites = c.allow_ec_overwrites;
    app_name = c.app_name;
  }

  abbrev pub replicated_pool : Setting V → F → ReplicatedPool V F
  replicated_pool name weight = record {
    name = name;
    replicas = config "ceph-osd-replication-count";
    weight = weight;
    app_name = c.app_name;
  }

  module _ {S : Type 0} (interface : CephClient S V F) where
    -- An erasure-coded pool takes a profile, and a replicated pool beside it for the metadata.
    abbrev pub request_erasure_coded : F → Action S
    request_erasure_coded weight = do
      interface.create_erasure_profile profile
      interface.create_erasure_pool (erasure_pool (py.minus weight (py.hundredth weight)))
      interface.create_replicated_pool (replicated_pool metadata_pool_name (py.hundredth weight))

    abbrev pub request_with : F → Action S
    request_with weight =
        if is_erasure_coded
        then request_erasure_coded weight
        else interface.create_replicated_pool (replicated_pool data_pool_name weight)

    unfoldable pub request_pools : Action S
    unfolding lookup
    request_pools s = continue request_with (py.float (config "ceph-pool-weight"), s)

  -- `CephConfigurationContext.context`
  unfoldable pub ceph_context : Dict (Setting V)
  ceph_context =
      if is_given (config "pool-type") && is_erasure_coded
      then (
        "rbd_default_data_pool",
        given_or (config "rbd-pool") (given_or (config "rbd-pool-name") application),
      )
        ∷ []
      else []

  abbrev pub context_data_pool : Setting V
  context_data_pool = given_or (config "rbd-pool-name") application

  abbrev pub rbd_pool : Setting V
  unfolding concat
  rbd_pool =
      if is_erasure_coded
      then given_or (config "ec-rbd-metadata-pool") (suffixed context_data_pool "-metadata")
      else context_data_pool

  -- `CinderCephConfigurationContext.context`
  unfoldable pub cinder_ceph_context : Dict (Option (Setting V))
  cinder_ceph_context =
      ("cluster_name", some application)
      ∷ ("rbd_pool", some rbd_pool)
      ∷ ("rbd_user", some application)
      ∷ ("backend_name", some (given_or (config "volume-backend-name") application))
      ∷ ("backend_availability_zone", config "backend-availability-zone")
      ∷ []

  abbrev pub or_unknown : Option String → Setting V
  or_unknown none = text "unknown"
  or_unknown (some s) = if s == "" then text "unknown" else text s

  -- The context of the same name in the charm cinder-volume-ceph, for the secret that it shares.
  unfoldable pub volume_context : Option String → Dict (Option (Setting V))
  volume_context secret_uuid =
      ("rbd_pool", some rbd_pool)
      ∷ ("rbd_user", some application)
      ∷ ("backend_name", some (given_or (config "volume-backend-name") application))
      ∷ ("backend_availability_zone", config "backend-availability-zone")
      ∷ ("secret_uuid", some (or_unknown secret_uuid))
      ∷ []
