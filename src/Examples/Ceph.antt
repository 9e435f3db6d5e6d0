-- ===== src/Examples/Ceph.antt =====
-- The theorems on the pools of Ceph at concrete options.
use mathlib.Core.List.{Mem}
use sunbeam_charms.Prelude.{ℕ, ◌≡◌, refl, true, Option, none, some, List, [], ◌∷◌, All, ◌*◌, ◌-◌}
use sunbeam_charms.Dict.{Dict, lookup}
use sunbeam_charms.Exec.{Result, ok, raised, other_error}
use sunbeam_charms.Ceph.{
  Setting, text, number, Python, CephClient, CephCharm, request_pools, ceph_context,
  cinder_ceph_context, volume_context,
}
use sunbeam_charms.Ceph.Pools.{Records, request_pools-names_agree, request_pools-names_differ}

-- Whole numbers in the place of floats, and a client that keeps the names of the pools.
read : Option (Setting ℕ) → Result ℕ
read (some (number n)) = ok (100 * n)
read other = raised (other_error "float")

abbrev py : Python ℕ ℕ
py = record {
  truthy = λ n. true;
  str = λ n. "1";
  float = read;
  hundredth = λ n. 1;
  minus = λ m n. m - n;
}

abbrev client : CephClient (List (Setting ℕ)) ℕ ℕ
client = record {
  create_erasure_profile = λ p names. (ok tt, names);
  create_erasure_pool = λ p names. (ok tt, p.name ∷ names);
  create_replicated_pool = λ p names. (ok tt, p.name ∷ names);
}

recorded : Records (λ names. names) client
recorded = record {
  profiles = λ p s. (s, refl, refl);
  erasures = λ p s. (p.name ∷ s, refl, refl);
  replicas = λ p s. (p.name ∷ s, refl, refl);
}

abbrev glance : Dict (Setting ℕ) → CephCharm ℕ
glance options = record {
  options =
      ("pool-type", text "erasure-coded")
      ∷ ("ceph-pool-weight", number 40)
      ∷ ("rbd-pool-name", text "images")
      ∷ options;
  charm_app_name = "glance";
  allow_ec_overwrites = true;
  app_name = some "rbd";
}

abbrev named : CephCharm ℕ
named = glance (("ec-rbd-metadata-pool", text "headers") ∷ [])

request_pools-names_agree_example :
    (t : List (Setting ℕ)) × (p : Setting ℕ) × (request_pools py named client [] ≡ (ok tt, t))
    × ((lookup "rbd_pool" (cinder_ceph_context py named) ≡ some (some p))
        × (lookup "rbd_pool" (volume_context py named none) ≡ some (some p))
        × Mem p t)
    × All (λ entry. Mem entry.1 t) (ceph_context py named)
unfolding lookup read
request_pools-names_agree_example =
    request_pools-names_agree py named (λ names. names) client recorded 4000 none [] refl refl refl

request_pools-names_differ_example :
    (t : List (Setting ℕ)) × (request_pools py (glance []) client [] ≡ (ok tt, t))
    × (t ≡ text "glance-metadata" ∷ text "images" ∷ [])
    × (lookup "rbd_pool" (cinder_ceph_context py (glance []))
        ≡ some (some (text "images-metadata")))
    × (lookup "rbd_pool" (volume_context py (glance []) none)
        ≡ some (some (text "images-metadata")))
unfolding lookup read sunbeam_charms.Text.concat
request_pools-names_differ_example =
    request_pools-names_differ py (glance []) (λ names. names) client recorded 4000 "images" none []
      refl refl refl refl refl
