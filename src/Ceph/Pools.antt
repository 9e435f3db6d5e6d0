-- ===== src/Ceph/Pools.antt =====
-- The pools that the handler requests, and those that the contexts name:
-- ops-sunbeam/ops_sunbeam/relation_handlers.py and ops-sunbeam/ops_sunbeam/config_contexts.py.
use mathlib.Core.Path.{subst}
use mathlib.Core.List.{Mem, mem-cons_self, mem-cons_of_mem}
use sunbeam_charms.Prelude.{
  String, ◌≡◌, refl, sym, ap, ◌∙◌, Bool, true, false, not, ◌&&◌, Option, none, some, List, [], ◌∷◌,
  ◌++◌, All, ◌==◌, if◌then◌else◌, arith, Bool-cases, inl, inr,
}
use sunbeam_charms.Text.{concat}
use sunbeam_charms.Dict.{lookup}
use sunbeam_charms.Exec.{Result, ok}
use sunbeam_charms.Ceph.{
  Setting, text, number, Python, Profile, ErasurePool, ReplicatedPool, CephClient, CephCharm,
  config, is_given, given_or, suffixed, application, is_erasure_coded, data_pool_name,
  metadata_pool_name, request_with, request_pools, profile, erasure_pool, replicated_pool,
  ceph_context, rbd_pool, context_data_pool, cinder_ceph_context, volume_context,
}

-- What the interface is used for: a request returns, and is on record afterwards.
pub record Records {S V F : Type 0} (requested : S → List (Setting V)) (i : CephClient S V F)
    : Type 0 where
  pub profiles :
      (p : Profile V) (s : S)
      → (t : S) × (i.create_erasure_profile p s ≡ (ok tt, t)) × (requested t ≡ requested s)
  pub erasures :
      (p : ErasurePool V F) (s : S)
      → (t : S) × (i.create_erasure_pool p s ≡ (ok tt, t)) × (requested t ≡ p.name ∷ requested s)
  pub replicas :
      (p : ReplicatedPool V F) (s : S)
      → (t : S) × (i.create_replicated_pool p s ≡ (ok tt, t)) × (requested t ≡ p.name ∷ requested s)

All-if :
    {A : Type 0} (P : A → Type 0) (xs : List A) (b : Bool) → All P xs → All P (if b then xs else [])
All-if P xs true h = h
All-if P xs false h = tt

module _ {V F : Type 0} (py : Python V F) (c : CephCharm V) where
  -- The pools that are requested, the last one first.
  abbrev pools_of : Bool → List (Setting V)
  pools_of true = metadata_pool_name py c ∷ data_pool_name py c ∷ []
  pools_of false = data_pool_name py c ∷ []

  given_or-false :
      (o : Option (Setting V)) (alternative : Setting V)
      → is_given py c o ≡ false
      → given_or py c o alternative ≡ alternative
  given_or-false none alternative e = refl
  given_or-false (some (text s)) alternative e = ground arith
  given_or-false (some (number v)) alternative e = rw e

  given_or-true :
      (o : Option (Setting V)) (a b : Setting V)
      → is_given py c o ≡ true
      → given_or py c o a ≡ given_or py c o b
  given_or-true none a b e = cc
  given_or-true (some (text s)) a b e = ground arith
  given_or-true (some (number v)) a b e = rw e refl

  -- A metadata pool that is named in the options, or a data pool that is not, is what both sides name.
  metadata-agree :
      (o d : Option (Setting V)) (a : Setting V)
      → not (is_given py c o) && is_given py c d ≡ false
      → given_or py c o (suffixed py c (given_or py c d a) "-metadata")
        ≡ given_or py c o (suffixed py c a "-metadata")
  metadata-agree o d a e = elim (Bool-cases (is_given py c o)) [
    | inl h ↦ given_or-true o _ _ h
    | inr h ↦
        let none_given = rw h at e in
        ap (λ x. given_or py c o (suffixed py c x "-metadata")) (given_or-false d a none_given)
  ]

  data-agree :
      is_given py c (config py c "rbd-pool") ≡ false → data_pool_name py c ≡ context_data_pool py c
  unfolding data_pool_name
  data-agree n =
      ap (given_or py c (config py c "rbd-pool-name"))
        (given_or-false (config py c "rbd-pool") (application py c) n)

  pool-agree :
      is_given py c (config py c "rbd-pool") ≡ false
      → (is_erasure_coded py c
            && (not (is_given py c (config py c "ec-rbd-metadata-pool"))
                && is_given py c (config py c "rbd-pool-name"))
          ≡ false)
      → is_erasure_coded py c ≡ true
      → rbd_pool py c ≡ metadata_pool_name py c
  unfolding metadata_pool_name
  pool-agree n g k = rw k (
      metadata-agree (config py c "ec-rbd-metadata-pool") (config py c "rbd-pool-name")
        (application py c) (rw k at g))

  context-All :
      (P : Setting V → Type 0)
      → is_given py c (config py c "rbd-pool") ≡ false
      → P (data_pool_name py c)
      → All (λ entry. P entry.1) (ceph_context py c)
  unfolding ceph_context
  context-All P n p =
      All-if (λ entry. P entry.1) _
        (is_given py c (config py c "pool-type") && is_erasure_coded py c)
        (
          subst P
              (data-agree n
                ∙ sym (given_or-false (config py c "rbd-pool") (context_data_pool py c) n))
              p,
          tt,
        )

  module _ {S : Type 0} (requested : S → List (Setting V)) (i : CephClient S V F)
      (records : Records requested i) where
    -- How a run that requests the pools `names` ends.
    abbrev Requests : Result (Unit {0}) × S → List (Setting V) → S → Type 0
    Requests r names s = (t : S) × (r ≡ (ok tt, t)) × (requested t ≡ names ++ requested s)

    request_with-coded :
        (w : F) (s : S)
        → is_erasure_coded py c ≡ true
        → Requests (request_with py c i w s) (pools_of true) s
    request_with-coded w s e =
        let a = records.profiles (profile py c) s in
        let b = records.erasures (erasure_pool py c (py.minus w (py.hundredth w))) a.0 in
        let d =
          records.replicas (replicated_pool py c (metadata_pool_name py c) (py.hundredth w)) b.0 in
        (d.0, rw e (rw a.1 (rw b.1 d.1)), rw d.2 (rw b.2 (rw a.2 refl)))

    request_with-replicated :
        (w : F) (s : S)
        → is_erasure_coded py c ≡ false
        → Requests (request_with py c i w s) (pools_of false) s
    request_with-replicated w s e =
        let d = records.replicas (replicated_pool py c (data_pool_name py c) w) s in
        (d.0, rw e d.1, d.2)

    request_pools-with :
        (w : F) (s : S)
        → py.float (config py c "ceph-pool-weight") ≡ ok w
        → request_pools py c i s ≡ request_with py c i w s
    unfolding request_pools lookup
    request_pools-with w s e = rw e refl

    -- If a request of the interface returns and is on record, the weight can be read, the option
    -- rbd-pool is not given, and, if the pool is erasure-coded, the name of the metadata pool is
    -- given or that of the data pool is not, then request_pools returns, and the pools that the
    -- contexts name are requested.
    pub request_pools-names_agree :
        (w : F) (uuid : Option String) (s : S)
        → py.float (config py c "ceph-pool-weight") ≡ ok w
        → is_given py c (config py c "rbd-pool") ≡ false
        → (is_erasure_coded py c
              && (not (is_given py c (config py c "ec-rbd-metadata-pool"))
                  && is_given py c (config py c "rbd-pool-name"))
            ≡ false)
        → (t : S) × (p : Setting V) × (request_pools py c i s ≡ (ok tt, t))
          × ((lookup "rbd_pool" (cinder_ceph_context py c) ≡ some (some p))
              × (lookup "rbd_pool" (volume_context py c uuid) ≡ some (some p))
              × Mem p (requested t))
          × All (λ entry. Mem entry.1 (requested t)) (ceph_context py c)
    unfolding lookup volume_context cinder_ceph_context ceph_context data_pool_name
        metadata_pool_name
    request_pools-names_agree w uuid s e n g = elim (Bool-cases (is_erasure_coded py c)) [
      | inl h ↦
          let r = request_with-coded w s h in
          (
            r.0,
            rbd_pool py c,
            request_pools-with w s e ∙ r.1,
            (refl, refl, rw (r.2, pool-agree n g h) mem-cons_self),
            context-All (λ p. Mem p (requested r.0)) n (rw r.2 (mem-cons_of_mem _ mem-cons_self)),
          )
      | inr h ↦
          let r = request_with-replicated w s h in
          (
            r.0,
            rbd_pool py c,
            request_pools-with w s e ∙ r.1,
            (refl, refl, rw (r.2, h, data-agree n) mem-cons_self),
            context-All (λ p. Mem p (requested r.0)) n (rw r.2 mem-cons_self),
          )
    ]

    -- If a request of the interface returns and is on record, the weight can be read, the pool is
    -- erasure-coded, the name of the data pool is given and that of the metadata pool is not, then
    -- request_pools returns, the metadata pool is requested by the application's name, and both
    -- contexts name it by the data pool's name.
    pub request_pools-names_differ :
        (w : F) (name : String) (uuid : Option String) (s : S)
        → py.float (config py c "ceph-pool-weight") ≡ ok w
        → is_erasure_coded py c ≡ true
        → config py c "rbd-pool-name" ≡ some (text name)
        → name == "" ≡ false
        → is_given py c (config py c "ec-rbd-metadata-pool") ≡ false
        → (t : S) × (request_pools py c i s ≡ (ok tt, t))
          × (requested t
              ≡ text (concat (c.charm_app_name ∷ "-metadata" ∷ [])) ∷ text name ∷ requested s)
          × (lookup "rbd_pool" (cinder_ceph_context py c)
              ≡ some (some (text (concat (name ∷ "-metadata" ∷ [])))))
          × (lookup "rbd_pool" (volume_context py c uuid)
              ≡ some (some (text (concat (name ∷ "-metadata" ∷ [])))))
    unfolding lookup volume_context cinder_ceph_context data_pool_name metadata_pool_name concat
    request_pools-names_differ w name uuid s e k d n m =
        let r = request_with-coded w s k in
        (
          r.0,
          request_pools-with w s e ∙ r.1,
          r.2 ∙ rw (given_or-false _ _ m, d, n) refl,
          rw (k, given_or-false _ _ m, d, n) refl,
          rw (k, given_or-false _ _ m, d, n) refl,
        )
