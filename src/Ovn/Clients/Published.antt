-- ===== src/Ovn/Clients/Published.antt =====
-- What the units of the central charm publish over ovsdb-cms, as its clients read it.
use sunbeam_charms.Prelude.{
  ℕ, String, ◌≡◌, ◌≢◌, refl, ap, ◌∙◌, true, false, Option, none, some, List, [], ◌∷◌, map, All,
  All-map, all_of, arith, ◌==◌, eq_iff, Bool-cases, inl, inr, if◌then◌else◌,
}
use sunbeam_charms.Text.{concat, join}
use sunbeam_charms.Dict.{Dict, lookup, last_value, lookup-update}
use sunbeam_charms.Endpoints.{if_given}
use sunbeam_charms.Ovn.Addresses.{
  IpAddress, IpLibrary, format_addr, remote_addrs, db_connection_strs,
}
use sunbeam_charms.Ovn.Clients.{
  Related, Provider, update_address_data, address_data, shown, or_empty, unit_values,
  get_all_unit_values, known, addresses_strs, remote_proxied, remote_ready, requires_context,
  is_truthy, balanced, direct, loadbalancer_address, Connections,
}

-- A unit of the central charm: what its data bag held, its name and its addresses.
pub record CentralUnit : Type 0 where
  pub before : Dict String
  pub hostname : String
  pub local_addr : Option String
  pub ingress_addr : Option String

abbrev data_of : CentralUnit → Dict String
data_of u = address_data u.hostname u.local_addr u.ingress_addr

abbrev unit_data_of : List Provider → Dict String
unit_data_of [] = []
unit_data_of (p ∷ rest) = p.unit_data

-- The data bag after the unit's handler has run.
unfoldable pub bag_of : CentralUnit → Dict String
unfolding update_address_data
bag_of u = unit_data_of (
    update_address_data u.hostname u.local_addr u.ingress_addr
      (record { app_data = []; unit_data = u.before } ∷ []))

unfoldable pub related_to : Dict String → Dict String → List CentralUnit → Related
unfolding bag_of
related_to own_app remote_app us =
    some (record { own_app = own_app; remote_app = remote_app; remote_units = map bag_of us })

lookup-bag_of : (u : CentralUnit) → lookup "bound-address" (bag_of u) ≡ some (shown u.local_addr)
unfolding bag_of update_address_data last_value
lookup-bag_of u = lookup-update "bound-address" (data_of u) u.before

hostname-bag_of : (u : CentralUnit) → lookup "bound-hostname" (bag_of u) ≡ some u.hostname
unfolding bag_of update_address_data last_value
hostname-bag_of u = lookup-update "bound-hostname" (data_of u) u.before

known-bags :
    (us : List CentralUnit)
    → known (unit_values "bound-address" (map bag_of us))
      ≡ map (λ (u : CentralUnit). shown u.local_addr) us
unfolding unit_values
known-bags [] = refl
known-bags (u ∷ us) = rw (lookup-bag_of u) (ap (◌∷◌ (shown u.local_addr)) (known-bags us))

module _ (ip : IpLibrary) where
  -- The unit has an address that Python's library takes.
  abbrev pub IsReachable : CentralUnit → Type 0
  IsReachable u = (a : String) × (x : IpAddress) × (u.local_addr ≡ some a) × (ip a ≡ some x)

  unfoldable pub address_of : CentralUnit → String
  unfolding format_addr
  address_of u = or_empty (format_addr ip (shown u.local_addr))

  remote_addrs-reachable :
      (us : List CentralUnit)
      → All IsReachable us
      → remote_addrs ip (map (λ (u : CentralUnit). shown u.local_addr) us) ≡ map address_of us
  unfolding remote_addrs address_of format_addr
  remote_addrs-reachable [] h = refl
  remote_addrs-reachable (u ∷ us) ((a, x, e, f), h) =
      rw (e, f)
        (ap (◌∷◌ (if x.is_v6 then concat ("[" ∷ x.text ∷ "]" ∷ []) else x.text))
          (remote_addrs-reachable us h))

  -- If the address that each unit of the central charm publishes can be read, a client has one
  -- connection for each of them, in their order.
  pub addresses_strs-published :
      (show : ℕ → String) (port : ℕ) (own_app remote_app : Dict String) (us : List CentralUnit)
      → All IsReachable us
      → addresses_strs ip show "bound-address" port (related_to own_app remote_app us)
        ≡ db_connection_strs show (map address_of us) port "ssl"
  unfolding addresses_strs get_all_unit_values related_to
  addresses_strs-published show port own_app remote_app us h =
      rw (known-bags us) (rw (remote_addrs-reachable us h) refl)

-- The other way to be ready that is not.
module _ (ip : IpLibrary) (show : ℕ → String) where
  all_named :
      (us : List CentralUnit)
      → All (λ (u : CentralUnit). u.hostname ≢ "") us
      → all_of is_truthy (unit_values "bound-hostname" (map bag_of us)) ≡ true
  unfolding unit_values
  all_named [] h = refl
  all_named (u ∷ us) h =
      rw (hostname-bag_of u) (ground (arith, all_named us h.1, h.0, eq_iff u.hostname ""))

  unknown_addrs :
      (us : List CentralUnit)
      → All (λ (u : CentralUnit). u.local_addr ≡ none) us
      → ip "None" ≡ none
      → remote_addrs ip (known (unit_values "bound-address" (map bag_of us))) ≡ []
  unfolding unit_values remote_addrs format_addr
  unknown_addrs [] h n = refl
  unknown_addrs (u ∷ us) h n = rw (lookup-bag_of u) (rw (h.0, n) (unknown_addrs us h.1 n))

  -- A load balancer changes the connections from outside only.
  balanced_nb :
      (address : Option String) (c : Connections)
      → (if_given address (balanced ip show c) c).db_nb_connection_strs ≡ c.db_nb_connection_strs
  balanced_nb none c = refl
  balanced_nb (some a) c = elim (Bool-cases (a == "")) [ inl e ↦ rw e refl | inr e ↦ rw e refl ]

  -- If no unit of a central charm that is not a proxy has an address to publish, each has a name,
  -- and the word None is no address, a client that asks for no access from outside takes the other
  -- side to be ready, and its northbound connections are the empty text; so it is if the central
  -- charm has no unit.
  pub remote_ready-no_address :
      (own_app remote_app : Dict String) (us : List CentralUnit)
      → remote_proxied (related_to own_app remote_app us) ≡ false
      → All (λ (u : CentralUnit). (u.hostname ≢ "") × (u.local_addr ≡ none)) us
      → ip "None" ≡ none
      → (remote_ready false (related_to own_app remote_app us) ≡ true)
        × ((requires_context ip show (related_to own_app remote_app us)).db_nb_connection_strs ≡ "")
  unfolding remote_ready requires_context related_to get_all_unit_values addresses_strs
      db_connection_strs join
  remote_ready-no_address own_app remote_app us p h n = (
    rw p (rw (all_named us (All-map us (λ u f. f.0) h)) refl),
    rw p (
        balanced_nb (loadbalancer_address (related_to own_app remote_app us))
          (direct ip show (related_to own_app remote_app us))
        ∙ rw (unknown_addrs us (All-map us (λ u f. f.1) h) n) refl),
  )
