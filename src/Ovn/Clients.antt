-- ===== src/Ovn/Clients.antt =====
-- The relation ovsdb-cms, over which charms learn how to reach the databases: the library
-- charms/ovn-central-k8s/lib/charms/ovn_central_k8s/v0/ovsdb.py, both sides, and their handlers in
-- ops-sunbeam/ops_sunbeam/ovn/relation_handlers.py.
pub mod Published
use sunbeam_charms.Prelude.{
  ℕ, String, Bool, true, false, not, ◌||◌, Option, none, some, List, [], ◌∷◌, ◌++◌, map, all_of,
  is_some, ◌==◌, if◌then◌else◌,
}
use sunbeam_charms.Text.{join, split}
use sunbeam_charms.Dict.{Dict, insert, lookup, update, values}
use sunbeam_charms.Exec.{Action, ok, ◌>>◌, skip}
use sunbeam_charms.Status.{StatusBase, blocked_status}
use sunbeam_charms.Endpoints.{if_given}
use sunbeam_charms.Ovn.Addresses.{
  IpLibrary, remote_addrs, db_connection_strs, db_nb_port, db_sb_port,
}

abbrev pub external_key : String
external_key = "external-connectivity"

abbrev pub proxy_key : String
proxy_key = "proxy-relation"

abbrev pub loadbalancer_key : String
loadbalancer_key = "loadbalancer-address"

-- The relation as the requires side has it: the data of its own application, of the remote one, and
-- of each remote unit.
pub record Requirer : Type 0 where
  pub own_app : Dict String
  pub remote_app : Dict String
  pub remote_units : List (Dict String)

-- There is one relation at most.
abbrev pub Related : Type 0
Related = Option Requirer

-- `json.dumps` of a truth value.
abbrev json_bool : Bool → String
json_bool true = "true"
json_bool false = "false"

unfoldable pub request_access : Bool → Bool → Related → Related
unfolding insert
request_access is_leader external_connectivity none = none
request_access is_leader external_connectivity (some r) =
    if is_leader
    then some
        (record r { own_app = insert external_key (json_bool external_connectivity) r.own_app })
    else some r

unfoldable pub unit_values : String → List (Dict String) → List (Option String)
unfolding lookup
unit_values key [] = []
unit_values key (bag ∷ bags) = lookup key bag ∷ unit_values key bags

-- A unit without the key counts as None.
unfoldable pub get_all_unit_values : String → Related → List (Option String)
unfolding unit_values
get_all_unit_values key none = []
get_all_unit_values key (some r) = unit_values key r.remote_units

unfoldable pub loadbalancer_address : Related → Option String
unfolding lookup
loadbalancer_address none = none
loadbalancer_address (some r) = lookup loadbalancer_key r.remote_app

abbrev is_text : String → Option String → Bool
is_text t none = false
is_text t (some v) = v == t

unfoldable pub remote_proxied : Related → Bool
unfolding lookup
remote_proxied none = false
remote_proxied (some r) = is_text "true" (lookup proxy_key r.remote_app)

abbrev pub or_empty : Option String → String
or_empty none = ""
or_empty (some t) = t

abbrev proxied_strings : Bool → Requirer → Dict String
proxied_strings false r = []
proxied_strings true r =
    ("nb", or_empty (lookup "db_nb_connection_strs" r.remote_app))
    ∷ ("sb", or_empty (lookup "db_sb_connection_strs" r.remote_app))
    ∷ []

unfoldable pub proxied_connection_strings : Related → Dict String
unfolding remote_proxied lookup
proxied_connection_strings none = []
proxied_connection_strings (some r) = proxied_strings (remote_proxied (some r)) r

-- The truth of a text that may be None.
abbrev pub is_truthy : Option String → Bool
is_truthy none = false
is_truthy (some t) = not (t == "")

abbrev is_given : String → Bool
is_given t = not (t == "")

unfoldable pub remote_ready : Bool → Related → Bool
unfolding remote_proxied proxied_connection_strings loadbalancer_address get_all_unit_values values
remote_ready external_connectivity r =
    if remote_proxied r
    then all_of is_given (values (proxied_connection_strings r))
    else if external_connectivity
    then is_some (loadbalancer_address r)
    else all_of is_truthy (get_all_unit_values "bound-hostname" r)
      || all_of is_truthy (get_all_unit_values "bound-address" r)

-- `_on_ovsdb_cms_relation_changed`: whether the event `ready` is emitted.
unfoldable pub on_relation_changed : {S : Type 0} → Action S → Bool → Related → Action S
unfolding remote_ready
on_relation_changed emit_ready external_connectivity r s =
    if remote_ready external_connectivity r then emit_ready s else (ok tt, s)

-- The other side has a relation with each of its clients: the data of its application and of its unit.
pub record Provider : Type 0 where
  pub app_data : Dict String
  pub unit_data : Dict String

abbrev if_proxied : Bool → Dict String → Dict String
if_proxied true d = insert proxy_key "true" d
if_proxied false d = d

abbrev announce : Bool → Option String → Provider → Provider
announce proxy_relation address p = record p {
  app_data =
      if_given address (λ a. insert loadbalancer_key a (if_proxied proxy_relation p.app_data))
        (if_proxied proxy_relation p.app_data);
}

unfoldable pub update_relation_data : Bool → Bool → Option String → List Provider → List Provider
unfolding insert
update_relation_data is_leader proxy_relation address rels =
    if is_leader then map (announce proxy_relation address) rels else rels

abbrev pub in_unit : Dict String → Provider → Provider
in_unit settings p = record p { unit_data = update p.unit_data settings }

unfoldable pub set_unit_data : Dict String → List Provider → List Provider
unfolding update
set_unit_data settings rels = map (in_unit settings) rels

abbrev in_app : Dict String → Provider → Provider
in_app settings p = record p { app_data = update p.app_data settings }

unfoldable pub set_app_data : Bool → Dict String → List Provider → List Provider
unfolding update
set_app_data is_leader settings rels = if is_leader then map (in_app settings) rels else rels

-- `{key: '' for key in databag}`
unfoldable pub cleared : Dict String → Dict String
cleared [] = []
cleared ((k, v) ∷ d) = (k, "") ∷ cleared d

abbrev clear_unit : Provider → Provider
clear_unit p = record p { unit_data = cleared p.unit_data }

unfoldable pub clear_unit_data : List Provider → List Provider
unfolding cleared
clear_unit_data rels = map clear_unit rels

abbrev clear_app : Provider → Provider
clear_app p = record p { app_data = cleared p.app_data }

unfoldable pub clear_app_data : Bool → List Provider → List Provider
unfolding cleared
clear_app_data is_leader rels = if is_leader then map clear_app rels else rels

-- `str` of an address that may be None.
abbrev pub shown : Option String → String
shown none = "None"
shown (some a) = a

-- OVSDBCMSProvidesHandler
abbrev pub address_data : String → Option String → Option String → Dict String
address_data hostname local_addr ingress_addr =
    ("bound-hostname", hostname)
    ∷ ("bound-address", shown local_addr)
    ∷ ("ingress-bound-address", shown ingress_addr)
    ∷ []

unfoldable pub update_address_data :
    String → Option String → Option String → List Provider → List Provider
unfolding set_unit_data
update_address_data hostname local_addr ingress_addr rels =
    set_unit_data (address_data hostname local_addr ingress_addr) rels

-- `ip_address(None)` is a ValueError too.
abbrev pub known : List (Option String) → List String
known [] = []
known (none ∷ rest) = known rest
known (some v ∷ rest) = v ∷ known rest

-- OVSDBCMSRequiresHandler: what its context adds.
pub record Connections : Type 0 where
  pub db_nb_connection_strs : String
  pub db_sb_connection_strs : String
  pub db_ingress_nb_connection_strs : List String
  pub db_ingress_sb_connection_strs : List String

module _ (ip : IpLibrary) (show : ℕ → String) where
  unfoldable pub addresses_strs : String → ℕ → Related → List String
  unfolding get_all_unit_values remote_addrs db_connection_strs
  addresses_strs key port r =
      db_connection_strs show (remote_addrs ip (known (get_all_unit_values key r))) port "ssl"

  abbrev pub direct : Related → Connections
  direct r = record {
    db_nb_connection_strs = join "," (addresses_strs "bound-address" db_nb_port r);
    db_sb_connection_strs = join "," (addresses_strs "bound-address" db_sb_port r);
    db_ingress_nb_connection_strs = addresses_strs "ingress-bound-address" db_nb_port r;
    db_ingress_sb_connection_strs = addresses_strs "ingress-bound-address" db_sb_port r;
  }

  abbrev pub balanced : Connections → String → Connections
  balanced c address = record c {
    db_ingress_nb_connection_strs = db_connection_strs show (address ∷ []) db_nb_port "ssl";
    db_ingress_sb_connection_strs = db_connection_strs show (address ∷ []) db_sb_port "ssl";
  }

  abbrev proxied : Dict String → Connections
  proxied strs = record {
    db_nb_connection_strs = or_empty (lookup "nb" strs);
    db_sb_connection_strs = or_empty (lookup "sb" strs);
    db_ingress_nb_connection_strs = split b',' (or_empty (lookup "nb" strs));
    db_ingress_sb_connection_strs = split b',' (or_empty (lookup "sb" strs));
  }

  unfoldable pub requires_context : Related → Connections
  unfolding addresses_strs join split lookup
  requires_context r =
      if remote_proxied r
      then proxied (proxied_connection_strings r)
      else if_given (loadbalancer_address r) (balanced (direct r)) (direct r)

-- `_on_ovsdb_service_goneaway`, of this handler and of MicroOVSDBRequiresHandler.
module _ {S : Type 0} (callback stop_services : Action S) (set_status : StatusBase → S → S) where
  unfoldable pub on_service_goneaway : Bool → Action S
  on_service_goneaway mandatory =
      callback >> (λ s. if mandatory then stop_and_block s else (ok tt, s))
    where
      stop_and_block : Action S
      stop_and_block =
          stop_services >> (λ s. (ok tt, set_status (blocked_status "integration missing") s))

-- MicroOVSDBRequiresHandler: its interface answers with the two connection strings or None.
unfoldable pub micro_ready : Option (String × String) → Bool
micro_ready strings = is_some strings

unfoldable pub micro_context : Option (String × String) → Dict String → Dict String
unfolding update
micro_context none ctxt = ctxt
micro_context (some (nb, sb)) ctxt =
    update ctxt (("db_sb_connection_strs", sb) ∷ ("db_nb_connection_strs", nb) ∷ [])

unfoldable pub micro_changed : {S : Type 0} → Action S → Option (String × String) → Action S
micro_changed callback strings s = if micro_ready strings then callback s else (ok tt, s)
