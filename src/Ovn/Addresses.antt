-- ===== src/Ovn/Addresses.antt =====
-- ops-sunbeam/ops_sunbeam/ovn/relation_handlers.py, OVNRelationUtils: the addresses and the
-- connection strings of the databases.
use sunbeam_charms.Prelude.{
  ℕ, String, Bool, Option, none, some, List, [], ◌∷◌, ◌++◌, map, if◌then◌else◌,
}
use sunbeam_charms.Text.{concat, join}
use sunbeam_charms.Dict.{contains}

-- `ipaddress.ip_address`: whether it is of version 6, and its text. None is a ValueError.
pub record IpAddress : Type 0 where
  pub is_v6 : Bool
  pub text : String

abbrev pub IpLibrary : Type 0
IpLibrary = String → Option IpAddress

abbrev pub db_nb_port : ℕ
db_nb_port = 6641

abbrev pub db_sb_port : ℕ
db_sb_port = 6642

abbrev pub db_sb_admin_port : ℕ
db_sb_admin_port = 16642

abbrev pub db_nb_cluster_port : ℕ
db_nb_cluster_port = 6643

abbrev pub db_sb_cluster_port : ℕ
db_sb_cluster_port = 6644

abbrev pub formatted : Option IpAddress → Option String
formatted none = none
formatted (some a) = some (if a.is_v6 then concat ("[" ∷ a.text ∷ "]" ∷ []) else a.text)

-- None is the ValueError.
unfoldable pub format_addr : IpLibrary → String → Option String
unfolding concat
format_addr ip addr = formatted (ip addr)

abbrev pub put_some : Option String → List String → List String
put_some none rest = rest
put_some (some a) rest = a ∷ rest

-- The addresses among the published values; a value that is none is left out.
unfoldable pub remote_addrs : IpLibrary → List String → List String
unfolding format_addr
remote_addrs ip [] = []
remote_addrs ip (addr ∷ rest) = put_some (format_addr ip addr) (remote_addrs ip rest)

-- `number` is `str` of a port.
abbrev pub connection_str : (ℕ → String) → String → ℕ → String → String
connection_str number proto port hostname = join ":" (proto ∷ hostname ∷ number port ∷ [])

unfoldable pub db_connection_strs : (ℕ → String) → List String → ℕ → String → List String
unfolding join
db_connection_strs number hostnames port proto = map (connection_str number proto port) hostnames

-- The bindings of the relation's endpoint: for each relation its bind address, if it has one, and
-- its ingress addresses, which are none if there is no binding or network.
pub record Binding : Type 0 where
  pub bind_address : Option String
  pub ingress_addresses : List String

-- Only the first relation is looked at.
unfoldable pub endpoint_local_bound_addr : List Binding → Option String
endpoint_local_bound_addr [] = none
endpoint_local_bound_addr (b ∷ rest) = b.bind_address

unfoldable pub all_ingress_addresses : List Binding → List String
all_ingress_addresses [] = []
all_ingress_addresses (b ∷ rest) = b.ingress_addresses ++ all_ingress_addresses rest

-- `list(set(addresses))`, in an order that Python does not promise: each address once.
unfoldable pub distinct : List String → List String
unfolding contains
distinct [] = []
distinct (a ∷ rest) = let others = distinct rest in if contains a others then others else a ∷ others

-- The order of the set is a parameter.
abbrev first_of : List String → Option String
first_of [] = none
first_of (a ∷ rest) = some a

unfoldable pub cluster_ingress_addr : (List String → List String) → List Binding → Option String
unfolding all_ingress_addresses distinct
cluster_ingress_addr order bs = first_of (order (distinct (all_ingress_addresses bs)))
