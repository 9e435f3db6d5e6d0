-- ===== src/Ovn/Database.antt =====
-- charms/ovn-central-k8s/src/ovsdb.py: the databases by way of their command line tools.
use sunbeam_charms.Prelude.{String, Option, none, some, List, [], ◌∷◌, ◌++◌, ◌==◌, if◌then◌else◌}
use sunbeam_charms.Text.{concat}
use sunbeam_charms.Dict.{Dict, lookup, contains}
use sunbeam_charms.Exec.{Exec, Action, Result, ok, raised, other_error, attribute_error}
use sunbeam_charms.Ovn.Clustering.{Executor}

-- `_tool_table_map`
unfoldable pub tool_table_map : Dict (List String)
tool_table_map =
    (
      "ovs-vsctl",
      "autoattach" ∷ "bridge" ∷ "ct_timeout_policy" ∷ "ct_zone" ∷ "controller" ∷ "datapath"
          ∷ "flow_sample_collector_set" ∷ "flow_table" ∷ "ipfix" ∷ "interface" ∷ "manager"
          ∷ "mirror" ∷ "netflow" ∷ "open_vswitch" ∷ "port" ∷ "qos" ∷ "queue" ∷ "ssl" ∷ "sflow" ∷ [],
    )
    ∷ (
      "ovn-nbctl",
      "acl" ∷ "address_set" ∷ "connection" ∷ "dhcp_options" ∷ "dns" ∷ "forwarding_group"
          ∷ "gateway_chassis" ∷ "ha_chassis" ∷ "ha_chassis_group" ∷ "load_balancer"
          ∷ "load_balancer_health_check" ∷ "logical_router" ∷ "logical_router_policy"
          ∷ "logical_router_port" ∷ "logical_router_static_route" ∷ "logical_switch"
          ∷ "logical_switch_port" ∷ "meter" ∷ "meter_band" ∷ "nat" ∷ "nb_global" ∷ "port_group"
          ∷ "qos" ∷ "ssl" ∷ [],
    )
    ∷ (
      "ovn-sbctl",
      "address_set" ∷ "chassis" ∷ "connection" ∷ "controller_event" ∷ "dhcp_options"
          ∷ "dhcpv6_options" ∷ "dns" ∷ "datapath_binding" ∷ "encap" ∷ "gateway_chassis"
          ∷ "ha_chassis" ∷ "ha_chassis_group" ∷ "igmp_group" ∷ "ip_multicast" ∷ "logical_flow"
          ∷ "mac_binding" ∷ "meter" ∷ "meter_band" ∷ "multicast_group" ∷ "port_binding"
          ∷ "port_group" ∷ "rbac_permission" ∷ "rbac_role" ∷ "sb_global" ∷ "ssl" ∷ "service_monitor"
          ∷ [],
    )
    ∷ []

-- A table of a tool, with the extra arguments of the tool.
pub record Table : Type 0 where
  pub tool : String
  pub table : String
  pub args : List String

abbrev table_in : String → String → List String → Option (List String) → Result Table
table_in tool table args none =
    raised (other_error "tool must be one of \"ovs-vsctl\", \"ovn-nbctl\", \"ovn-sbctl\"")
table_in tool table args (some tables) =
    if contains table tables
    then ok (record { tool = tool; table = table; args = args })
    else raised (
        attribute_error
          (concat ("table \"" ∷ table ∷ "\" not known for use with \"" ∷ tool ∷ "\"" ∷ [])))

-- `SimpleOVSDB(tool, args).table`
unfoldable pub open_table : String → String → List String → Result Table
unfolding tool_table_map lookup contains
open_table tool table args = table_in tool table args (lookup tool tool_table_map)

abbrev pub condition_args : Option String → List String
condition_args none = []
condition_args (some c) = if c == "" then [] else c ∷ []

unfoldable pub find_command : Table → Option String → List String
find_command t condition =
    (t.tool ∷ t.args) ++ (("-f" ∷ "json" ∷ "find" ∷ t.table ∷ []) ++ condition_args condition)

-- `rows` is the output of the tool as a list of rows, by `json.loads` and `_deserialize_ovsdb`. The
-- rows are read at once, where the generator reads each one when it is asked for.
module _ {S : Type 0} (run : Executor S) (rows : String → Result (List (Dict String))) where
  abbrev read_rows : Result String × S → Result (List (Dict String)) × S
  read_rows (ok output, s) = (rows output, s)
  read_rows (raised e, s) = (raised e, s)

  -- `find`, and with no condition `__iter__`.
  unfoldable pub find : Table → Option String → Exec S (List (Dict String))
  unfolding find_command
  find t condition s = read_rows (run (find_command t condition) s)

abbrev ignore : {S : Type 0} → Result String × S → Result (Unit {0}) × S
ignore (ok output, s) = (ok tt, s)
ignore (raised e, s) = (raised e, s)

module _ {S : Type 0} (run : Executor S) where
  unfoldable pub clear : Table → String → String → Action S
  clear t rec col s = ignore (run (t.tool ∷ "clear" ∷ t.table ∷ rec ∷ col ∷ []) s)

  unfoldable pub remove : Table → String → String → String → Action S
  remove t rec col val s = ignore (run (t.tool ∷ "remove" ∷ t.table ∷ rec ∷ col ∷ val ∷ []) s)

  unfoldable pub set : Table → String → String → String → Action S
  unfolding concat
  set t rec col val s =
      ignore (run (t.tool ∷ "set" ∷ t.table ∷ rec ∷ concat (col ∷ "=" ∷ val ∷ []) ∷ []) s)

  -- A command whose output is not read.
  unfoldable pub run_quietly : List String → Action S
  run_quietly command s = ignore (run command s)
