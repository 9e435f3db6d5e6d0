-- ===== src/Contexts.antt =====
-- ops-sunbeam/ops_sunbeam/core.py: the contexts that templates are rendered with.
pub mod Namespaces
use sunbeam_charms.Prelude.{
  String, Bool, true, false, Option, none, some, List, [], ◌∷◌, ◌++◌, ◌==◌, if◌then◌else◌,
}
use sunbeam_charms.Text.{replace_char}
use sunbeam_charms.Dict.{Dict, lookup, insert, contains}
use sunbeam_charms.Exec.{Result, ok, raised, attribute_error}

-- `OPSCharmContexts`: the namespaces in the order in which they were added, and the attributes.
-- A context of a relation handler or of a configuration is a `V`.
pub record Contexts (V : Type 0) : Type 0 where
  pub namespaces : List String
  pub attributes : Dict V

module _ {V : Type 0} where
  abbrev pub no_contexts : Contexts V
  no_contexts = record { namespaces = []; attributes = [] }

  -- `add_config_context`: append the namespace and set the attribute.
  unfoldable pub add_config_context : V → String → Contexts V → Contexts V
  add_config_context v namespace c = record {
    namespaces = c.namespaces ++ (namespace ∷ []);
    attributes = insert namespace v c.attributes;
  }

  -- `add_relation_handler`; peers are known as `leader_db` too.
  unfoldable pub add_relation_handler : String → V → Contexts V → Contexts V
  add_relation_handler relation_name v c =
      let ns = replace_char b'-' "_" relation_name in
      let added = add_config_context v ns c in
      if ns == "peers" then add_config_context v "leader_db" added else added

  -- `add_config_contexts`, over the adapters with their namespaces.
  unfoldable pub add_config_contexts : List (V × String) → Contexts V → Contexts V
  add_config_contexts [] c = c
  add_config_contexts ((v, namespace) ∷ rest) c =
      add_config_contexts rest (add_config_context v namespace c)

  abbrev found : Option V → Result V
  found none = raised (attribute_error "namespace")
  found (some v) = ok v

  abbrev prepend : String → Result V → Result (List (String × V)) → Result (List (String × V))
  prepend ns (ok v) (ok rest) = ok ((ns, v) ∷ rest)
  prepend ns (ok v) (raised e) = raised e
  prepend ns (raised e) rest = raised e

  unfoldable pub items : List String → Dict V → Result (List (String × V))
  items [] a = ok []
  items (ns ∷ rest) a = prepend ns (found (lookup ns a)) (items rest a)

  -- `__iter__`, run to its end.
  unfoldable pub iter : Contexts V → Result (List (String × V))
  unfolding items
  iter c = items c.namespaces c.attributes

  -- container_handlers.py, `render_context`: the service template's own context, set anew where
  -- the namespace is there already.
  unfoldable pub render_context : V → Contexts V → Contexts V
  render_context v c =
      if contains "service_template" c.namespaces
      then record c { attributes = insert "service_template" v c.attributes }
      else add_config_context v "service_template" c
