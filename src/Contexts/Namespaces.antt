-- ===== src/Contexts/Namespaces.antt =====
-- core.py: the namespaces of the contexts and their attributes.
use sunbeam_charms.Prelude.{
  String, ap, is_some, ◌≡◌, refl, true, Option, none, some, List, [], ◌∷◌, ◌++◌, arith, All,
  All-map, eq_refl, Bool-cases, inl, inr, if_both,
}
use sunbeam_charms.Dict.{Dict, lookup, insert, contains, has_key, keys, lookup-insert}
use sunbeam_charms.Exec.{Result, ok}
use sunbeam_charms.Contexts.{
  Contexts, add_config_context, add_config_contexts, add_relation_handler, items, iter,
  render_context, prepend, found,
}

All-append_one :
    (P : String → Type 0) (x : String) (xs : List String) → P x → All P xs → All P (xs ++ (x ∷ []))
All-append_one P x [] h a = (h, tt)
All-append_one P x (y ∷ ys) h a = (a.0, All-append_one P x ys h a.1)

contains-append_one : (x : String) (xs : List String) → contains x (xs ++ (x ∷ [])) ≡ true
unfolding contains
contains-append_one x [] = rw (eq_refl x)
contains-append_one x (y ∷ ys) = ground (arith, contains-append_one x ys)

module _ {V : Type 0} where
  -- Every namespace has its attribute.
  abbrev pub IsComplete : Contexts V → Type 0
  IsComplete c = All (λ ns. has_key ns c.attributes ≡ true) c.namespaces

  has_key-insert :
      (k j : String) (v : V) (d : Dict V) → has_key j d ≡ true → has_key j (insert k v d) ≡ true
  unfolding has_key
  has_key-insert k j v d h = ground (arith, lookup-insert k j v d)

  has_key-insert_self : (k : String) (v : V) (d : Dict V) → has_key k (insert k v d) ≡ true
  unfolding has_key
  has_key-insert_self k v d = rw (lookup-insert k k v d, eq_refl k)

  pub add_config_context-IsComplete :
      (v : V) (ns : String) (c : Contexts V) → IsComplete c → IsComplete (add_config_context v ns c)
  unfolding add_config_context
  add_config_context-IsComplete v ns c h =
      All-append_one _ ns c.namespaces (has_key-insert_self ns v c.attributes)
        (All-map c.namespaces (λ j. has_key-insert ns j v c.attributes) h)

  pub add_config_contexts-IsComplete :
      (xs : List (V × String)) (c : Contexts V)
      → IsComplete c
      → IsComplete (add_config_contexts xs c)
  unfolding add_config_contexts
  add_config_contexts-IsComplete [] c h = h
  add_config_contexts-IsComplete ((v, ns) ∷ xs) c h =
      add_config_contexts-IsComplete xs _ (add_config_context-IsComplete v ns c h)

  pub add_relation_handler-IsComplete :
      (name : String) (v : V) (c : Contexts V)
      → IsComplete c
      → IsComplete (add_relation_handler name v c)
  unfolding add_relation_handler
  add_relation_handler-IsComplete name v c h =
      let added = add_config_context-IsComplete v _ c h in
      if_both IsComplete _ (add_config_context-IsComplete v "leader_db" _ added) added

  pub render_context-IsComplete :
      (v : V) (c : Contexts V) → IsComplete c → IsComplete (render_context v c)
  unfolding render_context
  render_context-IsComplete v c h =
      if_both IsComplete (contains "service_template" c.namespaces)
        (All-map c.namespaces (λ j. has_key-insert "service_template" j v c.attributes) h)
        (add_config_context-IsComplete v "service_template" c h)

  listed_after :
      (v : V) (c : Contexts V) → contains "service_template" (render_context v c).namespaces ≡ true
  unfolding render_context add_config_context
  listed_after v c = elim (Bool-cases (contains "service_template" c.namespaces)) [
    | inl e ↦ rw e e
    | inr e ↦ rw e (contains-append_one "service_template" c.namespaces)
  ]

  same_if_listed :
      (w : V) (c : Contexts V)
      → contains "service_template" c.namespaces ≡ true
      → (render_context w c).namespaces ≡ c.namespaces
  unfolding render_context
  same_if_listed w c e = rw e

  -- Rendering twice with one set of contexts adds the service template's namespace once.
  pub render_context_twice :
      (v w : V) (c : Contexts V)
      → (render_context w (render_context v c)).namespaces ≡ (render_context v c).namespaces
  render_context_twice v w c = same_if_listed w (render_context v c) (listed_after v c)

  abbrev Lists : List String → Result (List (String × V)) → Type 0
  Lists names r = (xs : List (String × V)) × (r ≡ ok xs) × (keys xs ≡ names)

  prepend-Lists :
      (ns : String) (o : Option V) (names : List String) (rest : Result (List (String × V)))
      → is_some o ≡ true
      → Lists names rest
      → Lists (ns ∷ names) (prepend ns (found o) rest)
  unfolding keys
  prepend-Lists ns none names rest h k = ground arith
  prepend-Lists ns (some v) names rest h (xs, e, k) = ((ns, v) ∷ xs, rw e, ap (◌∷◌ ns) k)

  items-Lists :
      (names : List String) (d : Dict V)
      → All (λ ns. has_key ns d ≡ true) names
      → Lists names (items names d)
  unfolding items has_key keys
  items-Lists [] d h = ([], refl, refl)
  items-Lists (ns ∷ names) d h =
      prepend-Lists ns (lookup ns d) names (items names d) h.0 (items-Lists names d h.1)

  -- If every namespace of the contexts has its attribute, the iteration over them raises nothing,
  -- and yields each namespace, in order.
  pub iter_returns : (c : Contexts V) → IsComplete c → Lists c.namespaces (iter c)
  unfolding iter
  iter_returns c h = items-Lists c.namespaces c.attributes h
