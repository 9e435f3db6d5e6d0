-- ===== src/Relations/Ready.antt =====
-- charm.py: which mandatory relations count as not ready.
use sunbeam_charms.Prelude.{
  String, ◌≡◌, refl, Bool, true, not, ◌&&◌, ◌||◌, List, [], ◌∷◌, keep, any_of, arith, ◌==◌, eq_iff,
}
use sunbeam_charms.Dict.{contains}
use sunbeam_charms.Relations.{
  Handler, Event, relation_broken, is_broken, database_relations, check_broken_relations,
  difference, ready_relations, get_mandatory_relations_not_ready,
}

pub contains-keep :
    (p : String → Bool) (x : String) (xs : List String)
    → contains x (keep p xs) ≡ (contains x xs && p x)
unfolding contains
contains-keep p x [] = refl
contains-keep p x (y ∷ ys) = ground (arith, contains-keep p x ys, eq_iff y x)

-- Some mandatory handler of that relation is ready.
abbrev pub has_ready_handler : String → List Handler → Bool
has_ready_handler r handlers =
    any_of (λ (h : Handler). h.relation_name == r && (h.mandatory && h.ready)) handlers

contains-ready_relations :
    (r : String) (handlers : List Handler)
    → contains r (ready_relations handlers) ≡ has_ready_handler r handlers
unfolding ready_relations contains
contains-ready_relations r [] = refl
contains-ready_relations r (h ∷ hs) = ground (arith, contains-ready_relations r hs)

-- A relation is reported as not ready exactly when it is mandatory and no mandatory handler of it
-- is ready, or the event at hand says that this mandatory relation is broken.
pub not_ready_iff :
    (r : String) (handlers : List Handler) (mandatory : List String) (event : Event)
    → contains r (get_mandatory_relations_not_ready handlers mandatory event)
      ≡ (contains r mandatory && (not (has_ready_handler r handlers) || is_broken r event))
unfolding get_mandatory_relations_not_ready difference check_broken_relations
not_ready_iff r handlers mandatory event =
    let ready = ready_relations handlers in
    let broken = keep (λ x. is_broken x event) ready in
    ground (
      arith,
      contains-keep (λ x. not (contains x (keep (λ y. not (contains y broken)) ready))) r mandatory,
      contains-keep (λ y. not (contains y broken)) r ready,
      contains-keep (λ x. is_broken x event) r ready,
      contains-ready_relations r handlers,
    )

-- A broken event of one database relation makes every database relation count as broken.
pub is_broken-database :
    (r n : String)
    → contains r database_relations ≡ true
    → contains n database_relations ≡ true
    → is_broken r (relation_broken n) ≡ true
unfolding is_broken
is_broken-database r n h k = rw (h, k)
