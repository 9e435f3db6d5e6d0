-- ===== src/Relations/Added.antt =====
-- charm.py: the handlers that `get_relation_handlers` leaves.
use sunbeam_charms.Prelude.{
  String, ◌≡◌, refl, ◌∙◌, Bool, true, false, ◌||◌, List, [], ◌∷◌, ◌++◌, map, arith, ◌==◌, eq_iff,
  All, Bool-cases, inl, inr,
}
use mathlib.Core.List.{map-append}
use sunbeam_charms.Dict.{contains}
use sunbeam_charms.Relations.{
  Handler, Event, can_add_handler, add_handler, add_mandatory, add_databases, base_handlers,
  k8s_handlers, api_handlers, get_mandatory_relations_not_ready,
}
use sunbeam_charms.Relations.Ready.{has_ready_handler, not_ready_iff}

abbrev pub names : List Handler → List String
names handlers = map (λ (h : Handler). h.relation_name) handlers

abbrev pub IsDistinct : List String → Type 0
IsDistinct [] = Unit
IsDistinct (x ∷ xs) = (contains x xs ≡ false) × IsDistinct xs

contains-append_one :
    (x y : String) (xs : List String) → contains x (xs ++ (y ∷ [])) ≡ (contains x xs || y == x)
unfolding contains
contains-append_one x y [] = ground arith
contains-append_one x y (z ∷ zs) = ground (arith, contains-append_one x y zs)

append_one-IsDistinct :
    (x : String) (xs : List String)
    → contains x xs ≡ false
    → IsDistinct xs
    → IsDistinct (xs ++ (x ∷ []))
unfolding contains
append_one-IsDistinct x [] h d = (refl, tt)
append_one-IsDistinct x (y ∷ ys) h d = (
  ground (arith, contains-append_one y x ys, eq_iff x y, eq_iff y x),
  append_one-IsDistinct x ys (ground arith) d.1,
)

All-append_one {ℓ} :
    {A : Type 0} (P : A → Type ℓ) (x : A) (xs : List A) → P x → All P xs → All P (xs ++ (x ∷ []))
All-append_one P x [] h a = (h, tt)
All-append_one P x (y ∷ ys) h a = (a.0, All-append_one P x ys h a.1)

module _ (relations mandatory databases : List String) (is_ready : String → Bool) where
  -- One handler for each relation, each for a relation of the metadata, and mandatory only if the
  -- relation is.
  pub record IsValid (handlers : List Handler) : Type 0 where
    pub distinct : IsDistinct (names handlers)
    pub declared :
        All
          (λ (h : Handler).
            (contains h.relation_name relations ≡ true)
            × (h.mandatory ≡ true → contains h.relation_name mandatory ≡ true))
          handlers

  add_handler-IsValid :
      (name : String) (required : Bool) (handlers : List Handler)
      → (required ≡ true → contains name mandatory ≡ true)
      → IsValid handlers
      → IsValid (add_handler relations mandatory databases is_ready name required handlers)
  unfolding add_handler can_add_handler
  add_handler-IsValid name required handlers r v =
      elim (Bool-cases (can_add_handler relations name handlers)) [
        | inr e ↦ rw e v
        | inl e ↦ rw e (record {
          distinct =
              rw map-append (append_one-IsDistinct name (names handlers) (ground arith) v.distinct);
          declared = All-append_one _ _ handlers ((ground arith), r) v.declared;
        })
      ]

  add_mandatory-IsValid :
      (name : String) (handlers : List Handler)
      → IsValid handlers
      → IsValid (add_mandatory relations mandatory databases is_ready name handlers)
  unfolding add_mandatory
  add_mandatory-IsValid name handlers v =
      add_handler-IsValid name (contains name mandatory) handlers (λ h. h) v

  add_databases-IsValid :
      (dbs : List String) (handlers : List Handler)
      → IsValid handlers
      → IsValid (add_databases relations mandatory databases is_ready dbs handlers)
  unfolding add_databases
  add_databases-IsValid [] handlers v = v
  add_databases-IsValid (name ∷ rest) handlers v =
      add_databases-IsValid rest _ (add_mandatory-IsValid name handlers v)

  base_handlers-IsValid :
      (handlers : List Handler)
      → IsValid handlers
      → IsValid (base_handlers relations mandatory databases is_ready handlers)
  unfolding base_handlers
  base_handlers-IsValid handlers v =
      let amqp = add_mandatory-IsValid "amqp" handlers v in
      let dbs = add_databases-IsValid databases _ amqp in
      let peers = add_handler-IsValid "peers" false _ (λ h. cc) dbs in
      let certificates = add_mandatory-IsValid "certificates" _ peers in
      let credentials = add_mandatory-IsValid "identity-credentials" _ certificates in
      let ceph = add_mandatory-IsValid "ceph-access" _ credentials in
      add_handler-IsValid "receive-ca-cert" false _ (λ h. cc) ceph

  -- The handlers that an API charm collects, over those of its subclass, are one for each relation,
  -- only for relations of the metadata, and mandatory only where the relation is, if that holds of
  -- the subclass's handlers.
  pub api_handlers-IsValid :
      (handlers : List Handler)
      → IsValid handlers
      → IsValid (api_handlers relations mandatory databases is_ready handlers)
  unfolding api_handlers k8s_handlers
  api_handlers-IsValid handlers v = base_handlers-IsValid _ (
      add_mandatory-IsValid "logging" _ (
        add_mandatory-IsValid "identity-service" _ (
          add_mandatory-IsValid "ingress-public" _
            (add_mandatory-IsValid "ingress-internal" handlers v))))

  Lacks : String → List Handler → Type 0
  Lacks r handlers = contains r (names handlers) ≡ false

  add_handler-Lacks :
      (r name : String) (required : Bool) (handlers : List Handler)
      → (name == r) ≡ false
      → Lacks r handlers
      → Lacks r (add_handler relations mandatory databases is_ready name required handlers)
  unfolding add_handler Lacks
  add_handler-Lacks r name required handlers n l =
      elim (Bool-cases (can_add_handler relations name handlers)) [
        | inr e ↦ rw e l
        | inl e ↦ rw (e, map-append) (ground (arith, contains-append_one r name (names handlers)))
      ]

  add_databases-Lacks :
      (r : String) (dbs : List String) (handlers : List Handler)
      → contains r dbs ≡ false
      → Lacks r handlers
      → Lacks r (add_databases relations mandatory databases is_ready dbs handlers)
  unfolding add_databases add_mandatory contains
  add_databases-Lacks r [] handlers n l = l
  add_databases-Lacks r (name ∷ rest) handlers n l =
      add_databases-Lacks r rest _ (ground arith)
        (add_handler-Lacks r name _ handlers (ground arith) l)

  tracing_lacking :
      (handlers : List Handler)
      → contains "tracing" databases ≡ false
      → Lacks "tracing" handlers
      → Lacks "tracing" (base_handlers relations mandatory databases is_ready handlers)
  unfolding base_handlers add_mandatory
  tracing_lacking handlers d l =
      let amqp = add_handler-Lacks "tracing" "amqp" _ handlers refl l in
      let dbs = add_databases-Lacks "tracing" databases _ d amqp in
      let peers = add_handler-Lacks "tracing" "peers" _ _ refl dbs in
      let certificates = add_handler-Lacks "tracing" "certificates" _ _ refl peers in
      let credentials = add_handler-Lacks "tracing" "identity-credentials" _ _ refl certificates in
      let ceph = add_handler-Lacks "tracing" "ceph-access" _ _ refl credentials in
      add_handler-Lacks "tracing" "receive-ca-cert" _ _ refl ceph

no_ready_handler :
    (r : String) (handlers : List Handler)
    → contains r (names handlers) ≡ false
    → has_ready_handler r handlers ≡ false
unfolding contains
no_ready_handler r [] h = refl
no_ready_handler r (k ∷ ks) h = ground (arith, no_ready_handler r ks)

-- A charm whose mandatory relations include tracing, with the base class's handlers and no database
-- of that name, has that relation not ready at every event, whatever the relation itself answers.
pub mandatory_tracing_never_ready :
    (relations mandatory databases : List String) (is_ready : String → Bool) (event : Event)
    → contains "tracing" databases ≡ false
    → contains "tracing" mandatory ≡ true
    → contains "tracing" (
        get_mandatory_relations_not_ready
          (base_handlers relations mandatory databases is_ready [])
          mandatory
          event)
      ≡ true
unfolding Lacks contains
mandatory_tracing_never_ready relations mandatory databases is_ready event d m =
    let handlers = base_handlers relations mandatory databases is_ready [] in
    let lacking =
      no_ready_handler "tracing" handlers
        (tracing_lacking relations mandatory databases is_ready [] d refl) in
    not_ready_iff "tracing" handlers mandatory event ∙ rw (m, lacking)
