-- ===== src/Keystone/Requests.antt =====
-- charms/keystone-k8s/src/charm.py: the requests of the relation identity-ops, each a list of calls
-- of the client's methods by name.
use sunbeam_charms.Prelude.{
  String, ◌≡◌, refl, sym, ap, ◌∙◌, Bool, true, false, Option, none, some, List, [], ◌∷◌, ◌++◌, map,
  if◌then◌else◌, All,
}
use sunbeam_charms.Text.{has_prefix}
use sunbeam_charms.Dict.{Dict, lookup}
use sunbeam_charms.Exec.{Exc, Exec, Action, Result, ok, raised, continue, handle, continue-ok}

-- A value of the request: a text, or anything else.
pub data Value (V : Type 0) : Type 0 where
  string : String → Value V
  other : V → Value V

pub record Op (V : Type 0) : Type 0 where
  pub name : Option String
  pub params : Dict (Value V)

-- The return codes -2, 0 and -1.
pub data Code : Type 0 where
  not_run succeeded failed : Code

-- An entry of the response; before the call it has no value.
pub record Answer (R : Type 0) : Type 0 where
  pub name : Option String
  pub return_code : Code
  pub value : Option R

-- The request and its response, which has the request's id and tag.
pub record Request (V : Type 0) : Type 0 where
  pub id : Option String
  pub tag : Option String
  pub ops : List (Op V)

pub record Response (R : Type 0) : Type 0 where
  pub id : Option String
  pub tag : Option String
  pub ops : List (Answer R)

-- What the handler calls: the client's methods by name, the templates of jinja2 over the values of
-- the calls so far, secrets, and `repr` of an exception.
pub record Tools (S V R : Type 0) : Type 0 where
  pub method : Option String → Result (Dict (Value V) → Exec S R)
  pub render : String → List (Option String × R) → Result String
  pub get_content : String → Exec S (Dict String)
  pub is_model_error : Exc → Bool
  pub repr : Exc → R
  pub null : V

abbrev pub was_run : Code → Bool
was_run not_run = false
was_run succeeded = true
was_run failed = true

module _ {S V R : Type 0} (tools : Tools S V R) where
  abbrev content_value : String → Dict String → Value V
  content_value param content = elim (lookup param content) [
    | none ↦ other tools.null
    | some t ↦ string t
  ]

  -- A value that is a secret's id becomes the secret's entry with the parameter's name. A secret
  -- that cannot be read leaves the value as it is.
  abbrev opened : String → Value V → Exec S (Value V)
  opened param (other v) s = (ok (other v), s)
  opened param (string t) s =
      if has_prefix "secret://" t
      then handle (λ e. λ u. if tools.is_model_error e then (ok (string t), u) else (raised e, u))
          (continue (λ content. λ u. (ok (content_value param content), u)) (tools.get_content t s))
      else (ok (string t), s)

  unfoldable pub sanitize_params : Dict (Value V) → Exec S (Dict (Value V))
  sanitize_params [] s = (ok [], s)
  sanitize_params ((param, v) ∷ d) s =
      continue (λ w. λ u. continue (λ rest. λ x. (ok ((param, w) ∷ rest), x)) (sanitize_params d u))
        (opened param v s)

  unfoldable pub sanitize_secrets : List (Op V) → Exec S (List (Op V))
  unfolding sanitize_params
  sanitize_secrets [] s = (ok [], s)
  sanitize_secrets (op ∷ ops) s =
      continue
        (λ d. λ u.
          continue (λ rest. λ x. (ok (record op { params = d } ∷ rest), x))
            (sanitize_secrets ops u))
        (sanitize_params op.params s)

  unfoldable pub computed_params :
      List (Option String × R) → Dict (Value V) → Result (Dict (Value V))
  computed_params context [] = ok []
  computed_params context ((k, other v) ∷ d) = elim (computed_params context d) [
    | ok rest ↦ ok ((k, other v) ∷ rest)
    | raised e ↦ raised e
  ]
  computed_params context ((k, string t) ∷ d) = elim (tools.render t context) [
    | raised e ↦ raised e
    | ok u ↦ elim (computed_params context d) [
      | ok rest ↦ ok ((k, string u) ∷ rest)
      | raised e ↦ raised e
    ]
  ]

  -- The body of the `try`: the method is looked up before its parameters are computed.
  unfoldable pub run_op : List (Option String × R) → Op V → Exec S R
  unfolding computed_params
  run_op context op s =
      continue (λ func. λ u. continue func (computed_params context op.params, u))
        (tools.method op.name, s)

  abbrev answer : Option String → Result R → Answer R
  answer name (ok r) = record { name = name; return_code = succeeded; value = some r }
  answer name (raised e) = record { name = name; return_code = failed; value = some (tools.repr e) }

  abbrev value_of : Result R → R
  value_of (ok r) = r
  value_of (raised e) = tools.repr e

  -- The loop over the operations, with what the calls so far answered.
  unfoldable pub run_ops : List (Option String × R) → List (Op V) → S → List (Answer R) × S
  unfolding run_op
  run_ops context [] s = ([], s)
  run_ops context (op ∷ ops) s =
      let (r, t) = run_op context op s in
      let (rest, u) = run_ops (context ++ ((op.name, value_of r) ∷ [])) ops t in
      (answer op.name r ∷ rest, u)

  -- `respond` is `set_ops_response` for the relation.
  abbrev response_to : Request V → List (Answer R) → Response R
  response_to request answers = record { id = request.id; tag = request.tag; ops = answers }

  unfoldable pub handle_op_request : (Response R → Action S) → Request V → Action S
  unfolding sanitize_secrets run_ops
  handle_op_request respond request s =
      continue
        (λ clean.
          λ t. let (answers, u) = run_ops [] clean t in respond (response_to request answers) u)
        (sanitize_secrets request.ops s)

  answer_lem :
      (name : Option String) (r : Result R)
      → ((answer name r).name ≡ name) × (was_run (answer name r).return_code ≡ true)
  answer_lem name (ok r) = (refl, refl)
  answer_lem name (raised e) = (refl, refl)

  run_ops-was_run :
      (context : List (Option String × R)) (ops : List (Op V)) (s : S)
      → (map (λ a. a.name) (run_ops context ops s).0 ≡ map (λ o. o.name) ops)
        × All (λ a. was_run a.return_code ≡ true) (run_ops context ops s).0
  unfolding run_ops
  run_ops-was_run context [] s = (refl, tt)
  run_ops-was_run context (op ∷ ops) s =
      let (r, t) = run_op context op s in
      let (same, run) = run_ops-was_run (context ++ ((op.name, value_of r) ∷ [])) ops t in
      let (name, done) = answer_lem op.name r in (rw (name, same) refl, (done, run))

  abbrev names_of : Result (List (Op V)) → List (Option String)
  names_of (ok ops) = map (λ o. o.name) ops
  names_of (raised e) = []

  map-sanitize_secrets :
      (ops : List (Op V)) (s t : S) (clean : List (Op V))
      → sanitize_secrets ops s ≡ (ok clean, t)
      → map (λ o. o.name) clean ≡ map (λ o. o.name) ops
  unfolding sanitize_secrets
  map-sanitize_secrets [] s t clean h = ap (λ (r : Result (List (Op V)) × S). names_of r.0) (sym h)
  map-sanitize_secrets (op ∷ ops) s t clean h =
      let (d, u, params, rest_run) = continue-ok _ (sanitize_params op.params s) h in
      let (rest, x, others, end) = continue-ok _ (sanitize_secrets ops u) rest_run in
      ap (λ (r : Result (List (Op V)) × S). names_of r.0) (sym end)
      ∙ ap (λ names. op.name ∷ names) (map-sanitize_secrets ops u x rest others)

  -- If the secrets of a request could be resolved, the response is sent with the request's id and
  -- tag and with one entry for each operation, in their order and with their names, and each of
  -- them says that its operation was run, whatever the operations before it did.
  pub handle_op_request-was_run :
      (respond : Response R → Action S) (request : Request V) (clean : List (Op V)) (s t : S)
      → sanitize_secrets request.ops s ≡ (ok clean, t)
      → (response : Response R) × (u : S) × (handle_op_request respond request s
          ≡ respond response u)
        × (response.id ≡ request.id)
        × (response.tag ≡ request.tag)
        × (map (λ a. a.name) response.ops ≡ map (λ o. o.name) request.ops)
        × All (λ a. was_run a.return_code ≡ true) response.ops
  unfolding handle_op_request
  handle_op_request-was_run respond request clean s t h =
      let (same, run) = run_ops-was_run [] clean t in
      (
        response_to request (run_ops [] clean t).0,
        (run_ops [] clean t).1,
        rw h refl,
        refl,
        refl,
        same ∙ map-sanitize_secrets request.ops s t clean h,
        run,
      )
