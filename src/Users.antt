-- ===== src/Users.antt =====
-- ops-sunbeam/ops_sunbeam/relation_handlers.py, UserIdentityResourceRequiresHandler: the user that a
-- charm has Keystone create, its credentials in secrets, and their rotation.
pub mod Rotated
pub mod Requested
use Prim.Native.String as Str
use sunbeam_charms.Prelude.{
  ℕ, String, Bool, true, false, not, ◌&&◌, Option, none, some, is_some, List, [], ◌∷◌, ◌++◌, all_of,
  is_empty, keep, map, ◌==◌, if◌then◌else◌,
}
use sunbeam_charms.Dict.{Dict, insert, lookup, remove, contains, or_else}
use sunbeam_charms.Exec.{
  Exc, Exec, Action, Result, ok, raised, other_error, key_error, attribute_error, continue, ◌>>=◌,
  ◌>>◌, pure, skip,
}
use sunbeam_charms.Endpoints.{if_given}
use sunbeam_charms.Keystone.Requests.{Op, Value, string, other}

abbrev pub Ops : Type 0
Ops = List (Op Bool)

pub record Request : Type 0 where
  pub id : String
  pub tag : String
  pub ops : Ops

-- An entry of a response: whether its return code is 0, and the name in its value, where either may
-- be missing.
pub record Entry : Type 0 where
  pub is_zero : Bool
  pub value : Option (Option String)

pub record Response : Type 0 where
  pub tag : Option String
  pub ops : List Entry

-- The handler's parameters; `params` are the given ones of name, email, description, domain, project,
-- project_domain, enable and may_exist. The extra operations are given.
pub record User : Type 0 where
  pub username : String
  pub params : Dict (Value Bool)
  pub domain : String
  pub role : Option String
  pub add_suffix : Bool
  pub rotate : String
  pub extra_ops : Ops

-- What the handler calls: the data of the application, the secrets of Juju, Python's secrets and
-- hashlib, and the relation. JSON is a pair of functions on lists of names.
pub record Host (S : Type 0) : Type 0 where
  pub leader_get : String → S → Option String
  pub leader_set : Dict String → Action S
  pub is_leader : S → Bool
  pub random_string : ℕ → Exec S String
  pub add_secret : Dict String → String → Option String → Exec S (Option String)
  pub get_content : String → Exec S (Dict String)
  pub set_content : String → Dict String → Action S
  pub grant : String → Action S
  pub request_ops : Request → Action S
  pub callback : Action S
  pub hash : Ops → String
  pub dumps : List String → String
  pub loads : String → List String

-- Two dictionaries with the same entries.
abbrev has_entry : Dict String → String × String → Bool
has_entry d (k, v) = elim (lookup k d) [ none ↦ false | some w ↦ w == v ]

unfoldable pub same_content : Dict String → Dict String → Bool
unfolding lookup
same_content c d = all_of (has_entry d) c && all_of (has_entry c) d

abbrev given : Option (Value Bool) → Option String
given none = none
given (some (string t)) = if t == "" then none else some t
given (some (other b)) = none

-- Parameters that are set if they are there.
abbrev pub if_some : {A : Type 0} → Option A → (A → Dict (Value Bool)) → Dict (Value Bool)
if_some none f = []
if_some (some a) f = f a

abbrev pub credentials : String → String → Dict String
credentials username password = ("username", username) ∷ ("password", password) ∷ []

module _ {S : Type 0} (u : User) (h : Host S) where
  unfoldable pub label : String
  label = Str.◌++◌ "user-identity-resource-" u.username

  unfoldable pub config_label : String
  config_label = Str.◌++◌ "configure-credential-" u.username

  abbrev pub create_user_tag : String
  create_user_tag = Str.◌++◌ "create_user_" u.username

  abbrev delete_user_tag : String
  delete_user_tag = Str.◌++◌ "delete_user_" u.username

  abbrev get_item : String → Dict String → Exec S String
  get_item k content s = elim (lookup k content) [
    | none ↦ (raised (key_error k), s)
    | some v ↦ (ok v, s)
  ]

  abbrev pair_of : Dict String → Exec S (String × String)
  pair_of content = do
    username ← get_item "username" content
    password ← get_item "password" content
    pure (username, password)

  -- The user's name, with a suffix if it is to be unique.
  abbrev suffixed : Exec S String
  suffixed s =
      if u.add_suffix
      then continue (λ suffix. λ t. (ok (Str.◌++◌ u.username (Str.◌++◌ "-" suffix)), t))
          (h.random_string 6 s)
      else (ok u.username, s)

  -- The name is chosen before the password.
  abbrev refresh : String → Exec S String
  refresh credentials_id = do
    username ← suffixed
    password ← h.random_string 18
    h.set_content credentials_id (credentials username password)
    pure credentials_id

  abbrev id_or_raise : Option String → Exec S String
  id_or_raise none = λ s. (raised (other_error "Secret id not set"), s)
  id_or_raise (some id) =
      λ s. if id == "" then (raised (other_error "Secret id not set"), s) else (ok id, s)

  -- The password is chosen before the name.
  abbrev create : Exec S String
  create = do
    password ← h.random_string 18
    username ← suffixed
    o ← h.add_secret (credentials username password) label (some u.rotate)
    id ← id_or_raise o
    h.leader_set ((label, id) ∷ [])
    pure id

  unfoldable pub ensure_credentials : Bool → Exec S String
  unfolding label
  ensure_credentials refresh_user s =
      if_given (h.leader_get label s) (λ id. if refresh_user then refresh id s else (ok id, s))
        (create s)

  unfoldable pub grant_ops_secret : Action S
  unfolding ensure_credentials
  grant_ops_secret = ensure_credentials false >>= (λ id. h.grant id)

  unfoldable pub get_credentials : Exec S (String × String)
  unfolding ensure_credentials lookup
  get_credentials = do id ← ensure_credentials false; content ← h.get_content id; pair_of content

  abbrev found_pair : String → Exec S (Option (String × String))
  found_pair id = do content ← h.get_content id; pair ← pair_of content; pure (some pair)

  unfoldable pub get_config_credentials : Exec S (Option (String × String))
  unfolding config_label lookup
  get_config_credentials s =
      if_given (h.leader_get config_label s) (λ id. found_pair id s) (ok none, s)

  abbrev add_config : Dict String → Exec S Bool
  add_config content = do
    o ← h.add_secret content config_label none
    id ← id_or_raise o
    h.leader_set ((config_label, id) ∷ [])
    pure true

  abbrev if_changed : String → Dict String → Dict String → Exec S Bool
  if_changed id content old s =
      if same_content old content
      then (ok false, s)
      else continue (λ _. λ t. (ok true, t)) (h.set_content id content s)

  abbrev put_config : Option String → String × String → Exec S Bool
  put_config none (username, password) = add_config (credentials username password)
  put_config (some id) (username, password) =
      h.get_content id >>= if_changed id (credentials username password)

  -- Whether the credentials for the configuration changed.
  unfoldable pub update_config_credentials : Exec S Bool
  unfolding get_credentials config_label same_content
  update_config_credentials s = (get_credentials >>= put_config (h.leader_get config_label s)) s

  abbrev role_domain : String → String → Dict (Value Bool)
  role_domain role username =
      (("role", string role)
        ∷ (if u.domain == ""
            then []
            else ("domain", string u.domain) ∷ ("user_domain", string u.domain) ∷ []))
      ++ (if_some (given (lookup "project_domain" u.params))
            (λ d. ("project_domain", string d) ∷ [])
          ++ (("user", string username) ∷ []))

  abbrev pub op : String → Dict (Value Bool) → Op Bool
  op name params = record { name = some name; params = params }

  abbrev in_project : Option String → Ops
  in_project none = []
  in_project (some project) =
      op "show_project" (
        ("name", string project)
        ∷ ("domain", string (if_given (given (lookup "project_domain" u.params)) (λ d. d) u.domain))
        ∷ [])
      ∷ op "grant_role" (
          (("project", string "{{ show_project[0].id }}")
            ∷ ("role", string "{{ create_role[0].id }}")
            ∷ ("user", string "{{ create_user[0].id }}")
            ∷ ("user_domain", string "{{ create_domain[0].id }}")
            ∷ [])
          ++ if_some (given (lookup "project_domain" u.params))
              (λ d. ("project_domain", string "{{ show_project[0].domain_id }}") ∷ []))
      ∷ []

  unfoldable pub create_role_requests : String → Ops
  unfolding lookup
  create_role_requests username =
      if_given u.role
        (λ role.
          op "grant_role" (role_domain role username)
          ∷ in_project (given (lookup "project" u.params)))
        []

  -- The secret's id stands for the password.
  abbrev pub user_params : String → String → Dict (Value Bool)
  user_params username credentials_id =
      ("name", string username) ∷ ("password", string credentials_id) ∷ remove "name" u.params

  abbrev pub before_user : Ops
  before_user =
      op "create_domain" (("name", string u.domain) ∷ ("enable", other true) ∷ [])
      ∷ if_given u.role (λ role. op "create_role" (("name", string role) ∷ []) ∷ []) []

  abbrev pub creation : String → String → Ops
  creation username credentials_id =
      before_user
      ++ (op "create_user" (user_params username credentials_id)
          ∷ (create_role_requests username ++ u.extra_ops))

  abbrev pub request_of : String → Ops → Request
  request_of tag ops = record { id = h.hash ops; tag = tag; ops = ops }

  unfoldable pub create_user_request : Exec S Request
  unfolding ensure_credentials get_credentials create_role_requests remove
  create_user_request = do
    credentials_id ← ensure_credentials false
    pair ← get_credentials
    pure (request_of create_user_tag (creation pair.0 credentials_id))

  abbrev deletion : String → Op Bool
  deletion user =
      op "delete_user"
        (("name", string user) ∷ (if u.domain == "" then [] else ("domain", string u.domain) ∷ []))

  unfoldable pub delete_user_request : List String → Request
  delete_user_request users = request_of delete_user_tag (map deletion users)

  -- `json.loads(old_users) if old_users else []`
  unfoldable pub old_users : S → List String
  old_users s = if_given (h.leader_get "old_users" s) h.loads []

  unfoldable pub add_user_to_delete_user_list : String → Action S
  unfolding old_users contains
  add_user_to_delete_user_list user s =
      if contains user (old_users s)
      then (ok tt, s)
      else h.leader_set (("old_users", h.dumps (old_users s ++ user ∷ [])) ∷ []) s

  abbrev list_old : Option (String × String) → Bool → Action S
  list_old (some (username, password)) true = add_user_to_delete_user_list username
  list_old (some (username, password)) false = skip
  list_old none updated = skip

  -- `{codes} == {0}`: there is an entry, and each has the code 0.
  abbrev pub all_succeeded : List Entry → Bool
  all_succeeded entries = not (is_empty entries) && all_of (λ (e : Entry). e.is_zero) entries

  unfoldable pub process_create_user_response : Response → Action S
  unfolding get_config_credentials update_config_credentials add_user_to_delete_user_list
  process_create_user_response response s =
      if all_succeeded response.ops
      then (do
        old ← get_config_credentials
        updated ← update_config_credentials
        list_old old updated)
          s
      else (ok tt, s)

  abbrev add_name : Option String → Result (List String) → Result (List String)
  add_name none r = r
  add_name (some n) (ok ns) = ok (n ∷ ns)
  add_name (some n) (raised e) = raised e

  abbrev add_deleted : Option (Option String) → Result (List String) → Result (List String)
  add_deleted none r = raised (attribute_error "'NoneType' object has no attribute 'get'")
  add_deleted (some name) r = add_name name r

  -- The users whose deletion had the code 0.
  unfoldable pub deleted_users : List Entry → Result (List String)
  deleted_users [] = ok []
  deleted_users (e ∷ es) =
      let rest = deleted_users es in if e.is_zero then add_deleted e.value rest else rest

  abbrev keep_others : Result (List String) → Action S
  keep_others (raised e) s = (raised e, s)
  keep_others (ok deleted) s =
      h.leader_set
        (("old_users", h.dumps (keep (λ x. not (contains x deleted)) (old_users s))) ∷ []) s

  unfoldable pub process_delete_user_response : Response → Action S
  unfolding deleted_users old_users contains
  process_delete_user_response response = keep_others (deleted_users response.ops)

  -- The events; a secret that Juju knows without a label has the empty text here.
  unfoldable pub on_secret_changed : String → Action S
  unfolding config_label
  on_secret_changed secret s = if secret == config_label then h.callback s else (ok tt, s)

  abbrev send : Exec S Request → Action S
  send m = m >>= (λ request. h.request_ops request)

  unfoldable pub on_secret_rotate : String → Action S
  unfolding label ensure_credentials create_user_request
  on_secret_rotate secret s =
      if h.is_leader s && secret == label
      then (ensure_credentials true >> send create_user_request) s
      else (ok tt, s)

  unfoldable pub on_secret_remove : String → Action S
  unfolding config_label old_users delete_user_request
  on_secret_remove secret s =
      if h.is_leader s && (secret == config_label && not (is_empty (old_users s)))
      then h.request_ops (delete_user_request (old_users s)) s
      else (ok tt, s)

  unfoldable pub on_provider_ready : Action S
  unfolding create_user_request grant_ops_secret
  on_provider_ready s =
      if h.is_leader s
      then (send create_user_request >> grant_ops_secret >> h.callback) s
      else (ok tt, s)

  abbrev is_tag : String → Option String → Bool
  is_tag t none = false
  is_tag t (some tag) = tag == t

  -- `extra` is the handler's extra_ops_process, or does nothing.
  unfoldable pub on_response_available : (Response → Action S) → Response → Action S
  unfolding process_create_user_response process_delete_user_response
  on_response_available extra response s =
      if h.is_leader s
      then ((λ t.
              if is_tag create_user_tag response.tag
              then (process_create_user_response response >> extra response) t
              else if is_tag delete_user_tag response.tag
              then process_delete_user_response response t
              else (ok tt, t))
            >> h.callback)
          s
      else (ok tt, s)

  abbrev is_found : Option (String × String) → Bool
  is_found none = false
  is_found (some pair) = true

  unfoldable pub ready : Exec S Bool
  unfolding get_config_credentials
  ready = get_config_credentials >>= (λ o. pure (is_found o))
