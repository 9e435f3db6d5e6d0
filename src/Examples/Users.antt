-- ===== src/Examples/Users.antt =====
-- A user that is rotated, at concrete inputs.
use Prim.Native.Char.{code}
use text.Mathlib.TextLemmas.{cons-ne-nil}
use sunbeam_charms.Prelude.{
  String, Bool, ◌≡◌, refl, ap, ◌∙◌, true, false, not, ◌&&◌, ◌||◌, Option, none, some, List, [], ◌∷◌,
  ◌++◌, nat_eq, ◌==◌, if◌then◌else◌, eq_refl, eq_iff, arith,
}
use sunbeam_charms.Text.{put_first}
use sunbeam_charms.Dict.{Dict, insert, lookup, update, contains, lookup-insert, lookup-update}
use sunbeam_charms.Exec.{Result, ok, raised, other_error}
use sunbeam_charms.Users.{
  User, Host, Request, Ops, create_user_request, before_user, op, user_params, label, config_label,
  same_content, Response, get_config_credentials, old_users, process_create_user_response,
  process_delete_user_response, deleted_users,
}
use sunbeam_charms.Keystone.Requests.{Tools, Value, string, sanitize_params}
use sunbeam_charms.Users.Requested.{create_user_request-opened}
use sunbeam_charms.Users.Rotated.{
  Documented, process_create_user_response-rotates, process_delete_user_response-keeps,
}

-- The data of the application, and the secrets by their ids.
record State : Type 0 where
  app : Dict String
  secrets : Dict (Dict String)

-- Lists of names as texts: a mark before each character, and one after each name.
written_name : String → String → String
written_name String.[] rest = String.◌∷◌ "0" rest
written_name (String.◌∷◌ c s) rest = String.◌∷◌ "1" (String.◌∷◌ c (written_name s rest))

pub names : List String → String
unfolding written_name
names [] = ""
names (x ∷ xs) = written_name x (names xs)

abbrev pub dumps : List String → String
dumps xs = String.◌∷◌ "[" (names xs)

unfoldable pub read_names : String → List String
read_names String.[] = []
read_names (String.◌∷◌ m String.[]) = "" ∷ []
read_names (String.◌∷◌ m (String.◌∷◌ c s)) =
    let next = read_names (String.◌∷◌ c s) in
    let rest = read_names s in if nat_eq (code m) b'0' then "" ∷ next else put_first c rest

abbrev pub loads : String → List String
loads String.[] = []
loads (String.◌∷◌ c s) = read_names s

read_names-written_name : (x rest : String) → read_names (written_name x rest) ≡ x ∷ read_names rest
unfolding read_names written_name
read_names-written_name String.[] String.[] = refl
read_names-written_name String.[] (String.◌∷◌ c s) = refl
read_names-written_name (String.◌∷◌ c x) rest = ap (put_first c) (read_names-written_name x rest)

pub read_names-names : (xs : List String) → read_names (names xs) ≡ xs
unfolding names read_names
read_names-names [] = refl
read_names-names (x ∷ xs) = read_names-written_name x (names xs) ∙ ap (◌∷◌ x) (read_names-names xs)

abbrev found_content : Option (Dict String) → Result (Dict String)
found_content none = raised (other_error "SecretNotFound")
found_content (some c) = ok c

abbrev content : State → String → Result (Dict String)
content s id = found_content (lookup id s.secrets)

abbrev host : Host State
host = record {
  leader_get = λ k s. lookup k s.app;
  leader_set = λ d s. (ok tt, record s { app = update s.app d });
  is_leader = λ s. true;
  random_string = λ n s. (ok "random", s);
  add_secret =
      λ c label rotate s. (ok (some label), record s { secrets = insert label c s.secrets });
  get_content = λ id s. (content s id, s);
  set_content = λ id c s. (ok tt, record s { secrets = insert id c s.secrets });
  grant = λ id s. (ok tt, s);
  request_ops = λ r s. (ok tt, s);
  callback = λ s. (ok tt, s);
  hash = λ ops. "hash";
  dumps = dumps;
  loads = loads;
}

reads_back :
    (id : String) (c : Dict String) (s : State)
    → content (record s { secrets = insert id c s.secrets }) id ≡ ok c
reads_back id c s =
    ap found_content (lookup-insert id id c s.secrets)
    ∙ ap (λ b. found_content (if b then some c else lookup id s.secrets)) (eq_refl id)

documented : Documented host
documented = record {
  content = content;
  reads = λ id s. refl;
  sets = λ id c s. refl;
  content_set = reads_back;
  leader_get_set_content = λ k id c s. refl;
  leader_sets = λ d s. refl;
  leader_get_set = λ k d s. lookup-update k d s.app;
  content_leader_set = λ id d s. refl;
  loads-dumps = read_names-names;
  dumps_not_empty = λ xs. ground (arith, eq_iff (dumps xs) "", cons-ne-nil "[" (names xs));
}

-- The user that the charm asked for, and the one that its configuration names.
abbrev user : User
user = record {
  username = "heat";
  params = [];
  domain = "heat";
  role = none;
  add_suffix = true;
  rotate = "monthly";
  extra_ops = [];
}

abbrev pending : State
pending = record {
  app = ("user-identity-resource-heat", "1") ∷ ("configure-credential-heat", "2") ∷ [];
  secrets =
      ("1", ("username", "heat-new") ∷ ("password", "n") ∷ [])
      ∷ ("2", ("username", "heat-old") ∷ ("password", "o") ∷ [])
      ∷ [];
}

abbrev succeeded : Response
succeeded = record {
  tag = some "create_user_heat";
  ops = record { is_zero = true; value = none } ∷ [];
}

process_create_user_response-rotates_example :
    let (result, t) = process_create_user_response user host succeeded pending in
    (result ≡ ok tt)
    × (get_config_credentials user host t ≡ (ok (some ("heat-new", "n")), t))
    × ((n : String)
        → contains n (old_users user host t)
          ≡ (contains n (old_users user host pending) || ("heat-old" == n)))
unfolding lookup label documented config_label same_content
process_create_user_response-rotates_example =
    process_create_user_response-rotates user host documented "1" "heat-new" "n" "2" "heat-old" "o"
      pending succeeded refl (refl, refl, refl) (refl, refl, refl) refl

abbrev listing : State
listing = record { app = ("old_users", dumps ("heat-old" ∷ "heat-older" ∷ [])) ∷ []; secrets = [] }

abbrev one_deleted : Response
one_deleted = record {
  tag = some "delete_user_heat";
  ops =
      record { is_zero = true; value = some (some "heat-old") }
      ∷ record { is_zero = false; value = none }
      ∷ [];
}

process_delete_user_response-keeps_example :
    let (result, t) = process_delete_user_response user host one_deleted listing in
    (result ≡ ok tt)
    × ((n : String)
        → contains n (old_users user host t)
          ≡ (contains n (old_users user host listing) && not (contains n ("heat-old" ∷ []))))
unfolding deleted_users
process_delete_user_response-keeps_example =
    process_delete_user_response-keeps user host documented listing one_deleted ("heat-old" ∷ [])
      refl

-- The tools of the charm of Keystone, which reads the same secret.
abbrev tools : Tools State Bool String
tools = record {
  method = λ name. raised (other_error "no method");
  render = λ t context. ok t;
  get_content = host.get_content;
  is_model_error = λ e. true;
  repr = λ e. "error";
  null = false;
}

abbrev sent : State
sent = record {
  app = ("user-identity-resource-heat", "secret://1") ∷ [];
  secrets = ("secret://1", ("username", "heat-new") ∷ ("password", "n") ∷ []) ∷ [];
}

abbrev resolved : Dict (Value Bool)
resolved = ("name", string "heat-new") ∷ ("password", string "n") ∷ []

create_user_request-opened_example :
    ((request : Request) × (later : Ops) × (create_user_request user host sent ≡ (ok request, sent))
      × (request.ops
          ≡ before_user user host
            ++ op user host "create_user" (user_params user host "heat-new" "secret://1") ∷ later))
    × ((lookup "name" resolved ≡ some (string "heat-new"))
        × (lookup "password" resolved ≡ some (string "n")))
unfolding lookup label documented sanitize_params sunbeam_charms.Dict.remove
create_user_request-opened_example =
    create_user_request-opened user host documented tools "secret://1" "heat-new" "n" resolved sent
      sent sent (refl, refl, refl) refl refl refl refl
