-- ===== src/Clusterd/Client.antt =====
-- charms/sunbeam-clusterd/src/clusterd.py: the client of the daemon's HTTP interface.
pub mod Errors
use sunbeam_charms.Prelude.{
  ℕ, ◌≤◌, ◌<◌, String, ◌≡◌, Bool, true, false, ◌&&◌, ◌||◌, Option, none, some, List, [], ◌∷◌,
  nat_eq, ◌==◌, if◌then◌else◌,
}
use sunbeam_charms.Text.{concat, contains_text, strip_slash}
use sunbeam_charms.Exec.{
  Response, Exc, Result, ok, raised, Exec, Action, unavailable, http_error, connection_error,
  value_error, continue, ◌>>=◌, ◌>>◌, pure, raise, handle, try◌except◌, skip,
}

pub data Method : Type 0 where
  get post put delete : Method

-- A request: its method, the path below the socket, the body that is sent as text, and the fields
-- that are sent as JSON.
pub record Request : Type 0 where
  pub method : Method
  pub path : String
  pub text : String
  pub fields : List (String × String)

-- A member of the cluster as the daemon lists it.
pub record Member : Type 0 where
  pub name : String
  pub role : String

-- What belongs to the library `requests`: the session, which may raise a connection error or an
-- HTTP error; `raise_for_status`, with the text of the error if there is one, which there is
-- exactly for the codes from 400 to 599; and the JSON document of a response: the text of the error
-- if its body is none, and the metadata in it.
pub record Http (W : Type 0) : Type 0 where
  pub send : Request → Exec W Response
  pub status_error : Response → Option String
  pub json_error : Response → Option String
  pub json_members : Response → Result (List Member)
  pub json_metadata : Response → Result String

-- `response.json()`
abbrev pub json_document : Option String → Response → Result Response
json_document none r = ok r
json_document (some m) r = raised (value_error m)

-- The message of `raise_for_status`, as an exception.
abbrev pub raise_for_status : Option String → Response → Result Response
raise_for_status none r = ok r
raise_for_status (some m) r = raised (http_error m (some r))

abbrev socket_not_found : String
socket_not_found =
    "Sunbeam Cluster socket not found, is clusterd running ? Check with 'snap services openstack.clusterd'"

-- The `except` clauses of `_request`.
unfoldable pub translate_error : Exc → Exc
unfolding contains_text
translate_error (connection_error msg) =
    if contains_text "FileNotFoundError" msg then unavailable socket_not_found else unavailable msg
translate_error (http_error m (some r)) =
    if nat_eq r.status_code 503 then unavailable m else http_error m (some r)
translate_error e = e

-- A failed response to a request, as the clauses below test it.
abbrev pub is_status : ℕ → Response → Bool
is_status code r = nat_eq r.status_code code

abbrev pub closed_anyway : Response → Bool
closed_anyway r = contains_text "but connection was closed anyway" r.body

-- `not_found` of `remove_node`, for a response of code 500.
unfoldable pub remote_not_found : String → Response → Bool
remote_not_found name r =
    is_status 500 r
    && (contains_text "No remote exists with the given name" r.body
        || (contains_text "No dqlite cluster member exists with the given name" r.body
            || contains_text (concat ("cluster/1.0/cluster/" ∷ name ∷ [])) r.body))

unfoldable pub find_member : String → List Member → Result Member
find_member name [] = raised (value_error (concat ("Member " ∷ name ∷ " not found" ∷ [])))
find_member name (m ∷ rest) = if m.name == name then ok m else find_member name rest

module _ {W : Type 0} where
  abbrev pub false_if_unavailable : Exc → Exec W Bool
  false_if_unavailable (unavailable m) = pure false
  false_if_unavailable e = raise e

module _ {W : Type 0} (http : Http W) where
  unfoldable pub request : Request → Exec W Response
  request req = do
    r ←
        try http.send (record req { path = strip_slash req.path })
        except (λ e. raise (translate_error e))
    (λ w. (raise_for_status (http.status_error r) r, w))
    (λ w. (json_document (http.json_error r) r, w))

  abbrev pub call : Method → String → String → List (String × String) → Exec W Response
  call method path text fields =
      request (record { method = method; path = path; text = text; fields = fields })

  unfoldable pub ready : Exec W Bool
  ready = try (do call get "/core/1.0/ready" "" []; pure true) except false_if_unavailable

  abbrev ignore_closed : Exc → Action W
  ignore_closed (http_error m (some r)) =
      if is_status 500 r && closed_anyway r then skip else raise (http_error m (some r))
  ignore_closed e = raise e

  unfoldable pub shutdown : Action W
  shutdown = try (do call post "/core/control/shutdown" "" []; skip) except ignore_closed

  unfoldable pub bootstrap : String → String → Action W
  bootstrap name address = do
    call post "/core/control" ""
        (("bootstrap", "true") ∷ ("address", address) ∷ ("name", name) ∷ [])
    skip

  unfoldable pub join : String → String → String → Action W
  join name address token = do
    call post "core/control" "" (("join_token", token) ∷ ("address", address) ∷ ("name", name) ∷ [])
    skip

  unfoldable pub get_members : Exec W (List Member)
  get_members = do r ← call get "/core/1.0/cluster" "" []; (λ w. (http.json_members r, w))

  unfoldable pub get_member : String → Exec W Member
  get_member name = do members ← get_members; (λ w. (find_member name members, w))

  unfoldable pub ignore_not_found : String → Bool → Exc → Action W
  ignore_not_found name allow_not_found (http_error m (some r)) =
      if (is_status 404 r || remote_not_found name r) && allow_not_found
      then skip
      else raise (http_error m (some r))
  ignore_not_found name allow_not_found e = raise e

  unfoldable pub remove_node : String → Bool → Bool → Action W
  remove_node name force allow_not_found =
      try (do
        call delete
            (concat ("/core/1.0/cluster/" ∷ name ∷ "?force=" ∷ (if force then "1" else "0") ∷ []))
            "" []
        skip)
      except ignore_not_found name allow_not_found

  unfoldable pub generate_token : String → Exec W String
  generate_token name = do
    r ← call post "/core/control/tokens" "" (("name", name) ∷ [])
    (λ w. (http.json_metadata r, w))

  -- The certificate authority goes to the configuration, the certificate and key to the cluster.
  unfoldable pub set_certs : String → String → String → Action W
  set_certs ca cert key = do
    call put "/1.0/config/cluster-ca" ca []
    call put "/core/1.0/cluster/certificates/cluster" "" (("cert", cert) ∷ ("key", key) ∷ [])
    skip
