-- ===== src/Endpoints.antt =====
-- ops-sunbeam/ops_sunbeam/charm.py, OSBaseOperatorAPICharm: the addresses of an API service.
use sunbeam_charms.Prelude.{
  ℕ, zero, suc, String, Bool, true, false, Option, none, some, List, [], ◌∷◌, ◌==◌, if◌then◌else◌,
}
use sunbeam_charms.Text.{concat}
use sunbeam_charms.Dict.{Dict}
use sunbeam_charms.Exec.{
  Exc, Action, Result, ok, raised, waiting_error, attribute_error, key_error, continue, handle,
}

-- What `urlparse` takes a url apart into.
pub record Url : Type 0 where
  pub scheme : String
  pub netloc : String
  pub path : String
  pub params : String
  pub query : String
  pub fragment : String

-- urllib.parse: the url's parts, the text of the parts, and the port in a network location, which
-- raises for a port that is no number up to 65535; a url with an unmatched bracket has no parts.
pub record Urllib : Type 0 where
  pub urlparse : String → Result Url
  pub urlunparse : Url → String
  pub port : String → Result (Option ℕ)

abbrev pub has_port : Option ℕ → Bool
has_port none = false
has_port (some zero) = false
has_port (some (suc n)) = true

module _ (lib : Urllib) where
  abbrev pub at_port : String → Url → Url
  at_port port u = record u { netloc = concat (u.netloc ∷ port ∷ []) }

  abbrev pub with_default : Url → Url
  with_default u =
      if u.scheme == "http"
      then at_port ":80" u
      else if u.scheme == "https"
      then at_port ":443" u
      else u

  abbrev pub with_port : Url → Result (Option ℕ) → Result Url
  with_port u (raised e) = raised e
  with_port u (ok port) = ok (if has_port port then u else with_default u)

  abbrev pub unparsed : Result Url → Result String
  unparsed (raised e) = raised e
  unparsed (ok u) = ok (lib.urlunparse u)

  abbrev pub explicit : Result Url → Result String
  explicit (raised e) = raised e
  explicit (ok u) = unparsed (with_port u (lib.port u.netloc))

  unfoldable pub add_explicit_port : String → Result String
  unfolding concat
  add_explicit_port org_url = explicit (lib.urlparse org_url)

-- What the properties read: the urls of the ingress handlers, of which there may be none and which
-- may raise, the address of the binding if it has one, the service's name in the cluster's DNS, and
-- the text of the port.
pub record ApiCharm : Type 0 where
  pub ingress_internal : Option (Result (Option String))
  pub ingress_public : Result (Option String)
  pub ingress_address : Option String
  pub service_dns : String
  pub default_public_ingress_port : String

-- `if x:` for a text that may be None.
abbrev pub if_given {ℓ} : {A : Type ℓ} → Option String → (String → A) → A → A
if_given none f a = a
if_given (some t) f a = if t == "" then a else f t

-- `except (AttributeError, KeyError)`
abbrev pub is_missing : Exc → Bool
is_missing (attribute_error m) = true
is_missing (key_error m) = true
is_missing _ = false

unfoldable pub service_url : ApiCharm → String → String
unfolding concat
service_url c hostname = concat ("http://" ∷ hostname ∷ ":" ∷ c.default_public_ingress_port ∷ [])

module _ (lib : Urllib) (c : ApiCharm) where
  unfoldable pub admin_url : Result String
  unfolding add_explicit_port service_url
  admin_url =
      if_given c.ingress_address (λ address. add_explicit_port lib (service_url c address))
        (add_explicit_port lib (service_url c c.service_dns))

  abbrev ingress_or_admin : Result (Option String) → Result String
  ingress_or_admin (raised e) = raised e
  ingress_or_admin (ok url) = if_given url (add_explicit_port lib) admin_url

  -- The fallbacks of the internal url are the admin url's.
  unfoldable pub internal_url : Result String
  unfolding add_explicit_port admin_url
  internal_url = elim c.ingress_internal [ none ↦ admin_url | some r ↦ ingress_or_admin r ]

  -- The statements of the `try`, which return nothing if there is no url.
  abbrev returned : Result String → Result (Option String)
  returned (raised e) = raised e
  returned (ok url) = ok (some url)

  abbrev attempted : Result (Option String) → Result (Option String)
  attempted (raised e) = raised e
  attempted (ok url) = if_given url (λ u. returned (add_explicit_port lib u)) (ok none)

  abbrev or_internal : Result (Option String) → Result String
  or_internal (ok (some url)) = ok url
  or_internal (ok none) = internal_url
  or_internal (raised e) = if is_missing e then internal_url else raised e

  unfoldable pub public_url : Result String
  unfolding add_explicit_port internal_url
  public_url = or_internal (attempted c.ingress_public)

-- An ingress address of the load balancer, and the address of the service, from the list on the
-- load balancer's status if there is one.
pub record IngressAddress : Type 0 where
  pub hostname : Option String
  pub ip : Option String

abbrev first_address : Option (List IngressAddress) → Option String
first_address none = none
first_address (some []) = none
first_address (some (a ∷ rest)) = if_given a.hostname (λ t. some t) a.ip

unfoldable pub public_ingress_address : Option (List IngressAddress) → Option String → Result String
public_ingress_address addresses binding =
    if_given (first_address addresses) (λ a. ok a)
      (if_given binding (λ a. ok a) (raised (waiting_error "No public address found for service")))

-- `_ingress_changed`, with the handler's method if there is a handler.
module _ {S : Type 0} where
  abbrev ignored : Exc → Action S
  ignored e s = if is_missing e then (ok tt, s) else (raised e, s)

  unfoldable pub ingress_changed : Option (Action S) → Action S → Action S
  ingress_changed none configure_charm s = configure_charm s
  ingress_changed (some update_service_endpoints) configure_charm s =
      continue (λ _. configure_charm) (handle ignored (update_service_endpoints s))

-- `ingress_healthcheck_params`, with what a subclass overrides.
unfoldable pub ingress_healthcheck_params : String → String → String → Dict String
ingress_healthcheck_params path interval timeout =
    ("path", path) ∷ ("interval", interval) ∷ ("timeout", timeout) ∷ []
