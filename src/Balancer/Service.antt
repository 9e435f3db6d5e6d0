-- ===== src/Balancer/Service.antt =====
-- ops-sunbeam/ops_sunbeam/k8s_resource_handlers.py, KubernetesLoadBalancerHandler: the service that
-- is created, patched and removed, and the address that the cluster gave to it.
use sunbeam_charms.Prelude.{String, Bool, Option, none, some, List, [], ◌∷◌, if◌then◌else◌, is_some}
use sunbeam_charms.Text.{Unicode, concat}
use sunbeam_charms.Dict.{Dict, lookup}
use sunbeam_charms.Exec.{Exc, Exec, Action, Result, ok, raised}
use sunbeam_charms.Status.{StatusBase, blocked_status}
use sunbeam_charms.Balancer.Annotations.{parse_annotations}

-- A Kubernetes service as the handler constructs it, with the ports of the charm.
pub record LoadBalancer (Port : Type 0) : Type 0 where
  pub name : String
  pub namespace : String
  pub labels : Dict String
  pub annotations : Option (Dict String)
  pub ports : List Port
  pub selector : Dict String

-- What is read of a service that the cluster holds: the ingress addresses of its status, if it has
-- them; an address may have no ip.
pub record Found : Type 0 where
  pub status : Option (Option (Option (List (Option String))))

-- The charm, and the managers of lightkube and of its extensions.
pub record Cluster (S Port : Type 0) : Type 0 where
  pub app_name : String
  pub model_name : String
  pub service_ports : List Port
  pub config : S → Dict String
  pub is_leader : S → Bool
  pub set_status : StatusBase → S → S
  pub reconcile : List (LoadBalancer Port) → Action S
  pub delete : Action S
  pub get : String → Exec S Found
  pub is_api_error : Exc → Bool

unfoldable pub lb_name : {S Port : Type 0} → Cluster S Port → String
unfolding concat
lb_name k = concat (k.app_name ∷ "-lb" ∷ [])

module _ {S Port : Type 0} (u : Unicode) (k : Cluster S Port) where
  unfoldable pub loadbalancer_annotations : S → Option (Dict String)
  unfolding parse_annotations lookup
  loadbalancer_annotations s = parse_annotations u (lookup "loadbalancer_annotations" (k.config s))

  unfoldable pub construct_lb : S → LoadBalancer Port
  unfolding lb_name loadbalancer_annotations
  construct_lb s = record {
    name = lb_name k;
    namespace = k.model_name;
    labels = ("app.kubernetes.io/name", k.app_name) ∷ [];
    annotations = loadbalancer_annotations s;
    ports = k.service_ports;
    selector = ("app.kubernetes.io/name", k.app_name) ∷ [];
  }

  abbrev refuse : S → S
  refuse s = k.set_status (blocked_status "Invalid config value 'loadbalancer_annotations'") s

  unfoldable pub reconcile_lb : Action S
  unfolding construct_lb loadbalancer_annotations
  reconcile_lb s =
      if k.is_leader s
      then if is_some (loadbalancer_annotations s)
        then k.reconcile (construct_lb s ∷ []) s
        else k.reconcile [] (refuse s)
      else (ok tt, s)

  unfoldable pub on_remove : Action S
  on_remove s = if k.is_leader s then k.delete s else (ok tt, s)

-- `svc.status.loadBalancer.ingress[0].ip`, where each may be missing.
abbrev pub first_ip : Option (Option (Option (List (Option String)))) → Option String
first_ip none = none
first_ip (some none) = none
first_ip (some (some none)) = none
first_ip (some (some (some []))) = none
first_ip (some (some (some (ip ∷ others)))) = ip

-- `functools.cache`: the first answer is kept in the state for the rest of the hook.
module _ {S Port : Type 0} (k : Cluster S Port) (cached : S → Option (Option String))
    (remember : Option String → S → S) where
  abbrev answer : Option String → S → Result (Option String) × S
  answer ip s = (ok ip, remember ip s)

  abbrev pub fetched : Result Found × S → Result (Option String) × S
  fetched (ok svc, s) = answer (first_ip svc.status) s
  fetched (raised e, s) = if k.is_api_error e then answer none s else (raised e, s)

  abbrev pub unless_cached : Option (Option String) → Exec S (Option String)
  unless_cached (some ip) s = (ok ip, s)
  unless_cached none s = fetched (k.get (lb_name k) s)

  unfoldable pub get_loadbalancer_ip : Exec S (Option String)
  unfolding lb_name
  get_loadbalancer_ip s = unless_cached (cached s) s
