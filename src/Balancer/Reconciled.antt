-- ===== src/Balancer/Reconciled.antt =====
-- ops-sunbeam/ops_sunbeam/k8s_resource_handlers.py: what the cluster holds after the handler ran.
use mathlib.Core.Path.{subst}
use sunbeam_charms.Prelude.{
  String, ◌≡◌, refl, ◌∙◌, true, false, Option, none, some, List, [], ◌∷◌, Bool-cases, inl, inr,
  all_of, All, ap, if◌then◌else◌,
}
use sunbeam_charms.Exec.{Result, ok, raised, Done}
use sunbeam_charms.Dict.{Dict, lookup, IsUnique}
use sunbeam_charms.Status.{StatusBase, blocked_status}
use sunbeam_charms.Balancer.Annotations.{parse_annotations, entry_is_valid}
use sunbeam_charms.Balancer.Annotations.Written.{
  write_annotations, IsPlainEntry, parse_annotations-written,
}
use sunbeam_charms.Text.{Unicode, concat}
use sunbeam_charms.Balancer.Service.{
  Cluster, LoadBalancer, loadbalancer_annotations, construct_lb, reconcile_lb, lb_name,
  get_loadbalancer_ip, unless_cached, fetched, Found,
}

-- What Juju and the manager of the resources document: setting a status sets the unit's status, and
-- `reconcile` leaves just the given resources under its labels and the status as it was.
pub record Documented {S Port : Type 0} (k : Cluster S Port) : Type 0 where
  pub held : S → List (LoadBalancer Port)
  pub status : S → StatusBase
  pub set_status_status : (st : StatusBase) (s : S) → status (k.set_status st s) ≡ st
  pub reconcile_ok : (xs : List (LoadBalancer Port)) (s : S) → (k.reconcile xs s).0 ≡ ok tt
  pub reconcile_holds : (xs : List (LoadBalancer Port)) (s : S) → held ((k.reconcile xs s).1) ≡ xs
  pub reconcile_status :
      (xs : List (LoadBalancer Port)) (s : S) → status ((k.reconcile xs s).1) ≡ status s

-- The load balancer of a charm with these annotations.
abbrev pub balancer_with : {S Port : Type 0} → Cluster S Port → Dict String → LoadBalancer Port
balancer_with k d = record {
  name = concat (k.app_name ∷ "-lb" ∷ []);
  namespace = k.model_name;
  labels = ("app.kubernetes.io/name", k.app_name) ∷ [];
  annotations = some d;
  ports = k.service_ports;
  selector = ("app.kubernetes.io/name", k.app_name) ∷ [];
}

-- What a run leaves: it returns, and this is held in the cluster and this is the unit's status.
abbrev pub Leaves :
    {S Port : Type 0} (k : Cluster S Port) (d : Documented k) (r : Done × S)
    → List (LoadBalancer Port)
    → StatusBase
    → Type 0
Leaves k d r balancers st = (r.0 ≡ ok tt) × (d.held r.1 ≡ balancers) × (d.status r.1 ≡ st)

module _ {S Port : Type 0} (u : Unicode) (k : Cluster S Port) (d : Documented k) where
  reconcile_lb-parsed :
      (annotations : Dict String) (s : S)
      → k.is_leader s ≡ true
      → parse_annotations u (lookup "loadbalancer_annotations" (k.config s)) ≡ some annotations
      → Leaves k d (reconcile_lb u k s) (balancer_with k annotations ∷ []) (d.status s)
  unfolding reconcile_lb construct_lb loadbalancer_annotations lb_name
  reconcile_lb-parsed annotations s l e =
      rw l (rw e (d.reconcile_ok _ s, d.reconcile_holds _ s, d.reconcile_status _ s))

  reconcile_lb-refused :
      (s : S)
      → k.is_leader s ≡ true
      → parse_annotations u (lookup "loadbalancer_annotations" (k.config s)) ≡ none
      → Leaves k d
          (reconcile_lb u k s)
          []
          (blocked_status "Invalid config value 'loadbalancer_annotations'")
  unfolding reconcile_lb loadbalancer_annotations
  reconcile_lb-refused s l e = rw l (
      rw e (
        d.reconcile_ok _ _,
        d.reconcile_holds _ _,
        d.reconcile_status _ _ ∙ d.set_status_status _ s,
      ))

  -- If Juju and the manager of the resources work as documented, and the leader's configuration has
  -- annotations written as key=value with commas between them, where the sign of equality is no
  -- white space, each key stands once, and no key or value is empty or has white space, a comma or
  -- a sign of equality, then the handler returns; if all entries are valid, the cluster holds the
  -- charm's load balancer with just these annotations, and the status is as it was; if not, it
  -- holds none, and the unit is blocked.
  pub reconcile_lb-written :
      (annotations : Dict String) (s : S)
      → k.is_leader s ≡ true
      → lookup "loadbalancer_annotations" (k.config s) ≡ some (write_annotations annotations)
      → u.is_space b'=' ≡ false
      → All (IsPlainEntry u) annotations
      → IsUnique annotations
      → let valid = all_of (entry_is_valid u) annotations in
        Leaves k d (reconcile_lb u k s) (if valid then balancer_with k annotations ∷ [] else []) (
          if valid
          then d.status s
          else blocked_status "Invalid config value 'loadbalancer_annotations'")
  reconcile_lb-written annotations s l c h p q =
      let parsed = ap (parse_annotations u) c ∙ parse_annotations-written u annotations h p q in
      elim (Bool-cases (all_of (entry_is_valid u) annotations)) [
        | inl e ↦ rw e (reconcile_lb-parsed annotations s l (parsed ∙ rw e refl))
        | inr e ↦ rw e (reconcile_lb-refused s l (parsed ∙ rw e refl))
      ]

module _ {S Port : Type 0} (k : Cluster S Port) (cached : S → Option (Option String))
    (remember : Option String → S → S) where
  -- The cache has what was answered.
  abbrev IsKept : Result (Option String) × S → Type 0
  IsKept (ok ip, t) = cached t ≡ some ip
  IsKept (raised e, t) = Unit

  abbrev pub Remembers : Type 0
  Remembers = (ip : Option String) (s : S) → cached (remember ip s) ≡ some ip

  fetched-IsKept : (r : Result Found × S) → Remembers → IsKept (fetched k cached remember r)
  fetched-IsKept (ok svc, s) h = h _ s
  fetched-IsKept (raised e, s) h = elim (Bool-cases (k.is_api_error e)) [
    | inl a ↦ rw a (h none s)
    | inr a ↦ rw a tt
  ]

  unless_cached-IsKept :
      (o : Option (Option String)) (s : S)
      → Remembers
      → cached s ≡ o
      → IsKept (unless_cached k cached remember o s)
  unless_cached-IsKept none s h c = fetched-IsKept (k.get (lb_name k) s) h
  unless_cached-IsKept (some ip) s h c = c

  -- An address that was answered is answered again from any state with the same cache, and the
  -- cluster is not asked.
  pub get_loadbalancer_ip-again :
      (ip : Option String) (s t r : S)
      → Remembers
      → get_loadbalancer_ip k cached remember s ≡ (ok ip, t)
      → cached r ≡ cached t
      → get_loadbalancer_ip k cached remember r ≡ (ok ip, r)
  unfolding get_loadbalancer_ip
  get_loadbalancer_ip-again ip s t r h e c =
      rw (c ∙ subst IsKept e (unless_cached-IsKept (cached s) s h refl)) refl
