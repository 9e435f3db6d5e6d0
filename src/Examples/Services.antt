-- ===== src/Examples/Services.antt =====
-- Annotations and load balancers at concrete inputs.
use sunbeam_charms.Prelude.{
  ℕ, String, ◌≡◌, ◌↔◌, ◌||◌, refl, true, false, none, some, List, [], ◌∷◌, All, all_of,
  if◌then◌else◌, nat_eq,
}
use sunbeam_charms.Text.{Unicode, lower, has_char, any_char}
use sunbeam_charms.Dict.{Dict, IsUnique, lookup}
use sunbeam_charms.Exec.{ok}
use sunbeam_charms.Status.{StatusBase, unknown_status, blocked_status}
use sunbeam_charms.Regex.{between}
use sunbeam_charms.Balancer.Annotations.{
  is_qualified_name, entry_is_valid, parse_annotations, validate_annotation_key,
  validate_annotation_value,
}
use sunbeam_charms.Balancer.Annotations.Names.{IsQualified, is_qualified_name-IsQualified}
use sunbeam_charms.Balancer.Annotations.Valid.{IsAnnotation, parse_annotations-IsAnnotation}
use sunbeam_charms.Balancer.Annotations.Written.{
  IsPlainEntry, write_annotations, parse_annotations-write_annotations,
}
use sunbeam_charms.Balancer.Service.{Cluster, LoadBalancer, reconcile_lb}
use sunbeam_charms.Balancer.Reconciled.{Documented, Leaves, balancer_with, reconcile_lb-written}

-- The tables of the characters of ASCII.
abbrev pub ascii : Unicode
ascii = record {
  is_word =
      λ c. between b'a' b'z' c || (between b'A' b'Z' c || (between b'0' b'9' c || nat_eq c b'_'));
  is_space = λ c. between 9 13 c || (between 28 31 c || nat_eq c b' ');
  lower = lower;
}

is_qualified_name-IsQualified_example :
    (is_qualified_name "example.com/pool" ≡ true) ↔ IsQualified "example.com/pool"
is_qualified_name-IsQualified_example = is_qualified_name-IsQualified "example.com/pool"

-- Two dashes in a prefix are accepted.
two_dashes : is_qualified_name "a--b/x" ≡ true
unfolding is_qualified_name
two_dashes = refl

abbrev pools : Dict String
pools = ("example.com/Pool", "external-1") ∷ ("zone", "b") ∷ []

parse_annotations-IsAnnotation_example : IsUnique pools × All (IsAnnotation ascii) pools
unfolding parse_annotations lower
parse_annotations-IsAnnotation_example =
    parse_annotations-IsAnnotation ascii (some " example.com/Pool = external-1,,zone=b, ") pools
      refl

pools-IsPlain : All (IsPlainEntry ascii) pools
unfolding has_char any_char
pools-IsPlain = (
  (((λ e. cc), refl, refl, refl), ((λ e. cc), refl, refl, refl)),
  ((((λ e. cc), refl, refl, refl), ((λ e. cc), refl, refl, refl)), tt),
)

parse_annotations-write_annotations_example :
    parse_annotations ascii (some (write_annotations pools)) ≡ some pools
unfolding lookup validate_annotation_key validate_annotation_value lower
parse_annotations-write_annotations_example =
    parse_annotations-write_annotations ascii pools refl pools-IsPlain (refl, (refl, tt)) refl

-- A cluster that holds the charm's load balancers, and a leader.
record State : Type 0 where
  config : Dict String
  held : List (LoadBalancer ℕ)
  status : StatusBase

abbrev cluster : Cluster State ℕ
cluster = record {
  app_name = "rabbitmq";
  model_name = "openstack";
  service_ports = 5672 ∷ [];
  config = λ s. s.config;
  is_leader = λ s. true;
  set_status = λ status s. record s { status = status };
  reconcile = λ xs s. (ok tt, record s { held = xs });
  delete = λ s. (ok tt, record s { held = [] });
  get = λ name s. (ok (record { status = none }), s);
  is_api_error = λ e. false;
}

abbrev documented : Documented cluster
documented = record {
  held = λ s. s.held;
  status = λ s. s.status;
  set_status_status = λ st s. refl;
  reconcile_ok = λ xs s. refl;
  reconcile_holds = λ xs s. refl;
  reconcile_status = λ xs s. refl;
}

-- One entry of the annotations is valid, the other is not.
abbrev mixed : Dict String
mixed = ("example.com/Pool", "external-1") ∷ ("-zone", "b") ∷ []

abbrev asked : State
asked = record {
  config = ("loadbalancer_annotations", "example.com/Pool=external-1,-zone=b") ∷ [];
  held = [];
  status = unknown_status;
}

mixed-IsPlain : All (IsPlainEntry ascii) mixed
unfolding has_char any_char
mixed-IsPlain = (
  (((λ e. cc), refl, refl, refl), ((λ e. cc), refl, refl, refl)),
  ((((λ e. cc), refl, refl, refl), ((λ e. cc), refl, refl, refl)), tt),
)

reconcile_lb-written_example :
    let valid = all_of (entry_is_valid ascii) mixed in
    Leaves cluster documented
      (reconcile_lb ascii cluster asked)
      (if valid then balancer_with cluster mixed ∷ [] else [])
      (if valid
        then unknown_status
        else blocked_status "Invalid config value 'loadbalancer_annotations'")
unfolding lookup
reconcile_lb-written_example =
    reconcile_lb-written ascii cluster documented mixed asked refl
      (unfold write_annotations lookup in refl) refl mixed-IsPlain (refl, (refl, tt))

mixed_refused : all_of (entry_is_valid ascii) mixed ≡ false
unfolding validate_annotation_key validate_annotation_value lower
mixed_refused = refl
