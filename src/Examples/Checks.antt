-- ===== src/Examples/Checks.antt =====
-- Schedules and clean-ups of tempest, urls, and groups of settings at concrete inputs.
use mathlib.Core.Path.{subst}
use sunbeam_charms.Prelude.{
  ℕ, ◌+◌, String, ◌≡◌, ◌⊎◌, refl, sym, true, false, not, some, List, [], ◌∷◌, map, keep, All, arith,
  ◌==◌, eq_iff, ◌∙◌, Bool-cases, inl, inr,
}
use sunbeam_charms.Dict.{Dict, contains}
use sunbeam_charms.Exec.{ok, raised, Exec, Action, other_error}
use sunbeam_charms.Tempest.Schedule.{Croniter, Schedule, validated_schedule}
use sunbeam_charms.Tempest.Cleanup.{Resource, Connection, is_test, cleanup_users}
use sunbeam_charms.Tempest.Cleanup.Kept.{cleanup_users-keeps}
use sunbeam_charms.Tempest.Schedule.Sampled.{IsSampled, validated_schedule-IsSampled}

-- A schedule that runs every hour, whatever it says.
abbrev hourly : Croniter ℕ
hourly = record {
  start = λ s. ok 0;
  get_next = λ k. (some (k + 3600), k + 3600);
  bad_length = "columns";
}

abbrev each_hour : Schedule
each_hour = record {
  value = "0 * * * *";
  valid = true;
  err = "";
  max_interval = 3600;
  min_interval = 3600;
}

validated_schedule-IsSampled_example :
    (◌≡◌ {A = String} "0 * * * *" "")
    ⊎ ((k : ℕ) × (hourly.start "0 * * * *" ≡ ok k) × IsSampled hourly each_hour k)
unfolding validated_schedule
validated_schedule-IsSampled_example =
    validated_schedule-IsSampled hourly "0 * * * *" each_hour refl refl

abbrev fails : String → Action ℕ
fails project s = (raised (other_error "no"), s + 1)

abbrev nothing_listed : {A : Type 0} → Exec (List String) (List A)
nothing_listed s = (ok [], s)

abbrev as_user : String → Resource
as_user name = record { id = name; name = name }

-- A cloud that holds the names of its users.
abbrev cloud : Connection (List String)
cloud = record {
  servers = λ _ s. nothing_listed s;
  delete_server = λ _ s. (ok tt, s);
  keypairs = λ s. nothing_listed s;
  delete_keypair = λ _ s. (ok tt, s);
  snapshots = λ _ s. nothing_listed s;
  delete_snapshot = λ _ s. (ok tt, s);
  volumes = λ _ s. nothing_listed s;
  delete_volume = λ _ s. (ok tt, s);
  images = λ s. nothing_listed s;
  delete_image = λ _ s. (ok tt, s);
  routers = λ _ s. nothing_listed s;
  unset_gateway = λ _ s. (ok tt, s);
  ports = λ _ s. nothing_listed s;
  remove_interface = λ _ _ s. (ok tt, s);
  delete_router = λ _ s. (ok tt, s);
  networks = λ _ s. nothing_listed s;
  delete_network = λ _ s. (ok tt, s);
  stacks = λ _ s. nothing_listed s;
  delete_stack = λ _ s. (ok tt, s);
  projects = λ _ s. nothing_listed s;
  delete_project = λ _ s. (ok tt, s);
  users = λ _ s. (ok (map as_user s), s);
  delete_user = λ name s. (ok tt, keep (λ n. not (n == name)) s);
  is_endpoint_not_found = λ e. false;
  is_unauthorized = λ e. false;
}

abbrev SameName : Resource → Type 0
SameName u = u.id ≡ u.name

all_named : (names : List String) → All SameName (map as_user names)
all_named [] = tt
all_named (n ∷ ns) = (refl, all_named ns)

contains-keep :
    (name other : String) (names : List String)
    → (other == name) ≡ false
    → contains other names ≡ true
    → contains other (keep (λ n. not (n == name)) names) ≡ true
unfolding contains
contains-keep name other [] h k = ground arith
contains-keep name other (n ∷ ns) h k =
    ground (arith, contains-keep name other ns h, eq_iff n name, eq_iff n other, eq_iff other name)

stays :
    (u : Resource) (names : List String)
    → SameName u
    → is_test u.name ≡ true
    → contains "admin" names ≡ true
    → contains "admin" (keep (λ n. not (n == u.id)) names) ≡ true
stays u names same test h = contains-keep u.id "admin" names other h
  where
    impossible : is_test "admin" ≡ true → ("admin" == u.id) ≡ false
    impossible h = cc

    other : ("admin" == u.id) ≡ false
    other = elim (Bool-cases ("admin" == u.id)) [
      | inl e ↦
          impossible
            (subst (λ n. is_test n ≡ true) (sym same ∙ sym ((eq_iff "admin" u.id).0 e)) test)
      | inr e ↦ e
    ]

cleanup_users-keeps_example :
    contains "admin" (cleanup_users cloud "default" [] ("tempest-a" ∷ "admin" ∷ [])).1 ≡ true
unfolding contains
cleanup_users-keeps_example =
    cleanup_users-keeps cloud (λ s. contains "admin" s ≡ true) SameName "default" []
      ("tempest-a" ∷ "admin" ∷ []) (λ s i. (all_named s, i))
      (λ u s same test excluded i. stays u s same test i) refl

abbrev credentials : Dict (List String)
credentials = ("credentials", "san_login" ∷ "san_password" ∷ []) ∷ []
