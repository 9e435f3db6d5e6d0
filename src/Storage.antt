-- ===== src/Storage.antt =====
-- ops-sunbeam/ops_sunbeam/storage.py: the validators of a storage backend's configuration.
use sunbeam_charms.Prelude.{
  String, ◌≡◌, ◌↔◌, ◌⊎◌, inl, inr, refl, Bool, true, false, not, Option, none, some, List, [], ◌∷◌,
  ◌++◌, keep, is_empty, arith, if◌then◌else◌, All, Bool-cases,
}
use sunbeam_charms.Text.{contains_text, concat}
use sunbeam_charms.Dict.{Dict, lookup}
use sunbeam_charms.Exec.{Result, ok, raised, value_error}

-- A group of fields that is set in part: its name and what is missing and set.
pub record GroupError : Type 0 where
  pub group_name : String
  pub missing_fields : List String
  pub set_fields : List String

appended : (xs ys : List GroupError) → xs ++ ys ≡ [] → (xs ≡ []) × (ys ≡ [])
appended [] ys h = (refl, h)
appended (x ∷ xs) ys h = cc

-- `is_set` tells whether a field of the model is not None.
module _ (is_set : String → Bool) where
  abbrev missing : List String → List String
  missing fields = keep (λ f. not (is_set f)) fields

  abbrev group_error : String → List String → List GroupError
  group_error name fields =
      if is_empty (keep is_set fields)
      then []
      else if is_empty (missing fields)
      then []
      else record {
        group_name = name;
        missing_fields = missing fields;
        set_fields = keep is_set fields;
      }
        ∷ []

  -- The errors that are raised together; none is a model that is accepted.
  unfoldable pub group_validator : Dict (List String) → List GroupError
  group_validator [] = []
  group_validator ((name, fields) ∷ groups) = group_error name fields ++ group_validator groups

  -- A group is complete if its fields are all set, or none is.
  abbrev pub IsComplete : String × List String → Type 0
  IsComplete (name, fields) = All (λ f. is_set f ≡ true) fields ⊎ All (λ f. is_set f ≡ false) fields

  all_set :
      (fields : List String) → is_empty (missing fields) ≡ true → All (λ f. is_set f ≡ true) fields
  all_set [] h = tt
  all_set (f ∷ fs) h = elim (Bool-cases (is_set f)) [
    | inl e ↦ (e, all_set fs (ground arith))
    | inr e ↦ ground arith
  ]

  none_set :
      (fields : List String)
      → is_empty (keep is_set fields) ≡ true
      → All (λ f. is_set f ≡ false) fields
  none_set [] h = tt
  none_set (f ∷ fs) h = elim (Bool-cases (is_set f)) [
    | inl e ↦ ground arith
    | inr e ↦ (e, none_set fs (ground arith))
  ]

  no_missing :
      (fields : List String) → All (λ f. is_set f ≡ true) fields → is_empty (missing fields) ≡ true
  no_missing [] h = refl
  no_missing (f ∷ fs) h = ground (arith, no_missing fs h.1, h.0)

  no_set :
      (fields : List String)
      → All (λ f. is_set f ≡ false) fields
      → is_empty (keep is_set fields) ≡ true
  no_set [] h = refl
  no_set (f ∷ fs) h = ground (arith, no_set fs h.1, h.0)

  complete : (p : String × List String) → group_error p.0 p.1 ≡ [] → IsComplete p
  complete (name, fields) h = elim (Bool-cases (is_empty (keep is_set fields))) [
    | inl e ↦ inr (none_set fields e)
    | inr e ↦ elim (Bool-cases (is_empty (missing fields))) [
      | inl f ↦ inl (all_set fields f)
      | inr f ↦ ground arith
    ]
  ]

  no_error : (p : String × List String) → IsComplete p → group_error p.0 p.1 ≡ []
  no_error (name, fields) (inl a) = elim (Bool-cases (is_empty (keep is_set fields))) [
    | inl e ↦ rw e refl
    | inr e ↦ rw e (rw (no_missing fields a) refl)
  ]
  no_error (name, fields) (inr a) = rw (no_set fields a) refl

  -- The validator of the groups accepts a model just where the fields of each group are all set or
  -- all unset.
  pub group_validator-IsComplete :
      (groups : Dict (List String)) → (group_validator groups ≡ []) ↔ All IsComplete groups
  unfolding group_validator
  group_validator-IsComplete [] = (λ h. tt, λ h. refl)
  group_validator-IsComplete ((name, fields) ∷ groups) = (
    λ h. (
      complete (name, fields) (appended _ _ h).0,
      (group_validator-IsComplete groups).0 ((appended _ _ h).1),
    ),
    λ a. rw (no_error (name, fields) a.0) ((group_validator-IsComplete groups).1 a.1),
  )

-- `_validator` of secret_validator, of a secret's content; `is_blank` is `not value.strip()`.
abbrev present : (String → Bool) → String → Option String → Result String
present is_blank key none =
    raised (value_error (concat ("Secret must contain non-empty '" ∷ key ∷ "' field" ∷ [])))
present is_blank key (some v) =
    if is_blank v
    then raised (value_error (concat ("Secret must contain non-empty '" ∷ key ∷ "' field" ∷ [])))
    else ok v

unfoldable pub secret_validator : (String → Bool) → String → Dict String → Result String
unfolding concat
secret_validator is_blank key content = present is_blank key (lookup key content)

-- `has_expired` tells, of a certificate, whether it has expired, or None where it cannot be read.
-- What is raised inside the `try`, the expiry as well, becomes the last message.
abbrev pub current : Option Bool → Bool
current none = false
current (some expired) = not expired

unfoldable pub certificate_validator :
    (String → Option Bool) → Option String → Result (Option String)
unfolding contains_text
certificate_validator has_expired none = ok none
certificate_validator has_expired (some certificate) =
    if not (contains_text "-----BEGIN CERTIFICATE-----" certificate)
    then raised (value_error "Certificate must be PEM formatted")
    else if current (has_expired certificate)
    then ok (some certificate)
    else raised (value_error "Invalid certificate format")
