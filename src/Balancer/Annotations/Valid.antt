-- ===== src/Balancer/Annotations/Valid.antt =====
-- ops-sunbeam/ops_sunbeam/k8s_resource_handlers.py: what annotations are accepted.
use mathlib.Core.Path.{subst}
use Prim.Native.String.{count}
use sunbeam_charms.Prelude.{
  String, ◌≡◌, ◌≤◌, true, false, ◌&&◌, Option, none, some, List, [], ◌∷◌, inl, inr, Bool-cases, All,
  all_of, arith, ◌==◌,
}
use sunbeam_charms.Text.{Unicode, strip, has_prefix, after_char, split, rstrip}
use sunbeam_charms.Dict.{Dict, IsUnique, insert-IsUnique}
use sunbeam_charms.Regex.{codes, LineMatches}
use sunbeam_charms.Regex.Correct.{matches_line-LineMatches}
use sunbeam_charms.Balancer.Annotations.{
  annotation_value_pattern, validate_annotation_key, validate_annotation_value, is_comma, add_pair,
  then_pairs, parse_pairs, entry_is_valid, validated, parse_annotations,
}
use sunbeam_charms.Balancer.Annotations.Names.{IsQualified, is_qualified_name-IsQualified}

module _ (u : Unicode) where
  -- The key is short, is a qualified name if it is written in small letters, and has no prefix that
  -- is reserved; the value matches the pattern.
  abbrev pub IsAnnotation : String × String → Type 0
  IsAnnotation (k, v) =
      (count k ≤ 253)
      × IsQualified (u.lower k)
      × (has_prefix "kubernetes.io/" k ≡ false)
      × (has_prefix "k8s.io/" k ≡ false)
      × LineMatches (annotation_value_pattern u) (codes v)

  entry-IsAnnotation :
      (k v : String)
      → (validate_annotation_key u k && validate_annotation_value u v) ≡ true
      → IsAnnotation (k, v)
  unfolding validate_annotation_key validate_annotation_value
  entry-IsAnnotation k v h = (
    ground arith,
    (is_qualified_name-IsQualified (u.lower k)).0 (ground arith),
    ground arith,
    ground arith,
    (matches_line-LineMatches (annotation_value_pattern u) (codes v)).0 (ground arith),
  )

  entries-IsAnnotation : (d : Dict String) → all_of (entry_is_valid u) d ≡ true → All IsAnnotation d
  entries-IsAnnotation [] h = tt
  entries-IsAnnotation ((k, v) ∷ d) h =
      (entry-IsAnnotation k v (ground arith), entries-IsAnnotation d (ground arith))

  abbrev IsUniqueIfSome : Option (Dict String) → Type 0
  IsUniqueIfSome none = Unit
  IsUniqueIfSome (some d) = IsUnique d

  then_pairs-IsUnique :
      (f : Dict String → Option (Dict String)) (pair : String) (o : Option String) (d : Dict String)
      → ((e : Dict String) → IsUnique e → IsUniqueIfSome (f e))
      → IsUnique d
      → IsUniqueIfSome (then_pairs u f (add_pair u pair o d))
  then_pairs-IsUnique f pair none d k h = tt
  then_pairs-IsUnique f pair (some val) d k h = k _ (insert-IsUnique _ _ d h)

  parse_pairs-IsUnique :
      (pairs : List String) (d : Dict String) → IsUnique d → IsUniqueIfSome (parse_pairs u pairs d)
  unfolding parse_pairs
  parse_pairs-IsUnique [] d h = h
  parse_pairs-IsUnique (pair ∷ pairs) d h = elim (Bool-cases (pair == "")) [
    | inl e ↦ rw e (parse_pairs-IsUnique pairs d h)
    | inr e ↦ rw e (
        then_pairs-IsUnique (parse_pairs u pairs) pair (after_char b'=' pair) d
          (λ d'. parse_pairs-IsUnique pairs d') h)
  ]

  abbrev IsAccepted : Option (Dict String) → Type 0
  IsAccepted none = Unit
  IsAccepted (some d) = IsUnique d × All IsAnnotation d

  validated-IsAccepted : (o : Option (Dict String)) → IsUniqueIfSome o → IsAccepted (validated u o)
  validated-IsAccepted none h = tt
  validated-IsAccepted (some d) h = elim (Bool-cases (all_of (entry_is_valid u) d)) [
    | inl t ↦ rw t (h, entries-IsAnnotation d t)
    | inr t ↦ rw t tt
  ]

  parse_annotations-IsAccepted :
      (annotations : Option String) → IsAccepted (parse_annotations u annotations)
  unfolding parse_annotations
  parse_annotations-IsAccepted none = (tt, tt)
  parse_annotations-IsAccepted (some s) =
      let parts = split b',' (rstrip is_comma (strip u s)) in
      elim (Bool-cases (s == "")) [
        | inl e ↦ rw e (tt, tt)
        | inr e ↦
            rw e (validated-IsAccepted (parse_pairs u parts []) (parse_pairs-IsUnique parts [] tt))
      ]

  -- Annotations that are accepted have no key twice, and each has a key of at most 253 characters
  -- that is a qualified name when it is written in small letters and begins with no reserved
  -- prefix, and a value that matches the pattern of values.
  pub parse_annotations-IsAnnotation :
      (annotations : Option String) (d : Dict String)
      → parse_annotations u annotations ≡ some d
      → IsUnique d × All IsAnnotation d
  parse_annotations-IsAnnotation annotations d h =
      subst IsAccepted h (parse_annotations-IsAccepted annotations)
