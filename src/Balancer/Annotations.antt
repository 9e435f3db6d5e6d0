-- ===== src/Balancer/Annotations.antt =====
-- ops-sunbeam/ops_sunbeam/k8s_resource_handlers.py: the annotations of the load balancer, parsed and
-- validated.
pub mod Names
pub mod Valid
pub mod Written
use Prim.Native.Char.{code}
use Prim.Native.String.{count}
use sunbeam_charms.Prelude.{
  ℕ, String, Bool, true, false, not, ◌&&◌, ◌||◌, Option, none, some, List, [], ◌∷◌, all_of, ltb,
  nat_eq, ◌==◌, if◌then◌else◌,
}
use sunbeam_charms.Text.{Unicode, strip, has_prefix, rstrip, after_char, until_char, split}
use sunbeam_charms.Dict.{Dict, insert}
use sunbeam_charms.Regex.{
  Regex, empty, one_of, sequence, many, optional, some_of, between, codes, matches_line,
}

abbrev char : ℕ → Regex
char c = one_of (nat_eq c)

-- `[a-z0-9]` and `[-a-z0-9]`
abbrev small : ℕ → Bool
small c = between b'a' b'z' c || between b'0' b'9' c

abbrev small_or_dash : ℕ → Bool
small_or_dash c = nat_eq c b'-' || small c

-- `[A-Za-z0-9]` and `[-A-Za-z0-9_.]`
abbrev alphanumeric : ℕ → Bool
alphanumeric c = between b'A' b'Z' c || (between b'a' b'z' c || between b'0' b'9' c)

abbrev inner : ℕ → Bool
inner c = nat_eq c b'-' || (alphanumeric c || (nat_eq c b'_' || nat_eq c b'.'))

-- `[a-z0-9]([-a-z0-9]*[a-z0-9])?`
abbrev label : Regex
label = sequence (one_of small) (optional (sequence (many (one_of small_or_dash)) (one_of small)))

abbrev pub dns1123_subdomain_pattern : Regex
dns1123_subdomain_pattern = sequence label (many (sequence (char b'.') label))

abbrev pub qualified_name_pattern : Regex
qualified_name_pattern =
    sequence (one_of alphanumeric) (optional (sequence (many (one_of inner)) (one_of alphanumeric)))

abbrev pub word_character : Unicode → ℕ → Bool
word_character u c = u.is_word c || (nat_eq c b'.' || (nat_eq c b'-' || nat_eq c b'_'))

abbrev pub annotation_value_pattern : Unicode → Regex
annotation_value_pattern u = some_of (one_of (word_character u))

abbrev pub name_is_valid : String → Bool
name_is_valid name =
    not (name == "")
    && (not (ltb 63 (count name)) && matches_line qualified_name_pattern (codes name))

abbrev pub prefix_is_valid : String → Bool
prefix_is_valid prefix = not (prefix == "") && matches_line dns1123_subdomain_pattern (codes prefix)

abbrev parts_are_valid : List String → Bool
parts_are_valid [] = false
parts_are_valid (name ∷ []) = name_is_valid name
parts_are_valid (prefix ∷ name ∷ []) = prefix_is_valid prefix && name_is_valid name
parts_are_valid (prefix ∷ name ∷ other ∷ parts) = false

unfoldable pub is_qualified_name : String → Bool
unfolding split matches_line codes
is_qualified_name value = parts_are_valid (split b'/' value)

abbrev pub is_comma : ℕ → Bool
is_comma c = nat_eq c b','

module _ (u : Unicode) where
  unfoldable pub validate_annotation_key : String → Bool
  unfolding is_qualified_name
  validate_annotation_key key =
      not (ltb 253 (count key))
      && (is_qualified_name (u.lower key)
          && not (has_prefix "kubernetes.io/" key || has_prefix "k8s.io/" key))

  unfoldable pub validate_annotation_value : String → Bool
  unfolding matches_line codes
  validate_annotation_value value = matches_line (annotation_value_pattern u) (codes value)

  -- `pair.split("=", 1)` in two; a pair without the sign is a ValueError, which is None.
  abbrev add_pair : String → Option String → Dict String → Option (Dict String)
  add_pair pair none d = none
  add_pair pair (some val) d = some (insert (strip u (until_char b'=' pair)) (strip u val) d)

  abbrev then_pairs :
      (Dict String → Option (Dict String)) → Option (Dict String) → Option (Dict String)
  then_pairs f none = none
  then_pairs f (some d) = f d

  -- The comprehension, over the pairs that are not empty.
  unfoldable pub parse_pairs : List String → Dict String → Option (Dict String)
  unfolding strip insert after_char until_char
  parse_pairs [] d = some d
  parse_pairs (pair ∷ pairs) d =
      if pair == ""
      then parse_pairs pairs d
      else then_pairs (parse_pairs pairs) (add_pair pair (after_char b'=' pair) d)

  abbrev pub entry_is_valid : String × String → Bool
  entry_is_valid (key, val) = validate_annotation_key key && validate_annotation_value val

  abbrev validated : Option (Dict String) → Option (Dict String)
  validated none = none
  validated (some d) = if all_of entry_is_valid d then some d else none

  unfoldable pub parse_annotations : Option String → Option (Dict String)
  unfolding parse_pairs strip rstrip split validate_annotation_key validate_annotation_value
  parse_annotations none = some []
  parse_annotations (some annotations) =
      if annotations == ""
      then some []
      else validated (parse_pairs (split b',' (rstrip is_comma (strip u annotations))) [])
