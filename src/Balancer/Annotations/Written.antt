-- ===== src/Balancer/Annotations/Written.antt =====
-- ops-sunbeam/ops_sunbeam/k8s_resource_handlers.py: annotations written as the configuration has
-- them, "key1=value1,key2=value2", and read again.
use Prim.Native.Char.{Char}
use Prim.Native.String as Str
use mathlib.Core.List.{append-nil, append_assoc}
use text.Mathlib.TextLemmas.{cons-ne-nil}
use sunbeam_charms.Prelude.{
  ℕ, String, ◌≡◌, ◌≢◌, refl, sym, ap, ◌∙◌, Bool, true, false, none, some, List, [], ◌∷◌, ◌++◌, map,
  All, All-map, all_of, arith, ◌==◌, eq_iff, if◌then◌else◌,
}
use sunbeam_charms.Text.{Unicode, strip, join, rstrip, has_char, any_char}
use sunbeam_charms.Text.Parts.{after_char-append, until_char-append}
use sunbeam_charms.Text.Strip.{
  any_char-has_char, any_char-append, lstrip_none, rstrip_none, append-ne-nil, rstrip-join,
  lstrip-join, split-join, join-ne-nil, AllFree,
}
use sunbeam_charms.Dict.{Dict, insert, lookup, IsUnique}
use sunbeam_charms.Balancer.Annotations.{is_comma, parse_pairs, entry_is_valid, parse_annotations}

abbrev equals : Char
equals = "="

abbrev comma : Char
comma = ","

abbrev pub written : String × String → String
written (k, v) = Str.◌++◌ k (String.◌∷◌ equals v)

unfoldable pub write_annotations : Dict String → String
unfolding join
write_annotations d = join "," (map written d)

module _ (u : Unicode) where
  -- Not empty, and with no space, comma or sign of equality.
  abbrev pub IsPlain : String → Type 0
  IsPlain s =
      (s ≢ "")
      × (has_char b',' s ≡ false)
      × (has_char b'=' s ≡ false)
      × (any_char u.is_space s ≡ false)

  abbrev pub IsPlainEntry : String × String → Type 0
  IsPlainEntry (k, v) = IsPlain k × IsPlain v

  strip-IsPlain : (s : String) → IsPlain s → strip u s ≡ s
  unfolding strip
  strip-IsPlain s (ne, c, q, h) =
      ap (rstrip u.is_space) (lstrip_none u.is_space s h) ∙ rstrip_none u.is_space s h

  -- What is not under a key in either list is new in both.
  IsNew : Dict String → Dict String → Type 0
  IsNew e d = All (λ x. lookup x.0 e ≡ none) d

  insert_new :
      (k v : String) (e : Dict String) → lookup k e ≡ none → insert k v e ≡ e ++ (k, v) ∷ []
  unfolding insert lookup
  insert_new k v [] h = refl
  insert_new k v ((j, w) ∷ e) h = ground (arith, insert_new k v e)

  lookup-append :
      (k : String) (e d : Dict String)
      → lookup k e ≡ none
      → lookup k d ≡ none
      → lookup k (e ++ d) ≡ none
  unfolding lookup
  lookup-append k [] d h g = g
  lookup-append k ((j, w) ∷ e) d h g = ground (arith, lookup-append k e d)

  IsNew-next :
      (k v : String) (e d : Dict String)
      → lookup k d ≡ none
      → IsNew e d
      → IsNew (e ++ (k, v) ∷ []) d
  unfolding lookup IsNew
  IsNew-next k v e [] h n = tt
  IsNew-next k v e ((j, w) ∷ d) h n = (
    lookup-append j e _ n.0 (ground (arith, eq_iff j k, eq_iff k j)),
    IsNew-next k v e d (ground arith) n.1,
  )

  written-not_empty : (k v : String) → (written (k, v) == "") ≡ false
  written-not_empty k v =
      ground (arith, eq_iff (written (k, v)) "", append-ne-nil k _ (cons-ne-nil equals v))

  parse_pairs-written :
      (d e : Dict String)
      → All IsPlainEntry d
      → IsUnique d
      → IsNew e d
      → parse_pairs u (map written d) e ≡ some (e ++ d)
  unfolding parse_pairs IsNew
  parse_pairs-written [] e p q n = rw append-nil refl
  parse_pairs-written ((k, v) ∷ d) e p q n = rw (written-not_empty k v) (
      rw (after_char-append b'=' k v equals refl p.0.0.2) (
        rw (until_char-append b'=' k v equals refl p.0.0.2) (
          rw (strip-IsPlain k p.0.0, strip-IsPlain v p.0.1, insert_new k v e n.0)
            (parse_pairs-written d (e ++ (k, v) ∷ []) p.1 q.1 (IsNew-next k v e d q.0 n.1)
              ∙ ap some (append_assoc e ((k, v) ∷ []) d)))))

  IsNew-empty : (d : Dict String) → IsNew [] d
  unfolding IsNew lookup
  IsNew-empty [] = tt
  IsNew-empty (x ∷ d) = (refl, IsNew-empty d)

  written-free :
      (t : ℕ → Bool) (k v : String)
      → t b'=' ≡ false
      → any_char t k ≡ false
      → any_char t v ≡ false
      → any_char t (written (k, v)) ≡ false
  unfolding any_char
  written-free t k v h f g = rw (any_char-append t k (String.◌∷◌ equals v)) (ground arith)

  spaces-AllFree :
      (d : Dict String)
      → u.is_space b'=' ≡ false
      → All IsPlainEntry d
      → AllFree u.is_space (map written d)
  spaces-AllFree [] h p = tt
  spaces-AllFree ((k, v) ∷ d) h p = (
    (append-ne-nil k _ (cons-ne-nil equals v), written-free u.is_space k v h p.0.0.3 p.0.1.3),
    spaces-AllFree d h p.1,
  )

  commas-AllFree : (d : Dict String) → All IsPlainEntry d → AllFree is_comma (map written d)
  commas-AllFree [] p = tt
  commas-AllFree ((k, v) ∷ d) p = (
    (
      append-ne-nil k _ (cons-ne-nil equals v),
      written-free is_comma k v refl (any_char-has_char b',' k ∙ p.0.0.1)
          (any_char-has_char b',' v ∙ p.0.1.1),
    ),
    commas-AllFree d p.1,
  )

  no_comma : (ps : List String) → AllFree is_comma ps → All (λ q. has_char b',' q ≡ false) ps
  no_comma ps h = All-map ps (λ q f. sym (any_char-has_char b',' q) ∙ f.1) h

  join-not_empty :
      (p : String) (ps : List String)
      → AllFree is_comma (p ∷ ps)
      → (join "," (p ∷ ps) == "") ≡ false
  join-not_empty p ps h =
      ground (arith, eq_iff (join "," (p ∷ ps)) "", join-ne-nil is_comma "," p ps h)

  -- Whatever plain entries are written, they are read as they were if all are valid, and refused if
  -- not.
  pub parse_annotations-written :
      (d : Dict String)
      → u.is_space b'=' ≡ false
      → All IsPlainEntry d
      → IsUnique d
      → parse_annotations u (some (write_annotations d))
        ≡ (if all_of (entry_is_valid u) d then some d else none)
  unfolding parse_annotations write_annotations strip
  parse_annotations-written [] h p q = refl
  parse_annotations-written ((k, v) ∷ d) h p q =
      let pieces = map written ((k, v) ∷ d) in
      let free = spaces-AllFree ((k, v) ∷ d) h p in
      let no_commas = commas-AllFree ((k, v) ∷ d) p in
      rw (join-not_empty (written (k, v)) (map written d) no_commas) (
        rw (lstrip-join u.is_space "," (written (k, v)) (map written d) free) (
          rw (rstrip-join u.is_space "," (written (k, v)) (map written d) free) (
            rw (rstrip-join is_comma "," (written (k, v)) (map written d) no_commas) (
              rw (split-join comma (written (k, v)) (map written d) (no_comma pieces no_commas))
                (rw (parse_pairs-written ((k, v) ∷ d) [] p q (IsNew-empty ((k, v) ∷ d))) refl)))))

  -- Annotations that are written as key=value with commas between them are read as they were, if
  -- the sign of equality is no white space, each key stands once, all entries are valid, and no key
  -- or value is empty or has white space, a comma or a sign of equality.
  pub parse_annotations-write_annotations :
      (d : Dict String)
      → u.is_space b'=' ≡ false
      → All IsPlainEntry d
      → IsUnique d
      → all_of (entry_is_valid u) d ≡ true
      → parse_annotations u (some (write_annotations d)) ≡ some d
  parse_annotations-write_annotations d h p q a = parse_annotations-written d h p q ∙ rw a refl
