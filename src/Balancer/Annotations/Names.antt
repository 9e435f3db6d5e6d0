-- ===== src/Balancer/Annotations/Names.antt =====
-- ops-sunbeam/ops_sunbeam/k8s_resource_handlers.py: which names are qualified.
use mathlib.Core.Path.{subst}
use Prim.Native.Char.{Char}
use Prim.Native.String.{count, ◌++◌}
use text.Mathlib.TextLemmas.{nil-append, cons-append}
use sunbeam_charms.Prelude.{
  String, ◌≡◌, ◌≢◌, ◌⊎◌, ◌↔◌, ◌≤◌, refl, ap, ◌∙◌, true, false, List, [], ◌∷◌, inl, inr, All, arith,
  eq_iff,
}
use sunbeam_charms.Text.{join, split, has_char}
use sunbeam_charms.Text.Parts.{split-Free, join-split, split-append, split-no_char}
use sunbeam_charms.Regex.{codes, LineMatches}
use sunbeam_charms.Regex.Correct.{matches_line-LineMatches}
use sunbeam_charms.Balancer.Annotations.{
  qualified_name_pattern, dns1123_subdomain_pattern, name_is_valid, prefix_is_valid,
  parts_are_valid, is_qualified_name,
}

abbrev pub IsName : String → Type 0
IsName n = (n ≢ "") × (count n ≤ 63) × LineMatches qualified_name_pattern (codes n)

abbrev pub IsPrefix : String → Type 0
IsPrefix p = (p ≢ "") × LineMatches dns1123_subdomain_pattern (codes p)

abbrev slash : Char
slash = "/"

-- A name with no slash, or a prefix and a name with one slash between them.
abbrev pub IsQualified : String → Type 0
IsQualified s =
    ((has_char b'/' s ≡ false) × IsName s)
    ⊎ ((p n : String) × (s ≡ p ++ String.◌∷◌ slash n)
        × (has_char b'/' p ≡ false)
        × (has_char b'/' n ≡ false)
        × IsPrefix p
        × IsName n)

name_is_valid-IsName : (n : String) → (name_is_valid n ≡ true) ↔ IsName n
name_is_valid-IsName n = (forth, back)
  where
    forth : name_is_valid n ≡ true → IsName n
    forth h = (
      ground (arith, eq_iff n ""),
      ground arith,
      (matches_line-LineMatches qualified_name_pattern (codes n)).0 (ground arith),
    )

    back : IsName n → name_is_valid n ≡ true
    back (ne, short, m) =
        let matched = (matches_line-LineMatches qualified_name_pattern (codes n)).1 m in
        ground (arith, eq_iff n "")

prefix_is_valid-IsPrefix : (p : String) → (prefix_is_valid p ≡ true) ↔ IsPrefix p
prefix_is_valid-IsPrefix p = (forth, back)
  where
    forth : prefix_is_valid p ≡ true → IsPrefix p
    forth h = (
      ground (arith, eq_iff p ""),
      (matches_line-LineMatches dns1123_subdomain_pattern (codes p)).0 (ground arith),
    )

    back : IsPrefix p → prefix_is_valid p ≡ true
    back (ne, m) =
        let matched = (matches_line-LineMatches dns1123_subdomain_pattern (codes p)).1 m in
        ground (arith, eq_iff p "")

-- What is accepted of the parts is so of the text that they make.
parts-IsQualified :
    (parts : List String)
    → All (λ p. has_char b'/' p ≡ false) parts
    → parts_are_valid parts ≡ true
    → IsQualified (join "/" parts)
unfolding join
parts-IsQualified [] a h = absurd (ground arith)
parts-IsQualified (n ∷ []) a h = inl (a.0, (name_is_valid-IsName n).0 h)
parts-IsQualified (p ∷ n ∷ []) a h = inr (
  p,
  n,
  ap (◌++◌ p) (cons-append slash "" n ∙ ap (String.◌∷◌ slash) (nil-append n)),
  a.0,
  a.1.0,
  (prefix_is_valid-IsPrefix p).0 (ground arith),
  (name_is_valid-IsName n).0 (ground arith),
)
parts-IsQualified (p ∷ n ∷ o ∷ parts) a h = absurd (ground arith)

-- The names that are taken for qualified are just the names without a slash, and those with a
-- prefix and one slash, whose name is not empty, has at most 63 characters and matches its pattern,
-- and whose prefix is not empty and matches its own, where a text matches a pattern also with a
-- newline behind it.
pub is_qualified_name-IsQualified : (s : String) → (is_qualified_name s ≡ true) ↔ IsQualified s
unfolding is_qualified_name
is_qualified_name-IsQualified s = (forth, back)
  where
    forth : parts_are_valid (split b'/' s) ≡ true → IsQualified s
    forth h =
        subst IsQualified (join-split slash s)
          (parts-IsQualified (split b'/' s) (split-Free b'/' s) h)

    back : IsQualified s → parts_are_valid (split b'/' s) ≡ true
    back (inl (e, m)) = rw (split-no_char b'/' s e) ((name_is_valid-IsName s).1 m)
    back (inr (p, n, e, f, g, m, k)) = rw e (
        rw (split-append slash p n f) (
          rw (split-no_char b'/' n g)
            (rw ((prefix_is_valid-IsPrefix p).1 m, (name_is_valid-IsName n).1 k) refl)))
