-- ===== src/Text/Strip.antt =====
-- Texts that stripping leaves as they are, and splitting what was joined.
use Prim.Native.Char.{Char, code}
use Prim.Native.String.{◌++◌}
use text.Mathlib.TextLemmas.{append-nil, nil-append, cons-append, cons-ne-nil}
use sunbeam_charms.Prelude.{
  ℕ, String, ◌≡◌, ◌≢◌, refl, ap, ◌∙◌, Bool, false, ◌||◌, List, [], ◌∷◌, All, arith, nat_eq, eq_iff,
}
use sunbeam_charms.Text.{join, split, has_char, any_char, lstrip, rstrip}
use sunbeam_charms.Text.Parts.{split-append, split-no_char}

pub any_char-has_char : (a : ℕ) (s : String) → any_char (λ c. nat_eq c a) s ≡ has_char a s
unfolding any_char has_char
any_char-has_char a String.[] = refl
any_char-has_char a (String.◌∷◌ c s) = rw (any_char-has_char a s) refl

pub any_char-append :
    (t : ℕ → Bool) (s r : String) → any_char t (s ++ r) ≡ (any_char t s || any_char t r)
unfolding any_char
any_char-append t String.[] r = rw nil-append refl
any_char-append t (String.◌∷◌ c s) r = rw cons-append (ground (arith, any_char-append t s r))

pub append-ne-nil : (s r : String) → r ≢ "" → s ++ r ≢ ""
append-ne-nil String.[] r h = rw nil-append h
append-ne-nil (String.◌∷◌ c s) r h = rw cons-append (cons-ne-nil c (s ++ r))

module _ (t : ℕ → Bool) where
  pub lstrip-append : (s r : String) → s ≢ "" → any_char t s ≡ false → lstrip t (s ++ r) ≡ s ++ r
  unfolding lstrip any_char
  lstrip-append String.[] r ne h = absurd (ne refl)
  lstrip-append (String.◌∷◌ c s) r ne h = rw cons-append (ground arith)

  pub lstrip_none : (s : String) → any_char t s ≡ false → lstrip t s ≡ s
  unfolding lstrip any_char
  lstrip_none String.[] h = refl
  lstrip_none (String.◌∷◌ c s) h = ground arith

  pub rstrip_none : (s : String) → any_char t s ≡ false → rstrip t s ≡ s
  unfolding rstrip any_char
  rstrip_none String.[] h = refl
  rstrip_none (String.◌∷◌ c s) h = ground (arith, rstrip_none s)

  rstrip-append : (s r : String) → r ≢ "" → rstrip t r ≡ r → rstrip t (s ++ r) ≡ s ++ r
  unfolding rstrip
  rstrip-append String.[] r ne h = rw nil-append h
  rstrip-append (String.◌∷◌ c s) r ne h =
      rw cons-append
        (rw (rstrip-append s r ne h) (ground (arith, append-ne-nil s r, eq_iff (s ++ r) "")))

  -- Pieces that are not empty and hold no character to strip.
  abbrev pub AllFree : List String → Type 0
  AllFree ps = All (λ p. (p ≢ "") × (any_char t p ≡ false)) ps

  pub join-ne-nil : (sep p : String) (ps : List String) → AllFree (p ∷ ps) → join sep (p ∷ ps) ≢ ""
  unfolding join
  join-ne-nil sep p [] h = h.0.0
  join-ne-nil sep p (q ∷ ps) h = append-ne-nil p _ (append-ne-nil sep _ (join-ne-nil sep q ps h.1))

  pub rstrip-join :
      (sep p : String) (ps : List String)
      → AllFree (p ∷ ps)
      → rstrip t (join sep (p ∷ ps)) ≡ join sep (p ∷ ps)
  unfolding join
  rstrip-join sep p [] h = rstrip_none p h.0.1
  rstrip-join sep p (q ∷ ps) h =
      let ne = join-ne-nil sep q ps h.1 in
      rstrip-append p _ (append-ne-nil sep _ ne) (rstrip-append sep _ ne (rstrip-join sep q ps h.1))

  pub lstrip-join :
      (sep p : String) (ps : List String)
      → AllFree (p ∷ ps)
      → lstrip t (join sep (p ∷ ps)) ≡ join sep (p ∷ ps)
  unfolding join
  lstrip-join sep p [] h = rw (← append-nil p) (lstrip-append p "" h.0.0 h.0.1)
  lstrip-join sep p (q ∷ ps) h = lstrip-append p _ h.0.0 h.0.1

-- A character in front, as a text of its own.
pub one-append : (c : Char) (s : String) → String.◌∷◌ c String.[] ++ s ≡ String.◌∷◌ c s
one-append c s = cons-append c "" s ∙ ap (String.◌∷◌ c) (nil-append s)

-- Splitting what was joined gives the parts.
pub split-join :
    (sep : Char) (p : String) (ps : List String)
    → All (λ q. has_char (code sep) q ≡ false) (p ∷ ps)
    → split (code sep) (join (String.◌∷◌ sep String.[]) (p ∷ ps)) ≡ p ∷ ps
unfolding join
split-join sep p [] h = split-no_char (code sep) p h.0
split-join sep p (q ∷ ps) h =
    ap (λ r. split (code sep) (p ++ r)) (one-append sep _)
    ∙ (split-append sep p _ h.0 ∙ ap (◌∷◌ p) (split-join sep q ps h.1))
