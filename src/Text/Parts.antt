-- ===== src/Text/Parts.antt =====
-- Splitting a text at a character and joining the parts again.
use Prim.Native.Char.{Char, code}
use Prim.Native.Nat.{compare, Ordering}
use Prim.Native.String.{◌++◌}
use text.Mathlib.TextLemmas.{nil-append, cons-append}
use text.Mathlib.TextEquality.{codes_equal}
use sunbeam_charms.Prelude.{
  ℕ, String, ◌≡◌, ◌≢◌, refl, sym, ap, ◌∙◌, true, false, some, List, [], ◌∷◌, All, arith, nat_eq,
  Bool-cases, inl, inr,
}
use sunbeam_charms.Text.{join, split, has_char, put_first, after_char, until_char}

pub split-no_char : (a : ℕ) (s : String) → has_char a s ≡ false → split a s ≡ s ∷ []
unfolding split has_char
split-no_char a String.[] h = refl
split-no_char a (String.◌∷◌ c s) h = ground (arith, split-no_char a s)

abbrev Free : ℕ → List String → Type 0
Free a ps = All (λ p. has_char a p ≡ false) ps

put_first-Free :
    (a : ℕ) (c : Char) (ps : List String)
    → nat_eq (code c) a ≡ false
    → Free a ps
    → Free a (put_first c ps)
unfolding has_char
put_first-Free a c [] e h = (ground arith, tt)
put_first-Free a c (p ∷ ps) e h = (rw e h.0, h.1)

-- No part has the character.
pub split-Free : (a : ℕ) (s : String) → Free a (split a s)
unfolding split has_char
split-Free a String.[] = (refl, tt)
split-Free a (String.◌∷◌ c s) = elim (Bool-cases (nat_eq (code c) a)) [
  | inl e ↦ rw e (refl, split-Free a s)
  | inr e ↦ rw e (put_first-Free a c (split a s) e (split-Free a s))
]

join-put_first :
    (sep : String) (c : Char) (ps : List String)
    → join sep (put_first c ps) ≡ String.◌∷◌ c (join sep ps)
unfolding join
join-put_first sep c [] = refl
join-put_first sep c (p ∷ []) = refl
join-put_first sep c (p ∷ q ∷ ps) = cons-append c p _

split-ne-nil : (a : ℕ) (s : String) → split a s ≢ []
unfolding split
split-ne-nil a String.[] h = absurd (ground arith)
split-ne-nil a (String.◌∷◌ c s) h = elim (Bool-cases (nat_eq (code c) a)) [
  | inl e ↦ absurd (cons-ne-nil (rw e at h))
  | inr e ↦ put_first-ne-nil (split a s) (rw e at h)
]
  where
    cons-ne-nil : {p : String} {ps : List String} → p ∷ ps ≢ []
    cons-ne-nil h = cc

    put_first-ne-nil : (ps : List String) → put_first c ps ≢ []
    put_first-ne-nil [] h = cc
    put_first-ne-nil (p ∷ ps) h = cc

join-empty_first :
    (sep : Char) (ps : List String)
    → ps ≢ []
    → join (String.◌∷◌ sep String.[]) ("" ∷ ps)
      ≡ String.◌∷◌ sep (join (String.◌∷◌ sep String.[]) ps)
unfolding join
join-empty_first sep [] h = absurd (h refl)
join-empty_first sep (p ∷ ps) h =
    nil-append _ ∙ (cons-append sep "" _ ∙ ap (String.◌∷◌ sep) (nil-append _))

compare_eq : (a b : ℕ) → nat_eq a b ≡ true → compare a b ≡ Ordering.eq
compare_eq a b h = ground arith

-- The parts joined are the text.
pub join-split :
    (sep : Char) (s : String) → join (String.◌∷◌ sep String.[]) (split (code sep) s) ≡ s
unfolding join split
join-split sep String.[] = refl
join-split sep (String.◌∷◌ c s) = elim (Bool-cases (nat_eq (code c) (code sep))) [
  | inl e ↦ rw e (
      join-empty_first sep _ (split-ne-nil _ s)
      ∙ (ap (String.◌∷◌ sep) (join-split sep s)
          ∙ ap (λ d. String.◌∷◌ d s) (sym (codes_equal c sep (compare_eq _ _ e)))))
  | inr e ↦ rw e (join-put_first _ c (split (code sep) s) ∙ ap (String.◌∷◌ c) (join-split sep s))
]

-- A text without the character in front of one is the first part.
pub split-append :
    (sep : Char) (x s : String)
    → has_char (code sep) x ≡ false
    → split (code sep) (x ++ String.◌∷◌ sep s) ≡ x ∷ split (code sep) s
unfolding split has_char
split-append sep String.[] s h = rw nil-append (rw (same (code sep)) refl)
  where
    same : (a : ℕ) → nat_eq a a ≡ true
    same a = ground arith
split-append sep (String.◌∷◌ c x) s h = rw cons-append (ground (arith, split-append sep x s))

-- What follows a character, and what stands before it.
pub after_char-append :
    (a : ℕ) (s rest : String) (x : Char)
    → nat_eq (code x) a ≡ true
    → has_char a s ≡ false
    → after_char a (s ++ String.◌∷◌ x rest) ≡ some rest
unfolding after_char has_char
after_char-append a String.[] rest x h n = rw (nil-append (String.◌∷◌ x rest)) (rw h refl)
after_char-append a (String.◌∷◌ d s) rest x h n =
    rw (cons-append d s (String.◌∷◌ x rest)) (ground (arith, after_char-append a s rest x h))

pub until_char-append :
    (a : ℕ) (s rest : String) (x : Char)
    → nat_eq (code x) a ≡ true
    → has_char a s ≡ false
    → until_char a (s ++ String.◌∷◌ x rest) ≡ s
unfolding until_char has_char
until_char-append a String.[] rest x h n = rw (nil-append (String.◌∷◌ x rest)) (rw h refl)
until_char-append a (String.◌∷◌ d s) rest x h n =
    rw (cons-append d s (String.◌∷◌ x rest)) (ground (arith, until_char-append a s rest x h))
