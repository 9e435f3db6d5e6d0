-- ===== src/Regex.antt =====
-- Regular expressions, as far as the charms' patterns use Python's re: classes, sequences,
-- alternatives, repetition, and `^...$`. Matching is by derivatives, on the codes of a text.
pub mod Correct
use Prim.Native.Char.{code}
use sunbeam_charms.Prelude.{
  ℕ, String, ◌≡◌, ◌≢◌, ◌⊎◌, Bool, true, false, ◌&&◌, ◌||◌, List, [], ◌∷◌, ◌++◌, nat_eq, leb,
  if◌then◌else◌, All,
}

pub data Regex : Type 0 where
  never empty : Regex
  one_of : (ℕ → Bool) → Regex
  sequence either : Regex → Regex → Regex
  many : Regex → Regex

-- `r?` and `r+`
abbrev pub optional : Regex → Regex
optional r = either empty r

abbrev pub some_of : Regex → Regex
some_of r = sequence r (many r)

-- Whether the empty text matches.
unfoldable pub nullable : Regex → Bool
nullable never = false
nullable empty = true
nullable (one_of p) = false
nullable (sequence r q) = nullable r && nullable q
nullable (either r q) = nullable r || nullable q
nullable (many r) = true

-- What may follow the character `c`.
unfoldable pub derive : ℕ → Regex → Regex
unfolding nullable
derive c never = never
derive c empty = never
derive c (one_of p) = if p c then empty else never
derive c (sequence r q) =
    let first = sequence (derive c r) q in
    let second = derive c q in if nullable r then either first second else first
derive c (either r q) = either (derive c r) (derive c q)
derive c (many r) = sequence (derive c r) (many r)

unfoldable pub accepts : Regex → List ℕ → Bool
unfolding nullable derive
accepts r [] = nullable r
accepts r (c ∷ w) = accepts (derive c r) w

unfoldable pub codes : String → List ℕ
codes String.[] = []
codes (String.◌∷◌ c s) = code c ∷ codes s

-- `re.match("^r$", s)`: the `$` also stands before a newline that ends the text.
unfoldable pub without_newline : List ℕ → List ℕ
without_newline [] = []
without_newline (c ∷ []) = if nat_eq c 10 then [] else c ∷ []
without_newline (c ∷ d ∷ w) = c ∷ without_newline (d ∷ w)

unfoldable pub matches_line : Regex → List ℕ → Bool
unfolding accepts without_newline
matches_line r w = accepts r w || accepts r (without_newline w)

-- Ranges of characters in a class.
abbrev pub between : ℕ → ℕ → ℕ → Bool
between low high c = leb low c && leb c high

-- The texts that match, described without derivatives: a repetition is any number of pieces that are
-- not empty and match.
abbrev pub joined : List (List ℕ) → List ℕ
joined [] = []
joined (p ∷ ps) = p ++ joined ps

abbrev pub Matches : Regex → List ℕ → Type 0
Matches never w = ⊥
Matches empty w = w ≡ []
Matches (one_of p) w = (c : ℕ) × (p c ≡ true) × (w ≡ c ∷ [])
Matches (sequence r q) w = (s t : List ℕ) × (w ≡ s ++ t) × Matches r s × Matches q t
Matches (either r q) w = Matches r w ⊎ Matches q w
Matches (many r) w = (ps : List (List ℕ)) × (w ≡ joined ps) × All (λ p. (p ≢ []) × Matches r p) ps

-- The same with `^...$`: one newline may follow.
abbrev pub LineMatches : Regex → List ℕ → Type 0
LineMatches r w = Matches r w ⊎ ((v : List ℕ) × (w ≡ v ++ 10 ∷ []) × Matches r v)
