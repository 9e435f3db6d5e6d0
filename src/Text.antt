-- ===== src/Text.antt =====
-- The text operations of Python that the charms use: joining, replacing a character, searching.
pub mod Parts
pub mod Strip
use Prim.Native.Char.{Char, code}
use Prim.Native.String.{◌++◌, count, char_at}
use text.Mathlib.Text.{starts_with}
use sunbeam_charms.Prelude.{
  leb, ◌&&◌, ℕ, zero, suc, ◌-◌, String, Bool, false, ◌||◌, List, [], ◌∷◌, nat_eq, ◌==◌, not, keep,
  Option, none, some, if◌then◌else◌,
}

-- `sep.join(xs)`
unfoldable pub join : String → List String → String
join sep [] = ""
join sep (x ∷ []) = x
join sep (x ∷ y ∷ ys) = x ++ (sep ++ join sep (y ∷ ys))

-- `s.replace(a, b)` for one character `a`.
unfoldable pub replace_char : ℕ → String → String → String
replace_char a b String.[] = ""
replace_char a b (String.◌∷◌ c s) =
    let rest = replace_char a b s in if nat_eq (code c) a then b ++ rest else String.◌∷◌ c rest

-- `part in s`
unfoldable pub contains_text : String → String → Bool
contains_text part String.[] = part_is_empty
  where
    part_is_empty : Bool
    part_is_empty = starts_with "" part
contains_text part (String.◌∷◌ c s) = starts_with (String.◌∷◌ c s) part || contains_text part s

-- The parts of an f-string or of a `format` call, joined.
unfoldable pub concat : List String → String
concat [] = ""
concat (x ∷ xs) = x ++ concat xs

-- `{:>width}`: spaces on the left, up to the width.
spaces : ℕ → String
spaces zero = ""
spaces (suc n) = " " ++ spaces n

unfoldable pub align_right : ℕ → String → String
unfolding spaces
align_right width s = spaces (width - count s) ++ s

-- `s.rsplit(a, 1)` for one character: the parts around its last place, or None if it is not there.
unfoldable pub rsplit_once : ℕ → String → Option (String × String)
rsplit_once a String.[] = none
rsplit_once a (String.◌∷◌ c s) = elim (rsplit_once a s) [
  | some (x, y) ↦ some (String.◌∷◌ c x, y)
  | none ↦ if nat_eq (code c) a then some ("", s) else none
]

abbrev parent_part : Option (String × String) → String
parent_part none = "."
parent_part (some p) = if p.0 == "" then "/" else p.0

-- `str(Path(p).parent)`, of a normal path with no slash at its end.
unfoldable pub parent : String → String
unfolding rsplit_once
parent p = parent_part (rsplit_once b'/' p)

-- `path[1:]` if it begins with a slash.
unfoldable pub strip_slash : String → String
strip_slash String.[] = ""
strip_slash (String.◌∷◌ c s) = if nat_eq (code c) b'/' then s else String.◌∷◌ c s

-- `s.endswith(suffix)`
unfoldable pub ends_with : String → String → Bool
ends_with suffix String.[] = suffix == ""
ends_with suffix (String.◌∷◌ c s) = String.◌∷◌ c s == suffix || ends_with suffix s

-- `s.lower()`, on the letters of ASCII.
abbrev is_upper : ℕ → Bool
is_upper c = leb b'A' c && leb c b'Z'

unfoldable pub lower : String → String
lower String.[] = ""
lower (String.◌∷◌ c s) =
    String.◌∷◌
      (if is_upper (code c) then char_at "abcdefghijklmnopqrstuvwxyz" (code c - b'A') else c)
      (lower s)

-- `s.startswith(prefix)`
abbrev pub has_prefix : String → String → Bool
has_prefix prefix s = starts_with s prefix

-- `s[len(prefix):]`, of a text that begins with the prefix.
unfoldable pub drop_prefix : String → String → String
drop_prefix String.[] s = s
drop_prefix (String.◌∷◌ c p) String.[] = ""
drop_prefix (String.◌∷◌ c p) (String.◌∷◌ d s) = drop_prefix p s

-- What follows the first place of a character, and what stands before it.
unfoldable pub after_char : ℕ → String → Option String
after_char a String.[] = none
after_char a (String.◌∷◌ c s) = if nat_eq (code c) a then some s else after_char a s

unfoldable pub until_char : ℕ → String → String
until_char a String.[] = ""
until_char a (String.◌∷◌ c s) =
    let rest = until_char a s in if nat_eq (code c) a then "" else String.◌∷◌ c rest

unfoldable pub has_char : ℕ → String → Bool
has_char a String.[] = false
has_char a (String.◌∷◌ c s) = nat_eq (code c) a || has_char a s

abbrev pub part_before : ℕ → Option String → Option String
part_before a none = none
part_before a (some rest) = some (until_char a rest)

-- `s.split(a)[1]`; None is an IndexError.
unfoldable pub second_part : ℕ → String → Option String
unfolding after_char until_char
second_part a s = part_before a (after_char a s)

-- `s.split(a)` for one character.
abbrev pub put_first : Char → List String → List String
put_first c [] = String.◌∷◌ c String.[] ∷ []
put_first c (part ∷ parts) = String.◌∷◌ c part ∷ parts

unfoldable pub split : ℕ → String → List String
split a String.[] = "" ∷ []
split a (String.◌∷◌ c s) =
    let rest = split a s in if nat_eq (code c) a then "" ∷ rest else put_first c rest

-- `s.lstrip()` and `s.rstrip()` of the characters that a test takes.
unfoldable pub lstrip : (ℕ → Bool) → String → String
lstrip test String.[] = ""
lstrip test (String.◌∷◌ c s) =
    let rest = lstrip test s in if test (code c) then rest else String.◌∷◌ c s

unfoldable pub rstrip : (ℕ → Bool) → String → String
rstrip test String.[] = ""
rstrip test (String.◌∷◌ c s) =
    let rest = rstrip test s in if rest == "" && test (code c) then "" else String.◌∷◌ c rest

unfoldable pub any_char : (ℕ → Bool) → String → Bool
any_char test String.[] = false
any_char test (String.◌∷◌ c s) = test (code c) || any_char test s

-- Python's tables of the characters: what `\w`, `strip` and `split` take, and `lower`.
pub record Unicode : Type 0 where
  pub is_word : ℕ → Bool
  pub is_space : ℕ → Bool
  pub lower : String → String

-- `s.strip()`
unfoldable pub strip : Unicode → String → String
unfolding lstrip rstrip
strip u s = rstrip u.is_space (lstrip u.is_space s)

-- `s.split()`: the parts between white space.
unfoldable pub split_where : (ℕ → Bool) → String → List String
split_where test String.[] = "" ∷ []
split_where test (String.◌∷◌ c s) =
    let rest = split_where test s in if test (code c) then "" ∷ rest else put_first c rest

unfoldable pub words : Unicode → String → List String
unfolding split_where
words u s = keep (λ part. not (part == "")) (split_where u.is_space s)

-- `s.splitlines()`, where a return and a newline are one break.
abbrev is_break : ℕ → Bool
is_break c =
    (leb 10 c && leb c 13)
    || ((leb 28 c && leb c 30) || (nat_eq c 133 || (leb 8232 c && leb c 8233)))

abbrev begins_with : ℕ → String → Bool
begins_with a String.[] = false
begins_with a (String.◌∷◌ c s) = nat_eq (code c) a

unfoldable pub splitlines : String → List String
splitlines String.[] = []
splitlines (String.◌∷◌ c s) =
    let rest = splitlines s in
    if nat_eq (code c) 13 && begins_with 10 s
    then rest
    else if is_break (code c)
    then "" ∷ rest
    else put_first c rest
