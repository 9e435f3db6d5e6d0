-- ===== src/Exec.antt =====
-- Python methods that change objects and may raise: an action takes the state to a result and the
-- state that it leaves, also when it raises. Exceptions carry the text that `str(e)` shows.
use mathlib.Core.Path.{fun_ext}
use sunbeam_charms.Prelude.{
  ℕ, String, ◌≡◌, refl, ap, ◌∙◌, ◌⊎◌, inl, inr, Option, List, [], ◌∷◌, ◌++◌,
}

-- `requests.Response`, as far as the charms read it.
pub record Response : Type 0 where
  pub status_code : ℕ
  pub body : String

pub data Exc : Type 0 where
  -- guard.py
  guard_error blocked_error waiting_error maintenance_error : String → Exc
  -- raised by the charms, by ops, by snapd's client and by Python
  not_implemented unavailable snap_error snap_not_found snap_installation_error : String → Exc
  timeout value_error key_error attribute_error assertion_error : String → Exc
  change_error exec_error path_error pebble_timeout connection_error retry_error : String → Exc
  keystone_error : String → Exc
  http_error : String → Option Response → Exc
  other_error : String → Exc

pub data Result {ℓ} (A : Type ℓ) : Type ℓ where
  ok : A → Result A
  raised : Exc → Result A

pub Result-cases {ℓ} :
    {A : Type ℓ} (r : Result A) → ((a : A) × (r ≡ ok a)) ⊎ ((e : Exc) × (r ≡ raised e))
Result-cases (ok a) = inl (a, refl)
Result-cases (raised e) = inr (e, refl)

abbrev pub Exec {ℓ} : Type ℓ → Type ℓ → Type ℓ
Exec S A = S → Result A × S

-- A method that returns nothing.
abbrev pub Action : Type 0 → Type 0
Action S = Exec S (Unit {0})

-- How such a method ends.
abbrev pub Done : Type 0
Done = Result (Unit {0})

module _ {ℓ} {S A : Type ℓ} where
  abbrev pub pure : A → Exec S A
  pure a s = (ok a, s)

  abbrev pub raise : Exc → Exec S A
  raise e s = (raised e, s)

  abbrev pub gets : (S → A) → Exec S A
  gets f s = (ok (f s), s)

  -- The `except` clauses by a function on the exception.
  abbrev pub handle : (Exc → Exec S A) → Result A × S → Result A × S
  handle h (ok a, s) = (ok a, s)
  handle h (raised e, s) = h e s

  infix 20 try◌except◌
  abbrev pub try◌except◌ : Exec S A → (Exc → Exec S A) → Exec S A
  try◌except◌ m h s = handle h (m s)

module _ {S : Type 0} where
  abbrev pub modify : (S → S) → Action S
  modify f s = (ok tt, f s)

  abbrev pub skip : Action S
  skip s = (ok tt, s)

module _ {ℓ} {S A B : Type ℓ} where
  abbrev pub continue : (A → Exec S B) → Result A × S → Result B × S
  continue f (ok a, s) = f a s
  continue f (raised e, s) = (raised e, s)

  infixl 10 ◌>>=◌ ◌>>◌
  abbrev pub ◌>>=◌ : Exec S A → (A → Exec S B) → Exec S B
  ◌>>=◌ m f s = continue f (m s)

  abbrev pub ◌>>◌ : Exec S A → Exec S B → Exec S B
  ◌>>◌ m n s = continue (λ _. n) (m s)

module _ {S A : Type 0} where
  -- `for x in xs: body(x)`
  unfoldable pub for_each : List A → (A → Action S) → Action S
  for_each [] body s = (ok tt, s)
  for_each (x ∷ xs) body s = continue (λ _. for_each xs body) (body x s)

-- A loop over two lists is two loops in sequence.
module _ {S A : Type 0} (body : A → Action S) where
  continue_assoc :
      (f g : Action S) (r : Done × S)
      → continue (λ _. λ s. continue (λ _. g) (f s)) r ≡ continue (λ _. g) (continue (λ _. f) r)
  continue_assoc f g (ok u, s) = refl
  continue_assoc f g (raised e, s) = refl

  pub for_each-append :
      (xs ys : List A) (s : S)
      → for_each (xs ++ ys) body s ≡ continue (λ _. for_each ys body) (for_each xs body s)
  unfolding for_each
  for_each-append [] ys s = refl
  for_each-append (x ∷ xs) ys s =
      ap (λ f. continue (λ _. f) (body x s)) (fun_ext (for_each-append xs ys))
      ∙ continue_assoc (for_each xs body) (for_each ys body) (body x s)

-- A sequence that returned: the first part returned, and the rest from the state that it left.
module _ {S A B : Type 0} where
  pub continue-ok :
      (f : A → Exec S B) (r : Result A × S) {b : B} {t : S}
      → continue f r ≡ (ok b, t)
      → (a : A) × (u : S) × (r ≡ (ok a, u)) × (f a u ≡ (ok b, t))
  continue-ok f (ok a, u) h = (a, u, refl, h)
  continue-ok f (raised e, u) h = cc

-- An action that returned is followed by the next from the state that it left.
pub continue_done :
    {S B : Type 0} (f : Exec S B) (r : Done × S) → r.0 ≡ ok tt → continue (λ _. f) r ≡ f r.1
continue_done f (ok tt, s) h = refl
continue_done f (raised e, s) h = cc
