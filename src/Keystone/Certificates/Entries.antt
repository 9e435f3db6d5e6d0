-- ===== src/Keystone/Certificates/Entries.antt =====
-- charms/keystone-k8s/src/charm.py, _dedupe_preserve_order, and utils/certs.py, ca_chain_is_valid.

use sunbeam_charms.Prelude.{
  String, ◌≡◌, ◌↔◌, refl, sym, ap, ◌∙◌, Bool, true, false, not, ◌&&◌, ◌||◌, Option, some, List, [],
  ◌∷◌, arith, ◌==◌, eq_iff, eq_refl, Bool-cases, Option-cases, inl, inr,
}
use sunbeam_charms.Dict.{contains}
use sunbeam_charms.Keystone.Certificates.{
  dedupe_from, dedupe_preserve_order, certificate_is_valid, ca_chain_is_valid, verified, in_order,
}

-- No entry stands twice.
abbrev pub IsDistinct : List String → Type 0
IsDistinct [] = Unit
IsDistinct (x ∷ xs) = (contains x xs ≡ false) × IsDistinct xs

-- An entry that is passed over: it is empty or was seen.
skipped :
    (y x : String) (seen xs : List String)
    → (x == "" || contains x seen) ≡ true
    → (not (y == "") && not (contains y seen) && contains y xs)
      ≡ (not (y == "") && not (contains y seen) && (x == y || contains y xs))
skipped y x seen xs h = elim (Bool-cases (x == y)) [
  | inl e ↦ rw (sym ((eq_iff x y).0 e)) (ground arith)
  | inr e ↦ rw e refl
]

-- An entry that is taken.
added :
    (y x : String) (seen xs : List String)
    → (x == "" || contains x seen) ≡ false
    → (x == y || (not (y == "") && not (x == y || contains y seen) && contains y xs))
      ≡ (not (y == "") && not (contains y seen) && (x == y || contains y xs))
added y x seen xs h = elim (Bool-cases (x == y)) [
  | inl e ↦ rw (sym ((eq_iff x y).0 e)) (ground (arith, eq_refl x))
  | inr e ↦ rw e refl
]

contains-dedupe_from :
    (y : String) (seen xs : List String)
    → contains y (dedupe_from seen xs) ≡ (not (y == "") && not (contains y seen) && contains y xs)
unfolding dedupe_from contains
contains-dedupe_from y seen [] = ground arith
contains-dedupe_from y seen (x ∷ xs) = elim (Bool-cases (x == "" || contains x seen)) [
  | inl h ↦ rw h (contains-dedupe_from y seen xs ∙ skipped y x seen xs h)
  | inr h ↦
      rw h (ap (λ b. x == y || b) (contains-dedupe_from y (x ∷ seen) xs) ∙ added y x seen xs h)
]

dedupe_from-IsDistinct : (seen xs : List String) → IsDistinct (dedupe_from seen xs)
unfolding dedupe_from contains
dedupe_from-IsDistinct seen [] = tt
dedupe_from-IsDistinct seen (x ∷ xs) = elim (Bool-cases (x == "" || contains x seen)) [
  | inl h ↦ rw h (dedupe_from-IsDistinct seen xs)
  | inr h ↦ rw h (
    contains-dedupe_from x (x ∷ seen) xs ∙ rw (eq_refl x) (ground arith),
    dedupe_from-IsDistinct (x ∷ seen) xs,
  )
]

-- The list without duplicates has each entry that is not the empty text, and no other, and none
-- twice.
pub dedupe_preserve_order-IsDistinct :
    (xs : List String)
    → IsDistinct (dedupe_preserve_order xs)
      × ((y : String) → contains y (dedupe_preserve_order xs) ≡ (not (y == "") && contains y xs))
unfolding dedupe_preserve_order contains
dedupe_preserve_order-IsDistinct xs =
    (dedupe_from-IsDistinct [] xs, λ y. contains-dedupe_from y [] xs ∙ ground arith)

module _ {X : Type 0} (load : String → Option X) (issued_by : X → X → Bool) where
  abbrev pub IsIssuedBy : String → String → Type 0
  IsIssuedBy text issuer =
      (x : X) × (y : X) × (load text ≡ some x) × (load issuer ≡ some y) × (issued_by x y ≡ true)

  -- Each certificate of a chain can be read, and is issued by the next one.
  abbrev pub IsChain : List String → Type 0
  IsChain [] = Unit
  IsChain (t ∷ []) = (x : X) × (load t ≡ some x)
  IsChain (t ∷ u ∷ rest) = IsIssuedBy t u × IsChain (u ∷ rest)

  linked : (t u : String) → verified load issued_by (load t) (load u) ≡ true → IsIssuedBy t u
  linked t u h = elim (Option-cases (load t)) [
    | inl p ↦ ground (arith)
    | inr (x, p) ↦ elim (Option-cases (load u)) [
      | inl q ↦ ground (arith)
      | inr (y, q) ↦ (x, y, p, q, ground arith)
    ]
  ]

  linked_back : (t u : String) → IsIssuedBy t u → verified load issued_by (load t) (load u) ≡ true
  linked_back t u (x, y, p, q, h) = rw (p, q) h

  with_last : (t u : String) → IsIssuedBy t u → IsChain (t ∷ u ∷ [])
  with_last t u i = let (x, y, p, q, h) = i in (i, (y, q))

  in_order-IsChain :
      (t u : String) (rest : List String)
      → in_order load issued_by (t ∷ u ∷ rest) ≡ true
      → IsChain (t ∷ u ∷ rest)
  in_order-IsChain t u [] h = with_last t u (linked t u (ground arith))
  in_order-IsChain t u (v ∷ rest) h =
      (linked t u (ground arith), in_order-IsChain u v rest (ground arith))

  IsChain-in_order : (ts : List String) → IsChain ts → in_order load issued_by ts ≡ true
  IsChain-in_order [] h = refl
  IsChain-in_order (t ∷ []) h = refl
  IsChain-in_order (t ∷ u ∷ rest) h = rw (linked_back t u h.0) (IsChain-in_order (u ∷ rest) h.1)

  loads_of : (t : String) → certificate_is_valid load t ≡ true → (x : X) × (load t ≡ some x)
  unfolding certificate_is_valid
  loads_of t h = elim (Option-cases (load t)) [ inl p ↦ ground (arith) | inr l ↦ l ]

  loads_back : (t : String) → (x : X) × (load t ≡ some x) → certificate_is_valid load t ≡ true
  unfolding certificate_is_valid
  loads_back t (x, p) = ground arith

  -- The check of a chain holds just where each of its certificates can be read and is issued by the
  -- next one.
  pub ca_chain_is_valid-IsChain :
      (ts : List String) → (ca_chain_is_valid load issued_by ts ≡ true) ↔ IsChain ts
  unfolding ca_chain_is_valid certificate_is_valid
  ca_chain_is_valid-IsChain [] = (λ h. tt, λ h. refl)
  ca_chain_is_valid-IsChain (t ∷ []) = (loads_of t, loads_back t)
  ca_chain_is_valid-IsChain (t ∷ u ∷ rest) =
      (in_order-IsChain t u rest, IsChain-in_order (t ∷ u ∷ rest))
