-- ===== src/Dict.antt =====
-- A Python dictionary with text keys: an association list in the order of insertion, which
-- `insert` keeps for a key that is there already.
use sunbeam_charms.Prelude.{
  String, ◌≡◌, refl, ◌∙◌, Bool, false, ◌||◌, Option, none, some, List, [], ◌∷◌, arith, ◌==◌, eq_iff,
  if◌then◌else◌, is_some, Bool-cases, inl, inr, All,
}

abbrev pub Dict {ℓ} : Type ℓ → Type ℓ
Dict V = List (String × V)

-- `x in xs` for texts.
unfoldable pub contains : String → List String → Bool
contains x [] = false
contains x (y ∷ ys) = y == x || contains x ys

module _ {ℓ} {V : Type ℓ} where
  -- `d.get(key)`
  unfoldable pub lookup : String → Dict V → Option V
  lookup key [] = none
  lookup key ((name, val) ∷ d) = if name == key then some val else lookup key d

  -- `d[key] = val`
  unfoldable pub insert : String → V → Dict V → Dict V
  insert key val [] = (key, val) ∷ []
  insert key val ((name, other) ∷ d) =
      if name == key then (name, val) ∷ d else (name, other) ∷ insert key val d

  unfoldable pub remove : String → Dict V → Dict V
  remove k [] = []
  remove k ((j, v) ∷ m) = let rest = remove k m in if j == k then rest else (j, v) ∷ rest

  unfoldable pub has_key : String → Dict V → Bool
  unfolding lookup
  has_key k m = is_some (lookup k m)

  unfoldable pub keys : Dict V → List String
  keys [] = []
  keys ((k, v) ∷ m) = k ∷ keys m

  unfoldable pub values : Dict V → List V
  values [] = []
  values ((k, v) ∷ m) = v ∷ values m

  -- `d.update(e)`
  unfoldable pub update : Dict V → Dict V → Dict V
  unfolding insert
  update d [] = d
  update d ((k, v) ∷ e) = update (insert k v d) e

  pub lookup-insert :
      (key probe : String) (val : V) (d : Dict V)
      → lookup probe (insert key val d) ≡ (if key == probe then some val else lookup probe d)
  unfolding insert lookup
  lookup-insert key probe val [] = refl
  lookup-insert key probe val ((name, other) ∷ d) =
      ground
        (lookup-insert key probe val d, eq_iff name probe, eq_iff name key, eq_iff key probe, arith)

  pub lookup-remove :
      (k j : String) (m : Dict V) → lookup j (remove k m) ≡ (if k == j then none else lookup j m)
  unfolding lookup remove
  lookup-remove k j [] = ground arith
  lookup-remove k j ((i, v) ∷ m) =
      ground (arith, eq_iff k j, eq_iff i k, eq_iff i j, lookup-remove k j m)

  pub contains-keys : (k : String) (m : Dict V) → contains k (keys m) ≡ has_key k m
  unfolding contains keys has_key
  contains-keys k [] = refl
  contains-keys k ((j, v) ∷ m) = ground (arith, contains-keys k m)

  -- Writing the value that is there changes nothing.
  pub insert_same : (k : String) (v : V) (m : Dict V) → lookup k m ≡ some v → insert k v m ≡ m
  unfolding lookup insert
  insert_same k v [] h = ground arith
  insert_same k v ((j, w) ∷ m) h = ground (arith, insert_same k v m)

module _ {ℓ} {V : Type ℓ} where
  -- No key stands twice.
  abbrev pub IsUnique : Dict V → Type ℓ
  IsUnique [] = Unit
  IsUnique ((k, v) ∷ m) = (lookup k m ≡ none) × IsUnique m

  pub insert-IsUnique : (k : String) (v : V) (m : Dict V) → IsUnique m → IsUnique (insert k v m)
  unfolding lookup insert
  insert-IsUnique k v [] h = (refl, tt)
  insert-IsUnique k v ((j, w) ∷ m) h = elim (Bool-cases (j == k)) [
    | inl e ↦ rw e h
    | inr e ↦ rw e (
      rw (lookup-insert k j v m) (ground (arith, eq_iff j k, eq_iff k j)),
      insert-IsUnique k v m h.1,
    )
  ]

  -- An entry written under its key meets what all the others meet.
  pub All-insert {κ} :
      (P : String × V → Type κ) (k : String) (v : V) (m : Dict V)
      → P (k, v)
      → All P m
      → All P (insert k v m)
  unfolding insert
  All-insert P k v [] h a = (h, tt)
  All-insert P k v ((j, w) ∷ m) h a = elim (Bool-cases (j == k)) [
    | inl e ↦ rw e (rw ((eq_iff j k).0 e) h, a.1)
    | inr e ↦ rw e (a.0, All-insert P k v m h a.1)
  ]

module _ {ℓ} {V : Type ℓ} where
  abbrev pub or_else : Option V → Option V → Option V
  or_else none v = v
  or_else (some w) v = some w

  -- What a list of writes leaves under a key.
  unfoldable pub last_value : String → Dict V → Option V
  last_value k [] = none
  last_value k ((j, v) ∷ e) = or_else (last_value k e) (if j == k then some v else none)

  pub lookup-update :
      (k : String) (e d : Dict V) → lookup k (update d e) ≡ or_else (last_value k e) (lookup k d)
  unfolding update last_value
  lookup-update k [] d = refl
  lookup-update k ((j, v) ∷ e) d =
      lookup-update k e (insert j v d) ∙ ground (arith, lookup-insert j k v d)
