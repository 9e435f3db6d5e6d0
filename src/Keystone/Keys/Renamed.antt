-- ===== src/Keystone/Keys/Renamed.antt =====
-- charms/keystone-k8s/src/charm.py: the names of keys with the prefix put on and taken off.
use mathlib.Core.List.{append_assoc, append-nil}
use text.Mathlib.TextLemmas.{nil-append, cons-append, append-nil as text_append-nil}
use text.Mathlib.TextPositions.{starts_with-append}
use Prim.Native.String as Str
use sunbeam_charms.Prelude.{
  String, ◌≡◌, ◌≢◌, refl, sym, ap, ◌∙◌, none, [], ◌∷◌, ◌++◌, arith, ◌==◌, eq_iff, All, Bool-cases,
  inl, inr,
}
use sunbeam_charms.Text.{concat, drop_prefix}
use sunbeam_charms.Dict.{Dict, lookup, insert, IsUnique}
use sunbeam_charms.Keystone.Keys.{renamed, renamed_onto, strip_key, key_prefix, add_key_prefix}

-- What follows a prefix that was put before it.
pub drop_prefix-append : (p s : String) → drop_prefix p (Str.◌++◌ p s) ≡ s
unfolding drop_prefix
drop_prefix-append String.[] s = nil-append s
drop_prefix-append (String.◌∷◌ c p) s = rw (cons-append c p s) (drop_prefix-append p s)

strip_key-add_key_prefix : (k : String) → strip_key (add_key_prefix k) ≡ k
unfolding strip_key add_key_prefix concat drop_prefix
strip_key-add_key_prefix k =
    rw (starts_with-append key_prefix (concat (k ∷ [])))
      (drop_prefix-append key_prefix (concat (k ∷ [])) ∙ text_append-nil k)

abbrev renamed_keys : (String → String) → Dict String → Dict String
renamed_keys f [] = []
renamed_keys f ((k, v) ∷ d) = (f k, v) ∷ renamed_keys f d

insert_new :
    (k v : String) (d : Dict String) → lookup k d ≡ none → insert k v d ≡ d ++ ((k, v) ∷ [])
unfolding lookup insert
insert_new k v [] h = refl
insert_new k v ((j, x) ∷ d) h = elim (Bool-cases (j == k)) [
  | inl e ↦ ground (arith)
  | inr e ↦ rw e (ap (λ m. (j, x) ∷ m) (insert_new k v d (ground (arith))))
]

-- Renaming back, after a renaming that is undone by it.
renamed_onto-undo :
    (f g : String → String) (e d : Dict String)
    → ((k : String) → g (f k) ≡ k)
    → renamed_onto g (renamed_keys f e) d ≡ renamed_onto (λ k. k) e d
unfolding renamed_onto
renamed_onto-undo f g [] d h = refl
renamed_onto-undo f g ((k, v) ∷ e) d h =
    ap (λ j. renamed_onto g (renamed_keys f e) (insert j v d)) (h k)
    ∙ renamed_onto-undo f g e (insert k v d) h

module _ (f : String → String) (inj : (j k : String) → f j ≡ f k → j ≡ k) where
  lookup-append_one :
      (j k v : String) (d : Dict String)
      → lookup j d ≡ none
      → j ≢ k
      → lookup j (d ++ ((k, v) ∷ [])) ≡ none
  unfolding lookup
  lookup-append_one j k v [] h n = ground (arith, eq_iff k j, n)
  lookup-append_one j k v ((i, x) ∷ d) h n = ground (arith, lookup-append_one j k v d)

  clash : (k j x : String) (e : Dict String) → lookup k ((j, x) ∷ e) ≡ none → j ≡ k → ⊥
  unfolding lookup
  clash k j x e n q = ground (arith, eq_iff j k)

  -- The names of the rest stay free when a name is taken that the rest does not have.
  still_fresh :
      (k v : String) (e d : Dict String)
      → lookup k e ≡ none
      → All (λ p. lookup (f p.0) d ≡ none) e
      → All (λ p. lookup (f p.0) (d ++ ((f k, v) ∷ [])) ≡ none) e
  unfolding lookup
  still_fresh k v [] d n h = tt
  still_fresh k v ((j, x) ∷ e) d n h = (
    lookup-append_one (f j) (f k) v d h.0 (λ q. clash k j x e n (inj j k q)),
    still_fresh k v e d (ground arith) h.1,
  )

  renamed_onto-fresh :
      (e d : Dict String)
      → IsUnique e
      → All (λ p. lookup (f p.0) d ≡ none) e
      → renamed_onto f e d ≡ d ++ renamed_keys f e
  unfolding renamed_onto
  renamed_onto-fresh [] d u h = sym (append-nil d)
  renamed_onto-fresh ((k, v) ∷ e) d u h =
      ap (renamed_onto f e) (insert_new (f k) v d h.0)
      ∙ renamed_onto-fresh e (d ++ ((f k, v) ∷ [])) u.1 (still_fresh k v e d u.0 h.1)
      ∙ append_assoc d ((f k, v) ∷ []) (renamed_keys f e)

  All_free : (e : Dict String) → All (λ p. lookup {V = String} (f p.0) [] ≡ none) e
  unfolding lookup
  All_free [] = tt
  All_free (p ∷ e) = (refl, All_free e)

  renamed-fresh : (e : Dict String) → IsUnique e → renamed f e ≡ renamed_keys f e
  renamed-fresh e u = renamed_onto-fresh e [] u (All_free e)

renamed_keys-id : (e : Dict String) → renamed_keys (λ k. k) e ≡ e
renamed_keys-id [] = refl
renamed_keys-id (p ∷ e) = ap (λ m. p ∷ m) (renamed_keys-id e)

-- A repository's dictionary with the prefix put on and taken off is what it was.
pub renamed-strip_key-add_key_prefix :
    (d : Dict String) → IsUnique d → renamed strip_key (renamed add_key_prefix d) ≡ d
renamed-strip_key-add_key_prefix d u =
    ap (renamed strip_key) (renamed-fresh add_key_prefix add_inj d u)
    ∙ renamed_onto-undo add_key_prefix strip_key d [] strip_key-add_key_prefix
    ∙ renamed-fresh (λ k. k) (λ j k q. q) d u
    ∙ renamed_keys-id d
  where
    add_inj : (j k : String) → add_key_prefix j ≡ add_key_prefix k → j ≡ k
    add_inj j k q = sym (strip_key-add_key_prefix j) ∙ (ap strip_key q ∙ strip_key-add_key_prefix k)
