-- ===== src/Snap/Settings.antt =====
-- charm.py, OSBaseOperatorCharmSnap.set_snap_data: which settings reach the snap.
use sunbeam_charms.Prelude.{
  String, ◌≡◌, refl, ◌∙◌, Option, none, some, [], ◌∷◌, eq_iff, arith, inl, inr, if◌then◌else◌,
}
use sunbeam_charms.Dict.{Dict, lookup, insert, lookup-insert, IsUnique}
use sunbeam_charms.Exec.{Result-cases, ok, raised}
use sunbeam_charms.Snap.{Setting, value, old_value, is_written, collect}

-- What the settings should be written: the value of the data at that key, if the test says so.
abbrev pub expected : Dict Setting → String → Option (Option String) → Option (Option String)
expected old key none = none
expected old key (some v) = elim (old_value key old) [
  | raised e ↦ none
  | ok o ↦ if is_written o v then some v else none
]

abbrev or_before : Option (Option String) → Option (Option String) → Option (Option String)
or_before none o = o
or_before (some v) o = some v

or_nothing : (o : Option (Option String)) → or_before o none ≡ o
or_nothing none = refl
or_nothing (some v) = refl

collected :
    (old : Dict Setting) (snap_data new result : Dict (Option String)) (key : String)
    → IsUnique snap_data
    → collect old snap_data new ≡ ok result
    → lookup key result ≡ or_before (expected old key (lookup key snap_data)) (lookup key new)
unfolding collect lookup
collected old [] new result key u h = ground arith
collected old ((k, v) ∷ rest) new result key (fresh, u) h = elim (Result-cases (old_value k old)) [
  | inr (e, o) ↦ ground arith
  | inl (o, q) ↦
      let next =
        collected old rest (if is_written o v then insert k v new else new) result key u
          (ground arith) in
      ground (arith, eq_iff k key, lookup-insert k key v new)
]

-- The settings that `set_snap_data` collects, for data without a repeated key: a key of the data is
-- collected with its value exactly when the snap has another value for it, or the value is not
-- None; no other key is collected.
pub lookup-collect :
    (old : Dict Setting) (snap_data result : Dict (Option String)) (key : String)
    → IsUnique snap_data
    → collect old snap_data [] ≡ ok result
    → lookup key result ≡ expected old key (lookup key snap_data)
unfolding lookup
lookup-collect old snap_data result key u h =
    collected old snap_data [] result key u h ∙ or_nothing (expected old key (lookup key snap_data))

-- In data without a repeated key, a key whose value is not None is among the collected settings
-- even if the snap has that value for it already.
pub collect-unchanged :
    (old : Dict Setting) (snap_data result : Dict (Option String)) (key v : String)
    → IsUnique snap_data
    → collect old snap_data [] ≡ ok result
    → lookup key snap_data ≡ some (some v)
    → old_value key old ≡ ok (some (value (some v)))
    → lookup key result ≡ some (some v)
unfolding is_written
collect-unchanged old snap_data result key v u h d o =
    lookup-collect old snap_data result key u h ∙ rw d (ground arith)
