-- ===== src/Status/Order.antt =====
-- compound_status.py: the order in which the pool sorts its statuses.
use mathlib.Core.List.{Perm}
use mathlib.Core.List.Perm
use sunbeam_charms.Prelude.{
  ◌≡◌, refl, inl, inr, Bool, true, false, not, ◌&&◌, List, [], ◌∷◌, arith, Bool-cases, All, All-map,
  keep, if◌then◌else◌,
}
use sunbeam_charms.Status.{Status, before, insert_sorted, sorted}

-- `s` may stand in front of `t`.
abbrev pub NotAfter : Status → Status → Type 0
NotAfter s t = before t s ≡ false

abbrev pub IsSorted : List Status → Type 0
IsSorted [] = Unit
IsSorted (s ∷ ss) = All (NotAfter s) ss × IsSorted ss

NotAfter-trans : (s t u : Status) → NotAfter s t → NotAfter t u → NotAfter s u
unfolding before
NotAfter-trans s t u h k = ground arith

NotAfter-before : (s t : Status) → before s t ≡ true → NotAfter s t
unfolding before
NotAfter-before s t h = ground arith

pub NotAfter-refl : (s : Status) → NotAfter s s
unfolding before
NotAfter-refl s = ground arith

All-insert_sorted :
    (P : Status → Type 0) (s : Status) (ss : List Status)
    → P s
    → All P ss
    → All P (insert_sorted s ss)
unfolding insert_sorted
All-insert_sorted P s [] h k = (h, tt)
All-insert_sorted P s (t ∷ ts) h k = elim (Bool-cases (before t s)) [
  | inl e ↦ rw e (k.0, All-insert_sorted P s ts h k.1)
  | inr e ↦ rw e (h, k)
]

All_of_insert_sorted :
    (P : Status → Type 0) (s : Status) (ss : List Status)
    → All P (insert_sorted s ss)
    → P s × All P ss
unfolding insert_sorted
All_of_insert_sorted P s [] = λ h. h
All_of_insert_sorted P s (t ∷ ts) =
    elim (before t s)
      as (λ b. All P (if b then t ∷ insert_sorted s ts else s ∷ t ∷ ts) → P s × All P (t ∷ ts)) [
        | true ↦ λ h. let k = All_of_insert_sorted P s ts h.1 in (k.0, (h.0, k.1))
        | false ↦ λ h. h
      ]

-- Sorting loses and adds no status.
pub All-sorted : (P : Status → Type 0) (ss : List Status) → All P (sorted ss) → All P ss
unfolding sorted
All-sorted P [] h = tt
All-sorted P (s ∷ ss) h =
    let k = All_of_insert_sorted P s (sorted ss) h in (k.0, All-sorted P ss k.1)

insert_sorted-IsSorted :
    (s : Status) (ss : List Status) → IsSorted ss → IsSorted (insert_sorted s ss)
unfolding insert_sorted
insert_sorted-IsSorted s [] h = (tt, tt)
insert_sorted-IsSorted s (t ∷ ts) h = elim (Bool-cases (before t s)) [
  | inl e ↦ rw e (
    All-insert_sorted (NotAfter t) s ts (NotAfter-before t s e) h.0,
    insert_sorted-IsSorted s ts h.1,
  )
  | inr e ↦ rw e ((e, All-map ts (λ u. NotAfter-trans s t u e) h.0), h)
]

pub sorted-IsSorted : (ss : List Status) → IsSorted (sorted ss)
unfolding sorted
sorted-IsSorted [] = tt
sorted-IsSorted (s ∷ ss) = insert_sorted-IsSorted s (sorted ss) (sorted-IsSorted ss)

insert_sorted-perm : (s : Status) (ss : List Status) → Perm (insert_sorted s ss) (s ∷ ss)
unfolding insert_sorted
insert_sorted-perm s [] = Perm.refl (s ∷ [])
insert_sorted-perm s (t ∷ ts) = elim (Bool-cases (before t s)) [
  | inl e ↦ rw e (Perm.trans (Perm.cons t (insert_sorted-perm s ts)) (Perm.swap s t ts))
  | inr e ↦ rw e (Perm.refl (s ∷ t ∷ ts))
]

pub sorted-perm : (ss : List Status) → Perm (sorted ss) ss
unfolding sorted
sorted-perm [] = Perm.refl []
sorted-perm (s ∷ ss) = Perm.trans (insert_sorted-perm s (sorted ss)) (Perm.cons s (sorted-perm ss))

unfoldable pub same_key : Status → Status → Bool
unfolding before
same_key s t = not (before s t) && not (before t s)

keys_differ : (u s t : Status) → before t s ≡ true → same_key u s ≡ true → same_key u t ≡ false
unfolding same_key
keys_differ u s t h k = ground arith

keep-insert_sorted :
    (u s : Status) (ss : List Status)
    → keep (same_key u) (insert_sorted s ss) ≡ keep (same_key u) (s ∷ ss)
unfolding insert_sorted
keep-insert_sorted u s [] = refl
keep-insert_sorted u s (t ∷ ts) = ground (arith, keys_differ u s t, keep-insert_sorted u s ts)

-- Sorting is stable: of the statuses that compare equal to a given one, the sorted list has those
-- of the pool in the pool's order.
pub sorted_stable :
    (u : Status) (ss : List Status) → keep (same_key u) (sorted ss) ≡ keep (same_key u) ss
unfolding sorted
sorted_stable u [] = refl
sorted_stable u (s ∷ ss) = ground (arith, keep-insert_sorted u s (sorted ss), sorted_stable u ss)
