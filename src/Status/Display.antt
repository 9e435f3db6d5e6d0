-- ===== src/Status/Display.antt =====
-- compound_status.py: what `compute_status` shows, and what `on_update` may write to the unit.
use mathlib.Core.Path.{subst}
use mathlib.Core.List.{Mem, mem-cons_self}
use mathlib.Core.List.Perm
use native.Mathlib.Nat.{le_refl}
use sunbeam_charms.Prelude.{
  ℕ, sym, ◌≤◌, ◌≡◌, ◌≢◌, refl, ◌⊎◌, inl, inr, none, some, List, [], ◌∷◌, arith, Option-cases, All,
  All-map,
}
use sunbeam_charms.Status.{
  Kind, unknown, active, StatusBase, name, Status, status_priorities, before, Ops, Pool, statuses,
  sorted, display, display_first, prefixed, compute_status, on_update, show, active_status,
  blocked_status, waiting_status, maintenance_status, unknown_status,
}
use sunbeam_charms.Status.Order.{IsSorted, sorted-IsSorted, sorted-perm, NotAfter, All-sorted}

abbrev pub rank : Status → ℕ
rank s = status_priorities (name s.status)

rank-le_of_NotAfter : (s t : Status) → NotAfter s t → rank s ≤ rank t
unfolding before
rank-le_of_NotAfter s t h = ground arith

rank_unknown : (s t : Status) → name s.status ≡ unknown → rank s ≤ rank t → name t.status ≡ unknown
unfolding status_priorities
rank_unknown s t e h = ground arith

shown :
    (p : Pool) (st : StatusBase)
    → ((name st ≡ active) × (show (some st) p ≡ p))
      ⊎ ((name st ≢ active) × (show (some st) p ≡ record p { unit_status = st }))
unfolding name show
shown p (active_status m) = inl (refl, refl)
shown p (blocked_status m) = inr (cc, refl)
shown p (waiting_status m) = inr (cc, refl)
shown p (maintenance_status m) = inr (cc, refl)
shown p unknown_status = inr (cc, refl)

module _ ⦃ops : Ops⦄ where
  -- What is displayed of a status has its name.
  name-display : (s : Status) {st : StatusBase} → display s ≡ some st → name st ≡ name s.status
  unfolding display name
  name-display s {st} h = ground (arith, ops.name-from_name (name s.status) (prefixed s))

  display-none : (s : Status) → display s ≡ none → name s.status ≡ unknown
  unfolding display
  display-none s h = ground arith

  -- The head of a sorted list is at least as urgent as the rest.
  head_shown :
      (ss : List Status) {st : StatusBase}
      → IsSorted ss
      → display_first ss ≡ some st
      → All (λ t. status_priorities (name st) ≤ rank t) ss
  head_shown [] h e = tt
  head_shown (s ∷ ss) {st} h e =
      subst (λ k. All (λ t. status_priorities k ≤ rank t) (s ∷ ss)) (sym (name-display s e))
        (le_refl (rank s), All-map ss (λ t. rank-le_of_NotAfter s t) h.0)

  head_hidden :
      (ss : List Status)
      → IsSorted ss
      → display_first ss ≡ none
      → All (λ t. name t.status ≡ unknown) ss
  head_hidden [] h e = tt
  head_hidden (s ∷ ss) h e =
      let u = display-none s e in
      (u, All-map ss (λ t k. rank_unknown s t u (rank-le_of_NotAfter s t k)) h.0)

  -- The shown status is the most urgent one: no status of the pool has a smaller number in
  -- STATUS_PRIORITIES than the status that `compute_status` returns.
  pub compute_status-most_urgent :
      (p : Pool) (st : StatusBase)
      → compute_status p ≡ some st
      → All (λ t. status_priorities (name st) ≤ rank t) (statuses p)
  unfolding compute_status
  compute_status-most_urgent p st e =
      All-sorted (λ t. status_priorities (name st) ≤ rank t) (statuses p)
        (head_shown (sorted (statuses p)) (sorted-IsSorted (statuses p)) e)

  -- `compute_status` returns None only if every status of the pool is unknown.
  pub compute_status-none :
      (p : Pool) → compute_status p ≡ none → All (λ t. name t.status ≡ unknown) (statuses p)
  unfolding compute_status
  compute_status-none p e =
      All-sorted (λ t. name t.status ≡ unknown) (statuses p)
        (head_hidden (sorted (statuses p)) (sorted-IsSorted (statuses p)) e)

  -- `on_update` changes nothing, or only the unit's status, to the computed one, which then is not
  -- active.
  pub on_update_cases :
      (p : Pool)
      → (on_update p ≡ p)
        ⊎ ((st : StatusBase) × (name st ≢ active)
            × (compute_status p ≡ some st)
            × (on_update p ≡ record p { unit_status = st }))
  unfolding on_update
  on_update_cases p = elim (Option-cases (compute_status p)) [
    | inl e ↦ inl (rw (e, on_update) (unfold show in refl))
    | inr (st, e) ↦
        rw (e, on_update)
          (elim (shown p st) [
            | inl (a, same) ↦ inl same
            | inr (n, shows) ↦ inr (st, n, refl, shows)
          ])
  ]

  -- The shown status is that of a member of the list.
  head_member :
      (ss : List Status) {st : StatusBase}
      → display_first ss ≡ some st
      → (t : Status) × Mem t ss × (name t.status ≡ name st)
  head_member [] e = cc
  head_member (s ∷ ss) e = (s, mem-cons_self, sym (name-display s e))

  rank_quiet : (k : Status) {n : Kind} → n ≡ active → status_priorities n ≤ rank k → 4 ≤ rank k
  unfolding status_priorities
  rank_quiet k e h = ground arith

  rank-unknown : (t : Status) → name t.status ≡ unknown → 4 ≤ rank t
  unfolding status_priorities
  rank-unknown t h = ground arith

  -- If `compute_status` is none or an active status, every status of the pool is active or unknown.
  quiet :
      (p : Pool) (st : StatusBase)
      → name st ≡ active
      → compute_status p ≡ some st
      → All (λ t. 4 ≤ rank t) (statuses p)
  quiet p st a e =
      All-map (statuses p) (λ t h. rank_quiet t a h) (compute_status-most_urgent p st e)

  -- After `on_update`, either the unit shows a status that is not active, is that of a member of
  -- the pool by its name, and is at least as urgent as every member's, and all else is as before;
  -- or all is as before, and no member's status is blocked, waiting or maintenance.
  pub on_update-most_urgent :
      (p : Pool)
      → ((st : StatusBase) × (name st ≢ active)
          × (on_update p ≡ record p { unit_status = st })
          × ((t : Status) × Mem t (statuses p) × (name t.status ≡ name st))
          × All (λ t. status_priorities (name st) ≤ rank t) (statuses p))
        ⊎ ((on_update p ≡ p) × All (λ t. 4 ≤ rank t) (statuses p))
  unfolding on_update compute_status
  on_update-most_urgent p = elim (Option-cases (compute_status p)) [
    | inl e ↦
        inr
          (rw e (unfold show in refl), All-map (statuses p) rank-unknown (compute_status-none p e))
    | inr (st, e) ↦ elim (shown p st) [
      | inl (a, same) ↦ inr (rw e same, quiet p st a e)
      | inr (n, shows) ↦
          let (t, m, same_name) = head_member (sorted (statuses p)) e in
          inl (
            st,
            n,
            rw e shows,
            (t, (Perm.mem_iff (sorted-perm (statuses p))).0 m, same_name),
            compute_status-most_urgent p st e,
          )
    ]
  ]
