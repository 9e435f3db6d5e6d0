-- ===== src/Status/Members.antt =====
-- compound_status.py: the entries of the pool.
use sunbeam_charms.Prelude.{
  ℕ, suc, ◌<◌, ◌≡◌, refl, String, true, false, inl, inr, Option, none, some, arith, All, All-map,
  if_both,
}
use sunbeam_charms.Dict.{Dict, lookup, IsUnique, insert-IsUnique, All-insert}
use sunbeam_charms.Status.{
  StatusBase, Status, Ops, Pool, Saved, init, init_pool, new_status, write, set, add, on_update,
  on_commit, reconstitute, restore,
}
use sunbeam_charms.Status.Display.{on_update_cases}

-- An entry of the pool: a Status object of that label, which tells the pool of its updates.
abbrev pub IsEntry : (ℕ → Status) → ℕ → String × ℕ → Type 0
IsEntry o n e = ((o e.1).label ≡ e.0) × ((o e.1).has_on_update ≡ true) × (e.1 < n)

pub record IsValid (p : Pool) : Type 0 where
  pub unique : IsUnique p.pool
  pub entries : All (IsEntry p.objects p.next) p.pool

pub init_pool-IsValid :
    (o : ℕ → Status) (d : Option (Dict Saved)) (u : StatusBase) → IsValid (init_pool o d u)
unfolding init_pool
init_pool-IsValid o d u = record { unique = tt; entries = tt }

-- A write at an object that keeps its label and its hook keeps every entry.
IsEntry-write :
    (o : ℕ → Status) (n i : ℕ) (s : Status) (e : String × ℕ)
    → s.label ≡ (o i).label
    → ((o i).has_on_update ≡ true → s.has_on_update ≡ true)
    → IsEntry o n e
    → IsEntry (write o i s) n e
IsEntry-write o n i s e h k a = ground arith

IsEntry-fresh :
    (o : ℕ → Status) (n : ℕ) (s : Status) (e : String × ℕ)
    → IsEntry o n e
    → IsEntry (write o n s) (suc n) e
IsEntry-fresh o n s e a = ground arith

-- A new Status object is outside the pool, and changes none in it.
pub new_status-IsValid :
    (label : String) (prio : ℕ) (p : Pool) → IsValid p → IsValid (new_status label prio p).1
unfolding new_status init
new_status-IsValid label prio p v = record {
  unique = v.unique;
  entries = All-map p.pool (λ e. IsEntry-fresh p.objects p.next _ e) v.entries;
}

module _ ⦃ops : Ops⦄ where
  on_update-IsValid : (p : Pool) → IsValid p → IsValid (on_update p)
  on_update-IsValid p v = elim (on_update_cases p) [
    | inl e ↦ rw e v
    | inr (st, _, _, e) ↦ rw e (record { unique = v.unique; entries = v.entries })
  ]

  pub set-IsValid : (i : ℕ) (st : StatusBase) (p : Pool) → IsValid p → IsValid (set i st p)
  unfolding set
  set-IsValid i st p v =
      if_both IsValid (p.objects i).has_on_update (on_update-IsValid _ written) written
    where
      written : IsValid (record p {
        objects = write p.objects i (record (p.objects i) { status = st; never_set = false });
      })
      written = record {
        unique = v.unique;
        entries =
            All-map p.pool (λ e. IsEntry-write p.objects p.next i _ e refl (λ h. h)) v.entries;
      }

  label-restore : (d : Option Saved) (s : Status) → (restore d s).label ≡ s.label
  label-restore none s = refl
  label-restore (some v) s = refl

  pub label-reconstitute : (p : Pool) (s : Status) → (reconstitute p s).label ≡ s.label
  unfolding reconstitute
  label-reconstitute p s = ground (arith, label-restore (lookup s.label p.status_state) s)

  -- Adding an existing Status object to a valid pool keeps it valid: every label stands once in it,
  -- at an object of that label that tells the pool of its updates.
  pub add-IsValid : (i : ℕ) (p : Pool) → i < p.next → IsValid p → IsValid (add i p)
  unfolding add
  add-IsValid i p below v = on_update-IsValid _ (record {
    unique = insert-IsUnique _ i p.pool v.unique;
    entries = All-insert (IsEntry (write p.objects i added) p.next) _ i p.pool entry (
        All-map p.pool
          (λ e.
            IsEntry-write p.objects p.next i added e (label-reconstitute p (p.objects i))
              (λ _. refl))
          v.entries);
  })
    where
      added : Status
      added = record (reconstitute p (p.objects i)) { has_on_update = true }

      entry : IsEntry (write p.objects i added) p.next ((reconstitute p (p.objects i)).label, i)
      entry = (ground arith, ground arith, below)

pub on_commit-IsValid : (p : Pool) → IsValid p → IsValid (on_commit p)
unfolding on_commit
on_commit-IsValid p v = record { unique = v.unique; entries = v.entries }
