-- ===== src/Status/Persist.antt =====
-- compound_status.py: the snapshot and the next run of the charm.
use sunbeam_charms.Prelude.{
  ℕ, ap, sym, ◌∙◌, ◌≡◌, refl, inl, inr, String, Option, none, some, [], ◌∷◌, map, arith, All,
  eq_iff,
}
use sunbeam_charms.Dict.{Dict, lookup, insert, has_key, values, IsUnique, lookup-insert}
use sunbeam_charms.Status.{
  Kind-discrete, unknown, StatusBase, name, text, message, Status, Ops, Pool, Saved, init,
  init_pool, new_status, serialize, serialize_all, statuses, add, on_update, on_commit,
  reconstitute,
}
use sunbeam_charms.Status.Display.{on_update_cases}
use sunbeam_charms.Status.Members.{IsEntry, IsValid}

-- What is saved of an object, or else what was there.
abbrev saved_or : (ℕ → Status) → Option ℕ → Option Saved → Option Saved
saved_or o none d = d
saved_or o (some i) d = some (serialize (o i))

lookup-serialize_all :
    (l : String) (o : ℕ → Status) (n : ℕ) (m : Dict ℕ) (d : Dict Saved)
    → IsUnique m
    → All (IsEntry o n) m
    → lookup l (serialize_all (map o (values m)) d) ≡ saved_or o (lookup l m) (lookup l d)
unfolding lookup serialize_all values
lookup-serialize_all l o n [] d u a = refl
lookup-serialize_all l o n ((k, i) ∷ m) d u a =
    lookup-serialize_all l o n m (insert (o i).label (serialize (o i)) d) u.1 a.1
    ∙ ground
        (arith, lookup-insert (o i).label l (serialize (o i)) d, eq_iff k l, eq_iff (o i).label l)

unknown_text : (st : StatusBase) → name st ≡ unknown → text st ≡ ""
unfolding name text
unknown_text st h = ground arith

-- What two statuses show alike: the name and the message.
abbrev pub Same : StatusBase → StatusBase → Type 0
Same a b = (name a ≡ name b) × (text a ≡ text b)

-- The next run of the charm: new objects, the stored snapshot, and one Status under the label.
unfoldable pub next_run : ⦃ops : Ops⦄ → String → ℕ → (ℕ → Status) → StatusBase → Pool → Pool
next_run ⦃ops⦄ label prio o u p =
    let created = new_status label prio (init_pool o p.snapshot u) in add created.0 created.1

module _ ⦃ops : Ops⦄ where
  objects-on_update : (p : Pool) → (on_update p).objects ≡ p.objects
  objects-on_update p = elim (on_update_cases p) [
    | inl e ↦ ap (λ (q : Pool). q.objects) e
    | inr (st, _, _, e) ↦ ap (λ (q : Pool). q.objects) e
  ]

  from_name-serialize : (s : Status) → Same (ops.from_name (name s.status) (message s)) s.status
  unfolding message
  from_name-serialize s = (
    ops.name-from_name (name s.status) (text s.status),
    elim (Kind-discrete (name s.status) unknown) [
      | yes u ↦
          unknown_text (ops.from_name (name s.status) (text s.status))
            (ops.name-from_name (name s.status) (text s.status) ∙ u)
          ∙ sym (unknown_text s.status u)
      | no n ↦ ops.text-from_name (name s.status) (text s.status) n
    ],
  )

  -- A status of a valid pool that is committed comes back in the next run with its name and
  -- message, when a Status object of its label is created and added to that run's pool.
  pub next_run-restores :
      (label : String) (prio i : ℕ) (o : ℕ → Status) (u : StatusBase) (p : Pool)
      → IsValid p
      → lookup label p.pool ≡ some i
      → Same (((next_run label prio o u (on_commit p)).objects 0).status) (p.objects i).status
  unfolding next_run new_status init_pool init add on_commit reconstitute statuses has_key lookup
      serialize
  next_run-restores label prio i o u p v h =
      rw
        (
          objects-on_update,
          lookup-serialize_all label p.objects p.next p.pool [] v.unique v.entries,
          h,
        )
        (from_name-serialize (p.objects i))
