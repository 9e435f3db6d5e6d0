-- ===== src/Status.antt =====
-- ops-sunbeam/ops_sunbeam/compound_status.py: the statuses of the parts of a charm, and the pool
-- that shows one of them as the unit's status. Status objects are shared between the pool and the
-- parts that set them, so they live in a store and the pool holds their addresses.
pub mod Order
pub mod Display
pub mod Members
pub mod Persist
use sunbeam_charms.Prelude.{
  ℕ, suc, ◌+◌, String, ◌≡◌, ◌≢◌, Bool, true, false, not, ◌&&◌, ◌||◌, Option, none, some, List, [],
  ◌∷◌, map, ltb, nat_eq, ◌==◌, if◌then◌else◌,
}
use sunbeam_charms.Dict.{Dict, lookup, insert, has_key, values}
use sunbeam_charms.Text.{concat, join, align_right}

-- The names of the status classes of ops: `StatusBase.name`.
pub data Kind : Type 0 where
  blocked waiting maintenance active unknown : Kind

pub Kind-discrete : Discrete Kind
Kind-discrete = hlevel

-- A status value of ops; `UnknownStatus` has no message.
pub data StatusBase : Type 0 where
  blocked_status waiting_status maintenance_status active_status : String → StatusBase
  unknown_status : StatusBase

unfoldable pub name : StatusBase → Kind
name (blocked_status m) = blocked
name (waiting_status m) = waiting
name (maintenance_status m) = maintenance
name (active_status m) = active
name unknown_status = unknown

unfoldable pub text : StatusBase → String
text (blocked_status m) = m
text (waiting_status m) = m
text (maintenance_status m) = m
text (active_status m) = m
text unknown_status = ""

-- `StatusBase.from_name` belongs to ops. It builds the status of the given name, with the message
-- if that status has one.
pub record Ops : Type 0 where
  pub from_name : Kind → String → StatusBase
  pub name-from_name : (k : Kind) (m : String) → name (from_name k m) ≡ k
  pub text-from_name : (k : Kind) (m : String) → k ≢ unknown → text (from_name k m) ≡ m

-- STATUS_PRIORITIES
unfoldable pub status_priorities : Kind → ℕ
status_priorities blocked = 1
status_priorities waiting = 2
status_priorities maintenance = 3
status_priorities active = 4
status_priorities unknown = 5

-- The `on_update` hook is the pool's, or there is none. Priorities are 0 or more in every charm.
pub record Status : Type 0 where
  pub label : String
  pub prio : ℕ
  pub never_set : Bool
  pub status : StatusBase
  pub has_on_update : Bool

unfoldable pub init : String → ℕ → Status
init label priority = record {
  label = label;
  prio = priority;
  never_set = true;
  status = unknown_status;
  has_on_update = false;
}

unfoldable pub message : Status → String
unfolding text
message s = text s.status

-- The second part stands for its negation: `before` reads it the other way round.
unfoldable pub priority : Status → ℕ × ℕ
unfolding status_priorities name
priority s = (status_priorities (name s.status), s.prio)

-- `a < b` on the tuples that Python compares.
abbrev pub key_lt : ℕ × ℕ → ℕ × ℕ → Bool
key_lt a b = ltb a.0 b.0 || (nat_eq a.0 b.0 && ltb b.1 a.1)

unfoldable pub before : Status → Status → Bool
unfolding priority
before s t = key_lt (priority s) (priority t)

-- What `_serialize` stores of a status. The snapshot is the JSON text of a dictionary of these, which
-- reads back as it was; here it is the dictionary.
pub record Saved : Type 0 where
  pub name : Kind
  pub message : String

unfoldable pub serialize : Status → Saved
unfolding name message
serialize s = record { name = name s.status; message = message s }

-- `sorted(statuses, key=priority)`: stable, so a status stands before a later one of the same key.
unfoldable pub insert_sorted : Status → List Status → List Status
unfolding before
insert_sorted s [] = s ∷ []
insert_sorted s (t ∷ ts) = if before t s then t ∷ insert_sorted s ts else s ∷ t ∷ ts

unfoldable pub sorted : List Status → List Status
unfolding insert_sorted
sorted [] = []
sorted (s ∷ ss) = insert_sorted s (sorted ss)

-- The store of Status objects, the pool's dictionary, the state restored from the last snapshot,
-- the stored snapshot, and the status of the charm's unit.
pub record Pool : Type 0 where
  pub objects : ℕ → Status
  pub next : ℕ
  pub pool : Dict ℕ
  pub status_state : Dict Saved
  pub snapshot : Option (Dict Saved)
  pub unit_status : StatusBase

abbrev pub write : (ℕ → Status) → ℕ → Status → ℕ → Status
write o i s j = if nat_eq i j then s else o j

unfoldable pub statuses : Pool → List Status
unfolding values
statuses p = map p.objects (values p.pool)

-- A new Status object.
unfoldable pub new_status : String → ℕ → Pool → ℕ × Pool
unfolding init
new_status label prio p =
    (p.next, record p { objects = write p.objects p.next (init label prio); next = suc p.next })

-- `StatusPool.__init__`: no snapshot is an empty state.
abbrev restored : Option (Dict Saved) → Dict Saved
restored none = []
restored (some d) = d

unfoldable pub init_pool : (ℕ → Status) → Option (Dict Saved) → StatusBase → Pool
init_pool objects snapshot unit_status = record {
  objects = objects;
  next = 0;
  pool = [];
  status_state = restored snapshot;
  snapshot = snapshot;
  unit_status = unit_status;
}

kind_text : Kind → String
kind_text blocked = "blocked"
kind_text waiting = "waiting"
kind_text maintenance = "maintenance"
kind_text active = "active"
kind_text unknown = "unknown"

-- `"({}){}".format(label, " " + message if message else "")`
unfoldable pub prefixed : Status → String
unfolding concat message
prefixed s =
    concat
      ("(" ∷ s.label ∷ ")" ∷ (if message s == "" then "" else concat (" " ∷ message s ∷ [])) ∷ [])

-- The rest of `on_update`, from the computed status on.
unfoldable pub show : Option StatusBase → Pool → Pool
unfolding name
show none p = p
show (some st) p = elim (name st) [ active ↦ p | _ ↦ record p { unit_status = st } ]

module _ ⦃ops : Ops⦄ where
  unfoldable pub display : Status → Option StatusBase
  unfolding name message
  display s = elim (name s.status) [
    | unknown ↦ none
    | active ↦
        if message s == ""
        then some (active_status "")
        else some (ops.from_name active (prefixed s))
    | k ↦ some (ops.from_name k (prefixed s))
  ]

  abbrev pub display_first : List Status → Option StatusBase
  display_first [] = none
  display_first (s ∷ ss) = display s

  unfoldable pub compute_status : Pool → Option StatusBase
  compute_status p = display_first (sorted (statuses p))

  unfoldable pub on_update : Pool → Pool
  on_update p = show (compute_status p) p

  -- `Status.set`
  unfoldable pub set : ℕ → StatusBase → Pool → Pool
  set i st p =
      let q = record p {
        objects = write p.objects i (record (p.objects i) { status = st; never_set = false });
      } in
      if (p.objects i).has_on_update then on_update q else q

  -- `add` restores a status that was never set and is new to the pool from the saved state.
  abbrev pub restore : Option Saved → Status → Status
  restore none s = s
  restore (some v) s = record s { status = ops.from_name v.name v.message }

  unfoldable pub reconstitute : Pool → Status → Status
  reconstitute p s =
      if s.never_set && not (has_key s.label p.pool)
      then restore (lookup s.label p.status_state) s
      else s

  unfoldable pub add : ℕ → Pool → Pool
  add i p =
      let s = reconstitute p (p.objects i) in
      on_update (record p {
        objects = write p.objects i (record s { has_on_update = true });
        pool = insert s.label i p.pool;
      })

-- `_on_commit`: the dictionary of all statuses by label becomes the snapshot.
unfoldable pub serialize_all : List Status → Dict Saved → Dict Saved
serialize_all [] d = d
serialize_all (s ∷ ss) d = serialize_all ss (insert s.label (serialize s) d)

unfoldable pub on_commit : Pool → Pool
on_commit p = record p { snapshot = some (serialize_all (statuses p) []) }

-- `summarise`: a line for each status, the most urgent first.
unfoldable pub summary_line : Status → String
unfolding concat message name kind_text align_right
summary_line s = concat (
    align_right 30 s.label
    ∷ ": "
    ∷ align_right 10 (kind_text (name s.status))
    ∷ " | "
    ∷ message s
    ∷ [])

unfoldable pub summarise : Pool → String
summarise p = join "\n" (map summary_line (sorted (statuses p)))
