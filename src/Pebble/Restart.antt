-- ===== src/Pebble/Restart.antt =====
-- container_handlers.py: starting and restarting the services of a container.
use sunbeam_charms.Prelude.{
  String, ◌≡◌, refl, ◌∙◌, Bool, true, false, not, ◌||◌, [], ◌∷◌, map, keep, all_of, arith, ◌==◌,
  eq_iff, eq_refl, if◌then◌else◌,
}
use sunbeam_charms.Dict.{Dict, contains, keys}
use sunbeam_charms.Exec.{Exc, Done, ok, raised, Action, for_each, continue}
use sunbeam_charms.Pebble.{
  Container, Parts, Handler, reset_files_changed, restart_one, start_or_restart, start_all,
  service_ready, pebble_ready,
}

abbrev stopped : Dict Bool → Dict Bool
stopped services = keep (λ (s : String × Bool). not s.1) services

-- What a service's entry becomes when the service of that name is started.
abbrev pub mark : String → String × Bool → String × Bool
mark name s = (s.0, if s.0 == name then true else s.1)

module _ {V : Type 0} (c : Container V) (parts : Parts V) where
  continue_all :
      (body : String × Bool → Action (Handler V)) (xs ys : Dict Bool) (r : Done × Handler V)
      → ((h : Handler V) → for_each xs body h ≡ for_each ys body h)
      → continue (λ _. for_each xs body) r ≡ continue (λ _. for_each ys body) r
  continue_all body xs ys (ok u, h) e = e h
  continue_all body xs ys (raised x, h) e = refl

  leaves_running :
      (name : String) (h : Handler V) → start_or_restart c parts false (name, true) h ≡ (ok tt, h)
  unfolding start_or_restart
  leaves_running name h = refl

  only_stopped :
      (services : Dict Bool) (h : Handler V)
      → for_each services (start_or_restart c parts false) h
        ≡ for_each (stopped services) (start_or_restart c parts false) h
  unfolding for_each
  only_stopped [] h = refl
  only_stopped ((name, true) ∷ rest) h = rw (leaves_running name h) (only_stopped rest h)
  only_stopped ((name, false) ∷ rest) h =
      continue_all (start_or_restart c parts false) rest (stopped rest)
        (start_or_restart c parts false (name, false) h) (only_stopped rest)

  -- On a container that can be reached, `start_all` without a restart does to the handler what
  -- starting the services that do not run does, in their order: it does nothing to a service that
  -- runs.
  pub start_all-only_stopped :
      (h : Handler V)
      → c.can_connect h.container ≡ true
      → start_all c parts false h
        ≡ for_each (stopped (c.get_services h.container)) (start_or_restart c parts false) h
  unfolding start_all
  start_all-only_stopped h e = rw e (only_stopped (c.get_services h.container) h)

  -- If the first two services of a container that can be reached run, the first is restarted and
  -- the restart of the second raises, then `start_all` with a restart raises that exception and
  -- leaves no changed file on record.
  pub start_all-forgets_changes :
      (h : Handler V) (a b : String) (rest : Dict Bool) (v w : V) (e : Exc)
      → c.can_connect h.container ≡ true
      → c.get_services h.container ≡ (a, true) ∷ (b, true) ∷ rest
      → restart_one c parts a h.container ≡ (ok tt, v)
      → restart_one c parts b v ≡ (raised e, w)
      → start_all c parts true h ≡ (raised e, record h { files_changed = []; container = w })
  unfolding start_all for_each start_or_restart reset_files_changed
  start_all-forgets_changes h a b rest v w e k s r1 r2 = rw k (rw s (rw r1 (rw r2)))

  -- What ops documents of `start`: it returns, the service runs afterwards, and the others and the
  -- connection are as before.
  pub record StartWorks : Type 0 where
    pub returns : (name : String) (v : V) → (c.start name v).0 ≡ ok tt
    pub marks :
        (name : String) (v : V)
        → c.get_services (c.start name v).1 ≡ map (mark name) (c.get_services v)
    pub stays : (name : String) (v : V) → c.can_connect (c.start name v).1 ≡ c.can_connect v

  -- Every service runs or is still to be started.
  abbrev covered : Dict Bool → Dict Bool → Bool
  covered todo services =
      all_of (λ (s : String × Bool). s.1 || contains s.0 (keys (stopped todo))) services

  covered-mark :
      (name : String) (rest services : Dict Bool)
      → covered ((name, false) ∷ rest) services ≡ true
      → covered rest (map (mark name) services) ≡ true
  unfolding contains keys
  covered-mark name rest [] h = refl
  covered-mark name rest ((n, r) ∷ ss) h =
      ground (arith, covered-mark name rest ss, eq_iff n name, eq_iff name n)

  covered-more :
      (n : String) (r : Bool) (todo services : Dict Bool)
      → covered todo services ≡ true
      → covered ((n, r) ∷ todo) services ≡ true
  unfolding contains keys
  covered-more n r todo [] h = refl
  covered-more n r todo ((m, q) ∷ ss) h = ground (arith, covered-more n r todo ss)

  covered_at_start : (services : Dict Bool) → covered services services ≡ true
  unfolding contains keys
  covered_at_start [] = refl
  covered_at_start ((n, r) ∷ ss) =
      ground (arith, covered-more n r ss ss, covered_at_start ss, eq_refl n)

  covered_by_none :
      (services : Dict Bool)
      → covered [] services ≡ true
      → all_of (λ (s : String × Bool). s.1) services ≡ true
  unfolding contains keys
  covered_by_none [] h = refl
  covered_by_none ((n, r) ∷ ss) h = ground (arith, covered_by_none ss)

  abbrev AllRun : Done × Handler V → Type 0
  AllRun r = (h : Handler V) × (r ≡ (ok tt, h)) × (service_ready c parts h.container ≡ true)

  after_start :
      (name : String) (r : Done × V) (h : Handler V)
      → r.0 ≡ ok tt
      → (continue (λ _. reset_files_changed) (r.0, record h { container = r.1 }))
        ≡ (ok tt, record h { files_changed = []; container = r.1 })
  unfolding reset_files_changed
  after_start name r h e = rw e

  starts :
      (name : String) (h : Handler V)
      → StartWorks
      → start_or_restart c parts false (name, false) h
        ≡ (ok tt, record h { files_changed = []; container = (c.start name h.container).1 })
  unfolding start_or_restart
  starts name h w = after_start name (c.start name h.container) h (w.returns name h.container)

  all_started :
      (todo : Dict Bool) (h : Handler V)
      → StartWorks
      → c.can_connect h.container ≡ true
      → covered todo (c.get_services h.container) ≡ true
      → AllRun (for_each todo (start_or_restart c parts false) h)
  unfolding for_each
  all_started [] h w e k = (
    h,
    refl,
    unfold service_ready pebble_ready in rw e (covered_by_none (c.get_services h.container) k),
  )
  all_started ((name, true) ∷ rest) h w e k = rw (leaves_running name h) (all_started rest h w e k)
  all_started ((name, false) ∷ rest) h w e k = rw (starts name h w) (
      all_started rest _ w (w.stays name h.container ∙ e)
        (rw (w.marks name h.container) (covered-mark name rest (c.get_services h.container) k)))

  -- If starting a service works as ops documents it, then on a container that can be reached
  -- `start_all` returns without a restart, and all services run: the handler is ready.
  pub start_all-ready :
      (h : Handler V)
      → StartWorks
      → c.can_connect h.container ≡ true
      → AllRun (start_all c parts false h)
  unfolding start_all
  start_all-ready h w e = rw e (
      all_started (c.get_services h.container) h w e
        (covered_at_start (c.get_services h.container)))
