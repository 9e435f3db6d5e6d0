-- ===== src/Pebble/Files.antt =====
-- templating.py: writing a configuration file.
use mathlib.Core.Path.{subst}
use sunbeam_charms.Prelude.{
  String, ◌≡◌, refl, ap, Bool, true, false, Option, none, some, arith, ◌==◌, eq_iff, eq_refl,
  if◌then◌else◌,
}
use sunbeam_charms.Exec.{ok, raised, Result, Done, continue, pure}
use sunbeam_charms.Text.{parent}
use sunbeam_charms.Pebble.{Container, Parts, ConfigFile, sidecar_config_write}

module _ {V : Type 0} (c : Container V) (parts : Parts V) where
  -- What ops documents of `push`: if it returns, the file has the contents.
  abbrev pub PushWrites : Type 0
  PushWrites =
      (config : ConfigFile) (contents : String) (v w : V)
      → c.push config contents v ≡ (ok tt, w)
      → c.pull config.path w ≡ some contents

  after_push :
      (config : ConfigFile) (contents : String) (v w : V) (b : Bool) (r : Done × V)
      → PushWrites
      → c.push config contents v ≡ r
      → continue (λ _. pure true) r ≡ (ok b, w)
      → c.pull config.path w ≡ some contents
  after_push config contents v w b (ok u, x) p e h = ground (arith, p config contents v x)
  after_push config contents v w b (raised y, x) p e h = ground arith

  after_parents :
      (config : ConfigFile) (contents : String) (w : V) (b : Bool) (r : Done × V)
      → PushWrites
      → continue (λ _. λ x. continue (λ _. pure true) (c.push config contents x)) r ≡ (ok b, w)
      → c.pull config.path w ≡ some contents
  after_parents config contents w b (ok u, x) p h =
      after_push config contents x w b (c.push config contents x) p refl h
  after_parents config contents w b (raised y, x) p h = ground arith

  chosen :
      (found : Bool) (config : ConfigFile) (contents : String) (v w : V) (b : Bool)
      → PushWrites
      → (found ≡ true → c.pull config.path v ≡ some contents)
      → (if found
          then (ok false, v)
          else continue
              (λ _. λ x. continue (λ _. pure true) (c.push config contents x))
              (if c.is_dir (parent config.path) v
                then (ok tt, v)
                else c.make_parents (parent config.path) v))
        ≡ (ok b, w)
      → c.pull config.path w ≡ some contents
  chosen true config contents v w b p f h =
      subst (λ x. c.pull config.path x ≡ some contents) (ap (λ (r : Result Bool × V). r.1) h)
        (f refl)
  chosen false config contents v w b p f h = after_parents config contents w b _ p h

  same_contents :
      (o : Option String) (contents : String)
      → (elim o [ none ↦ false | some t ↦ t == contents ]) ≡ true
      → o ≡ some contents
  same_contents none contents h = ground arith
  same_contents (some t) contents h = ap some ((eq_iff t contents).0 h)

  -- A write that returns leaves the file with the contents asked for, whether it reports a change
  -- or not.
  pub pull-sidecar_config_write :
      (config : ConfigFile) (contents : String) (v w : V) (b : Bool)
      → PushWrites
      → sidecar_config_write c parts config contents v ≡ (ok b, w)
      → c.pull config.path w ≡ some contents
  unfolding sidecar_config_write
  pull-sidecar_config_write config contents v w b p h =
      chosen _ config contents v w b p (same_contents (c.pull config.path v) contents) h

  -- If pushing a file works as ops documents it, then after a write that returned a second write of
  -- the same contents changes nothing and reports no change.
  pub sidecar_config_write_twice :
      (config : ConfigFile) (contents : String) (v w : V) (b : Bool)
      → PushWrites
      → sidecar_config_write c parts config contents v ≡ (ok b, w)
      → sidecar_config_write c parts config contents w ≡ (ok false, w)
  sidecar_config_write_twice config contents v w b p h =
      unchanged (pull-sidecar_config_write config contents v w b p h)
    where
      unchanged :
          c.pull config.path w ≡ some contents
          → sidecar_config_write c parts config contents w ≡ (ok false, w)
      unchanged e = unfold sidecar_config_write in rw (e, eq_refl contents)
