-- ===== src/Snap/Confinement.antt =====
-- charm.py, OSBaseOperatorCharmSnap.ensure_snap_present: what happens to the confinement of a snap.
use sunbeam_charms.Prelude.{String, ◌≡◌, Bool, true, false, not, Option, List, eq_iff, arith}
use sunbeam_charms.Exec.{ok, raised, blocked_error}
use sunbeam_charms.Snap.{
  Snap, Snapd, devmode_of, is_stuck, get_snap, get_snap_channel_revision, manage_channel,
  ensure_snap_present, enable_parallel_snaps,
}

module _ {S : Type 0} (snapd : Snapd S) (snap_name snap_channel : String) where
  -- An installed snap is not moved between strict and devmode confinement if the channel offers the
  -- installed revision, or its revision is not known: the charm is blocked, and the snap is neither
  -- installed anew nor held.
  pub ensure_snap_present-stuck :
      (want_devmode : Bool) (installed : List (String × Bool)) (snap : Snap)
      (target : Option String) (s t u v w : S)
      → enable_parallel_snaps snapd snap_name snap_channel s ≡ (ok tt, t)
      → snapd.installed_snaps t ≡ (ok installed, u)
      → get_snap snapd snap_name snap_channel u ≡ (ok snap, v)
      → snap.present ≡ true
      → devmode_of snap_name installed ≡ not want_devmode
      → get_snap_channel_revision snapd snap_name snap_channel v ≡ (ok target, w)
      → is_stuck snap target ≡ true
      → ensure_snap_present snapd snap_name snap_channel want_devmode s
        ≡ (raised (blocked_error "Invalid snap state: see juju debug-logs"), w)
  unfolding ensure_snap_present manage_channel
  ensure_snap_present-stuck true installed snap target s t u v w e i g p d r k =
      rw (e, i, g, p, d, r, k) (ground arith)
  ensure_snap_present-stuck false installed snap target s t u v w e i g p d r k =
      rw (e, i, g, p, d, r, k) (ground arith)

  -- A snap that is installed from the channel, in the confinement that is wanted, is only held.
  pub ensure_snap_present-current :
      (want_devmode : Bool) (installed : List (String × Bool)) (snap : Snap) (s t u v w : S)
      → enable_parallel_snaps snapd snap_name snap_channel s ≡ (ok tt, t)
      → snapd.installed_snaps t ≡ (ok installed, u)
      → get_snap snapd snap_name snap_channel u ≡ (ok snap, v)
      → snap.present ≡ true
      → snap.channel ≡ snap_channel
      → devmode_of snap_name installed ≡ want_devmode
      → snapd.hold snap_name v ≡ (ok tt, w)
      → ensure_snap_present snapd snap_name snap_channel want_devmode s ≡ (ok tt, w)
  unfolding ensure_snap_present manage_channel
  ensure_snap_present-current want_devmode installed snap s t u v w e i g p c d h =
      rw (e, i, g) (ground (arith, eq_iff snap.channel snap_channel))
