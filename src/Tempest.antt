-- ===== src/Tempest.antt =====
-- charms/tempest-k8s/src/utils: the schedule of the periodic checks, and cleaning up after them.
pub mod Schedule
pub mod Cleanup
