-- ===== src/Examples.antt =====
-- The theorems at concrete inputs: a charm, a status pool, a container, a snap and a daemon in
-- small, over which the libraries that the charms call are instantiated.
pub mod Data
mod Ceph
mod Statuses
mod Charms
mod Workloads
mod Cluster
mod Folders
mod Identity
mod Checks
pub mod Services
mod Databases
mod Listeners
pub mod Users
mod Uploads
