-- ===== src/Ovn.antt =====
-- The OVN support of ops-sunbeam/ops_sunbeam/ovn and the charm ovn-central-k8s: the databases'
-- addresses on the relations, the state of their clusters, their listeners, and the central charm.
pub mod Addresses
pub mod Peers
pub mod Clients
pub mod Clustering
pub mod Database
pub mod Listeners
pub mod Central
