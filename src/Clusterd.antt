-- ===== src/Clusterd.antt =====
-- charms/sunbeam-clusterd/src: the charm of the cluster daemon, its client, its peer relation, and
-- the life of a cluster's nodes.
pub mod Client
pub mod Peers
pub mod Nodes
pub mod Application
pub mod Machine
