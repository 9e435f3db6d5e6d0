-- ===== src/Keystone.antt =====
-- charms/keystone-k8s/src/utils: the client of Keystone's API, and the manager of a Keystone unit.
pub mod Api
pub mod Lookup
pub mod Client
pub mod Keys
pub mod Setup
pub mod Accounts
pub mod Certificates
pub mod Requests
pub mod Domains
pub mod Actions
pub mod Files
