-- ===== src/Lib.antt =====
-- The Sunbeam charms: operators that deploy OpenStack on Juju. This library models the framework
-- that the charms share, ops-sunbeam/ops_sunbeam, the charm of the cluster daemon,
-- charms/sunbeam-clusterd/src, the charm of the identity service, charms/keystone-k8s/src, the
-- schedule and clean-up of charms/tempest-k8s/src/utils, and the charm of OVN's databases,
-- charms/ovn-central-k8s, with its side of the relations of other charms.
--
-- A charm keeps a pool of statuses, one for each of its parts, and shows the most urgent one as the
-- status of its unit. Its relation handlers say which relations are ready. At every event
-- `configure_charm` runs a guarded section: update the relations, configure the unit, configure the
-- application as the leader or not, set the statuses. An exception in that section becomes a status.
-- Charms on Kubernetes drive the services of their containers in this section, and charms of machines
-- drive a snap. The charm of clusterd runs a cluster whose nodes join with tokens and leave while
-- the roles of the members are settled. The charm of Keystone sets the service up with commands in
-- its container, keeps the repositories of keys of all units equal through secrets, passes
-- certificates on, and runs the requests of other charms against Keystone's API. The charm of OVN's
-- databases forms a cluster of them, keeps their listeners, tells its peers the ids of the clusters and
-- its clients how to connect. A charm that needs a user in Keystone asks for it through a request,
-- rotates its credentials, and has the users that it no longer needs deleted.
--
-- Files and code:
--   Exec            Python methods as functions from a state to a result and a state
--   Dict, Text      Python dictionaries and the text operations that the charms use
--   Status          ops-sunbeam/ops_sunbeam/compound_status.py: Status, StatusPool (Order: the sorting;
--                   Display: compute_status and on_update; Members: the pool's invariant;
--                   Persist: the snapshot and the next run)
--   Guard           ops-sunbeam/ops_sunbeam/guard.py: guard and its exceptions
--   Jobs            ops-sunbeam/ops_sunbeam/job_ctrl.py: run_once_per_unit, LocalJobStorage
--   Contexts        ops-sunbeam/ops_sunbeam/core.py: OPSCharmContexts
--   Peers           ops-sunbeam/ops_sunbeam/interfaces.py: OperatorPeers; ops-sunbeam/ops_sunbeam/relation_handlers.py:
--                   BasePeerHandler
--   Relations       ops-sunbeam/ops_sunbeam/charm.py: get_relation_handlers, check_broken_relations,
--                   get_mandatory_relations_not_ready; RelationHandler.set_status
--   Charm           ops-sunbeam/ops_sunbeam/charm.py: OSBaseOperatorCharm (Configure: how configure_charm ends;
--                   Bootstrap: the unit's mark)
--   Pebble          ops-sunbeam/ops_sunbeam/container_handlers.py: PebbleHandler, ServicePebbleHandler,
--                   WSGIPebbleHandler; ops-sunbeam/ops_sunbeam/templating.py: sidecar_config_write
--   Kubernetes      ops-sunbeam/ops_sunbeam/charm.py: OSBaseOperatorCharmK8S
--   Snap            ops-sunbeam/ops_sunbeam/charm.py: OSBaseOperatorCharmSnap
--   Clusterd        charms/sunbeam-clusterd/src: clusterd.py (Client), relation_handlers.py (Peers),
--                   charm.py (Nodes: certificates, tokens and joining; Nodes/Leaving: removal;
--                   Application: configure_app_leader and configure_app_non_leader;
--                   Machine: configure_unit, the snap, the actions)
--   Endpoints       ops-sunbeam/ops_sunbeam/charm.py: the urls of OSBaseOperatorAPICharm
--   Storage         ops-sunbeam/ops_sunbeam/storage.py: the validators
--   Keystone        charms/keystone-k8s/src: utils/client.py (Api: the library; Lookup; Client with
--                   Users and Roles), utils/manager.py (Setup, Accounts, Files, Keys), utils/certs.py and
--                   charm.py (Certificates with Uploads, Keys, Setup, Requests, Domains, Actions).
--                   Keys/Written, Keys/Renamed, Keys/Shared, Setup/Failures, Client/Again, Client/Updates,
--                   Lookup/Found, Certificates/Entries and Certificates/Uploads/Stored hold proofs
--   Tempest         charms/tempest-k8s/src/utils: validators.py (Schedule; Sampled: its runs), cleanup.py (Cleanup)
--   Regex           the regular expressions of k8s_resource_handlers.py (Correct: matching is matching)
--   Balancer        ops-sunbeam/ops_sunbeam/k8s_resource_handlers.py (Annotations with Names, Valid and
--                   Written; Service: KubernetesLoadBalancerHandler; Reconciled)
--   Ovn             ops-sunbeam/ops_sunbeam/ovn/relation_handlers.py (Addresses; Peers; Clients, with
--                   charms/ovn-central-k8s/lib/charms/ovn_central_k8s/v0/ovsdb.py) and
--                   charms/ovn-central-k8s/src: ovn.py (Clustering), ovsdb.py (Database), charm.py
--                   (Listeners, Central). Clients/Published, Clustering/Lines, Listeners/Ports and
--                   Central/Announced hold proofs
--   Users           ops-sunbeam/ops_sunbeam/relation_handlers.py: UserIdentityResourceRequiresHandler
--                   (Rotated: what its responses leave; Requested: its
--                   request and the charm of Keystone)
--   Ceph            ops-sunbeam/ops_sunbeam/relation_handlers.py: CephClientHandler's pools, and
--                   config_contexts.py and charms/storage/cinder-volume-ceph/src/charm.py: the
--                   contexts that name them (Pools: proofs)
--   Text/Parts, Text/Strip  splitting, joining and stripping of texts
--   Examples        the theorems at concrete inputs
--
-- A method that changes an object is a function from the state to a result and a state; the state
-- stays changed when the method raises, as in Python. Status objects are shared between the pool and
-- the parts of the charm, so the pool holds addresses into a store. A method that subclasses override
-- is a field of a record (`Class`, `Pebbles`, `Parts`); sets of names are lists.
--
-- No definition needs fuel: every loop runs over a list or a fixed number of steps, and retries belong
-- to tenacity. What belongs to other projects is a parameter: ops (`Ops`, `Storage`, `Container`,
-- `Folders`, `Juju`), requests (`Http`), snapd's client (`Snapd`, `LocalSnap`), tenacity (`Retry`),
-- keystoneclient (`Api`), croniter (`Croniter`), openstacksdk (`Connection`), urllib (`Urllib`),
-- lightkube (`Cluster`), the tools of OVN (`Executor`), and Python's ipaddress, uuid, int and tables of
-- characters and of floats (`IpLibrary`, `Readers`, `Unicode`, `Python`), Ceph's interface
-- (`CephClient`), and Juju with JSON and hashing (`Host`). The
-- hypotheses on them state what their documentation says: a status built from a name has that name;
-- stored state reads back what was written; a service that is started runs; a pushed file has its
-- contents and a removed one is gone; a domain that was created is listed; a dictionary that is
-- written as a text is read again; a retried call ends with the answer of a try; a requested pool
-- is on record.
--
-- Not modelled: the other handlers of the single relations and the vendored charm libraries, the Cinder
-- volume driver class and the models that pydantic builds, tracing, the charms besides clusterd,
-- keystone, tempest and ovn-central, of which the containers' layers and files and the decoding of the
-- tools' JSON are left out too, the refresh action of the
-- base class of snap charms, logging, and the tests. Of keystone, the identity providers and the
-- relations identity-service, identity-credentials and identity-endpoints are left out; of tempest,
-- the charm itself and its configuration. Of Ceph, the context of the connection, and of
-- the configuration contexts those of the WSGI settings and of all options are left out.
-- The cache of `get_snap` is left out. Priorities of
-- statuses are 0 or more, as in every charm. JSON is read on the documents of a truth value. In
-- `set_snap_data` the values of settings are texts or None, in at most two levels. Letters are
-- lowered in ASCII. A listing of a cloud's resources is read as a whole before they are deleted.
pub mod Prelude
pub mod Dict
pub mod Text
pub mod Exec
pub mod Status
pub mod Guard
pub mod Jobs
pub mod Contexts
pub mod Peers
pub mod Relations
pub mod Ceph
pub mod Charm
pub mod Pebble
pub mod Kubernetes
pub mod Snap
pub mod Clusterd
pub mod Endpoints
pub mod Storage
pub mod Keystone
pub mod Tempest
pub mod Regex
pub mod Balancer
pub mod Ovn
pub mod Users
pub mod Examples
