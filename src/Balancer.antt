-- ===== src/Balancer.antt =====
-- ops-sunbeam/ops_sunbeam/k8s_resource_handlers.py: the Kubernetes service of type LoadBalancer that
-- a charm keeps, and the annotations that its configuration gives.
pub mod Annotations
pub mod Service
pub mod Reconciled
