-- ===== src/Traffic.antt =====
-- pkg/traffic: the reconcilers of ingresses and routes.
pub mod Object
pub mod Domain
pub mod Patches
pub mod Route
pub mod Dns
pub mod Certificates
pub mod Workload
pub mod Ingress
pub mod Host
