-- ===== src/Dns.antt =====
-- pkg/dns: DNS records, their publication to zones, health checks, and the watching of hosts.
pub mod Provider
pub mod Publish
pub mod Health
pub mod Watcher
pub mod Resolver
pub mod Record
