-- ===== src/Aws.antt =====
-- pkg/dns/aws: the Route 53 provider of DNS records and health checks.
pub mod Change
pub mod Health
