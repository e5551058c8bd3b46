-- ===== src/Dns/Provider.antt =====
-- dns.go, health.go: the interface of a DNS provider, and the fake one.
use kcp_glbc.Prelude.{Option, none, Error}
use kcp_glbc.Api.{DnsRecord, DnsZone, HealthCheck}
use kcp_glbc.Api.Endpoints.{Endpoint}

-- A call returns its error and the provider's new state. The calls on health checks also write to
-- the endpoint that they are given.
pub record Provider : Type 1 where
  pub State : Type 0
  pub ensure : DnsRecord → DnsZone → State → Option Error × State
  pub delete : DnsRecord → DnsZone → State → Option Error × State
  pub reconcile_health_check : HealthCheck → Endpoint → State → Option Error × Endpoint × State
  pub delete_health_check : Endpoint → State → Option Error × Endpoint × State

abbrev pub fake_provider : Provider
fake_provider = record {
  State = Unit {0};
  ensure = λ r z s. (none, s);
  delete = λ r z s. (none, s);
  reconcile_health_check = λ hc e s. (none, e, s);
  delete_health_check = λ e s. (none, e, s);
}
