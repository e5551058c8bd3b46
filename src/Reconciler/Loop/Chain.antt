-- ===== src/Reconciler/Loop/Chain.antt =====
-- ingress_reconciler.go and route_reconciler.go: the three reconcilers, in their order.
use kcp_glbc.Prelude.{List, [], ◌∷◌, Option, some, Error, Result}
use kcp_glbc.Api.{DomainVerification}
use kcp_glbc.Traffic.Workload.{Workload}
use kcp_glbc.Traffic.Object.{TrafficObject}
use kcp_glbc.Traffic.Host.{reconcile_hosts}
use kcp_glbc.Traffic.Dns.{DnsServices, reconcile_dns}
use kcp_glbc.Traffic.Certificates.{CertificateServices, reconcile_tls}
use kcp_glbc.Reconciler.Loop.{Member}

-- What the three reconcilers are given, and the loop. `process` is `ProcessCustomHosts`.
pub record Chain (A W : Type 0) : Type 0 where
  pub dns : DnsServices A W
  pub certificates : CertificateServices W
  pub get_domain_verifications : A → W → Result (List DomainVerification)
  pub process : List DomainVerification → A → W → Option (Option Error × A × W)

module _ {A W : Type 0} (w : Workload) (o : TrafficObject A) (chain : Chain A W) where
  abbrev pub dns_member : Member A W
  dns_member = record {
    name = "DNS Reconciler";
    reconcile = λ a wd. some (reconcile_dns w o chain.dns a wd);
  }

  abbrev pub host_member : Member A W
  host_member = record {
    name = "Host Reconciler";
    reconcile = reconcile_hosts chain.get_domain_verifications chain.process;
  }

  abbrev pub certificate_member : Member A W
  certificate_member = record {
    name = "Certificate Reconciler";
    reconcile = λ a wd. some (reconcile_tls o chain.certificates a wd);
  }

  abbrev pub members : List (Member A W)
  members = dns_member ∷ host_member ∷ certificate_member ∷ []
