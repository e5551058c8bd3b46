-- ===== src/Traffic/Dns/Services.antt =====
-- dns.go and traffic.go: what the DNS reconciler is given, and the statuses of reconcilers.
use kcp_glbc.Prelude.{ℕ, String, List, Option, Bool, Error, Result}
use kcp_glbc.Api.{DnsRecord}
use kcp_glbc.Api.Endpoints.{Endpoint}

abbrev pub host_annotation : String
host_annotation = "kuadrant.dev/host.generated"

abbrev pub traffic_key_annotation : String
traffic_key_annotation = "kuadrant.dev/traffic-key"

pub data ReconcileStatus : Type 0 where
  stop : ReconcileStatus
  continue : ReconcileStatus
  requeue_in_5_seconds : ReconcileStatus

-- The functions and values of a `DnsReconciler`, with the state of the world that they act on, and
-- what the libraries give: the annotation of the cluster, unique ids, sorting and deep equality.
pub record DnsServices (A W : Type 0) : Type 0 where
  pub delete_dns : A → W → Option Error × W
  pub get_dns : A → W → Result DnsRecord
  pub create_dns : DnsRecord → W → Option Error × W
  pub update_dns : DnsRecord → W → Option Error × W
  pub watch_host : String → String → W → W
  pub forget_host : String → String → W → W
  pub list_host_watchers : String → W → List String
  pub dns_lookup : String → W → Result (List String)
  pub found_nameservers : String → String → W → Bool
  pub managed_domain : String
  pub zone_id : String
  pub cluster_key : String
  pub xid : W → String
  pub itoa : ℕ → String
  pub sort : List Endpoint → List Endpoint
  pub record_equal : DnsRecord → DnsRecord → Bool
