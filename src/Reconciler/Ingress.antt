-- ===== src/Reconciler/Ingress.antt =====
-- pkg/reconciler/ingress/controller.go: the controller of ingresses.
pub mod Safety
pub mod Finalizer
pub mod Events
use kcp_glbc.Prelude.{
  String, List, [], ◌∷◌, Option, none, some, Bool, true, false, not, ◌&&◌, if◌then◌else◌, Error,
  is_not_found, Result, ok, err,
}
use kcp_glbc.Api.{ObjectMeta, DomainVerification}
use kcp_glbc.Traffic.Workload.{Workload}
use kcp_glbc.Traffic.Object.{TrafficObject}
use kcp_glbc.Traffic.Ingress.{Ingress, LoadBalancerIngress, tmc_enabled}
use kcp_glbc.Traffic.Ingress.Object.{ingress_object}
use kcp_glbc.Traffic.Ingress.Hosts.{Codec, process_custom_hosts}
use kcp_glbc.Traffic.Ingress.Transform.{Comparer, transform}
use kcp_glbc.Traffic.Host.{reconcile_hosts}
use kcp_glbc.Traffic.Dns.{DnsServices, reconcile_dns}
use kcp_glbc.Traffic.Certificates.{CertificateServices, reconcile_tls}
use kcp_glbc.Reconciler.Loop.{LoopServices, reconcile}
use kcp_glbc.Reconciler.Loop.Chain.{Chain, members}

-- The fields of the controller: what its reconcilers are given, the clients of the API server, and
-- what the libraries give. `V` is the rest of a rule, `W` the world.
pub record IngressController (V W : Type 0) : Type 0 where
  pub workload : Workload
  pub codec : Codec V
  pub comparer : Comparer V
  pub unmarshal : String → Result (List LoadBalancerIngress)
  pub key_of : ObjectMeta → String
  pub dns : DnsServices (Ingress V) W
  pub certificates : CertificateServices W
  pub loop : LoopServices W
  pub get_domain_verifications : Ingress V → W → Result (List DomainVerification)
  pub update : Ingress V → W → Option Error × W
  pub update_status : Ingress V → W → Option Error × W
  pub ingress_equal : Ingress V → Ingress V → Bool
  pub status_equal : List LoadBalancerIngress → List LoadBalancerIngress → Bool

module _ {V W : Type 0} (c : IngressController V W) where
  open c use {
    workload, codec, comparer, unmarshal, key_of, dns, certificates, loop, get_domain_verifications,
    update, update_status, ingress_equal, status_equal,
  }

  abbrev pub object : TrafficObject (Ingress V)
  object = ingress_object workload unmarshal key_of

  with_world : W → Option (Option Error × Ingress V) → Option (Option Error × Ingress V × W)
  with_world wd none = none
  with_world wd (some (failed, a)) = some (failed, a, wd)

  -- `createOrUpdateIngress` and `deleteRoute` of this controller do nothing.
  unfoldable pub process_hosts :
      List DomainVerification → Ingress V → W → Option (Option Error × Ingress V × W)
  unfolding with_world
  process_hosts dvs a wd = with_world wd (process_custom_hosts workload codec dvs a)

  abbrev pub chain : Chain (Ingress V) W
  chain = record {
    dns = dns;
    certificates = certificates;
    get_domain_verifications = get_domain_verifications;
    process = process_hosts;
  }

  unfoldable pub reconcile_ingress : Ingress V → W → Option (Option Error × Ingress V × W)
  reconcile_ingress a wd = reconcile workload object loop (members workload object chain) a wd

  write_status : Ingress V → Ingress V → W → Option Error × W
  write_status current target wd =
      if tmc_enabled workload target
        && not (status_equal current.load_balancer target.load_balancer)
      then update_status target wd
      else (none, wd)

  write_update : Ingress V → Ingress V → Option Error × W → Option Error × W
  unfolding write_status
  write_update current target (some e, wd) = (some e, wd)
  write_update current target (none, wd) = write_status current target wd

  write_transformed : Ingress V → Option Error × Ingress V → W → Option Error × W
  unfolding write_update
  write_transformed current (some e, target) wd = (some e, wd)
  write_transformed current (none, target) wd = write_update current target (update target wd)

  -- The last part of `process`, after `reconcile`.
  unfoldable pub write_back : Ingress V → Option Error × Ingress V × W → Option Error × W
  unfolding write_transformed write_status
  write_back current (some e, target, wd) = (some e, wd)
  write_back current (none, target, wd) =
      if ingress_equal current target
      then write_status current target wd
      else write_transformed current (transform workload comparer current target) wd

  written : Ingress V → Option (Option Error × Ingress V × W) → Option (Option Error × W)
  unfolding write_back
  written current none = none
  written current (some outcome) = some (write_back current outcome)

  -- `found` is the answer of the indexer. A new `traffic.Ingress` has no generated host.
  unfoldable pub process_ingress : Result (Option (Ingress V)) → W → Option (Option Error × W)
  unfolding written
  process_ingress (err e) wd = if is_not_found e then some (none, wd) else some (some e, wd)
  process_ingress (ok none) wd = some (none, wd)
  process_ingress (ok (some found)) wd =
      let current = record found { generated_host = "" } in
      written current (reconcile_ingress current wd)
