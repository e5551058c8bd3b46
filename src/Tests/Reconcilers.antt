-- ===== src/Tests/Reconcilers.antt =====
-- The theorems about the reconcilers of traffic objects, at a small ingress.
use mathlib.Core.List.{Perm}
use mathlib.Core.List.Perm
use kcp_glbc.Prelude.{
  ℕ, ◌≤◌, ◌≡◌, ◌⊎◌, ◌↔◌, String, List, [], ◌∷◌, map, Option, none, some, Bool, true, false, All,
  Dict, lookup, put, contains, Reason, ok, refl, arith, not, ◌&&◌, ◌^^◌, inl, split,
}
use kcp_glbc.Api.{DnsRecord}
use kcp_glbc.Api.Endpoints.{Endpoint, get_provider_specific, get_address}
use kcp_glbc.Traffic.Object.{TrafficObject, StatusLaws, TlsLaws, Secret}
use kcp_glbc.Traffic.Ingress.{Ingress, IngressTls, LoadBalancerIngress}
use kcp_glbc.Traffic.Ingress.Object.{
  ingress_object, ingress_object-StatusLaws, ingress_object-TlsLaws, only_address, Serves,
}
use kcp_glbc.Traffic.Ingress.Transform.{Comparer, PatchValue, patches_for, transform}
use kcp_glbc.Traffic.Patches.{Patch}
use kcp_glbc.Traffic.Ingress.Transform.Diffs.{HasSpec, transform-HasSpec, lookup-transform}
use kcp_glbc.Metadata.{has_labels_containing}
use kcp_glbc.Traffic.Workload.{get_sync_targets}
use kcp_glbc.Traffic.Dns.{DnsServices, reconcile_dns}
use kcp_glbc.Traffic.Dns.LoadBalancer.{IsReady, IsPublished, reconcile_dns-IsReady}
use kcp_glbc.Traffic.Dns.Endpoints.{
  aws_endpoint_weight, endpoints_by_address, set_endpoint_from_targets,
}
use kcp_glbc.Traffic.Dns.Endpoints.Weights.{aws_endpoint_weight_bounds}
use kcp_glbc.Traffic.Dns.Endpoints.Targets.{
  alone, all_targets, HasWeight, targets-set_endpoint_from_targets,
  set_endpoint_from_targets-HasWeight,
}
use kcp_glbc.Traffic.Certificates.{CertificateServices}
use kcp_glbc.Traffic.Certificates.Events.{
  Certificate, certificate_ready, has_failed, certificate_updated_handler,
}
use kcp_glbc.Traffic.Certificates.Events.Failures.{certificate_updated_handler-none_iff}
use kcp_glbc.Traffic.Certificates.Secrets.{IsSecured, reconcile_tls-IsSecured}
use kcp_glbc.Traffic.Certificates.{reconcile_tls}
use kcp_glbc.Tests.Records.{meta_example, record_example, old_endpoint}
use kcp_glbc.Tests.Hosts.{ingress, rule_for, workload}

aws_endpoint_weight_bounds_example :
    (w : ℕ) × (aws_endpoint_weight 7 ≡ some w) × (1 ≤ w) × (w ≤ 255)
aws_endpoint_weight_bounds_example = aws_endpoint_weight_bounds 7 (omega arith)

abbrev groups : Dict (List String)
groups = ("lb.c1", "1.1.1.1" ∷ "3.3.3.3" ∷ []) ∷ ("2.2.2.2", "2.2.2.2" ∷ []) ∷ []

targets-set_endpoint_from_targets_example :
    Perm
      (map
        (λ (e : Endpoint). e.targets)
        (set_endpoint_from_targets
          (λ n. "w")
          (λ es. es)
          "g.hcg.com"
          groups
          record_example).endpoints)
      (map alone (all_targets groups))
targets-set_endpoint_from_targets_example =
    targets-set_endpoint_from_targets (λ n. "w") (λ es. es) "g.hcg.com" (λ es. Perm.refl es) groups
      record_example

abbrev weighted : Endpoint
weighted = record old_endpoint {
  provider_specific = record { name = "aws/weight"; value = "120" } ∷ [];
}

abbrev weighted_record : DnsRecord
weighted_record = record record_example { endpoints = weighted ∷ [] }

set_endpoint_from_targets-HasWeight_example :
    All
      (HasWeight (λ n. "w") (λ es. es) "g.hcg.com" "1.1.1.1" "120")
      (set_endpoint_from_targets (λ n. "w") (λ es. es) "g.hcg.com" groups weighted_record).endpoints
unfolding endpoints_by_address get_address put lookup get_provider_specific
set_endpoint_from_targets-HasWeight_example =
    set_endpoint_from_targets-HasWeight (λ n. "w") (λ es. es) "g.hcg.com" "1.1.1.1" "120"
      (λ P es h. h) groups weighted_record weighted refl refl

abbrev pub comparer : Bool → Comparer (Unit {0})
comparer answer = record {
  rules_equal = λ a b. answer;
  tls_equal = λ a b. answer;
  marshal = λ patches. ok "[]";
}

-- An ingress that is placed on one cluster.
abbrev placed : Ingress (Unit {0})
placed = record ingress {
  meta = record meta_example { labels = ("state.workload.kcp.dev/c1", "Sync") ∷ [] };
}

abbrev transformed : Ingress (Unit {0})
transformed = (transform workload (comparer false) ingress placed).1

transform-HasSpec_example : HasSpec workload (comparer false) ingress placed transformed
unfolding transform
transform-HasSpec_example =
    transform-HasSpec workload (comparer false) ingress placed transformed refl

abbrev rules_patch : Patch (PatchValue (Unit {0}))
rules_patch = record {
  op = "replace";
  path = "/rules";
  value = PatchValue.patch_rules (rule_for "shop.other.com" ∷ []);
}

lookup-transform_example :
    lookup (workload.spec_diff_prefix ^^ "c1") transformed.meta.annotations ≡ some "[]"
unfolding patches_for get_sync_targets contains has_labels_containing split
lookup-transform_example =
    lookup-transform workload (comparer false) ingress placed rules_patch [] "[]" "c1" refl refl
      (inl refl)

abbrev object : TrafficObject (Ingress (Unit {0}))
object = ingress_object workload (λ s. ok []) (λ m. m.namespace ^^ "/" ^^ m.name)

abbrev services : DnsServices (Ingress (Unit {0})) (Unit {0})
services = record {
  delete_dns = λ a wd. (none, wd);
  get_dns = λ a wd. ok record_example;
  create_dns = λ r wd. (none, wd);
  update_dns = λ r wd. (none, wd);
  watch_host = λ key host wd. wd;
  forget_host = λ key host wd. wd;
  list_host_watchers = λ key wd. [];
  dns_lookup = λ host wd. ok ("1.1.1.1" ∷ []);
  found_nameservers = λ domain host wd. true;
  managed_domain = "hcg.com";
  zone_id = "Z1";
  cluster_key = "kcp.dev/cluster";
  xid = λ wd. "x";
  itoa = λ n. "w";
  sort = λ es. es;
  record_equal = λ a b. true;
}

abbrev status_laws :
    StatusLaws object (List LoadBalancerIngress) (λ a. a.load_balancer) only_address
status_laws = ingress_object-StatusLaws workload (λ s. ok []) (λ m. m.namespace ^^ "/" ^^ m.name)

reconcile_dns-IsReady_example :
    ((reconcile_dns workload object services ingress tt).2.load_balancer ≡ ingress.load_balancer)
    ⊎ IsReady workload object services status_laws
        (IsPublished workload object services status_laws ingress tt)
        (reconcile_dns workload object services ingress tt).2
reconcile_dns-IsReady_example =
    reconcile_dns-IsReady workload object services status_laws ingress tt

abbrev pub secret : Secret
secret = record { name = "hcg-tls-ingress-web"; namespace = "default"; contents = [] }

abbrev pub certificate_services : CertificateServices (Unit {0})
certificate_services = record {
  create_certificate =
      λ r wd. (some (record { reason = Reason.already_exists; text = "exists" }), wd);
  delete_certificate = λ r wd. (none, wd);
  get_certificate_secret = λ r wd. ok secret;
  get_certificate_status = λ r wd. ok "pending";
  copy_secret = λ cluster namespace s wd. (none, wd);
  get_secret = λ name namespace cluster wd. ok secret;
  delete_secret = λ cluster namespace name wd. (none, wd);
  lower = λ s. s;
  without_colons = λ s. s;
}

abbrev tls_laws : TlsLaws object (List IngressTls) (λ a. a.tls) Serves
tls_laws = ingress_object-TlsLaws workload (λ s. ok []) (λ m. m.namespace ^^ "/" ^^ m.name)

reconcile_tls-IsSecured_example :
    ((reconcile_tls object certificate_services ingress tt).2.tls ≡ ingress.tls)
    ⊎ IsSecured object certificate_services tls_laws ingress
        (reconcile_tls object certificate_services ingress tt).2
reconcile_tls-IsSecured_example =
    reconcile_tls-IsSecured object certificate_services tls_laws ingress tt

abbrev certificate : Option ℕ → Option ℕ → Certificate
certificate failure renewal = record {
  issuer = "glbc-ca";
  conditions = [];
  revision = none;
  last_failure_time = failure;
  renewal_time = renewal;
}

certificate_updated_handler-none_iff_example :
    (certificate_updated_handler (certificate none none) (certificate (some 9) none) ≡ none) ↔ (
      (not (certificate_ready (certificate (some 9) none))
        && has_failed (certificate (some 9) none) (certificate (some 9) none)
        && not (has_failed (certificate (some 9) none) (certificate none none)))
      ≡ true)
certificate_updated_handler-none_iff_example =
    certificate_updated_handler-none_iff (certificate none none) (certificate (some 9) none)
