-- ===== src/Tests/Hosts.antt =====
-- The theorems about the hosts of an ingress, at a small ingress.
use kcp_glbc.Prelude.{
  String, List, [], ◌∷◌, Option, none, some, true, Any, Error, Result, ok, err, errorf, ◌≡◌, ◌≢◌,
  ◌↔◌, refl, cut, lookup, put, contains, ap, sym, Bool-cases, inl, inr, arith, eq_iff,
  if◌then◌else◌, ◌==◌,
}
use kcp_glbc.Api.{DomainVerification}
use kcp_glbc.Metadata.{has_annotations_containing, add_annotation, add_label}
use kcp_glbc.Tests.Records.{meta_example}
use kcp_glbc.Traffic.Workload.{Workload}
use kcp_glbc.Traffic.Domain.{is_domain_verified}
use kcp_glbc.Traffic.Domain.Covers.{Covers, is_domain_verified_iff}
use kcp_glbc.Traffic.Ingress.{IngressRule, IngressTls, Ingress, tmc_enabled}
use kcp_glbc.Traffic.Ingress.Removal.{remove_tls}
use kcp_glbc.Traffic.Ingress.Removal.Limits.{remove_tls_unchanged}
use kcp_glbc.Traffic.Ingress.Hosts.{
  Codec, is_allowed, processed, process_custom_hosts, read_pending,
}
use kcp_glbc.Traffic.Ingress.Hosts.Safety.{AllServed, process_custom_hosts-AllServed}
use kcp_glbc.Traffic.Ingress.Hosts.Pending.{RoundTrips, process_custom_hosts-waits}

abbrev pub verification_example : DomainVerification
verification_example = record {
  meta = meta_example;
  domain = "example.com";
  status = record {
    verified = true;
    token = "t";
    message = "";
    last_checked = none;
    next_check = none;
  };
}

is_domain_verified_iff_example :
    (is_domain_verified "a.b.example.com" (verification_example ∷ []) ≡ true)
    ↔ Any (Covers "a.b.example.com") (verification_example ∷ [])
is_domain_verified_iff_example =
    is_domain_verified_iff "a.b.example.com" (verification_example ∷ [])

abbrev tls_example : List IngressTls
tls_example =
    record { hosts = "y.com" ∷ []; secret_name = "s" }
    ∷ record { hosts = "z.com" ∷ []; secret_name = "s" }
    ∷ []

remove_tls_unchanged_example : tls_example ≡ tls_example
unfolding remove_tls
remove_tls_unchanged_example =
    remove_tls_unchanged ("y.com" ∷ "z.com" ∷ []) tls_example tls_example (omega arith)
      (omega arith, (omega arith, tt)) refl

abbrev pub workload : Workload
workload = record {
  status_prefix = "experimental.status.workload.kcp.dev/";
  deletion_prefix = "deletion.internal.workload.kcp.dev/";
  spec_diff_prefix = "experimental.spec-diff.workload.kcp.dev/";
  state_label_prefix = "state.workload.kcp.dev/";
}

abbrev pub rule_for : String → IngressRule (Unit {0})
rule_for host = record { host = host; value = tt }

unfoldable pub one_host : List (IngressRule (Unit {0})) → Result String
one_host [] = err (errorf "no rule")
one_host (r ∷ []) = if r.host == "" then err (errorf "no host") else ok r.host
one_host (_ ∷ _ ∷ _) = err (errorf "two rules")

-- A codec for one rule with a host.
abbrev pub codec : Codec (Unit {0})
codec = record { marshal = one_host; unmarshal = λ s. ok (rule_for s ∷ []) }

abbrev text_of : Result String → String
text_of (ok s) = s
text_of (err e) = ""

codec-RoundTrips : RoundTrips workload codec
unfolding one_host
codec-RoundTrips [] raw h = ground (arith, h)
codec-RoundTrips (r ∷ []) raw h = elim (Bool-cases (r.host == "")) [
  | inl e ↦ ground (arith, e, h)
  | inr e ↦
      let same_text : r.host ≡ raw = ap text_of (rw (e, one_host) at h) in
      (ap (λ s. ok (rule_for s ∷ [])) (sym same_text), rw (sym same_text) e)
]
codec-RoundTrips (_ ∷ _ ∷ _) raw h = ground (arith, h)

-- An ingress whose status shows that it does not run under TMC.
abbrev pub ingress : Ingress (Unit {0})
ingress = record {
  meta = meta_example;
  rules = rule_for "shop.other.com" ∷ [];
  tls = [];
  load_balancer = record { ip = "1.2.3.4"; hostname = "" } ∷ [];
  generated_host = "g.hcg.com";
}

-- What `ProcessCustomHosts` leaves of it.
abbrev left_by : Option (Option Error × Ingress (Unit {0})) → Ingress (Unit {0})
left_by none = ingress
left_by (some (e, a)) = a

abbrev processed_ingress : Ingress (Unit {0})
processed_ingress =
    left_by (process_custom_hosts workload codec (verification_example ∷ []) ingress)

ingress-succeeds :
    process_custom_hosts workload codec (verification_example ∷ []) ingress
    ≡ some (none, processed_ingress)
unfolding process_custom_hosts remove_tls is_domain_verified cut tmc_enabled
    has_annotations_containing add_annotation lookup add_label put contains one_host
ingress-succeeds = refl

process_custom_hosts-AllServed_example :
    AllServed (verification_example ∷ []) workload codec "g.hcg.com" processed_ingress
process_custom_hosts-AllServed_example =
    process_custom_hosts-AllServed (verification_example ∷ []) workload codec ingress
      processed_ingress ingress-succeeds

not_generated : (rule_for "shop.other.com").host ≢ ingress.generated_host
not_generated h = ground (arith, eq_iff "shop.other.com" "g.hcg.com")

process_custom_hosts-waits_example :
    (pending : List (IngressRule (Unit {0}))) × (read_pending workload codec processed_ingress.meta
      ≡ ok pending)
    × Any (λ r. r ≡ rule_for "shop.other.com") pending
unfolding tmc_enabled is_allowed has_annotations_containing processed is_domain_verified cut
    add_annotation lookup add_label put contains
process_custom_hosts-waits_example =
    process_custom_hosts-waits workload codec codec-RoundTrips (verification_example ∷ []) ingress
      processed_ingress (rule_for "shop.other.com") refl ingress-succeeds (inl refl) not_generated
      refl
