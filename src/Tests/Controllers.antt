-- ===== src/Tests/Controllers.antt =====
-- The theorems about the controller of ingresses, at a small ingress.
use kcp_glbc.Prelude.{
  List, [], ◌∷◌, Option, none, some, true, false, Error, errorf, ok, ◌≡◌, refl, ◌^^◌,
  some-injective, ap, All, arith, contains, lookup, put, cut, delete,
}
use kcp_glbc.Api.{DomainVerification}
use kcp_glbc.Metadata.{
  add_annotation, add_label, has_finalizer, has_annotations_containing, has_labels_containing,
  add_finalizer, get_annotation, remove_annotation, remove_label,
}
use kcp_glbc.Migration.{migrate}
use kcp_glbc.Traffic.Host.{reconcile_hosts}
use kcp_glbc.Traffic.Ingress.Removal
use kcp_glbc.Reconciler.Loop
use kcp_glbc.Reconciler.Ingress
use kcp_glbc.Traffic.Domain.{is_domain_verified}
use kcp_glbc.Traffic.Ingress.{Ingress, IngressRule}
use kcp_glbc.Traffic.Ingress.Hosts.Safety.{IsServed}
use kcp_glbc.Traffic.Dns.{DnsServices, reconcile_dns}
use kcp_glbc.Traffic.Certificates.{reconcile_tls}
use kcp_glbc.Traffic.Object.{err_generated_host_missing}
use kcp_glbc.Reconciler.Loop.{LoopServices, cascade_finalizer}
use kcp_glbc.Reconciler.Ingress.{IngressController, reconcile_ingress}
use kcp_glbc.Reconciler.Ingress.Events.{host_matches}
use kcp_glbc.Reconciler.Ingress.Events.Matches.{host_matches_iff}
use kcp_glbc.Reconciler.Ingress.Safety.{reconcile_ingress-ServesVerified}
use kcp_glbc.Reconciler.Ingress.Finalizer.{reconcile_ingress_live, reconcile_ingress_failed}
use kcp_glbc.Tests.Records.{meta_example, record_example}
use kcp_glbc.Tests.Hosts.{ingress, one_host, workload, codec, verification_example}
use kcp_glbc.Tests.Reconcilers.{certificate_services, comparer}

-- The clients of DNS, where there is no record yet and the host is given.
abbrev pub dns_services : {A : Type 0} → DnsServices A (Unit {0})
dns_services = record {
  delete_dns = λ a wd. (none, wd);
  get_dns = λ a wd. ok record_example;
  create_dns = λ r wd. (none, wd);
  update_dns = λ r wd. (some (errorf "conflict"), wd);
  watch_host = λ key host wd. wd;
  forget_host = λ key host wd. wd;
  list_host_watchers = λ key wd. [];
  dns_lookup = λ host wd. ok ("1.1.1.1" ∷ []);
  found_nameservers = λ domain host wd. true;
  managed_domain = "hcg.com";
  zone_id = "Z1";
  cluster_key = "kcp.dev/cluster";
  xid = λ wd. "x";
  itoa = λ n. "w";
  sort = λ es. es;
  record_equal = λ a b. true;
}

abbrev pub loop : LoopServices (Unit {0})
loop = record {
  add_after = λ key delay wd. wd;
  stop_watching = λ key host wd. wd;
  wrap = λ name e. e;
  aggregate = λ e es. e;
  clock = record { start = 100; in_round = λ annotation. (100, 100) };
  itoa = λ n. "n";
}

abbrev controller : IngressController (Unit {0}) (Unit {0})
controller = record {
  workload = workload;
  codec = codec;
  comparer = comparer true;
  unmarshal = λ s. ok [];
  key_of = λ m. m.namespace ^^ "/" ^^ m.name;
  dns = dns_services;
  certificates = certificate_services;
  loop = loop;
  get_domain_verifications = λ a wd. ok (verification_example ∷ []);
  update = λ a wd. (none, wd);
  update_status = λ a wd. (none, wd);
  ingress_equal = λ a b. false;
  status_equal = λ a b. true;
}

-- A deleted ingress succeeds without a host.
abbrev deleted : Ingress (Unit {0})
deleted = record ingress { meta = record meta_example { deleting = true } }

-- The error that `reconcile` returns, and what it leaves.
abbrev pub status : {A : Type 0} → Option (Option Error × A × Unit {0}) → Option (Option Error)
status none = none
status (some (failed, _, _)) = some failed

abbrev pub left : {A : Type 0} → A → Option (Option Error × A × Unit {0}) → A
left a none = a
left a (some (_, b, _)) = b

pub outcome :
    {A : Type 0} (a : A) (failed : Option Error) (r : Option (Option Error × A × Unit {0}))
    → status r ≡ some failed
    → r ≡ some (failed, left a r, tt)
outcome a failed none h = absurd (ground (arith, h))
outcome a failed (some (e, b, tt)) h = ap (λ x. some (x, b, tt)) (some-injective h)

abbrev reconciled :
    IngressController (Unit {0}) (Unit {0}) → Ingress (Unit {0}) → Ingress (Unit {0})
reconciled c a = left a (reconcile_ingress c a tt)

deleted-succeeds : status (reconcile_ingress controller deleted tt) ≡ some none
unfolding reconcile_ingress kcp_glbc.Reconciler.Loop.reconcile reconcile_dns migrate
    has_annotations_containing has_labels_containing reconcile_hosts
    kcp_glbc.Reconciler.Ingress.process_hosts kcp_glbc.Traffic.Ingress.Hosts.process_custom_hosts
    kcp_glbc.Traffic.Ingress.Removal.remove_tls kcp_glbc.Traffic.Ingress.tmc_enabled
    remove_annotation delete remove_label lookup reconcile_tls add_finalizer get_annotation
    is_domain_verified cut add_annotation add_label put contains one_host
deleted-succeeds = refl

reconcile_ingress-ServesVerified_example :
    (dvs : List DomainVerification) × ((b : Ingress (Unit {0})) × (wd0 : Unit {0})
      × (controller.get_domain_verifications b wd0 ≡ ok dvs))
    × All
        (IsServed dvs (reconciled controller deleted).generated_host)
        (reconciled controller deleted).rules
reconcile_ingress-ServesVerified_example =
    reconcile_ingress-ServesVerified controller deleted (reconciled controller deleted) tt tt
      (outcome deleted none (reconcile_ingress controller deleted tt) deleted-succeeds)

live-fails :
    status (reconcile_ingress controller ingress tt) ≡ some (some err_generated_host_missing)
unfolding reconcile_ingress kcp_glbc.Reconciler.Loop.reconcile reconcile_dns migrate
    has_annotations_containing has_labels_containing reconcile_hosts
    kcp_glbc.Reconciler.Ingress.process_hosts kcp_glbc.Traffic.Ingress.Hosts.process_custom_hosts
    kcp_glbc.Traffic.Ingress.Removal.remove_tls kcp_glbc.Traffic.Ingress.tmc_enabled
    remove_annotation delete remove_label lookup reconcile_tls add_finalizer get_annotation
    is_domain_verified cut add_annotation add_label put contains one_host
live-fails = refl

reconcile_ingress_live_example :
    has_finalizer (reconciled controller ingress).meta cascade_finalizer ≡ true
reconcile_ingress_live_example =
    reconcile_ingress_live controller ingress (reconciled controller ingress) tt tt
      (some err_generated_host_missing) refl
      (outcome ingress (some err_generated_host_missing) (reconcile_ingress controller ingress tt)
        live-fails)

-- The record of the host cannot be deleted.
abbrev denied : IngressController (Unit {0}) (Unit {0})
denied = record controller {
  dns = record dns_services { delete_dns = λ a wd. (some (errorf "denied"), wd) };
}

abbrev held : Ingress (Unit {0})
held = record deleted { meta = add_finalizer deleted.meta cascade_finalizer }

held-fails : status (reconcile_ingress denied held tt) ≡ some (some (errorf "denied"))
unfolding reconcile_ingress kcp_glbc.Reconciler.Loop.reconcile reconcile_dns migrate
    has_annotations_containing has_labels_containing reconcile_hosts
    kcp_glbc.Reconciler.Ingress.process_hosts kcp_glbc.Traffic.Ingress.Hosts.process_custom_hosts
    kcp_glbc.Traffic.Ingress.Removal.remove_tls kcp_glbc.Traffic.Ingress.tmc_enabled
    remove_annotation delete remove_label lookup reconcile_tls add_finalizer get_annotation
    is_domain_verified cut add_annotation add_label put contains one_host
held-fails = refl

reconcile_ingress_failed_example :
    has_finalizer (reconciled denied held).meta cascade_finalizer
    ≡ has_finalizer held.meta cascade_finalizer
unfolding add_finalizer
reconcile_ingress_failed_example =
    reconcile_ingress_failed denied held (reconciled denied held) tt tt (errorf "denied") refl
      (outcome held (some (errorf "denied")) (reconcile_ingress denied held tt) held-fails)

host_matches_iff_example :
    is_domain_verified "a.example.com" (verification_example ∷ [])
    ≡ host_matches "a.example.com" "example.com"
host_matches_iff_example = host_matches_iff "a.example.com" verification_example refl
