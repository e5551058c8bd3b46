-- ===== src/Tests/Records.antt =====
-- The theorems about DNS records, at small records.
use kcp_glbc.Prelude.{
  ◌⊎◌, not, ℕ, suc, lookup, ◌≢◌, ◌↔◌, ◌==◌, All, String, List, [], ◌∷◌, none, some, true, false,
  is_empty, Any, contains, Error, errorf, ◌≡◌, refl, inl, inr, arith, eq_iff, if◌then◌else◌, ◌&&◌,
}
use kcp_glbc.Api.{
  ObjectMeta, DnsZone, DnsZoneCondition, DnsZoneStatus, DnsRecord, succeeded_condition_type,
}
use kcp_glbc.Api.Endpoints.{Endpoint, blank}
use kcp_glbc.Dns.Provider.{Provider, fake_provider}
use kcp_glbc.Dns.Publish.{zone_eq, publish_record_to_zones, published_in, is_current}
use kcp_glbc.Dns.Publish.Results.{published_in-publish}
use kcp_glbc.Dns.Health.{
  reconcile_health_check_deletion, config_from_annotations, reconcile_health_checks,
}
use kcp_glbc.Dns.Health.Config.{is_error, config_from_annotations-http}
use kcp_glbc.Dns.Health.Frame.{Agrees, reconcile_health_checks-Agrees}
use kcp_glbc.Dns.Record.{
  Library, delete_from_zones, reconcile_deleted, reconcile_active, dns_record_finalizer,
}
use kcp_glbc.Dns.Record.Stability.{AreDistinct, reconcile_active-current, reconcile_active_stable}
use kcp_glbc.Dns.Record.Deletion.{
  swept, failures, IsCleaned, IsHidden, reconcile_deleted-none_iff, MentionsNotFound,
  reconcile_deleted_hides,
}
use kcp_glbc.Metadata.{remove_finalizer}

abbrev pub zone_a : DnsZone
zone_a = record { id = "Z1"; tags = none }

abbrev pub zone_b : DnsZone
zone_b = record { id = "Z2"; tags = some (("env", "prod") ∷ []) }

abbrev pub old_endpoint : Endpoint
old_endpoint = record (blank "1.1.1.1") {
  dns_name = "x.example.com";
  record_type = "A";
  targets = "1.1.1.1" ∷ [];
}

abbrev pub new_endpoint : Endpoint
new_endpoint = record (blank "2.2.2.2") {
  dns_name = "x.example.com";
  record_type = "A";
  targets = "2.2.2.2" ∷ [];
}

abbrev pub meta_example : ObjectMeta
meta_example = record {
  name = "web";
  namespace = "default";
  cluster = "root";
  resource_version = "1";
  generation = 2;
  deleting = false;
  annotations = [];
  labels = [];
  finalizers = dns_record_finalizer ∷ "other" ∷ [];
}

abbrev pub succeeded : String → DnsZoneCondition
succeeded status = record {
  type = succeeded_condition_type;
  status = status;
  last_transition_time = 1;
  reason = "";
  message = "";
}

abbrev pub status_in : DnsZone → String → DnsZoneStatus
status_in z status = record {
  zone = z;
  conditions = succeeded status ∷ [];
  endpoints = old_endpoint ∷ [];
}

-- Published to both zones at an earlier generation.
abbrev pub record_example : DnsRecord
record_example = record {
  meta = meta_example;
  endpoints = new_endpoint ∷ [];
  status = record {
    zones = status_in zone_a "True" ∷ status_in zone_b "True" ∷ [];
    observed_generation = 1;
  };
}

abbrev first_mention : Error → List Error → Error
first_mention e [] = e
first_mention e (x ∷ xs) = if contains e.text "was not found" then e else first_mention x xs

abbrev library : Library
library = record {
  md5 = λ s. s;
  aggregate = first_mention;
  cmp_equal = λ options a b. is_empty a && is_empty b;
  less = λ a b. a == "" && not (b == "");
  now = 5;
}

first_mention-keeps :
    (e : Error) (es : List Error)
    → Any MentionsNotFound (e ∷ es)
    → contains (library.aggregate e es).text "was not found" ≡ true
first_mention-keeps e [] (inl h) = h
first_mention-keeps e [] (inr h) = absurd h
first_mention-keeps e (x ∷ xs) (inl h) = rw h h
first_mention-keeps e (x ∷ xs) (inr h) = ground (arith, first_mention-keeps x xs h)

-- A provider that does not find records in one zone and fails on all else.
abbrev failing_provider : Provider
failing_provider = record {
  State = ℕ;
  ensure = λ r z n. (some (errorf "throttled"), suc n);
  delete = λ r z n.
      (some (errorf (if z.id == "Z1" then "the record was not found" else "throttled")), suc n);
  reconcile_health_check = λ hc e n. (none, e, n);
  delete_health_check = λ e n. (none, e, n);
}

zone_b-own : zone_b.id ≢ zone_a.id
zone_b-own h = ground (arith, eq_iff zone_b.id zone_a.id)

zones-AreDistinct : AreDistinct (zone_a ∷ zone_b ∷ [])
unfolding zone_eq lookup
zones-AreDistinct = ((zone_b-own, tt), refl, (tt, refl, tt))

-- Published to one zone alone, and deleted.
abbrev throttled : DnsRecord
throttled = record record_example {
  meta = record meta_example { deleting = true };
  status = record record_example.status { zones = status_in zone_b "True" ∷ [] };
}

published_in-publish_example :
    published_in zone_a
      (publish_record_to_zones failing_provider 5 (zone_a ∷ zone_b ∷ []) record_example 0).0
    ≡ false
unfolding zone_eq is_current
published_in-publish_example =
    published_in-publish failing_provider 5 record_example [] (zone_b ∷ []) zone_a 0 tt
      (zone_b-own, tt) refl

abbrev seen : DnsRecord
seen = record record_example { status = record record_example.status { observed_generation = 2 } }

config_from_annotations-http_example :
    is_error (
      config_from_annotations (
        ("kuadrant.experimental/health-port", "8080")
        ∷ ("kuadrant.experimental/health-protocol", "HTTP")
        ∷ []))
    ≡ true
config_from_annotations-http_example = config_from_annotations-http _ (inr (inl (refl, refl)))

reconcile_health_checks-Agrees_example :
    Agrees
      (reconcile_health_checks failing_provider library.md5 (λ s. true) record_example 0).1
      record_example
reconcile_health_checks-Agrees_example =
    reconcile_health_checks-Agrees failing_provider library.md5 (λ s. true) record_example 0

reconcile_active-current_example :
    All
      (λ z.
        is_current
          (reconcile_active fake_provider library (zone_a ∷ zone_b ∷ []) record_example tt).1
          z
        ≡ true)
      (zone_a ∷ zone_b ∷ [])
reconcile_active-current_example =
    reconcile_active-current fake_provider library (λ s z st. refl) (zone_a ∷ zone_b ∷ [])
      record_example tt zones-AreDistinct refl

reconcile_active_stable_example :
    publish_record_to_zones fake_provider 9
      (zone_a ∷ zone_b ∷ [])
      (reconcile_active fake_provider library (zone_a ∷ zone_b ∷ []) record_example tt).1
      tt
    ≡ (
      (reconcile_active fake_provider library
          (zone_a ∷ zone_b ∷ [])
          record_example
          tt).1.status.zones,
      tt,
    )
reconcile_active_stable_example =
    reconcile_active_stable fake_provider library (λ s z st. refl) (zone_a ∷ zone_b ∷ [])
      record_example tt tt 9 zones-AreDistinct refl

reconcile_deleted-none_iff_example :
    ((reconcile_deleted failing_provider library throttled 0).0 ≡ none) ↔ (
      ((swept failing_provider library throttled 0).0 ≡ none)
      × (IsCleaned failing_provider
            (swept failing_provider library throttled 0).1
            (swept failing_provider library throttled 0).1.status.zones
            (swept failing_provider library throttled 0).2
          ⊎ IsHidden failing_provider library throttled 0
              (failures failing_provider library throttled 0)))
reconcile_deleted-none_iff_example = reconcile_deleted-none_iff failing_provider library throttled 0

reconcile_deleted_hides_example :
    ((reconcile_deleted failing_provider library record_example 0).0 ≡ none)
    × ((reconcile_deleted failing_provider library record_example 0).1.meta
        ≡ remove_finalizer meta_example dns_record_finalizer)
unfolding reconcile_health_check_deletion delete_from_zones contains
reconcile_deleted_hides_example =
    reconcile_deleted_hides failing_provider library record_example 0 first_mention-keeps refl
      (inl refl)
