-- ===== src/Dns/Health/Frame.antt =====
-- health_check_reconciler.go: reconciling health checks writes to endpoints alone, so what the
-- status says of publication stays as it was.
use kcp_glbc.Prelude.{
  String, List, [], ◌∷◌, Option, none, some, Bool, Result, ok, err, ◌≡◌, refl, ◌∙◌, if◌then◌else◌,
  arith,
}
use kcp_glbc.Api.{DnsZone, DnsZoneStatus, DnsRecord}
use kcp_glbc.Api.Endpoints.{Endpoint}
use kcp_glbc.Dns.Provider.{Provider}
use kcp_glbc.Dns.Publish.{published_in}
use kcp_glbc.Dns.Health.{
  HealthChecksConfig, share, written, delete_loop, delete_zones, apply_config, validated,
  reconcile_health_checks, reconcile_health_check_deletion, reconcile_health_check_for,
  validate_health_checks_config, check_loop, config_from_annotations,
}

-- The records agree on all that the status of publication is read from.
pub record Agrees (r s : DnsRecord) : Type 0 where
  pub meta : r.meta ≡ s.meta
  pub observed : r.status.observed_generation ≡ s.status.observed_generation
  pub published : (z : DnsZone) → published_in z r.status.zones ≡ published_in z s.status.zones

module _ (p : Provider) (md5 : String → String) (shared : DnsZoneStatus → Bool) where
  open p use {State}

  published_in-share :
      (z : DnsZone) (es : List Endpoint) (ss : List DnsZoneStatus)
      → published_in z (share p md5 shared es ss) ≡ published_in z ss
  unfolding published_in share
  published_in-share z es [] = refl
  published_in-share z es (s ∷ ss) = ground (arith, published_in-share z es ss)

  published_in-delete_zones :
      (z : DnsZone) (ss : List DnsZoneStatus) (es : List Endpoint) (st : State)
      → published_in z (delete_zones p md5 shared ss es st).1 ≡ published_in z ss
  unfolding published_in delete_zones
  published_in-delete_zones z [] es st = refl
  published_in-delete_zones z (s ∷ ss) es st =
      let own = delete_loop p md5 (if shared s then es else s.endpoints) st in
      ground (arith, published_in-delete_zones z ss (if shared s then own.1 else es) own.2)

  written-Agrees :
      (r : DnsRecord) (es : List Endpoint) (zones : List DnsZoneStatus)
      → ((z : DnsZone) → published_in z zones ≡ published_in z r.status.zones)
      → Agrees (written p md5 shared r es zones) r
  unfolding written
  written-Agrees r es zones h = record {
    meta = refl;
    observed = refl;
    published = λ z. published_in-share z es zones ∙ h z;
  }

  pub deletion-Agrees :
      (r : DnsRecord) (st : State) → Agrees (reconcile_health_check_deletion p md5 shared r st).1 r
  unfolding reconcile_health_check_deletion
  deletion-Agrees r st =
      let swept = delete_zones p md5 shared r.status.zones r.endpoints st in
      written-Agrees r swept.2 swept.1
        (λ z. published_in-delete_zones z r.status.zones r.endpoints st)

  check-Agrees :
      (c : HealthChecksConfig) (r : DnsRecord) (st : State)
      → Agrees (reconcile_health_check_for p md5 shared c r st).1 r
  unfolding reconcile_health_check_for
  check-Agrees c r st =
      written-Agrees r (check_loop p md5 c r r.endpoints st).1 r.status.zones (λ z. refl)

  validated-Agrees :
      (v : Result HealthChecksConfig) (r : DnsRecord) (st : State)
      → Agrees (validated p md5 shared v r st).1 r
  unfolding validated
  validated-Agrees (err e) r st = record { meta = refl; observed = refl; published = λ z. refl }
  validated-Agrees (ok c) r st = check-Agrees c r st

  apply_config-Agrees :
      (c : Result (Option HealthChecksConfig)) (r : DnsRecord) (st : State)
      → Agrees (apply_config p md5 shared c r st).1 r
  unfolding apply_config
  apply_config-Agrees (err e) r st = record { meta = refl; observed = refl; published = λ z. refl }
  apply_config-Agrees (ok none) r st = deletion-Agrees r st
  apply_config-Agrees (ok (some c)) r st = validated-Agrees (validate_health_checks_config c) r st

  -- Whatever the configuration and the provider's answers: reconciling the health checks of a record
  -- leaves its metadata, its observed generation and, for every zone, whether it shows as published.
  pub reconcile_health_checks-Agrees :
      (r : DnsRecord) (st : State) → Agrees (reconcile_health_checks p md5 shared r st).1 r
  unfolding reconcile_health_checks
  reconcile_health_checks-Agrees r st =
      apply_config-Agrees (config_from_annotations r.meta.annotations) r st
