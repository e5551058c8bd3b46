-- ===== src/Tests/Services.antt =====
-- The theorems about health checks, domains and migrations, at small inputs.
use kcp_glbc.Prelude.{
  ℕ, arith, ◌⊎◌, ◌+◌, ◌*◌, ◌-◌, ◌<◌, ◌≤◌, [], ◌∷◌, Option, none, some, lookup, errorf, ok, ◌≡◌,
  refl, ◌&&◌, not, ◌==◌, ◌^^◌,
}
use kcp_glbc.Prelude.Int.{ℤ, pos, negsuc, atoi}
use kcp_glbc.Api.{ObjectMeta, HealthCheck, http}
use kcp_glbc.Api.Endpoints.{get_provider_specific}
use kcp_glbc.Metadata.{has_annotation, trim_space}
use kcp_glbc.Aws.Health.{
  HealthClient, Route53HealthCheck, health_check_diff, find_health_check, reconcile_route53,
}
use kcp_glbc.Aws.Health.Updates.{
  applied, IsConfigured, health_check_diff-IsConfigured, reconcile_route53-untagged,
}
use kcp_glbc.Domains.{Verifier, reconcile_verification}
use kcp_glbc.Domains.Status.{says_yes, verified-reconcile_verification}
use kcp_glbc.Migration.{Clock, remove_finalizer_of, finalizer_of, delete_at_of}
use kcp_glbc.Migration.Delays.{remove_finalizer_of-delay}
use kcp_glbc.Tests.Records.{meta_example, old_endpoint}
use kcp_glbc.Tests.Hosts.{verification_example, workload}

abbrev spec : Option ℤ → HealthCheck
spec threshold = record {
  id = "i";
  name = "n";
  port = some (pos 80);
  failure_threshold = threshold;
  path = "/healthz";
  protocol = some http;
}

abbrev checked : Route53HealthCheck
checked = record {
  id = "hc-1";
  config = record {
    fully_qualified_domain_name = some "old.example.com";
    ip_address = some "1.1.1.1";
    resource_path = some "/";
    port = some (pos 443);
    failure_threshold = some (pos 3);
    type = some "HTTP";
  };
}

-- A client that creates health checks and fails to tag them.
abbrev client : HealthClient
client = record {
  World = Unit {0};
  get = λ id wd. ok checked;
  create = λ reference config wd. (ok checked, wd);
  tag = λ id tag name wd. (some (errorf "throttled"), wd);
  update = λ input wd. (none, wd);
  remove = λ id wd. (none, wd);
  caller_reference = λ id. id;
}

reconcile_route53-untagged_example :
    ((reconcile_route53 client (spec none) old_endpoint tt).0 ≡ some (errorf "throttled"))
    × (find_health_check client
          (reconcile_route53 client (spec none) old_endpoint tt).1
          (reconcile_route53 client (spec none) old_endpoint tt).2
        ≡ ok none)
unfolding get_provider_specific
reconcile_route53-untagged_example =
    reconcile_route53-untagged client (spec none) old_endpoint tt checked (errorf "throttled") refl
      refl refl

abbrev verifier : Verifier
verifier = record {
  exists = λ domain token. ok (token == "t");
  get_token = λ dv. "t";
  now = 100;
  recheck = 5;
  combine = λ e. e;
}

verified-reconcile_verification_example :
    (reconcile_verification verifier verification_example).1.status.verified
    ≡ (not ("t" == "") && says_yes (verifier.exists "example.com" "t"))
verified-reconcile_verification_example =
    verified-reconcile_verification verifier verification_example

abbrev started : Clock
started = record { start = 1000; in_round = λ annotation. (1000, 1000) }

abbrev leaving : ObjectMeta
leaving = record meta_example {
  annotations =
      (workload.deletion_prefix ^^ "c1", "2022-01-01")
      ∷ (finalizer_of "c1", "kuadrant.dev/glbc-migration")
      ∷ (delete_at_of "c1", "soon")
      ∷ [];
}

health_check_diff-IsConfigured_example :
    IsConfigured
      (spec (some (pos 5)))
      old_endpoint
      checked.config
      (applied (health_check_diff checked (spec (some (pos 5))) old_endpoint) checked).config
    × (health_check_diff
          (applied (health_check_diff checked (spec (some (pos 5))) old_endpoint) checked)
          (spec (some (pos 5)))
          old_endpoint
        ≡ none)
health_check_diff-IsConfigured_example =
    health_check_diff-IsConfigured checked (spec (some (pos 5))) old_endpoint (pos 80) (pos 5) refl
      refl

abbrev far : ObjectMeta
far = record meta_example {
  annotations =
      (workload.deletion_prefix ^^ "c1", "2022-01-01") ∷ (delete_at_of "c1", "10000000000") ∷ [];
}

remove_finalizer_of-delay_example :
    ((10000000000 ≤ 1000 + 9223372036)
      × ((remove_finalizer_of workload started (λ n. "n") (1000, 1000) "c1" far).1
          ≡ some (pos ((10000000000 - 1000) * 1000000000))))
    ⊎ ((1000 + 9223372036 < 10000000000)
        × ((m : ℕ) × ((remove_finalizer_of workload started (λ n. "n") (1000, 1000) "c1" far).1
              ≡ some (negsuc m))))
unfolding has_annotation trim_space lookup atoi
remove_finalizer_of-delay_example =
    remove_finalizer_of-delay workload started (λ n. "n") (1000, 1000) "c1" "10000000000" far
      10000000000 refl refl refl refl (omega arith) (omega arith) (omega arith)
