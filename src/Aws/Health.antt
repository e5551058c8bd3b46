-- ===== src/Aws/Health.antt =====
-- aws/health.go: the Route 53 health check of an endpoint.
pub mod Updates
use kcp_glbc.Prelude.{
  String, Option, none, some, Bool, true, false, not, ◌&&◌, ◌==◌, if◌then◌else◌, Error, Result, ok,
  err,
}
use kcp_glbc.Prelude.Int.{ℤ, int_eq}
use kcp_glbc.Api.{HealthCheck, HealthCheckProtocol, http, https}
use kcp_glbc.Api.Endpoints.{
  Endpoint, get_address, get_provider_specific, set_provider_specific, delete_provider_specific,
}
use kcp_glbc.Aws.Change.{health_check_id_key}

-- The fields of `route53.HealthCheckConfig` that the program uses; nil is `none`.
pub record HealthCheckConfig : Type 0 where
  pub fully_qualified_domain_name : Option String
  pub ip_address : Option String
  pub resource_path : Option String
  pub port : Option ℤ
  pub failure_threshold : Option ℤ
  pub type : Option String

pub record Route53HealthCheck : Type 0 where
  pub id : String
  pub config : HealthCheckConfig

pub record UpdateHealthCheckInput : Type 0 where
  pub health_check_id : String
  pub fully_qualified_domain_name : Option String
  pub ip_address : Option String
  pub resource_path : Option String
  pub port : Option ℤ
  pub failure_threshold : Option ℤ

abbrev pub str_values_equal : Option String → Option String → Bool
str_values_equal none none = true
str_values_equal (some a) (some b) = a == b
str_values_equal _ _ = false

abbrev pub int_values_equal : Option ℤ → Option ℤ → Bool
int_values_equal none none = true
int_values_equal (some a) (some b) = int_eq a b
int_values_equal _ _ = false

abbrev pub health_check_type : Option HealthCheckProtocol → Option String
health_check_type none = none
health_check_type (some http) = some "HTTP"
health_check_type (some https) = some "HTTPS"

-- An endpoint without address has the empty one.
abbrev pub address_of : Endpoint → String
address_of e = elim (get_address e) [ none ↦ "" | some a ↦ a ]

-- The closure `diff`: the input so far, or a new one.
abbrev pub input_for : String → Option UpdateHealthCheckInput → UpdateHealthCheckInput
input_for id none = record {
  health_check_id = id;
  fully_qualified_domain_name = none;
  ip_address = none;
  resource_path = none;
  port = none;
  failure_threshold = none;
}
input_for id (some u) = u

unfoldable pub health_check_diff :
    Route53HealthCheck → HealthCheck → Endpoint → Option UpdateHealthCheckInput
health_check_diff hc spec e =
    let c = hc.config in
    let named : Option UpdateHealthCheckInput =
      if str_values_equal (some e.dns_name) c.fully_qualified_domain_name
      then none
      else some (record (input_for hc.id none) { fully_qualified_domain_name = some e.dns_name }) in
    let addressed : Option UpdateHealthCheckInput =
      if str_values_equal (some (address_of e)) c.ip_address
      then named
      else some (record (input_for hc.id named) { ip_address = some (address_of e) }) in
    let pathed : Option UpdateHealthCheckInput =
      if str_values_equal (some spec.path) c.resource_path
      then addressed
      else some (record (input_for hc.id addressed) { resource_path = some spec.path }) in
    let ported : Option UpdateHealthCheckInput =
      if int_values_equal spec.port c.port
      then pathed
      else some (record (input_for hc.id pathed) { port = spec.port }) in
    if int_values_equal spec.failure_threshold c.failure_threshold
    then ported
    else some (record (input_for hc.id ported) { failure_threshold = spec.failure_threshold })

-- Route 53's calls on health checks. Creating takes the caller's reference, and tagging the
-- resource's id with the tags for the program's id and the name.
pub record HealthClient : Type 1 where
  pub World : Type 0
  pub get : String → World → Result Route53HealthCheck
  pub create : String → HealthCheckConfig → World → Result Route53HealthCheck × World
  pub tag : String → String → String → World → Option Error × World
  pub update : UpdateHealthCheckInput → World → Option Error × World
  pub remove : String → World → Option Error × World
  pub caller_reference : String → String

module _ (hc : HealthClient) where
  open hc use {World, get, create, tag, update, remove, caller_reference}

  unfoldable pub find_health_check : Endpoint → World → Result (Option Route53HealthCheck)
  find_health_check e wd = elim (get_provider_specific e health_check_id_key) [
    | none ↦ ok none
    | some id ↦ elim (get id wd) [ err x ↦ err x | ok found ↦ ok (some found) ]
  ]

  abbrev pub config_for : HealthCheck → Endpoint → HealthCheckConfig
  config_for spec e = record {
    fully_qualified_domain_name = some e.dns_name;
    ip_address = some (address_of e);
    resource_path = some spec.path;
    port = spec.port;
    failure_threshold = spec.failure_threshold;
    type = health_check_type spec.protocol;
  }

  tag_created : HealthCheck → Result Route53HealthCheck → World → Result Route53HealthCheck × World
  tag_created spec (err x) wd = (err x, wd)
  tag_created spec (ok created) wd =
      let (failed, wd') = tag created.id spec.id spec.name wd in
      elim failed [ some x ↦ (err x, wd') | none ↦ (ok created, wd') ]

  unfoldable pub create_health_check :
      HealthCheck → Endpoint → World → Result Route53HealthCheck × World
  unfolding tag_created
  create_health_check spec e wd =
      let (answer, wd') = create (caller_reference spec.id) (config_for spec e) wd in
      tag_created spec answer wd'

  unfoldable pub update_health_check :
      HealthCheck → Endpoint → Route53HealthCheck → World → Option Error × World
  unfolding health_check_diff
  update_health_check spec e found wd = elim (health_check_diff found spec e) [
    | none ↦ (none, wd)
    | some diff ↦ update diff wd
  ]

  abbrev record_id : Endpoint → Route53HealthCheck → Endpoint
  record_id e found = set_provider_specific e health_check_id_key found.id

  record_created : Endpoint → Result Route53HealthCheck × World → Option Error × Endpoint × World
  record_created e (err x, wd) = (some x, e, wd)
  record_created e (ok created, wd) = (none, record_id e created, wd)

  reconcile_found :
      HealthCheck
      → Endpoint
      → Result (Option Route53HealthCheck)
      → World
      → Option Error × Endpoint × World
  unfolding record_created update_health_check create_health_check
  reconcile_found spec e (err x) wd = (some x, e, wd)
  reconcile_found spec e (ok none) wd = record_created e (create_health_check spec e wd)
  reconcile_found spec e (ok (some found)) wd =
      let (failed, wd') = update_health_check spec e found wd in (failed, record_id e found, wd')

  -- The deferred function records the id of the health check that the variable holds at the end.
  unfoldable pub reconcile_route53 :
      HealthCheck → Endpoint → World → Option Error × Endpoint × World
  unfolding reconcile_found find_health_check
  reconcile_route53 spec e wd = reconcile_found spec e (find_health_check e wd) wd

  delete_found :
      Endpoint → Result (Option Route53HealthCheck) → World → Option Error × Endpoint × World
  delete_found e (err x) wd = (some x, e, wd)
  delete_found e (ok none) wd = (none, e, wd)
  delete_found e (ok (some found)) wd =
      let (failed, wd') = remove found.id wd in
      elim failed [
        | some x ↦ (some x, e, wd')
        | none ↦ (none, (delete_provider_specific e health_check_id_key).0, wd')
      ]

  unfoldable pub delete_route53 : Endpoint → World → Option Error × Endpoint × World
  unfolding delete_found find_health_check
  delete_route53 e wd = delete_found e (find_health_check e wd) wd
