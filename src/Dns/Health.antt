-- ===== src/Dns/Health.antt =====
-- health_check_reconciler.go: the health checks that the annotations of a DNS record configure.
pub mod Config
pub mod Frame
use Prim.Native.String
use kcp_glbc.Prelude.{
  ℕ, String, List, [], ◌∷◌, Option, none, some, Bool, true, false, Dict, has_prefix, drop_prefix,
  ◌==◌, ◌^^◌, if◌then◌else◌, Error, errorf, Result, ok, err, ◌>>=◌, is_some,
}
use kcp_glbc.Prelude.Int.{ℤ, pos, atoi}
use kcp_glbc.Api.{HealthCheck, HealthCheckProtocol, http, https, DnsRecord, DnsZoneStatus}
use kcp_glbc.Api.Endpoints.{Endpoint, get_address}
use kcp_glbc.Dns.Provider.{Provider}

abbrev pub health_check_prefix : String
health_check_prefix = "kuadrant.experimental/health-"

pub record HealthChecksConfig : Type 0 where
  pub endpoint : String
  pub port : Option ℤ
  pub failure_threshold : Option ℤ
  pub protocol : Option HealthCheckProtocol

abbrev pub no_config : HealthChecksConfig
no_config = record { endpoint = ""; port = none; failure_threshold = none; protocol = none }

-- The value that the `switch` assigns: the case of "HTTP" is empty, and cases do not fall through.
parse_protocol : String → Option HealthCheckProtocol
parse_protocol protocol =
    if protocol == "HTTP" then none else if protocol == "HTTPS" then some https else none

set_protocol : String → HealthChecksConfig → Result HealthChecksConfig
unfolding parse_protocol
set_protocol protocol c = elim (parse_protocol protocol) [
  | none ↦
      err (errorf ("invalid protocol " ^^ protocol ^^ ". Only supported values are HTTP and HTTPS"))
  | some value ↦ ok (record c { protocol = some value })
]

-- `configInt64`: the text of the error is strconv's, and it is not modelled.
config_int : String → (ℤ → HealthChecksConfig) → Result HealthChecksConfig
config_int s f =
    let n = atoi s in if n.failed then err (errorf "invalid syntax") else ok (f n.value)

-- `annotationsConfigMap`: `none` where the map has no such field.
set_value : String → String → HealthChecksConfig → Option (Result HealthChecksConfig)
unfolding set_protocol config_int
set_value field v c =
    if field == "endpoint"
    then some (ok (record c { endpoint = v }))
    else if field == "port"
    then some (config_int v (λ n. record c { port = some n }))
    else if field == "protocol"
    then some (set_protocol v c)
    else if field == "failure-threshold"
    then some (config_int v (λ n. record c { failure_threshold = some n }))
    else none

or_new : Option HealthChecksConfig → HealthChecksConfig
or_new none = no_config
or_new (some c) = c

-- One round of the loop of `configFromAnnotations`.
configure : String → String → Option HealthChecksConfig → Result (Option HealthChecksConfig)
unfolding set_value or_new
configure k v result =
    if has_prefix k health_check_prefix
    then elim (set_value (drop_prefix k health_check_prefix) v (or_new result)) [
      | none ↦ err (errorf ("invalid value for annotation " ^^ k ^^ ": " ^^ v))
      | some (ok c) ↦ ok (some c)
      | some (err e) ↦ err (errorf ("invalid value for annotation " ^^ k ^^ ": " ^^ e.text))
    ]
    else ok result

config_loop : Dict String → Option HealthChecksConfig → Result (Option HealthChecksConfig)
unfolding configure
config_loop [] result = ok result
config_loop ((k, v) ∷ m) result = configure k v result >>= λ next. config_loop m next

unfoldable pub config_from_annotations : Dict String → Result (Option HealthChecksConfig)
unfolding config_loop
config_from_annotations annotations = config_loop annotations none

or_value {ℓ} : {A : Type ℓ} → Option A → A → A
or_value none d = d
or_value (some a) d = a

unfoldable pub validate_health_checks_config : HealthChecksConfig → Result HealthChecksConfig
unfolding or_value
validate_health_checks_config c =
    if c.endpoint == ""
    then err (errorf "endpoint is a required value to configure health checks")
    else ok (record c {
      port = some (or_value c.port (pos 80));
      protocol = some (or_value c.protocol http);
    })

-- `md5`, in hexadecimal digits, is a parameter.
module _ (p : Provider) (md5 : String → String) where
  open p use {State, reconcile_health_check, delete_health_check}

  unfoldable pub id_for_endpoint : DnsRecord → Endpoint → String
  id_for_endpoint r e = md5 (r.meta.name ^^ "/" ^^ e.set_identifier ^^ "@" ^^ e.dns_name)

  unfoldable pub health_check : HealthChecksConfig → DnsRecord → Endpoint → HealthCheck
  unfolding id_for_endpoint
  health_check c r e = record {
    id = id_for_endpoint r e;
    name = e.dns_name ^^ "-" ^^ e.set_identifier;
    port = c.port;
    failure_threshold = c.failure_threshold;
    path = c.endpoint;
    protocol = c.protocol;
  }

  -- The provider writes to the endpoints of the record; the loop stops at the first error.
  unfoldable pub check_loop :
      HealthChecksConfig → DnsRecord → List Endpoint → State → Option Error × List Endpoint × State
  unfolding health_check
  check_loop c r [] st = (none, [], st)
  check_loop c r (e ∷ es) st =
      let (failed, e', st') = reconcile_health_check (health_check c r e) e st in
      let (error, es', last) = check_loop c r es st' in
      let (skip_error, skip_es, skip_last) = check_loop c r es st in
      elim (get_address e) [
        | none ↦ (skip_error, e ∷ skip_es, skip_last)
        | some _ ↦ elim failed [ some x ↦ (some x, e' ∷ es, st') | none ↦ (error, e' ∷ es', last) ]
      ]

  unfoldable pub delete_loop : List Endpoint → State → Option Error × List Endpoint × State
  delete_loop [] st = (none, [], st)
  delete_loop (e ∷ es) st =
      let (failed, e', st') = delete_health_check e st in
      let (error, es', last) = delete_loop es st' in
      elim failed [ some x ↦ (some x, e' ∷ es, st') | none ↦ (error, e' ∷ es', last) ]

  -- A zone status that was updated in this round holds the pointers of `Spec.Endpoints`: what is
  -- written to an endpoint through one of them is seen through the other.
  module _ (shared : DnsZoneStatus → Bool) where
    share : List Endpoint → List DnsZoneStatus → List DnsZoneStatus
    share es [] = []
    share es (z ∷ zs) = (if shared z then record z { endpoints = es } else z) ∷ share es zs

    -- The record with its endpoints overwritten in place.
    written : DnsRecord → List Endpoint → List DnsZoneStatus → DnsRecord
    unfolding share
    written r es zones = record r {
      endpoints = es;
      status = record r.status { zones = share es zones };
    }

    unfoldable pub reconcile_health_check_for :
        HealthChecksConfig → DnsRecord → State → Option Error × DnsRecord × State
    unfolding check_loop written
    reconcile_health_check_for c r st =
        let (error, es, last) = check_loop c r r.endpoints st in
        (error, written r es r.status.zones, last)

    -- The endpoints `es` are those of the record.
    unfoldable pub delete_zones :
        List DnsZoneStatus
        → List Endpoint
        → State
        → Option Error × List DnsZoneStatus × List Endpoint × State
    unfolding delete_loop
    delete_zones [] es st = (none, [], es, st)
    delete_zones (z ∷ zs) es st =
        let (failed, own, st') = delete_loop (if shared z then es else z.endpoints) st in
        let es' = if shared z then own else es in
        let z' = record z { endpoints = own } in
        let (error, zs', last_es, last) = delete_zones zs es' st' in
        elim failed [
          | some x ↦ (some x, z' ∷ zs, es', st')
          | none ↦ (error, z' ∷ zs', last_es, last)
        ]

    unfoldable pub reconcile_health_check_deletion :
        DnsRecord → State → Option Error × DnsRecord × State
    unfolding delete_zones written
    reconcile_health_check_deletion r st =
        let (error, zones, es, last) = delete_zones r.status.zones r.endpoints st in
        (error, written r es zones, last)

    validated : Result HealthChecksConfig → DnsRecord → State → Option Error × DnsRecord × State
    unfolding reconcile_health_check_for
    validated (err e) r st = (some e, r, st)
    validated (ok c) r st = reconcile_health_check_for c r st

    apply_config :
        Result (Option HealthChecksConfig) → DnsRecord → State → Option Error × DnsRecord × State
    unfolding validated reconcile_health_check_deletion validate_health_checks_config
    apply_config (err e) r st = (some e, r, st)
    apply_config (ok none) r st = reconcile_health_check_deletion r st
    apply_config (ok (some c)) r st = validated (validate_health_checks_config c) r st

    unfoldable pub reconcile_health_checks : DnsRecord → State → Option Error × DnsRecord × State
    unfolding apply_config config_from_annotations
    reconcile_health_checks r st = apply_config (config_from_annotations r.meta.annotations) r st
