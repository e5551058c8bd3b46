-- ===== src/Aws/Health/Updates.antt =====
-- aws/health.go: whether updates of a health check come to an end, and which ids are kept.
use kcp_glbc.Prelude.{
  String, eq_iff, same_iff, ap, sym, Option, none, some, true, ◌≡◌, arith, Error, ok, eq_refl, ◌≢◌,
}
use kcp_glbc.Prelude.Int.{ℤ, int_eq, pos, negsuc}
use kcp_glbc.Api.{HealthCheck}
use kcp_glbc.Api.Endpoints.{Endpoint, get_provider_specific}
use kcp_glbc.Aws.Change.{health_check_id_key}
use kcp_glbc.Aws.Health.{
  HealthCheckConfig, Route53HealthCheck, UpdateHealthCheckInput, HealthClient, health_check_diff,
  str_values_equal, int_values_equal, find_health_check, create_health_check, tag_created,
  reconcile_found, record_created, reconcile_route53, address_of, config_for,
}

abbrev or_kept {ℓ} : {A : Type ℓ} → Option A → Option A → Option A
or_kept none old = old
or_kept (some a) old = some a

-- What Route 53 documents of an update: the fields that are given are replaced.
abbrev updated_config : UpdateHealthCheckInput → HealthCheckConfig → HealthCheckConfig
updated_config u c = record c {
  fully_qualified_domain_name = or_kept u.fully_qualified_domain_name c.fully_qualified_domain_name;
  ip_address = or_kept u.ip_address c.ip_address;
  resource_path = or_kept u.resource_path c.resource_path;
  port = or_kept u.port c.port;
  failure_threshold = or_kept u.failure_threshold c.failure_threshold;
}

abbrev pub applied : Option UpdateHealthCheckInput → Route53HealthCheck → Route53HealthCheck
applied none hc = hc
applied (some u) hc = record hc { config = updated_config u hc.config }

int_eq_refl : (n : ℤ) → int_eq n n ≡ true
int_eq_refl (pos n) = ground arith
int_eq_refl (negsuc n) = ground arith

int_eq_sound : (m n : ℤ) → int_eq m n ≡ true → m ≡ n
int_eq_sound (pos m) (pos n) h = ap pos ((same_iff m n).0 h)
int_eq_sound (pos m) (negsuc n) h = absurd (ground (arith, h))
int_eq_sound (negsuc m) (pos n) h = absurd (ground (arith, h))
int_eq_sound (negsuc m) (negsuc n) h = ap negsuc ((same_iff m n).0 h)

str_equal_sound : (a : String) (o : Option String) → str_values_equal (some a) o ≡ true → o ≡ some a
str_equal_sound a none h = absurd (ground (arith, h))
str_equal_sound a (some b) h = ap some (sym ((eq_iff a b).0 h))

int_equal_sound : (m : ℤ) (o : Option ℤ) → int_values_equal (some m) o ≡ true → o ≡ some m
int_equal_sound m none h = absurd (ground (arith, h))
int_equal_sound m (some n) h = ap some (sym (int_eq_sound m n h))

-- The health check is that of the spec, for the endpoint; the old type is left.
pub record IsConfigured (spec : HealthCheck) (e : Endpoint) (old : HealthCheckConfig)
    (c : HealthCheckConfig) : Type 0 where
  pub name : c.fully_qualified_domain_name ≡ some e.dns_name
  pub address : c.ip_address ≡ some (address_of e)
  pub path : c.resource_path ≡ some spec.path
  pub port : c.port ≡ spec.port
  pub threshold : c.failure_threshold ≡ spec.failure_threshold
  pub kept_type : c.type ≡ old.type

-- A health check whose spec has a port and a failure threshold: once the differences are applied, its
-- name, address, path, port and failure threshold are those of the spec and the endpoint, its type is
-- what it was, whatever protocol the spec asks for, and there are no differences left.
pub health_check_diff-IsConfigured :
    (hc : Route53HealthCheck) (spec : HealthCheck) (e : Endpoint) (port threshold : ℤ)
    → spec.port ≡ some port
    → spec.failure_threshold ≡ some threshold
    → IsConfigured spec e hc.config (applied (health_check_diff hc spec e) hc).config
      × (health_check_diff (applied (health_check_diff hc spec e) hc) spec e ≡ none)
unfolding health_check_diff
health_check_diff-IsConfigured hc spec e port threshold p t =
    let c = hc.config in
    (
      record {
        name = ground (arith, str_equal_sound e.dns_name c.fully_qualified_domain_name);
        address = ground (arith, str_equal_sound (address_of e) c.ip_address);
        path = ground (arith, str_equal_sound spec.path c.resource_path);
        port = ground (arith, p, int_equal_sound port c.port);
        threshold = ground (arith, t, int_equal_sound threshold c.failure_threshold);
        kept_type = ground arith;
      },
      ground (
        arith,
        p,
        t,
        int_eq_refl port,
        int_eq_refl threshold,
        eq_refl e.dns_name,
        eq_refl (address_of e),
        eq_refl spec.path,
      ),
    )

-- A spec without a failure threshold, against a health check that has one: after the differences are
-- applied there is a difference still.
pub health_check_diff-threshold :
    (hc : Route53HealthCheck) (spec : HealthCheck) (e : Endpoint) (n : ℤ)
    → spec.failure_threshold ≡ none
    → hc.config.failure_threshold ≡ some n
    → health_check_diff (applied (health_check_diff hc spec e) hc) spec e ≢ none
unfolding health_check_diff
health_check_diff-threshold hc spec e n s c h = ground (arith, s, c, h)

module _ (client : HealthClient) where
  -- An endpoint without a health check's id: where creating the health check succeeds and tagging it
  -- fails, the endpoint gets no id, so the health check that was created is not found again.
  pub reconcile_route53-untagged :
      (spec : HealthCheck) (e : Endpoint) (wd : client.World) (created : Route53HealthCheck)
      (x : Error)
      → get_provider_specific e health_check_id_key ≡ none
      → (client.create (client.caller_reference spec.id) (config_for client spec e) wd).0
        ≡ ok created
      → (client.tag created.id spec.id spec.name
          (client.create (client.caller_reference spec.id) (config_for client spec e) wd).1).0
        ≡ some x
      → ((reconcile_route53 client spec e wd).0 ≡ some x)
        × (find_health_check client
              (reconcile_route53 client spec e wd).1
              (reconcile_route53 client spec e wd).2
            ≡ ok none)
  unfolding reconcile_route53 find_health_check reconcile_found create_health_check tag_created
      record_created
  reconcile_route53-untagged spec e wd created x g c t = ground (arith, g, c, t)
