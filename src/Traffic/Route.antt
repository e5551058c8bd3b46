-- ===== src/Traffic/Route.antt =====
-- route.go: the traffic object that wraps a Route of OpenShift.
pub mod Targets
pub mod Hosts
pub mod Object
use kcp_glbc.Prelude.{
  String, List, [], ◌∷◌, ◌++◌, Option, none, some, Bool, true, false, not, ◌&&◌, ◌||◌, ◌==◌, ◌^^◌,
  Dict, lookup, put, any, if◌then◌else◌, Error, errorf, Result, ok, err, ◌>>=◌,
}
use kcp_glbc.Api.{ObjectMeta, DomainVerification}
use kcp_glbc.Metadata.{
  has_annotation, get_annotation, add_annotation, remove_annotation, add_label, remove_label,
  add_finalizer, remove_finalizer,
}
use kcp_glbc.Traffic.Workload.{Workload, tmc_annotated}
use kcp_glbc.Traffic.Object.{Target, Secret, host_target, err_generated_host_missing}
use kcp_glbc.Traffic.Domain.{is_domain_verified}
use kcp_glbc.Traffic.Patches.{Patch, apply_transform_patches}
use kcp_glbc.Traffic.Ingress.Statuses.{status_loop}
use kcp_glbc.Traffic.Ingress.Hosts.{pending_hosts_annotation, pending_hosts_label}

pub record RouteIngress : Type 0 where
  pub host : String
  pub router_canonical_hostname : String

-- A `TLSConfig`, with `X` for the fields that the program never names.
pub record RouteTls (X : Type 0) : Type 0 where
  pub key : String
  pub certificate : String
  pub ca_certificate : String
  pub rest : X

-- `V` is the rest of the spec.
pub record Route (V X : Type 0) : Type 0 where
  pub meta : ObjectMeta
  pub host : String
  pub tls : Option (RouteTls X)
  pub spec : V
  pub ingress : List RouteIngress
  pub generated_host : String

-- The values that the patches of a route have.
pub data RoutePatch (X : Type 0) : Type 0 where
  patch_host : String → RoutePatch X
  patch_tls : Option (RouteTls X) → RoutePatch X

abbrev pub or_blank : Option String → String
or_blank none = ""
or_blank (some s) = s

status_decides : List RouteIngress → String → Bool
status_decides (i ∷ []) host = if not (i.host == "") then i.host == host else true
status_decides _ host = true

module _ {V X : Type 0} where
  unfoldable pub tmc_enabled : Workload → Route V X → Bool
  unfolding tmc_annotated status_decides
  tmc_enabled w a =
      if tmc_annotated w a.meta then true else status_decides a.ingress a.generated_host

  unfoldable pub set_dns_lb_host : Route V X → String → Route V X
  set_dns_lb_host a host = record a {
    ingress = record { host = host; router_canonical_hostname = "" } ∷ [];
  }

  unfoldable pub has_dns_lb_host : Route V X → Bool
  has_dns_lb_host a = any (λ (i : RouteIngress). not (i.host == "")) a.ingress

abbrev pub with_secret : {X : Type 0} → Secret → RouteTls X → RouteTls X
with_secret secret tls = record tls {
  key = or_blank (lookup "tls.key" secret.contents);
  certificate = or_blank (lookup "tls.crt" secret.contents);
  ca_certificate = or_blank (lookup "ca.crt" secret.contents);
}

-- `blank` is the rest of an empty `TLSConfig`.
module _ {X : Type 0} (blank : X) where
  abbrev pub empty_tls : RouteTls X
  empty_tls = record { key = ""; certificate = ""; ca_certificate = ""; rest = blank }

  or_empty_tls : Option (RouteTls X) → RouteTls X
  or_empty_tls none = empty_tls
  or_empty_tls (some tls) = tls

module _ {V X : Type 0} (blank : X) where
  unfoldable pub add_tls : Route V X → String → Secret → Route V X
  unfolding or_empty_tls
  add_tls a host secret =
      let tls = or_empty_tls blank a.tls in
      record a { tls = some (if a.host == host then with_secret secret tls else tls) }

  unfoldable pub remove_tls : List String → Route V X → Route V X
  remove_tls [] a = a
  remove_tls (host ∷ hosts) a =
      remove_tls hosts
        (if not (a.host == host) then record a { tls = some (empty_tls blank) } else a)
