-- ===== src/Traffic/Route/Object.antt =====
-- route.go: a route as a traffic object.
use kcp_glbc.Prelude.{
  String, List, [], ◌∷◌, Option, some, Result, ◌≡◌, ◌≢◌, ◌⊎◌, refl, Bool-cases, inl, inr, ◌==◌,
  eq_iff, arith, lookup,
}
use kcp_glbc.Api.{ObjectMeta}
use kcp_glbc.Traffic.Workload.{Workload}
use kcp_glbc.Traffic.Object.{TrafficObject, StatusLaws, TlsLaws, MetaLaws, Secret}
use kcp_glbc.Traffic.Route.{
  RouteIngress, RouteTls, Route, tmc_enabled, has_dns_lb_host, set_dns_lb_host, add_tls, or_blank,
}
use kcp_glbc.Traffic.Route.Targets.{get_dns_targets}

abbrev pub only_ingress : String → List RouteIngress
only_ingress host = record { host = host; router_canonical_hostname = "" } ∷ []

-- The route is for another host, and has some TLS configuration, or it serves its host with the key
-- and the certificate.
abbrev pub ServesIfFor : {V X : Type 0} → Route V X → String → Secret → Type 0
ServesIfFor {X = X} a host secret =
    ((a.host ≢ host) × ((tls : RouteTls X) × (a.tls ≡ some tls)))
    ⊎ ((tls : RouteTls X) × (a.tls ≡ some tls)
        × (tls.key ≡ or_blank (lookup "tls.key" secret.contents))
        × (tls.certificate ≡ or_blank (lookup "tls.crt" secret.contents)))

module _ {V X : Type 0} (w : Workload) (unmarshal : String → Result (List RouteIngress))
    (key_of : ObjectMeta → String) (blank : X) where
  abbrev pub route_object : TrafficObject (Route V X)
  route_object = record {
    kind = "Route";
    meta = λ a. a.meta;
    with_meta = λ m a. record a { meta = m };
    get_cache_key = λ a. key_of a.meta;
    get_hcg_host = λ a. a.generated_host;
    set_hcg_host = λ host a. record a { generated_host = host };
    tmc_enabled = λ a. tmc_enabled w a;
    has_dns_lb_host = λ a. has_dns_lb_host a;
    set_dns_lb_host = λ host a. set_dns_lb_host a host;
    get_dns_targets = λ a. get_dns_targets w unmarshal a;
    add_tls = λ host secret a. add_tls blank a host secret;
  }

  pub route_object-StatusLaws :
      StatusLaws route_object (List RouteIngress) (λ a. a.ingress) only_ingress
  unfolding set_dns_lb_host
  route_object-StatusLaws = record {
    with_meta_lem = λ m a. refl;
    set_hcg_host_lem = λ host a. refl;
    set_dns_lb_host_lem = λ host a. refl;
    same_hcg_host = λ host a. refl;
  }

  add_tls-ServesIfFor :
      (host : String) (secret : Secret) (a : Route V X)
      → ServesIfFor (add_tls blank a host secret) host secret
  unfolding add_tls
  add_tls-ServesIfFor host secret a = elim (Bool-cases (a.host == host)) [
    | inr other ↦
        rw (other, add_tls)
          (inl ((λ same_host. ground (arith, other, eq_iff a.host host, same_host)), (_, refl)))
    | inl here ↦ rw (here, add_tls) (inr (_, refl, refl, refl))
  ]

  pub route_object-TlsLaws : TlsLaws route_object (Option (RouteTls X)) (λ a. a.tls) ServesIfFor
  unfolding add_tls
  route_object-TlsLaws = record {
    with_meta_lem = λ m a. refl;
    same_hcg_host = λ m a. refl;
    same_meta = λ m a. refl;
    add_tls_lem = add_tls-ServesIfFor;
  }

  pub route_object-MetaLaws : MetaLaws route_object
  unfolding add_tls set_dns_lb_host
  route_object-MetaLaws = record {
    with_meta_lem = λ m a. refl;
    set_hcg_host_lem = λ host a. refl;
    set_dns_lb_host_lem = λ host a. refl;
    add_tls_lem = λ host secret a. refl;
  }
