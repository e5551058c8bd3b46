-- ===== src/Reconciler/Route/Safety.antt =====
-- What a route that was reconciled without an error serves.
use kcp_glbc.Prelude.{List, none, some, ok, ◌≡◌, sym, subst, some-injective}
use kcp_glbc.Api.{DomainVerification}
use kcp_glbc.Traffic.Route.{Route, add_tls}
use kcp_glbc.Traffic.Route.Hosts.Safety.{
  IsServed, process_custom_hosts-IsServed, generated_host-process_custom_hosts,
}
use kcp_glbc.Reconciler.Loop.Served.{reconcile-Served}
use kcp_glbc.Reconciler.Route.{
  RouteController, object, chain, create_or_update_route, delete_shadow, process_hosts,
  reconcile_route,
}

module _ {V X U W : Type 0} (c : RouteController V X U W) where
  open c use {workload, loop, get_domain_verifications}

  -- The host may be served, for the generated host that the route has.
  abbrev pub ServesVerified : List DomainVerification → Route V X → Type 0
  ServesVerified dvs a =
      IsServed (create_or_update_route c) (delete_shadow c) dvs a.generated_host a

  process_hosts-ServesVerified :
      (dvs : List DomainVerification) (a b : Route V X) (wd wd' : W)
      → process_hosts c dvs a wd ≡ some (none, b, wd')
      → ServesVerified dvs b
  unfolding process_hosts
  process_hosts-ServesVerified dvs a b wd wd' h =
      let done = some-injective h in
      let served =
        process_custom_hosts-IsServed (create_or_update_route c) (delete_shadow c) dvs a b wd wd'
          done in
      let same_host =
        generated_host-process_custom_hosts (create_or_update_route c) (delete_shadow c) dvs a b wd
          wd' done in
      subst (λ g. IsServed (create_or_update_route c) (delete_shadow c) dvs g b) (sym same_host)
        served

  -- Where `reconcile` of a route returns no error: its host is the generated host of the route, or
  -- none, or a host that a verified domain covers, among the domain verifications that the API server
  -- listed.
  pub reconcile_route-ServesVerified :
      (a a' : Route V X) (wd wd' : W)
      → reconcile_route c a wd ≡ some (none, a', wd')
      → (dvs : List DomainVerification) × ((b : Route V X) × (wd0 : W) × (get_domain_verifications b
              wd0
            ≡ ok dvs))
        × ServesVerified dvs a'
  unfolding reconcile_route add_tls
  reconcile_route-ServesVerified a a' wd wd' h =
      reconcile-Served workload (object c) loop (chain c) ServesVerified
        process_hosts-ServesVerified (λ dvs m a p. p) (λ dvs host secret a p. p) a a' wd wd' h
