-- ===== src/Tests/Routes.antt =====
-- The theorems about routes and their controller, at a small route.
use kcp_glbc.Reconciler.Route.Events.{enqueue_routes, IsWaiting, Holds-enqueue_routes}
use kcp_glbc.Prelude.{
  ◌⊎◌, String, Any, ◌↔◌, List, [], ◌∷◌, Option, none, some, true, false, Error, ok, err, ◌≡◌, refl,
  ◌^^◌, not_found, contains, lookup, put, cut, delete,
}
use kcp_glbc.Api.{DomainVerification}
use kcp_glbc.Metadata.{
  trim_space, add_annotation, add_label, remove_finalizer, has_finalizer, has_annotation,
  has_annotations_containing, has_labels_containing, add_finalizer, get_annotation,
  remove_annotation, remove_label,
}
use kcp_glbc.Migration.{migrate}
use kcp_glbc.Traffic.Host.{reconcile_hosts}
use kcp_glbc.Reconciler.Loop
use kcp_glbc.Traffic.Domain.{is_domain_verified}
use kcp_glbc.Traffic.Dns.{reconcile_dns}
use kcp_glbc.Traffic.Certificates.{reconcile_tls}
use kcp_glbc.Traffic.Route.{Route}
use kcp_glbc.Traffic.Route.Hosts.{reset, is_allowed, process_custom_hosts, shadow_finalizer}
use kcp_glbc.Traffic.Route.Hosts.Pending.{
  waiting, process_custom_hosts-resumes, process_custom_hosts-keeps_finalizer,
}
use kcp_glbc.Reconciler.Loop.{LoopServices, cascade_finalizer}
use kcp_glbc.Reconciler.Route.{RouteController, delete_shadow, reconcile_route}
use kcp_glbc.Reconciler.Route.Safety.{ServesVerified, reconcile_route-ServesVerified}
use kcp_glbc.Tests.Records.{meta_example}
use kcp_glbc.Tests.Hosts.{workload, verification_example}
use kcp_glbc.Tests.Reconcilers.{certificate_services}
use kcp_glbc.Tests.Controllers.{dns_services, loop, status, left, outcome}

-- A route with a host that no domain covers.
abbrev route : Route (Unit {0}) (Unit {0})
route = record {
  meta = meta_example;
  host = "shop.other.com";
  tls = none;
  spec = tt;
  ingress = [];
  generated_host = "g.hcg.com";
}

abbrev deleted_route : Route (Unit {0}) (Unit {0})
deleted_route = record route { meta = record meta_example { deleting = true } }

-- The API server has no shadow yet and takes what is written.
abbrev route_controller :
    RouteController (Unit {0}) (Unit {0}) (Route (Unit {0}) (Unit {0})) (Unit {0})
route_controller = record {
  workload = workload;
  marshal = λ ps. ok "";
  unmarshal = λ s. ok [];
  key_of = λ m. m.namespace ^^ "/" ^^ m.name;
  blank = tt;
  dns = dns_services;
  certificates = certificate_services;
  loop = loop;
  get_domain_verifications = λ a wd. ok (verification_example ∷ []);
  get_route = λ m wd. err (record { reason = not_found; text = "" });
  create_route = λ a wd. (none, wd);
  update_route = λ a wd. (none, wd);
  delete_route = λ m wd. (none, wd);
  from_unstructured = λ a. ok a;
  to_unstructured = λ a. ok a;
  route_equal = λ a b. false;
}

abbrev left_route : Route (Unit {0}) (Unit {0})
left_route = left deleted_route (reconcile_route route_controller deleted_route tt)

route-succeeds : status (reconcile_route route_controller deleted_route tt) ≡ some none
unfolding reconcile_route kcp_glbc.Reconciler.Loop.reconcile reconcile_dns migrate
    has_annotations_containing has_labels_containing reconcile_hosts remove_annotation delete
    remove_label lookup reconcile_tls add_finalizer get_annotation is_domain_verified cut
    add_annotation add_label put contains kcp_glbc.Reconciler.Route.process_hosts
    process_custom_hosts delete_shadow remove_finalizer
route-succeeds = refl

reconcile_route-ServesVerified_example :
    (dvs : List DomainVerification) × ((b : Route (Unit {0}) (Unit {0})) × (wd0 : Unit {0})
      × (route_controller.get_domain_verifications b wd0 ≡ ok dvs))
    × ServesVerified route_controller dvs left_route
reconcile_route-ServesVerified_example =
    reconcile_route-ServesVerified route_controller deleted_route left_route tt tt (
      outcome deleted_route none (reconcile_route route_controller deleted_route tt) route-succeeds)

abbrev wrote : Route (Unit {0}) (Unit {0}) → Unit {0} → Option Error × Unit {0}
wrote a wd = (none, wd)

-- A domain that covers the host of the route.
abbrev other_verification : DomainVerification
other_verification = record verification_example { domain = "other.com" }

process_custom_hosts-resumes_example :
    (process_custom_hosts wrote wrote (verification_example ∷ []) route tt
      ≡ (none, waiting route, tt))
    × ((waiting route).host ≡ "g.hcg.com")
    × ((process_custom_hosts wrote wrote (other_verification ∷ []) (waiting route) tt).0 ≡ none)
    × ((process_custom_hosts wrote wrote (other_verification ∷ []) (waiting route) tt).1.host
        ≡ "shop.other.com")
unfolding is_allowed is_domain_verified cut reset get_annotation has_annotation lookup
process_custom_hosts-resumes_example =
    process_custom_hosts-resumes wrote wrote (verification_example ∷ []) (other_verification ∷ [])
      route tt tt (record { kept = refl; generated = refl; own = refl }) refl refl refl

abbrev deleted_shop : Route (Unit {0}) (Unit {0})
deleted_shop = (process_custom_hosts wrote wrote (other_verification ∷ []) deleted_route tt).1

shop-processed :
    process_custom_hosts wrote wrote (other_verification ∷ []) deleted_route tt
    ≡ (none, deleted_shop, tt)
unfolding process_custom_hosts has_annotation lookup is_domain_verified cut
shop-processed = refl

process_custom_hosts-keeps_finalizer_example :
    has_finalizer deleted_shop.meta shadow_finalizer ≡ true
unfolding is_allowed has_annotation lookup is_domain_verified reset cut
process_custom_hosts-keeps_finalizer_example =
    process_custom_hosts-keeps_finalizer wrote wrote (other_verification ∷ []) deleted_route
      deleted_shop tt tt refl refl refl shop-processed

abbrev key_of_route : Route (Unit {0}) (Unit {0}) → String
key_of_route a = a.meta.namespace ^^ "/" ^^ a.meta.name

-- A queue is the list of the keys that it Holds.
abbrev enqueue : Route (Unit {0}) (Unit {0}) → List String → List String
enqueue a keys = key_of_route a ∷ keys

abbrev Holds : String → List String → Type 0
Holds k keys = Any (λ x. x ≡ k) keys

Holds-enqueue_routes_example :
    Holds "default/web" (
      enqueue_routes
        (λ s. s)
        enqueue
        (λ key keys. ok none)
        (ok (route ∷ waiting route ∷ []))
        other_verification
        [])
    ↔ (Holds "default/web" []
        ⊎ Any
            (λ a.
              (key_of_route a ≡ "default/web")
              × IsWaiting (λ s. s) (trim_space other_verification.domain) a)
            (route ∷ waiting route ∷ []))
Holds-enqueue_routes_example =
    Holds-enqueue_routes (λ s. s) enqueue (λ key keys. ok none) key_of_route Holds
      (λ k a keys. (λ h. h, λ h. h)) (route ∷ waiting route ∷ []) other_verification "default/web"
      []
