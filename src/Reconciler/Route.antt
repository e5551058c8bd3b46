-- ===== src/Reconciler/Route.antt =====
-- pkg/reconciler/route/controller.go: the controller of routes.
pub mod Safety
pub mod Events
use kcp_glbc.Prelude.{
  String, List, Option, none, some, Bool, true, false, if◌then◌else◌, Error, errorf, is_not_found,
  Result, ok, err, ◌^^◌,
}
use kcp_glbc.Api.{ObjectMeta, DomainVerification}
use kcp_glbc.Traffic.Workload.{Workload}
use kcp_glbc.Traffic.Object.{TrafficObject}
use kcp_glbc.Traffic.Patches.{Patch}
use kcp_glbc.Traffic.Route.{Route, RouteIngress, RoutePatch}
use kcp_glbc.Traffic.Route.Object.{route_object}
use kcp_glbc.Traffic.Route.Hosts.{process_custom_hosts}
use kcp_glbc.Traffic.Route.Targets.{transform}
use kcp_glbc.Traffic.Dns.{DnsServices}
use kcp_glbc.Traffic.Certificates.{CertificateServices}
use kcp_glbc.Reconciler.Loop.{LoopServices, reconcile}
use kcp_glbc.Reconciler.Loop.Chain.{Chain, members}

-- The fields of the controller. `V` and `X` are what the program never names in a spec and in a
-- `TLSConfig`, and `blank` is the empty one; `U` is an unstructured object, `W` the world.
pub record RouteController (V X U W : Type 0) : Type 0 where
  pub workload : Workload
  pub marshal : List (Patch (RoutePatch X)) → Result String
  pub unmarshal : String → Result (List RouteIngress)
  pub key_of : ObjectMeta → String
  pub blank : X
  pub dns : DnsServices (Route V X) W
  pub certificates : CertificateServices W
  pub loop : LoopServices W
  pub get_domain_verifications : Route V X → W → Result (List DomainVerification)
  pub get_route : ObjectMeta → W → Result U
  pub create_route : Route V X → W → Option Error × W
  pub update_route : U → W → Option Error × W
  pub delete_route : ObjectMeta → W → Option Error × W
  pub from_unstructured : U → Result (Route V X)
  pub to_unstructured : Route V X → Result U
  pub route_equal : Route V X → Route V X → Bool

module _ {V X U W : Type 0} (c : RouteController V X U W) where
  open c use {
    workload, marshal, unmarshal, key_of, blank, dns, certificates, loop, get_domain_verifications,
    get_route, create_route, update_route, from_unstructured, to_unstructured, route_equal,
  }

  abbrev pub object : TrafficObject (Route V X)
  object = route_object workload unmarshal key_of blank

  unless_missing : Option Error × W → Option Error × W
  unless_missing (none, wd) = (none, wd)
  unless_missing (some e, wd) = if is_not_found e then (none, wd) else (some e, wd)

  unfoldable pub delete_shadow : Route V X → W → Option Error × W
  unfolding unless_missing
  delete_shadow r wd = unless_missing (c.delete_route r.meta wd)

  described : String → Option Error × W → Option Error × W
  described prefix (none, wd) = (none, wd)
  described prefix (some e, wd) = (some (errorf (prefix ^^ e.text)), wd)

  update_raw : Result U → W → Option Error × W
  unfolding described
  update_raw (err e) wd =
      (some (errorf ("error converting shadow to unstructured: " ^^ e.text)), wd)
  update_raw (ok raw) wd = described "error updating shadow, err: " (update_route raw wd)

  update_shadow : Route V X → Result (Route V X) → W → Option Error × W
  unfolding update_raw
  update_shadow r (err e) wd =
      (some (errorf ("error converting shadow from unstructured: " ^^ e.text)), wd)
  update_shadow r (ok shadow) wd =
      update_raw (to_unstructured (record shadow { host = r.host; tls = r.tls; spec = r.spec })) wd

  write_shadow : Route V X → Result U → W → Option Error × W
  unfolding update_shadow described
  write_shadow r (err e) wd =
      if is_not_found e
      then described "shadow creation error: "
          (create_route (record r { meta = record r.meta { resource_version = "" } }) wd)
      else (some (errorf ("error retrieving shadow: " ^^ e.text)), wd)
  write_shadow r (ok raw) wd = update_shadow r (from_unstructured raw) wd

  unfoldable pub create_or_update_route : Route V X → W → Option Error × W
  unfolding write_shadow
  create_or_update_route r wd = write_shadow r (get_route r.meta wd) wd

  unfoldable pub process_hosts :
      List DomainVerification → Route V X → W → Option (Option Error × Route V X × W)
  process_hosts dvs a wd = some (process_custom_hosts create_or_update_route delete_shadow dvs a wd)

  abbrev pub chain : Chain (Route V X) W
  chain = record {
    dns = dns;
    certificates = certificates;
    get_domain_verifications = get_domain_verifications;
    process = process_hosts;
  }

  unfoldable pub reconcile_route : Route V X → W → Option (Option Error × Route V X × W)
  reconcile_route a wd = reconcile workload object loop (members workload object chain) a wd

  -- The conversion to an unstructured object that fails leaves an empty one, `empty`.
  module _ (empty : U) where
    converted : Result U → U
    converted (err e) = empty
    converted (ok raw) = raw

    write_transformed : Option Error × Route V X → W → Option Error × W
    unfolding converted
    write_transformed (some e, target) wd = (some e, wd)
    write_transformed (none, target) wd = update_route (converted (to_unstructured target)) wd

    -- The last part of `process`, after `reconcile`.
    write_back : Route V X → Option (Option Error × Route V X × W) → Option (Option Error × W)
    unfolding write_transformed
    write_back current none = none
    write_back current (some (some e, target, wd)) = some (some e, wd)
    write_back current (some (none, target, wd)) =
        if route_equal current target
        then some (none, wd)
        else some (write_transformed (transform workload marshal current target) wd)

    -- `found` is the answer of the indexer, as a route. A new `traffic.Route` has no generated host.
    unfoldable pub process_route : Result (Option (Route V X)) → W → Option (Option Error × W)
    unfolding write_back
    process_route (err e) wd = if is_not_found e then some (none, wd) else some (some e, wd)
    process_route (ok none) wd = some (none, wd)
    process_route (ok (some found)) wd =
        let current = record found { generated_host = "" } in
        write_back current (reconcile_route current wd)
