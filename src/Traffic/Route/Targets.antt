-- ===== src/Traffic/Route/Targets.antt =====
-- route.go: `Transform`, `getStatuses` and `GetDNSTargets` of a route.
use kcp_glbc.Prelude.{
  String, List, [], ◌∷◌, ◌++◌, Option, none, some, not, ◌==◌, ◌^^◌, Dict, put, if◌then◌else◌, Error,
  errorf, Result, ok, err, ◌>>=◌,
}
use kcp_glbc.Traffic.Workload.{Workload}
use kcp_glbc.Traffic.Object.{Target, host_target}
use kcp_glbc.Traffic.Patches.{Patch, apply_transform_patches}
use kcp_glbc.Traffic.Ingress.Statuses.{status_loop}
use kcp_glbc.Traffic.Route.{RouteIngress, Route, RoutePatch, tmc_enabled}

-- The addresses of one status. An address without a host is an error.
targets_in : String → String → List RouteIngress → Result (List Target)
targets_in name cluster [] = ok []
targets_in name cluster (i ∷ is) =
    let rest = targets_in name cluster is in
    let target_at : String → Result (List Target) = λ value. rest >>= λ targets.
    ok (record { cluster = cluster; target_type = host_target; value = value } ∷ targets) in
    if not (i.router_canonical_hostname == "")
    then target_at i.router_canonical_hostname
    else if not (i.host == "")
    then target_at i.host
    else err (errorf ("no usable host value on route (" ^^ name ^^ ") status"))

targets_of : String → Dict (List RouteIngress) → Result (List Target)
unfolding targets_in
targets_of name [] = ok []
targets_of name ((cluster, is) ∷ m) =
    targets_in name cluster is >>= λ targets. targets_of name m >>= λ rest. ok (targets ++ rest)

module _ {V X : Type 0} where
  -- `marshal` is `encoding/json` on patches.
  unfoldable pub transform :
      Workload
      → (List (Patch (RoutePatch X)) → Result String)
      → Route V X
      → Route V X
      → Option Error × Route V X
  transform w marshal old a =
      let patches : List (Patch (RoutePatch X)) =
        record { op = "replace"; path = "/host"; value = RoutePatch.patch_host a.host }
        ∷ record { op = "replace"; path = "/tls"; value = RoutePatch.patch_tls a.tls }
        ∷ [] in
      let (failed, meta) = apply_transform_patches w marshal patches a.meta in
      let patched = record a { meta = meta } in
      elim failed [
        | some e ↦ (some e, patched)
        | none ↦ (
          none,
          if tmc_enabled w patched
              then record patched { host = old.host; tls = old.tls; spec = old.spec }
              else patched,
        )
      ]

  -- The status of the route itself stands for its own cluster, with TMC too.
  unfoldable pub get_statuses :
      Workload
      → (String → Result (List RouteIngress))
      → Route V X
      → Result (Dict (List RouteIngress))
  get_statuses w unmarshal a = status_loop w unmarshal a.meta.annotations [] >>= λ statuses.
      ok (put a.meta.cluster a.ingress statuses)

  unfoldable pub get_dns_targets :
      Workload → (String → Result (List RouteIngress)) → Route V X → Result (List Target)
  unfolding get_statuses targets_of
  get_dns_targets w unmarshal a =
      get_statuses w unmarshal a >>= λ statuses. targets_of a.meta.name statuses
