-- ===== src/Traffic/Ingress/Statuses.antt =====
-- ingress.go: `getStatuses` and `GetDNSTargets` of an ingress.
use kcp_glbc.Prelude.{
  String, List, [], ◌∷◌, ◌++◌, none, some, not, ◌==◌, ◌^^◌, Dict, put, contains, if◌then◌else◌,
  errorf, Result, ok, err, ◌>>=◌,
}
use kcp_glbc.Traffic.Workload.{Workload, tmc_annotated, after_slash}
use kcp_glbc.Traffic.Object.{Target, no_target, host_target, ip_target}
use kcp_glbc.Traffic.Ingress.{LoadBalancerIngress, Ingress}

-- The loop over the annotations, for a status of any kind; `unmarshal` is `encoding/json`.
module _ {S : Type 0} (w : Workload) (unmarshal : String → Result S) where
  unfoldable pub status_loop : Dict String → Dict S → Result (Dict S)
  status_loop [] statuses = ok statuses
  status_loop ((k, v) ∷ m) statuses =
      let skipped = status_loop m statuses in
      if not (contains k w.status_prefix) then skipped else elim (after_slash k) [
        | none ↦ err (
            errorf
              ("advanced scheduling annotation malformed " ^^ w.status_prefix ^^ " value " ^^ v))
        | some cluster ↦ unmarshal v >>= λ status. status_loop m (put cluster status statuses)
      ]

-- The addresses are all that is read of a status.
module _ (w : Workload) (unmarshal : String → Result (List LoadBalancerIngress)) where
  abbrev Statuses : Type 0
  Statuses = Dict (List LoadBalancerIngress)

  unfoldable pub get_statuses : {V : Type 0} → Ingress V → Result Statuses
  unfolding status_loop
  get_statuses a = status_loop w unmarshal a.meta.annotations [] >>= λ statuses.
      if tmc_annotated w a.meta
      then ok statuses
      else ok (put a.meta.cluster a.load_balancer statuses)

  -- A hostname goes before an IP address.
  abbrev pub target_of : String → LoadBalancerIngress → Target
  target_of cluster lb =
      if not (lb.hostname == "")
      then record { cluster = cluster; target_type = host_target; value = lb.hostname }
      else if not (lb.ip == "")
      then record { cluster = cluster; target_type = ip_target; value = lb.ip }
      else record { cluster = cluster; target_type = no_target; value = "" }

  targets_in : String → List LoadBalancerIngress → List Target
  targets_in cluster [] = []
  targets_in cluster (lb ∷ lbs) = target_of cluster lb ∷ targets_in cluster lbs

  targets_of : Statuses → List Target
  unfolding targets_in
  targets_of [] = []
  targets_of ((cluster, lbs) ∷ m) = targets_in cluster lbs ++ targets_of m

  unfoldable pub get_dns_targets : {V : Type 0} → Ingress V → Result (List Target)
  unfolding get_statuses targets_of
  get_dns_targets a = get_statuses a >>= λ statuses. ok (targets_of statuses)
