-- ===== src/Traffic/Ingress/Hosts/Success.antt =====
-- ingress.go: what a success of `ProcessCustomHosts` went through.
use kcp_glbc.Prelude.{
  List, map, none, some, false, not, ◌&&◌, ◌==◌, ◌≡◌, Bool-cases, Option-cases, inl, inr, arith,
}
use kcp_glbc.Api.{DomainVerification}
use kcp_glbc.Traffic.Workload.{Workload}
use kcp_glbc.Traffic.Ingress.{IngressRule, IngressTls, Ingress, tmc_enabled}
use kcp_glbc.Traffic.Ingress.Removal.{remove_tls}
use kcp_glbc.Traffic.Ingress.Hosts.{
  Codec, sort_rules, processed, finish, process_pending, process_custom_hosts,
}

module _ {V : Type 0} (w : Workload) (codec : Codec V) (dvs : List DomainVerification)
    (a a' : Ingress V) where
  pub finish_of_success :
      process_custom_hosts w codec dvs a ≡ some (none, a')
      → (tls : List IngressTls) × (finish w codec dvs
            (sort_rules a.generated_host dvs a.rules).1
            (record (processed w codec dvs a) { tls = tls })
          ≡ (none, a'))
  unfolding process_custom_hosts
  finish_of_success h =
      let unverified = (sort_rules a.generated_host dvs a.rules).1 in
      elim (Bool-cases (a.generated_host == "" && not a.meta.deleting)) [
        | inl missing ↦ ground (arith, missing)
        | inr present ↦
            elim (Option-cases
              (remove_tls (map (λ (r : IngressRule V). r.host) unverified) a.tls)) [
                | inl panic ↦ ground (arith, present, panic)
                | inr (tls, done) ↦ (tls, ground (arith, present, done))
              ]
      ]

  pub pending_of_finish :
      (unverified : List (IngressRule V)) (b : Ingress V)
      → tmc_enabled w b ≡ false
      → finish w codec dvs unverified b ≡ (none, a')
      → process_pending w codec dvs unverified b ≡ (none, a')
  unfolding finish
  pending_of_finish unverified b e h = rw e at h
