-- ===== src/Reconciler/Ingress/Safety.antt =====
-- What an ingress that was reconciled without an error serves.
use kcp_glbc.Prelude.{
  List, Option, none, some, Error, ok, ◌≡◌, sym, ap, subst, ◌∙◌, arith, Option-cases, inl, inr,
  some-injective, All,
}
use kcp_glbc.Api.{DomainVerification}
use kcp_glbc.Traffic.Ingress.{Ingress, add_tls}
use kcp_glbc.Traffic.Ingress.Hosts.{process_custom_hosts}
use kcp_glbc.Traffic.Ingress.Hosts.Safety.{IsServed, AllServed, process_custom_hosts-AllServed}
use kcp_glbc.Reconciler.Loop.Served.{reconcile-Served}
use kcp_glbc.Reconciler.Ingress.{
  IngressController, object, chain, with_world, process_hosts, reconcile_ingress,
}

module _ {V W : Type 0} (c : IngressController V W) where
  open c use {workload, codec, loop, get_domain_verifications}

  -- Every rule may be served, for the generated host that the ingress has.
  abbrev ServesVerified : List DomainVerification → Ingress V → Type 0
  ServesVerified dvs a = All (IsServed dvs a.generated_host) a.rules

  process_hosts-none :
      (dvs : List DomainVerification) (a b : Ingress V) (wd wd' : W)
      → process_hosts c dvs a wd ≡ some (none, b, wd')
      → process_custom_hosts workload codec dvs a ≡ some (none, b)
  unfolding process_hosts with_world
  process_hosts-none dvs a b wd wd' h =
      elim (Option-cases (process_custom_hosts workload codec dvs a)) [
        | inl e ↦ absurd (ground (arith, h, e))
        | inr ((failed, b'), e) ↦
            let done : some (failed, b', wd) ≡ some (none, b, wd') =
              ap (with_world c wd) (sym e) ∙ h in
            e ∙ ap (λ (x : Option Error × Ingress V × W). some (x.0, x.1)) (some-injective done)
      ]

  process_hosts-ServesVerified :
      (dvs : List DomainVerification) (a b : Ingress V) (wd wd' : W)
      → process_hosts c dvs a wd ≡ some (none, b, wd')
      → ServesVerified dvs b
  process_hosts-ServesVerified dvs a b wd wd' h =
      let served : AllServed dvs workload codec a.generated_host b =
        process_custom_hosts-AllServed dvs workload codec a b
          (process_hosts-none dvs a b wd wd' h) in
      subst (λ g. All (IsServed dvs g) b.rules) (sym served.0) served.1

  -- Where `reconcile` of an ingress returns no error: each rule of the spec is for the generated host
  -- of the ingress, for no host, or for a host that a verified domain covers, among the domain
  -- verifications that the API server listed.
  pub reconcile_ingress-ServesVerified :
      (a a' : Ingress V) (wd wd' : W)
      → reconcile_ingress c a wd ≡ some (none, a', wd')
      → (dvs : List DomainVerification) × ((b : Ingress V) × (wd0 : W) × (get_domain_verifications b
              wd0
            ≡ ok dvs))
        × ServesVerified dvs a'
  unfolding reconcile_ingress add_tls
  reconcile_ingress-ServesVerified a a' wd wd' h =
      reconcile-Served workload (object c) loop (chain c) ServesVerified
        process_hosts-ServesVerified (λ dvs m a p. p) (λ dvs host secret a p. p) a a' wd wd' h
