-- ===== src/Traffic/Ingress/Hosts/Safety.antt =====
-- ingress.go: which rules `ProcessCustomHosts` leaves in the spec.
use kcp_glbc.Prelude.{
  String, List, [], ◌∷◌, ◌++◌, Option, none, some, true, ◌==◌, eq_iff, All, Any, All-append, ◌≡◌,
  refl, subst, ap, Bool-cases, ◌⊎◌, inl, inr, arith, Error, Result, ok, err,
}
use kcp_glbc.Api.{DomainVerification}
use kcp_glbc.Traffic.Workload.{Workload}
use kcp_glbc.Traffic.Domain.{is_domain_verified}
use kcp_glbc.Traffic.Domain.Covers.{Covers, is_domain_verified_iff}
use kcp_glbc.Traffic.Ingress.{IngressRule, Ingress, tmc_enabled}
use kcp_glbc.Traffic.Ingress.Hosts.Success.{finish_of_success}
use kcp_glbc.Traffic.Ingress.Hosts.{
  Codec, is_allowed, sort_rules, sort_pending, processed, finish, process_custom_hosts,
  store_pending, write_pending, resume, forget_pending, read_pending,
}

module _ {V : Type 0} (dvs : List DomainVerification) where
  -- The rule is for the generated host, for no host, or for a host in a verified domain.
  abbrev pub IsServed : String → IngressRule V → Type 0
  IsServed generated rule =
      (rule.host ≡ generated) ⊎ ((rule.host ≡ "") ⊎ Any (Covers rule.host) dvs)

  is_allowed-IsServed :
      (generated : String) (rule : IngressRule V)
      → is_allowed dvs rule ≡ true
      → IsServed generated rule
  unfolding is_allowed
  is_allowed-IsServed generated rule h = elim (Bool-cases (is_domain_verified rule.host dvs)) [
    | inl e ↦ inr (inr ((is_domain_verified_iff rule.host dvs).0 e))
    | inr e ↦ inr (inl ((eq_iff rule.host "").0 (ground arith)))
  ]

  sort_rules-IsServed :
      (generated : String) (rules : List (IngressRule V))
      → All (IsServed generated) (sort_rules generated dvs rules).0
  unfolding sort_rules
  sort_rules-IsServed generated [] = tt
  sort_rules-IsServed generated (rule ∷ rules) =
      let ih = sort_rules-IsServed generated rules in
      elim (Bool-cases (rule.host == generated)) [
        | inl e ↦ rw e ih
        | inr e ↦ elim (Bool-cases (is_allowed dvs rule)) [
          | inl yes_allowed ↦
              rw (e, yes_allowed) (is_allowed-IsServed generated rule yes_allowed, (inl refl, ih))
          | inr refused ↦ rw (e, refused) (inl refl, ih)
        ]
      ]

  sort_pending-IsServed :
      (generated : String) (rules : List (IngressRule V))
      → All (IsServed generated) (sort_pending generated dvs rules).0
  unfolding sort_pending
  sort_pending-IsServed generated [] = tt
  sort_pending-IsServed generated (rule ∷ rules) =
      let ih = sort_pending-IsServed generated rules in
      elim (Bool-cases (is_allowed dvs rule)) [
        | inl yes_allowed ↦
            rw yes_allowed (inl refl, (is_allowed-IsServed generated rule yes_allowed, ih))
        | inr refused ↦ rw refused (inl refl, ih)
      ]

  module _ (w : Workload) (codec : Codec V) where
    -- The ingress has this generated host, and only rules that may be served.
    abbrev pub AllServed : String → Ingress V → Type 0
    AllServed generated a = (a.generated_host ≡ generated) × All (IsServed generated) a.rules

    store_pending-AllServed :
        (generated : String) (answer : Result String) (a : Ingress V)
        → AllServed generated a
        → AllServed generated (store_pending w codec answer a).1
    unfolding store_pending
    store_pending-AllServed generated (err e) a h = h
    store_pending-AllServed generated (ok raw) a h = h

    write_pending-AllServed :
        (generated : String) (rules : List (IngressRule V)) (a : Ingress V)
        → AllServed generated a
        → AllServed generated (write_pending w codec rules a).1
    unfolding write_pending
    write_pending-AllServed generated [] a h = h
    write_pending-AllServed generated (r ∷ rs) a h =
        store_pending-AllServed generated (codec.marshal (r ∷ rs)) _ h

    resume-AllServed :
        (generated : String) (unverified : List (IngressRule V))
        (pending : Result (List (IngressRule V))) (a : Ingress V)
        → AllServed generated a
        → AllServed generated (resume w codec dvs unverified pending a).1
    unfolding resume
    resume-AllServed generated unverified (err e) a h = h
    resume-AllServed generated unverified (ok pending) a h =
        let sorted = sort_pending a.generated_host dvs pending in
        let added =
          subst (λ g. All (IsServed g) sorted.0) h.0
            (sort_pending-IsServed a.generated_host pending) in
        write_pending-AllServed generated (sorted.1 ++ unverified)
          (record a { rules = a.rules ++ sorted.0 })
          (h.0, All-append (IsServed generated) a.rules sorted.0 h.1 added)

    finish-AllServed :
        (generated : String) (unverified : List (IngressRule V)) (a : Ingress V)
        → AllServed generated a
        → AllServed generated (finish w codec dvs unverified a).1
    unfolding finish
    finish-AllServed generated unverified a h = elim (Bool-cases (tmc_enabled w a)) [
      | inl e ↦ rw e h
      | inr e ↦ rw e (resume-AllServed generated unverified (read_pending w codec a.meta) a h)
    ]

    forget_generated :
        (a : Ingress V) → (forget_pending w codec a).generated_host ≡ a.generated_host
    unfolding forget_pending
    forget_generated a = ground arith

    processed-AllServed : (a : Ingress V) → AllServed a.generated_host (processed w codec dvs a)
    unfolding processed
    processed-AllServed a = (forget_generated _, sort_rules-IsServed a.generated_host a.rules)

    -- Whatever was in the spec and in the annotation of pending hosts: when `ProcessCustomHosts`
    -- succeeds, the generated host is as before, and each rule of the spec is for the generated host,
    -- for no host, or for a host that a verified domain covers.
    pub process_custom_hosts-AllServed :
        (a a' : Ingress V)
        → process_custom_hosts w codec dvs a ≡ some (none, a')
        → AllServed a.generated_host a'
    process_custom_hosts-AllServed a a' h =
        let (tls, done) = finish_of_success w codec dvs a a' h in
        subst (AllServed a.generated_host) (ap (λ (r : Option Error × Ingress V). r.1) done) (
          finish-AllServed a.generated_host (sort_rules a.generated_host dvs a.rules).1
            (record (processed w codec dvs a) { tls = tls }) (processed-AllServed a))
