-- ===== src/Reconciler/Ingress/Events.antt =====
-- pkg/reconciler/ingress/controller.go: which ingresses the events of other objects put into the queue.
pub mod Matches
pub mod Certificates
use kcp_glbc.Prelude.{
  ℕ, zero, suc, String, List, [], ◌∷◌, ◌++◌, Option, none, some, Bool, true, false, not, ◌&&◌, ◌||◌,
  ◌==◌, Dict, lookup, has, cut, is_empty, if◌then◌else◌, Error, Result, ok, err,
}
use kcp_glbc.Api.{ObjectMeta, DomainVerification, DnsRecord}
use kcp_glbc.Metadata.{trim_space}
use kcp_glbc.Traffic.Workload.{Workload}
use kcp_glbc.Traffic.Domain.{size}
use kcp_glbc.Traffic.Dns.{traffic_key_annotation}
use kcp_glbc.Reconciler.Secrets.{KubeSecret}
use kcp_glbc.Traffic.Ingress.{IngressRule, Ingress, tmc_enabled}
use kcp_glbc.Traffic.Ingress.Hosts.{Codec, pending_hosts_annotation}

-- The recursion of `HostMatches`, on fuel.
unfoldable pub matches : ℕ → String → String → Bool
matches zero host domain = false
matches (suc fuel) host domain =
    host == domain
    || elim (cut b'.' host) [ none ↦ false | some (_, parent) ↦ matches fuel parent domain ]

unfoldable pub host_matches : String → String → Bool
unfolding matches
host_matches host domain = matches (suc (size host)) host domain

-- `lower` is `strings.ToLower`.
module _ {V : Type 0} (w : Workload) (codec : Codec V) (lower : String → String) where
  -- The ingress, once for each rule that matches.
  matching : (String → String) → String → Ingress V → List (IngressRule V) → List (Ingress V)
  unfolding host_matches
  matching tidy domain a [] = []
  matching tidy domain a (r ∷ rs) =
      let rest = matching tidy domain a rs in
      if host_matches (tidy r.host) domain then a ∷ rest else rest

  -- The loop over the ingresses that were listed.
  unfoldable pub waiting_for :
      String → List (Ingress V) → List (Ingress V) → Result (List (Ingress V))
  unfolding matching
  waiting_for domain [] found = ok found
  waiting_for domain (a ∷ others) found = elim (tmc_enabled w a) [
    | true ↦ ok (found ++ matching (λ host. host) domain a a.rules)
    | false ↦ elim (lookup pending_hosts_annotation a.meta.annotations) [
      | none ↦ waiting_for domain others found
      | some raw ↦ elim (codec.unmarshal raw) [
        | err e ↦ err e
        | ok rules ↦
            waiting_for domain others
              (found ++ matching (λ host. lower (trim_space host)) domain a rules)
      ]
    ]
  ]

  from_listed : String → Result (List (Ingress V)) → Result (List (Ingress V))
  unfolding waiting_for
  from_listed domain (err e) = err e
  from_listed domain (ok others) = waiting_for domain others []

  -- `listed` is the answer of the lister for the label of pending hosts.
  unfoldable pub ingresses_from_domain_verification :
      Result (List (Ingress V)) → DomainVerification → Result (List (Ingress V))
  unfolding from_listed
  ingresses_from_domain_verification listed dv = from_listed (lower (trim_space dv.domain)) listed

  -- The queue: `add` an ingress by its key, which `key_of` gives.
  module _ {W : Type 0} (add : Ingress V → W → W)
      (get_by_key : String → W → Result (Option (Ingress V))) where
    add_all : List (Ingress V) → W → W
    add_all [] wd = wd
    add_all (a ∷ others) wd = add_all others (add a wd)

    enqueue_found : Result (List (Ingress V)) → W → W
    unfolding add_all
    enqueue_found (err e) wd = wd
    enqueue_found (ok others) wd = add_all others wd

    -- `enqueueIngresses`, at a domain verification.
    unfoldable pub enqueue_ingresses : Result (List (Ingress V)) → DomainVerification → W → W
    unfolding enqueue_found
    enqueue_ingresses listed dv wd = enqueue_found (ingresses_from_domain_verification listed dv) wd

    enqueue_answer : Result (Option (Ingress V)) → W → Bool × W
    enqueue_answer (err e) wd = (false, wd)
    enqueue_answer (ok none) wd = (false, wd)
    enqueue_answer (ok (some a)) wd = (true, add a wd)

    unfoldable pub enqueue_ingress_by_key : String → W → Bool × W
    unfolding enqueue_answer
    enqueue_ingress_by_key key wd = enqueue_answer (get_by_key key wd) wd

    or_blank : Option String → String
    or_blank none = ""
    or_blank (some s) = s

    unfoldable pub ingress_updated : Ingress V → Ingress V → W → W
    ingress_updated old new wd =
        if not (old.meta.resource_version == new.meta.resource_version) then add new wd else wd

    unfoldable pub dns_record_deleted : DnsRecord → W → W
    unfolding enqueue_ingress_by_key
    dns_record_deleted r wd = elim (lookup traffic_key_annotation r.meta.annotations) [
      | none ↦ wd
      | some key ↦ (enqueue_ingress_by_key key wd).1
    ]

    unfoldable pub dns_record_updated : DnsRecord → DnsRecord → W → W
    unfolding enqueue_ingress_by_key or_blank
    dns_record_updated old new wd =
        if not (old.meta.resource_version == new.meta.resource_version)
        then (enqueue_ingress_by_key (or_blank (lookup traffic_key_annotation new.meta.annotations))
            wd).1
        else wd

    -- A secret was added or deleted. Metrics are left out.
    unfoldable pub secret_changed : KubeSecret → W → W
    unfolding enqueue_ingress_by_key or_blank
    secret_changed s wd =
        (enqueue_ingress_by_key (or_blank (lookup traffic_key_annotation s.meta.annotations)) wd).1

    -- The handler takes the new secret for the old one too.
    unfoldable pub secret_updated :
        (Dict String → Dict String → Bool) → KubeSecret → KubeSecret → W → W
    unfolding secret_changed
    secret_updated contents_equal previous new wd =
        let old = new in
        if not (old.meta.resource_version == new.meta.resource_version)
          && not (contents_equal old.contents new.contents)
        then secret_changed new wd
        else wd
