-- ===== src/Traffic/Ingress/Hosts/Pending.antt =====
-- ingress.go: where TMC is not enabled, a rule that leaves the spec waits in the annotation.
use kcp_glbc.Prelude.{
  String, List, [], ◌∷◌, ◌++◌, Option, none, some, false, ◌==◌, eq_iff, Any, Any-append_right,
  lookup, lookup-delete, ◌≡◌, ◌≢◌, refl, ◌∙◌, subst, ap, Bool-cases, inl, inr, arith, Error, Result,
  ok, err,
}
use kcp_glbc.Api.{ObjectMeta, DomainVerification}
use kcp_glbc.Metadata.{add_annotation, remove_annotation}
use kcp_glbc.Metadata.Annotations.{lookup-put_new}
use kcp_glbc.Traffic.Workload.{Workload}
use kcp_glbc.Traffic.Ingress.{IngressRule, Ingress, tmc_enabled}
use kcp_glbc.Traffic.Ingress.Hosts.Success.{finish_of_success, pending_of_finish}
use kcp_glbc.Traffic.Ingress.Hosts.{
  Codec, is_allowed, sort_rules, sort_pending, processed, process_pending, process_custom_hosts,
  pending_hosts_annotation, store_pending, write_pending, resume, read_pending,
}

module _ {V : Type 0} (w : Workload) (codec : Codec V) where
  -- What is marshalled is no empty text, and unmarshals to what it was.
  abbrev pub RoundTrips : Type 0
  RoundTrips =
      (rules : List (IngressRule V)) (raw : String)
      → codec.marshal rules ≡ ok raw
      → (codec.unmarshal raw ≡ ok rules) × ((raw == "") ≡ false)

  store_pending-reads :
      (answer : Result String) (a a' : Ingress V)
      → store_pending w codec answer a ≡ (none, a')
      → (raw : String) × (answer ≡ ok raw)
        × (lookup pending_hosts_annotation a'.meta.annotations ≡ some raw)
  unfolding store_pending add_annotation
  store_pending-reads (err e) a a' h = ground (arith, ap (λ (r : Option Error × Ingress V). r.0) h)
  store_pending-reads (ok raw) a a' h =
      let written : lookup pending_hosts_annotation
            (add_annotation a.meta pending_hosts_annotation raw).annotations
          ≡ some raw =
        lookup-put_new pending_hosts_annotation pending_hosts_annotation raw a.meta.annotations in
      (
        raw,
        refl,
        subst (λ (x : Ingress V). lookup pending_hosts_annotation x.meta.annotations ≡ some raw)
            (ap (λ (r : Option Error × Ingress V). r.1) h) written,
      )

  read_pending-none :
      (meta : ObjectMeta)
      → lookup pending_hosts_annotation meta.annotations ≡ none
      → read_pending w codec meta ≡ ok []
  unfolding read_pending
  read_pending-none meta h = rw (h, read_pending) refl

  read_pending-some :
      (meta : ObjectMeta) (raw : String)
      → lookup pending_hosts_annotation meta.annotations ≡ some raw
      → (raw == "") ≡ false
      → read_pending w codec meta ≡ codec.unmarshal raw
  unfolding read_pending
  read_pending-some meta raw h e = rw (h, e, read_pending) refl

  write_pending-reads :
      RoundTrips
      → (rules : List (IngressRule V)) (a a' : Ingress V)
      → write_pending w codec rules a ≡ (none, a')
      → read_pending w codec a'.meta ≡ ok rules
  unfolding write_pending remove_annotation
  write_pending-reads trips [] a a' h =
      subst (λ (x : Ingress V). read_pending w codec x.meta ≡ ok [])
        (ap (λ (r : Option Error × Ingress V). r.1) h)
        (read_pending-none _ (lookup-delete pending_hosts_annotation pending_hosts_annotation _))
  write_pending-reads trips (r ∷ rs) a a' h =
      let (raw, answer, there) = store_pending-reads (codec.marshal (r ∷ rs)) _ a' h in
      let (back, filled) = trips (r ∷ rs) raw answer in
      read_pending-some a'.meta raw there filled ∙ back

  resume-reads :
      RoundTrips
      → (dvs : List DomainVerification) (unverified : List (IngressRule V))
        (pending : Result (List (IngressRule V))) (a a' : Ingress V)
      → resume w codec dvs unverified pending a ≡ (none, a')
      → (preserved : List (IngressRule V)) × (read_pending w codec a'.meta
          ≡ ok (preserved ++ unverified))
  unfolding resume
  resume-reads trips dvs unverified (err e) a a' h =
      ground (arith, ap (λ (r : Option Error × Ingress V). r.0) h)
  resume-reads trips dvs unverified (ok pending) a a' h =
      ((sort_pending a.generated_host dvs pending).1, write_pending-reads trips _ _ a' h)

  -- A rule that is not for the generated host and may not be served waits.
  sort_rules-waits :
      (generated : String) (dvs : List DomainVerification) (rule : IngressRule V)
      (rules : List (IngressRule V))
      → Any (λ r. r ≡ rule) rules
      → rule.host ≢ generated
      → is_allowed dvs rule ≡ false
      → Any (λ r. r ≡ rule) (sort_rules generated dvs rules).1
  unfolding sort_rules
  sort_rules-waits generated dvs rule [] h d f = absurd h
  sort_rules-waits generated dvs rule (r ∷ rules) (inl e) d f =
      let other : (r.host == generated) ≡ false = ground (arith, eq_iff r.host generated) in
      let refused : is_allowed dvs r ≡ false = rw e f in rw (other, refused) (inl e)
  sort_rules-waits generated dvs rule (r ∷ rules) (inr h) d f =
      let ih = sort_rules-waits generated dvs rule rules h d f in
      elim (Bool-cases (r.host == generated)) [
        | inl e ↦ rw e ih
        | inr e ↦ elim (Bool-cases (is_allowed dvs r)) [
          | inl served ↦ rw (e, served) ih
          | inr refused ↦ rw (e, refused) (inr ih)
        ]
      ]

  -- Where TMC is not enabled, and every list of rules that is marshalled gives a text that is not empty
  -- and unmarshals to that list: when `ProcessCustomHosts` succeeds, the annotation of pending hosts
  -- unmarshals to a list that holds every rule of the spec that is for neither the generated host nor
  -- a host that may be served.
  pub process_custom_hosts-waits :
      RoundTrips
      → (dvs : List DomainVerification) (a a' : Ingress V) (rule : IngressRule V)
      → tmc_enabled w (processed w codec dvs a) ≡ false
      → process_custom_hosts w codec dvs a ≡ some (none, a')
      → Any (λ r. r ≡ rule) a.rules
      → rule.host ≢ a.generated_host
      → is_allowed dvs rule ≡ false
      → (pending : List (IngressRule V)) × (read_pending w codec a'.meta ≡ ok pending)
        × Any (λ r. r ≡ rule) pending
  unfolding process_pending tmc_enabled
  process_custom_hosts-waits trips dvs a a' rule tmc h m d f =
      let unverified = (sort_rules a.generated_host dvs a.rules).1 in
      let (tls, done) = finish_of_success w codec dvs a a' h in
      let b : Ingress V = record (processed w codec dvs a) { tls = tls } in
      let resumed = pending_of_finish w codec dvs a a' unverified b tmc done in
      let (preserved, reads) =
        resume-reads trips dvs unverified (read_pending w codec b.meta) b a' resumed in
      (
        preserved ++ unverified,
        reads,
        Any-append_right (λ r. r ≡ rule) preserved unverified
            (sort_rules-waits a.generated_host dvs rule a.rules m d f),
      )
