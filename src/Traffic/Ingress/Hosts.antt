-- ===== src/Traffic/Ingress/Hosts.antt =====
-- ingress.go: `ProcessCustomHosts` of an ingress.
pub mod Success
pub mod Safety
pub mod Pending
pub mod Frame
use kcp_glbc.Prelude.{
  String, List, [], ◌∷◌, ◌++◌, map, Option, none, some, Bool, true, false, not, ◌&&◌, ◌||◌, ◌==◌,
  ◌^^◌, lookup, delete, is_empty, if◌then◌else◌, Error, Result, ok, err,
}
use kcp_glbc.Api.{ObjectMeta, DomainVerification}
use kcp_glbc.Metadata.{add_annotation, remove_annotation, add_label, remove_label}
use kcp_glbc.Traffic.Workload.{Workload}
use kcp_glbc.Traffic.Domain.{is_domain_verified}
use kcp_glbc.Traffic.Object.{err_generated_host_missing}
use kcp_glbc.Traffic.Ingress.{IngressRule, Ingress, tmc_enabled}
use kcp_glbc.Traffic.Ingress.Removal.{remove_tls}

abbrev pub pending_hosts_label : String
pending_hosts_label = "kuadrant.dev/hasPendingCustomHosts"

abbrev pub pending_hosts_annotation : String
pending_hosts_annotation = "kuadrant.dev/pendingCustomHosts"

abbrev pub replaced_hosts_annotation : String
replaced_hosts_annotation = "kuadrant.dev/custom-hosts-status.removed"

-- `encoding/json` on the type `Pending`.
pub record Codec (V : Type 0) : Type 0 where
  pub marshal : List (IngressRule V) → Result String
  pub unmarshal : String → Result (List (IngressRule V))

joined : List String → String
joined [] = ""
joined (h ∷ []) = h
joined (h ∷ hs) = h ^^ " " ^^ joined hs

-- `fmt.Sprintf("%v", hosts)`
sprint : List String → String
unfolding joined
sprint hosts = "[" ^^ joined hosts ^^ "]"

module _ {V : Type 0} where
  abbrev pub with_host : String → IngressRule V → IngressRule V
  with_host host rule = record rule { host = host }

  -- The host may stay in the spec.
  unfoldable pub is_allowed : List DomainVerification → IngressRule V → Bool
  is_allowed dvs rule = is_domain_verified rule.host dvs || rule.host == ""

  -- The first loop: the rules for the spec, with one for the generated host beside each, and the
  -- rules that wait for verification.
  unfoldable pub sort_rules :
      String
      → List DomainVerification
      → List (IngressRule V)
      → List (IngressRule V) × List (IngressRule V)
  unfolding is_allowed
  sort_rules generated dvs [] = ([], [])
  sort_rules generated dvs (rule ∷ rules) =
      let (verified, unverified) = sort_rules generated dvs rules in
      if rule.host == generated
      then (verified, unverified)
      else if is_allowed dvs rule
      then (rule ∷ with_host generated rule ∷ verified, unverified)
      else (with_host generated rule ∷ verified, rule ∷ unverified)

  -- The second loop, over the rules that were pending.
  unfoldable pub sort_pending :
      String
      → List DomainVerification
      → List (IngressRule V)
      → List (IngressRule V) × List (IngressRule V)
  unfolding is_allowed
  sort_pending generated dvs [] = ([], [])
  sort_pending generated dvs (rule ∷ rules) =
      let (verified, preserved) = sort_pending generated dvs rules in
      if is_allowed dvs rule
      then (with_host generated rule ∷ rule ∷ verified, preserved)
      else (with_host generated rule ∷ verified, rule ∷ preserved)

  mark_replaced : List (IngressRule V) → ObjectMeta → ObjectMeta
  unfolding sprint
  mark_replaced [] meta =
      remove_annotation (remove_label meta pending_hosts_label) replaced_hosts_annotation
  mark_replaced (u ∷ us) meta =
      add_annotation (add_label meta pending_hosts_label "true") replaced_hosts_annotation
        (sprint (map (λ (r : IngressRule V). r.host) (u ∷ us)))

  module _ (w : Workload) (codec : Codec V) where
    open codec use {marshal, unmarshal}

    forget_pending : Ingress V → Ingress V
    forget_pending a =
        if tmc_enabled w a
        then record a {
          meta = record a.meta { annotations = delete pending_hosts_annotation a.meta.annotations };
        }
        else a

    -- The rules in the annotation; none where it is absent or empty.
    unfoldable pub read_pending : ObjectMeta → Result (List (IngressRule V))
    read_pending meta = elim (lookup pending_hosts_annotation meta.annotations) [
      | none ↦ ok []
      | some raw ↦ if raw == "" then ok [] else unmarshal raw
    ]

    store_pending : Result String → Ingress V → Option Error × Ingress V
    store_pending (err e) a = (some e, a)
    store_pending (ok raw) a =
        (none, record a { meta = add_annotation a.meta pending_hosts_annotation raw })

    write_pending : List (IngressRule V) → Ingress V → Option Error × Ingress V
    unfolding store_pending
    write_pending [] a = (
      none,
      record a {
        meta = remove_annotation (remove_label a.meta pending_hosts_label) pending_hosts_annotation;
      },
    )
    write_pending (r ∷ rs) a =
        store_pending (marshal (r ∷ rs))
          (record a { meta = add_label a.meta pending_hosts_label "true" })

    resume :
        List DomainVerification
        → List (IngressRule V)
        → Result (List (IngressRule V))
        → Ingress V
        → Option Error × Ingress V
    unfolding write_pending sort_pending
    resume dvs unverified (err e) a = (some e, a)
    resume dvs unverified (ok pending) a =
        let (verified, preserved) = sort_pending a.generated_host dvs pending in
        write_pending (preserved ++ unverified) (record a { rules = a.rules ++ verified })

    -- What is left to do where TMC is not enabled.
    unfoldable pub process_pending :
        List DomainVerification → List (IngressRule V) → Ingress V → Option Error × Ingress V
    unfolding read_pending resume
    process_pending dvs unverified a = resume dvs unverified (read_pending a.meta) a

    -- The state when the first part is done, but for the TLS entries.
    unfoldable pub processed : List DomainVerification → Ingress V → Ingress V
    unfolding sort_rules mark_replaced forget_pending
    processed dvs a =
        let (verified, unverified) = sort_rules a.generated_host dvs a.rules in
        let marked = forget_pending (record a { meta = mark_replaced unverified a.meta }) in
        record marked { rules = verified }

    unfoldable pub finish :
        List DomainVerification → List (IngressRule V) → Ingress V → Option Error × Ingress V
    unfolding process_pending
    finish dvs unverified a =
        if tmc_enabled w a then (none, a) else process_pending dvs unverified a

    -- `none` is a panic in `RemoveTLS`. The ingress is returned as the code leaves it, also beside an
    -- error.
    unfoldable pub process_custom_hosts :
        List DomainVerification → Ingress V → Option (Option Error × Ingress V)
    unfolding processed finish
    process_custom_hosts dvs a =
        let unverified = (sort_rules a.generated_host dvs a.rules).1 in
        if a.generated_host == "" && not a.meta.deleting
        then some (some err_generated_host_missing, a)
        else elim (remove_tls (map (λ (r : IngressRule V). r.host) unverified) a.tls) [
          | none ↦ none
          | some tls ↦ some (finish dvs unverified (record (processed dvs a) { tls = tls }))
        ]
