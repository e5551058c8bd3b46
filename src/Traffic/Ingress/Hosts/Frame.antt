-- ===== src/Traffic/Ingress/Hosts/Frame.antt =====
-- ingress.go: what `ProcessCustomHosts` leaves alone in the metadata of an ingress.
use kcp_glbc.Prelude.{
  String, List, [], ◌∷◌, map, Option, not, ◌&&◌, ◌==◌, Bool-cases, Option-cases, inl, inr, arith,
  Error, Result, ok, err, Ends,
}
use kcp_glbc.Api.{ObjectMeta, DomainVerification}
use kcp_glbc.Metadata.Same.{
  SameBut, same_refl, same_trans, add_annotation-SameBut, remove_annotation-SameBut,
  add_label-SameBut, remove_label-SameBut,
}
use kcp_glbc.Traffic.Workload.{Workload}
use kcp_glbc.Traffic.Ingress.{IngressRule, Ingress, tmc_enabled}
use kcp_glbc.Traffic.Ingress.Removal.{remove_tls}
use kcp_glbc.Traffic.Ingress.Hosts.{
  Codec, sort_rules, mark_replaced, forget_pending, store_pending, write_pending, resume,
  read_pending, process_pending, processed, finish, process_custom_hosts, pending_hosts_label,
  pending_hosts_annotation,
}

module _ {V : Type 0} (w : Workload) (codec : Codec V) (dvs : List DomainVerification) where
  mark_replaced-SameBut :
      (rules : List (IngressRule V)) (m : ObjectMeta) → SameBut m (mark_replaced rules m)
  unfolding mark_replaced
  mark_replaced-SameBut [] m =
      remove_annotation-SameBut m _ _ (remove_label-SameBut m m pending_hosts_label (same_refl m))
  mark_replaced-SameBut (u ∷ us) m =
      add_annotation-SameBut m _ _ _
        (add_label-SameBut m m pending_hosts_label "true" (same_refl m))

  forget_pending-SameBut : (a : Ingress V) → SameBut a.meta (forget_pending w codec a).meta
  unfolding forget_pending
  forget_pending-SameBut a = ground arith

  abbrev Kept : ObjectMeta → Option Error × Ingress V → Type 0
  Kept m res = SameBut m res.1.meta

  store_pending-Kept :
      (m : ObjectMeta) (raw : Result String) (a : Ingress V)
      → SameBut m a.meta
      → Kept m (store_pending w codec raw a)
  unfolding store_pending
  store_pending-Kept m (err e) a h = h
  store_pending-Kept m (ok raw) a h = add_annotation-SameBut m a.meta pending_hosts_annotation raw h

  write_pending-Kept :
      (m : ObjectMeta) (rules : List (IngressRule V)) (a : Ingress V)
      → SameBut m a.meta
      → Kept m (write_pending w codec rules a)
  unfolding write_pending
  write_pending-Kept m [] a h =
      remove_annotation-SameBut m _ _ (remove_label-SameBut m a.meta pending_hosts_label h)
  write_pending-Kept m (r ∷ rs) a h =
      store_pending-Kept m (codec.marshal (r ∷ rs)) _
        (add_label-SameBut m a.meta pending_hosts_label "true" h)

  resume-Kept :
      (m : ObjectMeta) (unverified : List (IngressRule V)) (pending : Result (List (IngressRule V)))
      (a : Ingress V)
      → SameBut m a.meta
      → Kept m (resume w codec dvs unverified pending a)
  unfolding resume
  resume-Kept m unverified (err e) a h = h
  resume-Kept m unverified (ok pending) a h = write_pending-Kept m _ _ h

  finish-Kept :
      (m : ObjectMeta) (unverified : List (IngressRule V)) (a : Ingress V)
      → SameBut m a.meta
      → Kept m (finish w codec dvs unverified a)
  unfolding finish process_pending
  finish-Kept m unverified a h = elim (Bool-cases (tmc_enabled w a)) [
    | inl e ↦ rw (e, finish) h
    | inr e ↦ rw (e, finish) (resume-Kept m unverified (read_pending w codec a.meta) a h)
  ]

  processed-SameBut : (a : Ingress V) → SameBut a.meta (processed w codec dvs a).meta
  unfolding processed
  processed-SameBut a =
      let unverified = (sort_rules a.generated_host dvs a.rules).1 in
      let marked : Ingress V = record a { meta = mark_replaced unverified a.meta } in
      same_trans a.meta marked.meta (forget_pending w codec marked).meta
        (mark_replaced-SameBut unverified a.meta) (forget_pending-SameBut marked)

  -- The finalizers and the time of deletion of the ingress stay, with or without an error.
  pub process_custom_hosts-Kept :
      (a : Ingress V) → Ends (Kept a.meta) (process_custom_hosts w codec dvs a)
  unfolding process_custom_hosts
  process_custom_hosts-Kept a =
      let unverified = (sort_rules a.generated_host dvs a.rules).1 in
      elim (Bool-cases (a.generated_host == "" && not a.meta.deleting)) [
        | inl missing ↦ rw (missing, process_custom_hosts) (same_refl a.meta)
        | inr present ↦
            elim (Option-cases
              (remove_tls (map (λ (r : IngressRule V). r.host) unverified) a.tls)) [
                | inl panic ↦ rw (present, panic, process_custom_hosts) tt
                | inr (tls, done) ↦
                    rw (present, done, process_custom_hosts)
                      (finish-Kept a.meta unverified
                        (record (processed w codec dvs a) { tls = tls }) (processed-SameBut a))
              ]
      ]
