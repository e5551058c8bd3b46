-- ===== src/Traffic/Dns/Frame.antt =====
-- dns.go: what `Reconcile` may change in a traffic object.
use kcp_glbc.Prelude.{
  String, List, [], Option, none, some, Bool, true, false, not, ◌&&◌, ◌==◌, is_empty, ◌≡◌, refl,
  arith, Bool-cases, Option-cases, inl, inr, if◌then◌else◌, Error, Result, ok, err, is_not_found,
  subst, ap, some-injective,
}
use kcp_glbc.Api.{DnsRecord}
use kcp_glbc.Metadata.{get_annotation, remove_annotation}
use kcp_glbc.Dns.Publish.{record_is_already_published_to_zone}
use kcp_glbc.Traffic.Workload.{Workload}
use kcp_glbc.Traffic.Object.{TrafficObject, Target}
use kcp_glbc.Traffic.Dns.{
  DnsServices, host_annotation, ReconcileStatus, Found, create_record, adopt_host, read_targets,
  set_load_balancer, desired_record, update_and_set, with_targets, update_record_for, reconcile_dns,
}

-- It stops without an error.
abbrev pub gives_up : {A W : Type 0} → ReconcileStatus × Option Error × A × W → Bool
gives_up res = elim res.0 [
  | ReconcileStatus.stop ↦ (elim res.1 [ none ↦ true | some _ ↦ false ])
  | _ ↦ false
]

-- A property that `SetHCGHost`, `SetDNSLBHost` and the removal of an annotation keep is kept by
-- `Reconcile`.
module _ {A W : Type 0} (w : Workload) (o : TrafficObject A) (sv : DnsServices A W) (P : A → Type 0)
    (names : (a : A) (host : String) → P a → P (o.set_hcg_host host a))
    (balances : (a : A) (host : String) → P a → P (o.set_dns_lb_host host a))
    (forgets : (a : A)
      → P a
      → P (o.with_meta (remove_annotation (o.meta a) host_annotation) a)) where
  open o use {
    meta, with_meta, get_hcg_host, set_hcg_host, tmc_enabled, has_dns_lb_host, get_dns_targets,
  }
  open sv use {
    delete_dns, get_dns, update_dns, found_nameservers, managed_domain, zone_id, record_equal,
  }

  abbrev Outcome : Type 0
  Outcome = ReconcileStatus × Option Error × A × W

  -- The object has the property, and a stop comes with an error.
  abbrev pub Good : Outcome → Type 0
  Good res = P res.2 × (gives_up res ≡ false)

  choice-frame :
      (b : Bool) (x y : Outcome) → Good x → Good y → Good (if◌then◌else◌ {A = Outcome} b x y)
  choice-frame true x y h k = h
  choice-frame false x y h k = k

  answer-frame :
      (failed : Option Error) (x : Outcome) (f : Error → Outcome)
      → Good x
      → ((e : Error) → Good (f e))
      → Good (elim failed as (λ _. Outcome) [ none ↦ x | some e ↦ f e ])
  answer-frame none x f h k = h
  answer-frame (some e) x f h k = k e

  set_load_balancer-frame :
      (existing copy : DnsRecord) (a : A) (wd : W)
      → P a
      → Good (set_load_balancer w o sv existing copy a wd)
  unfolding set_load_balancer
  set_load_balancer-frame existing copy a wd h =
      choice-frame
        (tmc_enabled a
          && not (has_dns_lb_host a)
          && not (is_empty copy.endpoints)
          && record_equal copy existing
          && record_is_already_published_to_zone copy (record { id = zone_id; tags = none }))
        (if◌then◌else◌ {A = Outcome} (found_nameservers managed_domain (get_hcg_host a) wd)
          (ReconcileStatus.continue, none, o.set_dns_lb_host (get_hcg_host a) a, wd)
          (ReconcileStatus.requeue_in_5_seconds, none, a, wd))
        (ReconcileStatus.continue, none, a, wd)
        (choice-frame (found_nameservers managed_domain (get_hcg_host a) wd)
          (ReconcileStatus.continue, none, o.set_dns_lb_host (get_hcg_host a) a, wd)
          (ReconcileStatus.requeue_in_5_seconds, none, a, wd) (balances a (get_hcg_host a) h, refl)
          (h, refl))
        (h, refl)

  update_and_set-frame :
      (existing : DnsRecord) (a : A) (found : Found) (wd : W)
      → P a
      → Good (update_and_set w o sv existing a found wd)
  unfolding update_and_set
  update_and_set-frame existing a found wd h =
      let copy = desired_record w o sv existing a found in
      let (failed, wd') = update_dns copy wd in
      let kept = set_load_balancer w o sv existing copy a in
      let refused : Error → Outcome = λ e. (ReconcileStatus.stop, some e, a, wd') in
      choice-frame (record_equal copy existing) (kept wd)
        (elim failed as (λ _. Outcome) [ none ↦ kept wd' | some e ↦ refused e ])
        (set_load_balancer-frame existing copy a wd h)
        (answer-frame failed (kept wd') refused (set_load_balancer-frame existing copy a wd' h)
          (λ e. (h, refl)))

  with_targets-frame :
      (existing : DnsRecord) (a : A) (targets : Result (List Target)) (wd : W)
      → P a
      → Good (with_targets w o sv existing a targets wd)
  unfolding with_targets
  with_targets-frame existing a (err e) wd h = (h, refl)
  with_targets-frame existing a (ok targets) wd h =
      let read =
        read_targets w o sv a targets (record { active = []; deleting = []; lb_hosts = [] }) wd in
      elim (Option-cases read.0) [
        | inr (x, e) ↦ rw (e, with_targets) (h, refl)
        | inl e ↦ rw (e, with_targets) (update_and_set-frame existing a read.1 _ h)
      ]

  adopt_host-frame :
      (r : DnsRecord) (a : A) (r' : DnsRecord) (a' : A)
      → adopt_host w o sv r a ≡ some (r', a')
      → P a
      → P a'
  unfolding adopt_host
  adopt_host-frame r a r' a' h p =
      let adopted : DnsRecord × A → A = λ x. x.1 in
      elim (Bool-cases (get_annotation r.meta host_annotation == "")) [
        | inr own ↦ subst P (ap adopted (some-injective (rw (own, adopt_host) at h))) (names a _ p)
        | inl missing ↦ elim (Bool-cases (get_annotation (meta a) host_annotation == "")) [
          | inr old ↦
              subst P (ap adopted (some-injective (rw (missing, old, adopt_host) at h)))
                (names _ _ (forgets a p))
          | inl none_left ↦ ground (arith, missing, none_left)
        ]
      ]

  update_record_for-frame :
      (r : DnsRecord) (a : A) (wd : W)
      → P a
      → Good (update_record_for w o sv (adopt_host w o sv r a) a wd)
  unfolding update_record_for
  update_record_for-frame r a wd p = elim (Option-cases (adopt_host w o sv r a)) [
    | inl e ↦ rw (e, update_record_for) (p, refl)
    | inr ((r', a'), e) ↦
        rw (e, update_record_for)
          (with_targets-frame r' a' (get_dns_targets a') wd (adopt_host-frame r a r' a' e p))
  ]

  create_record-frame : (a : A) (wd : W) → P a → Good (create_record w o sv a wd)
  unfolding create_record
  create_record-frame a wd p = (names a _ p, refl)

  found-frame :
      (a : A) (wd : W) (found : Result DnsRecord)
      → P a
      → Good (elim found as (λ _. Outcome) [
        | err e ↦
            if is_not_found e
            then create_record w o sv a wd
            else (ReconcileStatus.stop, some e, a, wd)
        | ok r ↦ update_record_for w o sv (adopt_host w o sv r a) a wd
      ])
  found-frame a wd (err e) p =
      choice-frame (is_not_found e) (create_record w o sv a wd)
        (ReconcileStatus.stop, some e, a, wd) (create_record-frame a wd p) (p, refl)
  found-frame a wd (ok r) p = update_record_for-frame r a wd p

  pub reconcile_dns-frame : (a : A) (wd : W) → P a → Good (reconcile_dns w o sv a wd)
  unfolding reconcile_dns
  reconcile_dns-frame a wd p =
      let (failed, swept) = delete_dns a wd in
      let done : Outcome = (ReconcileStatus.continue, none, a, swept) in
      let refused : Error → Outcome = λ e.
        if◌then◌else◌ {A = Outcome} (is_not_found e) done
          (ReconcileStatus.stop, some e, a, swept) in
      choice-frame (meta a).deleting
        (elim failed as (λ _. Outcome) [ none ↦ done | some e ↦ refused e ]) _
        (answer-frame failed done refused (p, refl)
          (λ e.
            choice-frame (is_not_found e) done (ReconcileStatus.stop, some e, a, swept) (p, refl)
              (p, refl)))
        (found-frame a wd (get_dns a wd) p)
