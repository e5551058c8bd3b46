-- ===== src/Traffic/Dns/LoadBalancer.antt =====
-- dns.go: when `Reconcile` puts the generated host into the status of a traffic object.
use kcp_glbc.Prelude.{
  some-injective, String, ◌∙◌, List, [], Option, none, some, Bool, true, false, not, ◌&&◌, ◌==◌,
  is_empty, ◌≡◌, ◌⊎◌, refl, arith, Bool-cases, Option-cases, inl, inr, if◌then◌else◌, Error, Result,
  ok, err, is_not_found, subst, sym, ap,
}
use kcp_glbc.Api.{DnsRecord, DnsZone}
use kcp_glbc.Metadata.{get_annotation}
use kcp_glbc.Dns.Publish.{record_is_already_published_to_zone}
use kcp_glbc.Traffic.Workload.{Workload}
use kcp_glbc.Traffic.Object.{TrafficObject, StatusLaws, Target}
use kcp_glbc.Traffic.Dns.{
  DnsServices, host_annotation, ReconcileStatus, Found, create_record, adopt_host, read_targets,
  forget_hosts, set_load_balancer, desired_record, update_and_set, with_targets, update_record_for,
  reconcile_dns,
}

-- No host was looked at yet.
abbrev pub no_hosts : Found
no_hosts = record { active = []; deleting = []; lb_hosts = [] }

module _ {A W S : Type 0} (w : Workload) (o : TrafficObject A) (sv : DnsServices A W)
    {addresses : A → S} {only : String → S} (laws : StatusLaws o S addresses only) where
  open o use {
    meta, with_meta, get_hcg_host, set_hcg_host, tmc_enabled, has_dns_lb_host, get_dns_targets,
    get_cache_key,
  }
  open sv use {
    delete_dns, get_dns, update_dns, list_host_watchers, found_nameservers, managed_domain, zone_id,
    record_equal,
  }

  abbrev Outcome : Type 0
  Outcome = ReconcileStatus × Option Error × A × W

  -- The record that is wanted is the one that is there, it has endpoints, and it is published to the
  -- zone.
  abbrev pub Matches : DnsRecord → DnsRecord → Type 0
  Matches existing copy =
      (record_equal copy existing ≡ true)
      × (is_empty copy.endpoints ≡ false)
      × (record_is_already_published_to_zone copy (record { id = zone_id; tags = none }) ≡ true)

  -- The object's targets were read, and the record that they lead to matches the one that is there.
  abbrev pub TargetsMatch : DnsRecord → A → W → Type 0
  TargetsMatch existing a wd =
      (targets : List Target) × (get_dns_targets a ≡ ok targets)
      × Matches existing
          (desired_record w o sv existing a (read_targets w o sv a targets no_hosts wd).1)

  -- `GetDNS` found a record, with the generated host in its annotation or taken over from the object,
  -- and the targets of the object lead to that record, which is published.
  abbrev pub IsPublished : A → W → Type 0
  IsPublished a wd =
      (found : DnsRecord) × (get_dns a wd ≡ ok found)
      × (adopted : DnsRecord × A) × (adopt_host w o sv found a ≡ some adopted)
      × TargetsMatch adopted.0 adopted.1 wd

  -- The generated host of the object is its only address, the record is as it has to be, and the host
  -- was found at the name servers of the managed domain.
  abbrev pub IsReady : Type 0 → A → Type 0
  IsReady Published a =
      (addresses a ≡ only (get_hcg_host a))
      × Published
      × ((wd : W) × (found_nameservers managed_domain (get_hcg_host a) wd ≡ true))

  abbrev IsSound : Type 0 → S → Outcome → Type 0
  IsSound Published before res = (addresses res.2 ≡ before) ⊎ IsReady Published res.2

  IsSound-map :
      {P Q : Type 0} (f : P → Q) (before : S) (res : Outcome)
      → IsSound P before res
      → IsSound Q before res
  IsSound-map f before res (inl same) = inl same
  IsSound-map f before res (inr (only_host, published, found)) = inr (only_host, f published, found)

  set_load_balancer-IsSound :
      (existing copy : DnsRecord) (a : A) (wd : W)
      → IsSound (Matches existing copy) (addresses a) (set_load_balancer w o sv existing copy a wd)
  unfolding set_load_balancer
  set_load_balancer-IsSound existing copy a wd =
      let zone : DnsZone = record { id = zone_id; tags = none } in
      let wanted =
        tmc_enabled a
        && not (has_dns_lb_host a)
        && not (is_empty copy.endpoints)
        && record_equal copy existing
        && record_is_already_published_to_zone copy zone in
      elim (Bool-cases wanted) [
        | inr e ↦ rw (e, set_load_balancer) (inl refl)
        | inl e ↦ elim (Bool-cases (found_nameservers managed_domain (get_hcg_host a) wd)) [
          | inr f ↦ rw (e, f, set_load_balancer) (inl refl)
          | inl f ↦
              rw (e, f, set_load_balancer)
                (inr (
                  laws.set_dns_lb_host_lem (get_hcg_host a) a
                      ∙ ap only (sym (laws.same_hcg_host (get_hcg_host a) a)),
                  (ground (arith, e), ground (arith, e), ground (arith, e)),
                  (wd, rw (laws.same_hcg_host (get_hcg_host a) a) f),
                ))
        ]
      ]

  choice-IsSound :
      {P : Type 0} (before : S) (b : Bool) (x y : Outcome)
      → IsSound P before x
      → IsSound P before y
      → IsSound P before (if b then x else y)
  choice-IsSound before true x y h k = h
  choice-IsSound before false x y h k = k

  answer-IsSound :
      {P : Type 0} (before : S) (o : Option Error) (x : Outcome) (f : Error → Outcome)
      → IsSound P before x
      → ((e : Error) → IsSound P before (f e))
      → IsSound P before (elim o [ none ↦ x | some e ↦ f e ])
  answer-IsSound before none x f h k = h
  answer-IsSound before (some e) x f h k = k e

  update_and_set-IsSound :
      (existing : DnsRecord) (a : A) (found : Found) (wd : W)
      → IsSound
          (Matches existing (desired_record w o sv existing a found))
          (addresses a)
          (update_and_set w o sv existing a found wd)
  unfolding update_and_set
  update_and_set-IsSound existing a found wd =
      let copy = desired_record w o sv existing a found in
      let (failed, wd') = update_dns copy wd in
      let same_record = set_load_balancer w o sv existing copy a wd in
      let changed : Outcome = elim failed [
        | some e ↦ (ReconcileStatus.stop, some e, a, wd')
        | none ↦ set_load_balancer w o sv existing copy a wd'
      ] in
      let answered : IsSound (Matches existing copy) (addresses a) changed =
        answer-IsSound (addresses a) failed _ (λ e. (ReconcileStatus.stop, some e, a, wd'))
          (set_load_balancer-IsSound existing copy a wd') (λ e. inl refl) in
      choice-IsSound (addresses a) (record_equal copy existing) same_record changed
        (set_load_balancer-IsSound existing copy a wd) answered

  with_targets-IsSound :
      (existing : DnsRecord) (a : A) (answer : Result (List Target)) (wd : W)
      → get_dns_targets a ≡ answer
      → IsSound
          (TargetsMatch existing a wd)
          (addresses a)
          (with_targets w o sv existing a answer wd)
  unfolding with_targets
  with_targets-IsSound existing a (err e) wd h = inl refl
  with_targets-IsSound existing a (ok targets) wd h =
      let read = read_targets w o sv a targets no_hosts wd in
      elim (Option-cases read.0) [
        | inr (x, e) ↦ rw (e, with_targets) (inl refl)
        | inl e ↦
            let key = get_cache_key a in
            let wd' =
              forget_hosts w o sv key read.1.lb_hosts (list_host_watchers key read.2) read.2 in
            rw (e, with_targets)
              (IsSound-map {Q = TargetsMatch existing a wd} (λ m. (targets, h, m)) (addresses a)
                (update_and_set w o sv existing a read.1 wd')
                (update_and_set-IsSound existing a read.1 wd'))
      ]

  -- The object that took over its host has the status that it had.
  adopt_host-load_balancer :
      (r : DnsRecord) (a : A) (r' : DnsRecord) (a' : A)
      → adopt_host w o sv r a ≡ some (r', a')
      → addresses a' ≡ (addresses a)
  unfolding adopt_host
  adopt_host-load_balancer r a r' a' h =
      let adopted : DnsRecord × A → S = λ x. addresses x.1 in
      elim (Bool-cases (get_annotation r.meta host_annotation == "")) [
        | inr own ↦
            sym (ap adopted (some-injective (rw (own, adopt_host) at h)))
            ∙ laws.set_hcg_host_lem _ a
        | inl missing ↦ elim (Bool-cases (get_annotation (meta a) host_annotation == "")) [
          | inr old ↦
              sym (ap adopted (some-injective (rw (missing, old, adopt_host) at h)))
              ∙ laws.set_hcg_host_lem _ _
              ∙ laws.with_meta_lem _ a
          | inl none_left ↦ ground (arith, missing, none_left)
        ]
      ]

  update_record_for-IsSound :
      (r : DnsRecord) (a : A) (wd : W)
      → get_dns a wd ≡ ok r
      → IsSound
          (IsPublished a wd)
          (addresses a)
          (update_record_for w o sv (adopt_host w o sv r a) a wd)
  unfolding update_record_for
  update_record_for-IsSound r a wd found = elim (Option-cases (adopt_host w o sv r a)) [
    | inl e ↦ rw (e, update_record_for) (inl refl)
    | inr ((r', a'), e) ↦
        let outcome = with_targets w o sv r' a' (get_dns_targets a') wd in
        let sound =
          IsSound-map {Q = IsPublished a wd} (λ m. (r, found, (r', a'), e, m)) (addresses a')
            outcome (with_targets-IsSound r' a' (get_dns_targets a') wd refl) in
        rw (e, update_record_for)
          (subst (λ before. IsSound (IsPublished a wd) before outcome)
            (adopt_host-load_balancer r a r' a' e) sound)
  ]

  create_record-IsSound :
      {P : Type 0} (a : A) (wd : W) → IsSound P (addresses a) (create_record w o sv a wd)
  unfolding create_record
  create_record-IsSound a wd = inl (laws.set_hcg_host_lem _ a)

  found-IsSound :
      (a : A) (wd : W) (found : Result DnsRecord)
      → get_dns a wd ≡ found
      → IsSound (IsPublished a wd) (addresses a) (elim found [
        | err e ↦
            if is_not_found e
            then create_record w o sv a wd
            else (ReconcileStatus.stop, some e, a, wd)
        | ok r ↦ update_record_for w o sv (adopt_host w o sv r a) a wd
      ])
  found-IsSound a wd (err e) h =
      choice-IsSound (addresses a) (is_not_found e) (create_record w o sv a wd)
        (ReconcileStatus.stop, some e, a, wd) (create_record-IsSound a wd) (inl refl)
  found-IsSound a wd (ok r) h = update_record_for-IsSound r a wd h

  -- Whatever the world answers: after `Reconcile` of a traffic object the addresses in its status are
  -- those from before, or the generated host alone. In that case `GetDNS` found a record, the targets of
  -- the object, with the addresses that were looked up for them, lead to a record that compares equal
  -- to it, has endpoints and is published to the zone, and the host was found at the name servers of
  -- the managed domain.
  pub reconcile_dns-IsReady :
      (a : A) (wd : W)
      → (addresses (reconcile_dns w o sv a wd).2 ≡ addresses a)
        ⊎ IsReady (IsPublished a wd) (reconcile_dns w o sv a wd).2
  unfolding reconcile_dns
  reconcile_dns-IsReady a wd =
      let (failed, swept) = delete_dns a wd in
      let gone : Outcome = elim failed [
        | none ↦ (ReconcileStatus.continue, none, a, swept)
        | some e ↦
            if is_not_found e
            then (ReconcileStatus.continue, none, a, swept)
            else (ReconcileStatus.stop, some e, a, swept)
      ] in
      let kept : Outcome = elim (get_dns a wd) [
        | err e ↦
            if is_not_found e
            then create_record w o sv a wd
            else (ReconcileStatus.stop, some e, a, wd)
        | ok r ↦ update_record_for w o sv (adopt_host w o sv r a) a wd
      ] in
      let gone-IsSound : IsSound (IsPublished a wd) (addresses a) gone =
        answer-IsSound (addresses a) failed (ReconcileStatus.continue, none, a, swept)
          (λ e.
            if is_not_found e
            then (ReconcileStatus.continue, none, a, swept)
            else (ReconcileStatus.stop, some e, a, swept))
          (inl refl)
          (λ e. choice-IsSound (addresses a) (is_not_found e) _ _ (inl refl) (inl refl)) in
      choice-IsSound (addresses a) (meta a).deleting gone kept gone-IsSound
        (found-IsSound a wd (get_dns a wd) refl)
