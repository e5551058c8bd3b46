-- ===== src/Dns/Record/Stability.antt =====
-- dns_record.go: once a record is published everywhere, reconciling it again asks the provider for
-- no change of records.
use kcp_glbc.Prelude.{
  same, false, ℕ, List, [], ◌∷◌, ◌++◌, append_assoc, none, true, All, All-map, ◌≡◌, ◌≢◌, sym, ◌∙◌,
  subst, arith,
}
use kcp_glbc.Api.{DnsZone, DnsZoneStatus, DnsRecord}
use kcp_glbc.Dns.Provider.{Provider}
use kcp_glbc.Dns.Publish.{
  zone_eq, published_in, is_current, publish_record_to_zones, record_is_already_published_to_zone,
}
use kcp_glbc.Dns.Publish.Results.{reached, published_in-publish, publish_record_to_zones_current}
use kcp_glbc.Dns.Health.Frame.{Agrees, reconcile_health_checks-Agrees}
use kcp_glbc.Dns.Record.{Library, with_finalizer, take_statuses, reconcile_active}

-- Zones with ids of their own, each equal to itself.
abbrev pub AreDistinct : List DnsZone → Type 0
AreDistinct [] = Unit
AreDistinct (z ∷ zs) = All (λ y. y.id ≢ z.id) zs × (zone_eq z z ≡ true) × AreDistinct zs

All_middle :
    (P : DnsZone → Type 0) (before after : List DnsZone) (z : DnsZone)
    → All P (before ++ z ∷ after)
    → P z
All_middle P [] after z h = h.0
All_middle P (y ∷ before) after z h = All_middle P before after z h.1

AreDistinct-split :
    (before after : List DnsZone) (z : DnsZone)
    → AreDistinct (before ++ z ∷ after)
    → All (λ y. y.id ≢ z.id) before × All (λ y. y.id ≢ z.id) after × (zone_eq z z ≡ true)
AreDistinct-split [] after z (a, same_zone, _) = (tt, a, same_zone)
AreDistinct-split (y ∷ before) after z (a, _, h) =
    let (b, rest, same_zone) = AreDistinct-split before after z h in
    ((λ e. All_middle (λ x. x.id ≢ y.id) before after z a (sym e), b), rest, same_zone)

module _ (p : Provider) (now : ℕ) (r : DnsRecord)
    (answers : (s : DnsRecord) (z : DnsZone) (st : p.State) → (p.ensure s z st).0 ≡ none) where
  published_everywhere :
      (before after : List DnsZone) (st : p.State)
      → AreDistinct (before ++ after)
      → All
          (λ z. published_in z (publish_record_to_zones p now (before ++ after) r st).0 ≡ true)
          after
  published_everywhere before [] st h = tt
  published_everywhere before (z ∷ after) st h =
      let (b, a, reflexive) = AreDistinct-split before after z h in
      let here = published_in-publish p now r before after z st b a reflexive in
      let later =
        published_everywhere (before ++ z ∷ []) after st
          (subst AreDistinct (sym (append_assoc before (z ∷ []) after)) h) in
      (
        here ∙ ground (arith, answers r z (reached p now r before st)),
        subst
            (λ zones.
              All (λ y. published_in y (publish_record_to_zones p now zones r st).0 ≡ true) after)
            (append_assoc before (z ∷ []) after) later,
      )

-- The generation of the record was not observed yet.
abbrev pub IsNew : DnsRecord → Type 0
IsNew r = same r.status.observed_generation r.meta.generation ≡ false

module _ (p : Provider) (lib : Library) where
  with_finalizer-IsNew : (r : DnsRecord) → IsNew r → IsNew (with_finalizer p lib r)
  unfolding with_finalizer
  with_finalizer-IsNew r h = ground (arith, h)

  -- Whatever the comparison of statuses answers.
  take_statuses-current :
      (r : DnsRecord) (statuses : List DnsZoneStatus) (z : DnsZone)
      → IsNew r
      → published_in z statuses ≡ true
      → is_current (take_statuses p lib r statuses) z ≡ true
  unfolding take_statuses is_current record_is_already_published_to_zone
  take_statuses-current r statuses z new h = ground (arith, new, h)

Agrees-current : (r s : DnsRecord) (z : DnsZone) → Agrees r s → is_current r z ≡ is_current s z
unfolding is_current record_is_already_published_to_zone
Agrees-current r s z a = ground (arith, a.meta, a.observed, a.published z)

module _ (p : Provider) (lib : Library)
    (answers : (s : DnsRecord) (z : DnsZone) (st : p.State) → (p.ensure s z st).0 ≡ none) where
  -- With distinct zones, a record whose generation was not observed yet and a provider whose `Ensure`
  -- does not fail: after one round of reconciliation, whatever its health checks led to, the record is
  -- current in every zone.
  pub reconcile_active-current :
      (zones : List DnsZone) (r : DnsRecord) (st : p.State)
      → AreDistinct zones
      → IsNew r
      → All (λ z. is_current (reconcile_active p lib zones r st).1 z ≡ true) zones
  unfolding reconcile_active
  reconcile_active-current zones r st d new =
      let r1 = with_finalizer p lib r in
      let statuses = (publish_record_to_zones p lib.now zones r1 st).0 in
      All-map
        (λ z h.
          Agrees-current _ _ z (reconcile_health_checks-Agrees p lib.md5 _ _ _)
          ∙ take_statuses-current p lib r1 statuses z (with_finalizer-IsNew p lib r new) h)
        zones (published_everywhere p lib.now r1 answers [] zones st d)

  -- With distinct zones, a record whose generation was not observed yet and a provider whose `Ensure`
  -- does not fail: after one round of reconciliation, publishing the record again, at whatever time and in
  -- whatever state of the provider, leaves the statuses and the provider as they are.
  pub reconcile_active_stable :
      (zones : List DnsZone) (r : DnsRecord) (st st' : p.State) (now' : ℕ)
      → AreDistinct zones
      → IsNew r
      → publish_record_to_zones p now' zones (reconcile_active p lib zones r st).1 st'
        ≡ ((reconcile_active p lib zones r st).1.status.zones, st')
  reconcile_active_stable zones r st st' now' d new =
      publish_record_to_zones_current p now' (reconcile_active p lib zones r st).1 zones st'
        (reconcile_active-current zones r st d new)
