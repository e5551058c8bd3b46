-- ===== src/Dns/Record.antt =====
-- dns_record.go and controller.go: reconciling a DNS record, and processing its key.
pub mod Deletion
pub mod Stability
use kcp_glbc.Prelude.{
  ℕ, String, List, [], ◌∷◌, ◌++◌, Option, none, some, Bool, true, false, not, any, ◌&&◌, ◌||◌, same,
  contains, if◌then◌else◌, Error, Result, ok, err,
}
use kcp_glbc.Api.{ObjectMeta, DnsZone, DnsZoneCondition, DnsZoneStatus, DnsRecordStatus, DnsRecord}
use kcp_glbc.Metadata.{contains_string, remove_string, remove_finalizer}
use kcp_glbc.Dns.Provider.{Provider}
use kcp_glbc.Dns.Publish.{
  zone_eq, record_is_already_published_to_zone, publish_loop, publish_record_to_zones,
}
use kcp_glbc.Dns.Health.{reconcile_health_check_deletion, reconcile_health_checks}

abbrev pub dns_record_finalizer : String
dns_record_finalizer = "kuadrant.dev/dns-record"

-- The options of `cmp.Equal` that the program gives.
pub data CmpOption : Type 0 where
  equate_empty : CmpOption
  sort_slices : (DnsZoneCondition → DnsZoneCondition → Bool) → CmpOption

-- What the reconciliation takes from libraries: `md5` in hexadecimal digits, `NewAggregate` of a
-- list that is not empty, `cmp.Equal` on zone statuses, Go's `<` on strings, and the clock.
pub record Library : Type 0 where
  pub md5 : String → String
  pub aggregate : Error → List Error → Error
  pub cmp_equal : List CmpOption → List DnsZoneStatus → List DnsZoneStatus → Bool
  pub less : String → String → Bool
  pub now : ℕ

unfoldable pub dns_zone_status_slices_equal :
    Library → List DnsZoneStatus → List DnsZoneStatus → Bool
dns_zone_status_slices_equal lib a b =
    lib.cmp_equal
      (equate_empty ∷ sort_slices (λ (c d : DnsZoneCondition). lib.less c.type d.type) ∷ []) a b

module _ (p : Provider) (lib : Library) where
  open p use {State, delete}
  open lib use {md5, aggregate, now}

  -- The loop of `deleteRecord`: the errors of the zones to which the record is published.
  unfoldable pub delete_from_zones : DnsRecord → List DnsZoneStatus → State → List Error × State
  unfolding record_is_already_published_to_zone
  delete_from_zones r [] st = ([], st)
  delete_from_zones r (z ∷ zs) st =
      let skipped = delete_from_zones r zs st in
      let (failed, st') = delete r z.zone st in
      let (errs, last) = delete_from_zones r zs st' in
      if record_is_already_published_to_zone r z.zone
      then (elim failed [ none ↦ errs | some e ↦ e ∷ errs ], last)
      else skipped

  unfoldable pub to_aggregate : List Error → Option Error
  to_aggregate [] = none
  to_aggregate (e ∷ es) = some (aggregate e es)

  without_finalizer : DnsRecord → DnsRecord
  without_finalizer r =
      if contains_string r.meta.finalizers dns_record_finalizer
      then record r {
        meta = record r.meta { finalizers = remove_string r.meta.finalizers dns_record_finalizer };
      }
      else r

  unfoldable pub delete_record : DnsRecord → State → Option Error × DnsRecord × State
  unfolding delete_from_zones to_aggregate without_finalizer
  delete_record r st =
      let (errs, last) = delete_from_zones r r.status.zones st in
      (to_aggregate errs, elim errs [ [] ↦ without_finalizer r | _ ∷ _ ↦ r ], last)

  -- An error that says that something "was not found" is passed over.
  unfoldable pub is_fatal : Option Error → Bool
  is_fatal none = false
  is_fatal (some e) = not (contains e.text "was not found")

  unfoldable pub reconcile_deleted : DnsRecord → State → Option Error × DnsRecord × State
  unfolding delete_record is_fatal
  reconcile_deleted r st =
      let (unhealthy, r1, st1) = reconcile_health_check_deletion p md5 (λ s. false) r st in
      let (failed, r2, st2) = delete_record r1 st1 in
      elim unhealthy [
        | some e ↦ (some e, r1, st1)
        | none ↦
            if is_fatal failed
            then (failed, r2, st2)
            else (none, record r2 { meta = remove_finalizer r2.meta dns_record_finalizer }, st2)
      ]

  unfoldable pub with_finalizer : DnsRecord → DnsRecord
  unfolding contains_string
  with_finalizer r =
      if contains_string r.meta.finalizers dns_record_finalizer then r else record r {
        meta = record r.meta { finalizers = r.meta.finalizers ++ dns_record_finalizer ∷ [] };
      }

  -- The new statuses are taken over if they differ or the generation was not observed yet.
  unfoldable pub take_statuses : DnsRecord → List DnsZoneStatus → DnsRecord
  take_statuses r statuses =
      if not (dns_zone_status_slices_equal lib statuses r.status.zones)
        || not (same r.status.observed_generation r.meta.generation)
      then record r {
        status = record { zones = statuses; observed_generation = r.meta.generation };
      }
      else r

  -- The zone's status was updated in this round and taken over.
  unfoldable pub is_shared :
      DnsRecord → List DnsZoneStatus → List DnsZoneStatus → DnsZoneStatus → Bool
  is_shared r statuses updates s =
      (not (dns_zone_status_slices_equal lib statuses r.status.zones)
        || not (same r.status.observed_generation r.meta.generation))
      && any (λ (u : DnsZoneStatus). zone_eq s.zone u.zone) updates

  unfoldable pub reconcile_active :
      List DnsZone → DnsRecord → State → Option Error × DnsRecord × State
  unfolding with_finalizer take_statuses is_shared
  reconcile_active zones r st =
      let r1 = with_finalizer r in
      let (updates, _) = publish_loop p now r1 zones st in
      let (statuses, st1) = publish_record_to_zones p now zones r1 st in
      reconcile_health_checks p md5 (is_shared r1 statuses updates) (take_statuses r1 statuses) st1

  unfoldable pub reconcile : List DnsZone → DnsRecord → State → Option Error × DnsRecord × State
  unfolding reconcile_deleted reconcile_active
  reconcile zones r st =
      if r.meta.deleting then reconcile_deleted r st else reconcile_active zones r st

  -- The API server: a write answers with the new resource version.
  module _ (Server : Type 0)
      (update_status update_object : DnsRecord → Server → Result String × Server)
      (status_equal : DnsRecordStatus → DnsRecordStatus → Bool)
      (record_equal : DnsRecord → DnsRecord → Bool) where
    write_object : DnsRecord → DnsRecord → Server → Option Error × Server
    write_object previous current sv =
        let (answer, sv') = update_object current sv in
        if record_equal previous current
        then (none, sv)
        else (elim answer [ ok _ ↦ none | err e ↦ some e ], sv')

    write_back : DnsRecord → DnsRecord → Server → Option Error × Server
    unfolding write_object
    write_back previous current sv =
        let (answer, sv') = update_status current sv in
        if status_equal previous.status current.status
        then write_object previous current sv
        else elim answer [
          | err e ↦ (some e, sv')
          | ok version ↦
              write_object previous
                (record current { meta = record current.meta { resource_version = version } }) sv'
        ]

    -- `found` is the answer of the informer's index.
    unfoldable pub process :
        List DnsZone → Result (Option DnsRecord) → State → Server → Option Error × State × Server
    unfolding write_back reconcile
    process zones (err e) st sv = (some e, st, sv)
    process zones (ok none) st sv = (none, st, sv)
    process zones (ok (some previous)) st sv =
        let (failed, current, st') = reconcile zones previous st in
        let (error, sv') = write_back previous current sv in
        elim failed [ some e ↦ (some e, st', sv) | none ↦ (error, st', sv') ]
