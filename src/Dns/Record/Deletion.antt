-- ===== src/Dns/Record/Deletion.antt =====
-- dns_record.go: when the finalizer of a deleted record is given up.
use kcp_glbc.Prelude.{
  List, [], ◌∷◌, Option, none, some, true, false, Any, contains, Error, ◌≡◌, refl, subst, arith,
  ◌↔◌, ◌⊎◌, ◌∙◌, ap, Bool, Bool-cases, Option-cases, inl, inr, if◌then◌else◌,
}
use kcp_glbc.Api.{DnsRecord, DnsZoneStatus}
use kcp_glbc.Metadata.{remove_finalizer}
use kcp_glbc.Dns.Provider.{Provider}
use kcp_glbc.Dns.Publish.{published_in, record_is_already_published_to_zone}
use kcp_glbc.Dns.Health.{reconcile_health_check_deletion}
use kcp_glbc.Dns.Health.Frame.{deletion-Agrees}
use kcp_glbc.Dns.Record.{
  Library, delete_from_zones, to_aggregate, is_fatal, reconcile_deleted, dns_record_finalizer,
}

-- The error says that something was not found.
abbrev pub MentionsNotFound : Error → Type 0
MentionsNotFound x = contains x.text "was not found" ≡ true

cons_of_Any :
    (P : Error → Type 0) (xs : List Error)
    → Any P xs
    → (e : Error) × (es : List Error) × (xs ≡ e ∷ es)
cons_of_Any P [] h = absurd h
cons_of_Any P (x ∷ xs) h = (x, xs, refl)

-- Every zone to which the record is published was cleaned: the provider, asked for one after the other,
-- answered without an error.
abbrev pub IsCleaned : (p : Provider) → DnsRecord → List DnsZoneStatus → p.State → Type 0
IsCleaned p r [] st = Unit
IsCleaned p r (z ∷ zs) st =
    ((published_in z.zone r.status.zones ≡ false) ⊎ ((p.delete r z.zone st).0 ≡ none))
    × IsCleaned p r zs (if published_in z.zone r.status.zones then (p.delete r z.zone st).1 else st)

delete_from_zones-IsCleaned :
    (p : Provider) (lib : Library) (r : DnsRecord) (zs : List DnsZoneStatus) (st : p.State)
    → ((delete_from_zones p lib r zs st).0 ≡ []) ↔ IsCleaned p r zs st
unfolding delete_from_zones record_is_already_published_to_zone
delete_from_zones-IsCleaned p lib r [] st = (λ h. tt, λ h. refl)
delete_from_zones-IsCleaned p lib r (z ∷ zs) st =
    elim (Bool-cases (published_in z.zone r.status.zones)) [
      | inr e ↦
          let ih = delete_from_zones-IsCleaned p lib r zs st in
          rw (e, delete_from_zones) (λ h. (inl refl, ih.0 h), λ h. ih.1 h.1)
      | inl e ↦
          let ih = delete_from_zones-IsCleaned p lib r zs (p.delete r z.zone st).1 in
          elim (Option-cases (p.delete r z.zone st).0) [
            | inl f ↦ rw (e, f, delete_from_zones) (λ h. (inr refl, ih.0 h), λ h. ih.1 h.1)
            | inr (x, f) ↦
                rw (e, f, delete_from_zones)
                  (λ h. absurd (ground (arith, h)), λ h. absurd (ground (arith, h.0)))
          ]
    ]

module _ (p : Provider) (lib : Library) (r : DnsRecord) (st : p.State) where
  -- The record and the provider's state after the health checks were deleted.
  abbrev pub swept : Option Error × DnsRecord × p.State
  swept = reconcile_health_check_deletion p lib.md5 (λ s. false) r st

  -- What the provider answered for the zones to which the record was published.
  abbrev pub failures : List Error
  failures = (delete_from_zones p lib swept.1 swept.1.status.zones swept.2).0

  -- If reconciling a deleted record returns an error, its metadata, finalizers included, is as it was.
  pub reconcile_deleted_error :
      (e : Error)
      → (reconcile_deleted p lib r st).0 ≡ some e
      → (reconcile_deleted p lib r st).1.meta ≡ r.meta
  unfolding reconcile_deleted
  reconcile_deleted_error e h = ground (arith, (deletion-Agrees p lib.md5 (λ s. false) r st).meta)

  -- The texts of the errors, aggregated, say that something was not found.
  abbrev pub IsHidden : List Error → Type 0
  IsHidden errs =
      (e : Error) × (es : List Error) × (errs ≡ e ∷ es)
      × (contains (lib.aggregate e es).text "was not found" ≡ true)

  fatal_iff :
      (errs : List Error)
      → (is_fatal p lib (to_aggregate p lib errs) ≡ false) ↔ ((errs ≡ []) ⊎ IsHidden errs)
  unfolding is_fatal to_aggregate
  fatal_iff [] = (λ h. inl refl, λ h. refl)
  fatal_iff (e ∷ es) = (
    λ h. inr (e, es, refl, ground (arith, h)),
    λ h. elim h [
      | inl none_left ↦ absurd (ground (arith, none_left))
      | inr (x, xs, shape, found) ↦
          let hidden : contains (lib.aggregate e es).text "was not found" ≡ true =
            ap
              (λ errs. elim errs as (λ _. Bool) [
                | [] ↦ true
                | y ∷ ys ↦ contains (lib.aggregate y ys).text "was not found"
              ])
              shape
            ∙ found in
          ground (arith, hidden)
    ],
  )

  reconcile_deleted-fatal :
      ((reconcile_deleted p lib r st).0 ≡ none)
      ↔ ((swept.0 ≡ none) × (is_fatal p lib (to_aggregate p lib failures) ≡ false))
  unfolding reconcile_deleted
  reconcile_deleted-fatal = (λ h. ground arith, λ h. ground arith)

  -- Reconciling a deleted record returns no error exactly if its health checks were deleted and then
  -- either the provider cleaned every zone to which the record is published, or some zone failed and
  -- the aggregated text of the failures says that something "was not found".
  pub reconcile_deleted-none_iff :
      ((reconcile_deleted p lib r st).0 ≡ none)
      ↔ ((swept.0 ≡ none) × (IsCleaned p swept.1 swept.1.status.zones swept.2 ⊎ IsHidden failures))
  reconcile_deleted-none_iff =
      let cleaned = delete_from_zones-IsCleaned p lib swept.1 swept.1.status.zones swept.2 in
      let fatal = fatal_iff failures in
      let outcome = reconcile_deleted-fatal in
      (
        λ h. (
          (outcome.0 h).0,
          elim (fatal.0 (outcome.0 h).1) [
            | inl none_left ↦ inl (cleaned.0 none_left)
            | inr hidden ↦ inr hidden
          ],
        ),
        λ (healthy, h). outcome.1 (
          healthy,
          elim h [
            | inl all_cleaned ↦ fatal.1 (inl (cleaned.1 all_cleaned))
            | inr hidden ↦ fatal.1 (inr hidden)
          ],
        ),
      )

  -- The health checks being deleted, and the aggregated text keeping a "was not found" of the errors:
  -- one zone that answers with such an error hides the failures of all other zones, and reconciling
  -- the deleted record returns no error and removes the finalizer.
  pub reconcile_deleted_hides :
      ((e : Error) (es : List Error)
        → Any MentionsNotFound (e ∷ es)
        → contains (lib.aggregate e es).text "was not found" ≡ true)
      → swept.0 ≡ none
      → Any MentionsNotFound failures
      → ((reconcile_deleted p lib r st).0 ≡ none)
        × ((reconcile_deleted p lib r st).1.meta ≡ remove_finalizer r.meta dns_record_finalizer)
  unfolding reconcile_deleted
  reconcile_deleted_hides keeps healthy h =
      let (e, es, shape) = cons_of_Any MentionsNotFound failures h in
      let hidden = keeps e es (subst (Any MentionsNotFound) shape h) in
      ground (arith, healthy, shape, hidden, (deletion-Agrees p lib.md5 (λ s. false) r st).meta)
