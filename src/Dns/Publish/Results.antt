-- ===== src/Dns/Publish/Results.antt =====
-- dns_record.go: what `publishRecordToZones` leaves in the status and asks of the provider.
use kcp_glbc.Prelude.{
  ℕ, List, [], ◌∷◌, ◌++◌, Option, none, some, Bool, true, false, not, Bool-cases, All, All-append,
  is_some, ◌≡◌, ◌≢◌, refl, ap, ◌∙◌, append-nil, arith, inl, inr, Error, ◌||◌,
}
use kcp_glbc.Api.{DnsZone, DnsZoneStatus, DnsRecord, succeeded_condition_type}
use kcp_glbc.Dns.Provider.{Provider}
use kcp_glbc.Dns.Publish.{
  zone_eq, published_in, outcome, publish_loop, publish_record_to_zones,
  record_is_already_published_to_zone, is_current,
}
use kcp_glbc.Dns.Publish.Merging.{
  Other, is_true, zone_status, published_in-zone_status, merge_updates-Other, merge_updates_self,
}

module _ (p : Provider) (now : ℕ) (r : DnsRecord) where
  open p use {State, ensure}

  loop_current :
      (zones : List DnsZone) (st : State)
      → All (λ z. is_current r z ≡ true) zones
      → publish_loop p now r zones st ≡ ([], st)
  unfolding publish_loop
  loop_current [] st h = refl
  loop_current (z ∷ zs) st (e, h) = rw (e, publish_loop) (loop_current zs st h)

  -- With every zone current the provider is not called and the statuses stay as they are.
  pub publish_record_to_zones_current :
      (zones : List DnsZone) (st : State)
      → All (λ z. is_current r z ≡ true) zones
      → publish_record_to_zones p now zones r st ≡ (r.status.zones, st)
  unfolding publish_record_to_zones
  publish_record_to_zones_current zones st h =
      rw (loop_current zones st h, append-nil r.status.zones) refl

  loop_Other :
      (z : DnsZone) (zones : List DnsZone) (st : State)
      → All (λ y. y.id ≢ z.id) zones
      → All (Other now z) (publish_loop p now r zones st).0
  unfolding publish_loop
  loop_Other z [] st _ = tt
  loop_Other z (y ∷ ys) st (d, h) = elim (Bool-cases (is_current r y)) [
    | inl e ↦ rw (e, publish_loop) (loop_Other z ys st h)
    | inr e ↦ rw (e, publish_loop) (d, loop_Other z ys (ensure r y st).1 h)
  ]

  loop-append :
      (before after : List DnsZone) (st : State)
      → (publish_loop p now r (before ++ after) st).0
        ≡ (publish_loop p now r before st).0
          ++ (publish_loop p now r after (publish_loop p now r before st).1).0
  unfolding publish_loop
  loop-append [] after st = refl
  loop-append (y ∷ ys) after st = elim (Bool-cases (is_current r y)) [
    | inl e ↦ rw (e, publish_loop) (loop-append ys after st)
    | inr e ↦ rw (e, publish_loop) (cc (loop-append ys after (ensure r y st).1))
  ]

  -- The provider's state when the loop comes to the zones after `before`.
  abbrev pub reached : List DnsZone → State → State
  reached before st = (publish_record_to_zones p now before r st).1

  answer_published :
      (b : Bool) (e : Option Error) → is_true (some (outcome now b e).status) ≡ not (is_some e)
  unfolding outcome
  answer_published b none = refl
  answer_published b (some e) = refl

  outcome_type : (b : Bool) (e : Option Error) → (outcome now b e).type ≡ succeeded_condition_type
  unfolding outcome
  outcome_type b none = refl
  outcome_type b (some e) = refl

  module _ (before after : List DnsZone) (z : DnsZone) (st : State)
      (b : All (λ y. y.id ≢ z.id) before) (a : All (λ y. y.id ≢ z.id) after) where
    kept :
        is_current r z ≡ true
        → published_in z (publish_record_to_zones p now (before ++ z ∷ after) r st).0 ≡ true
    unfolding publish_record_to_zones is_current
    kept e =
        let st' = (publish_loop p now r before st).1 in
        let others =
          All-append (Other now z) (publish_loop p now r before st).0
            (publish_loop p now r after st').0 (loop_Other z before st b)
            (loop_Other z after st' a) in
        rw (published_in-zone_status z, loop-append before (z ∷ after) st, e, publish_loop)
          (rw (merge_updates-Other now z r.status.zones [] _ others)
            (ground (arith, e, published_in-zone_status z r.status.zones)))

    asked :
        zone_eq z z ≡ true
        → is_current r z ≡ false
        → published_in z (publish_record_to_zones p now (before ++ z ∷ after) r st).0
          ≡ not (is_some (ensure r z (reached before st)).0)
    unfolding publish_record_to_zones zone_status
    asked reflexive e =
        let st' = (publish_loop p now r before st).1 in
        let answer = ensure r z st' in
        let c = outcome now (record_is_already_published_to_zone r z) answer.0 in
        let u : DnsZoneStatus = record { zone = z; conditions = c ∷ []; endpoints = r.endpoints } in
        rw (published_in-zone_status z, loop-append before (z ∷ after) st, e, publish_loop)
          (ap is_true (
              merge_updates_self now z u c refl refl (outcome_type _ answer.0) reflexive
                r.status.zones [] (publish_loop p now r before st).0
                (publish_loop p now r after answer.1).0 (loop_Other z before st b)
                (loop_Other z after answer.1 a) refl)
            ∙ answer_published _ answer.0)

    -- Publishing to zones, one of which equals itself and shares its id with no other: the
    -- status shows the record as published to a zone exactly if it was skipped as current, or the
    -- provider's answer to the one call for that zone, made in the state that the calls for the
    -- zones before it left, is no error.
    pub published_in-publish :
        zone_eq z z ≡ true
        → published_in z (publish_record_to_zones p now (before ++ z ∷ after) r st).0
          ≡ (is_current r z || not (is_some (ensure r z (reached before st)).0))
    published_in-publish reflexive = elim (Bool-cases (is_current r z)) [
      | inl e ↦ rw e (kept e)
      | inr e ↦ rw e (asked reflexive e)
    ]
