-- ===== src/Dns/Publish/Merging.antt =====
-- dns_record.go: what merging updates does to the status of one zone, where the other updates are
-- for zones with other ids.
use kcp_glbc.Prelude.{
  ℕ, String, List, [], ◌∷◌, ◌++◌, Option, none, some, Bool, true, false, Bool-cases, All, ◌==◌,
  eq_iff, ◌≡◌, ◌≢◌, refl, ap₂, ◌∙◌, if◌then◌else◌, arith, inl, inr,
}
use kcp_glbc.Api.{DnsZone, DnsZoneCondition, DnsZoneStatus, succeeded_condition_type}
use kcp_glbc.Dns.Publish.{
  condition_true, zone_eq, succeeded_status, published_in, merge_status, merge_updates,
}
use kcp_glbc.Dns.Publish.Conditions.{succeeded_status-merge_conditions}

abbrev pub or_else : Option String → Option String → Option String
or_else none b = b
or_else (some a) b = some a

-- The status of the first condition of type "Succeeded" in the statuses of the zone.
unfoldable pub zone_status : DnsZone → List DnsZoneStatus → Option String
zone_status z [] = none
zone_status z (s ∷ ss) =
    if zone_eq s.zone z
    then or_else (succeeded_status s.conditions) (zone_status z ss)
    else zone_status z ss

abbrev pub is_true : Option String → Bool
is_true none = false
is_true (some s) = s == condition_true

pub published_in-zone_status :
    (z : DnsZone) (ss : List DnsZoneStatus) → published_in z ss ≡ is_true (zone_status z ss)
unfolding published_in zone_status
published_in-zone_status z [] = refl
published_in-zone_status z (s ∷ ss) = ground (arith, published_in-zone_status z ss)

zone_status-append :
    (z : DnsZone) (xs ys : List DnsZoneStatus)
    → zone_status z (xs ++ ys) ≡ or_else (zone_status z xs) (zone_status z ys)
unfolding zone_status
zone_status-append z [] ys = refl
zone_status-append z (x ∷ xs) ys = ground (arith, zone_status-append z xs ys)

-- One id cannot be equal to two different ones.
zone_eq_apart : (s a b : DnsZone) → a.id ≢ b.id → zone_eq s a ≡ true → zone_eq s b ≡ false
unfolding zone_eq
zone_eq_apart s a b d h = ground (arith, eq_iff s.id a.id, eq_iff s.id b.id)

zone_eq_ids : (a b : DnsZone) → a.id ≢ b.id → zone_eq a b ≡ false
unfolding zone_eq
zone_eq_ids a b d = ground (arith, eq_iff a.id b.id)

module _ (now : ℕ) (z : DnsZone) where
  -- An update of another zone.
  abbrev pub Other : DnsZoneStatus → Type 0
  Other u = u.zone.id ≢ z.id

  merge_status-Other :
      (u : DnsZoneStatus) (ss : List DnsZoneStatus)
      → Other u
      → zone_status z (merge_status now u ss).0 ≡ zone_status z ss
  unfolding merge_status zone_status
  merge_status-Other u [] d = refl
  merge_status-Other u (s ∷ ss) d =
      ground (arith, merge_status-Other u ss d, zone_eq_apart s.zone u.zone z d)

  add-Other :
      (u : DnsZoneStatus) (adds : List DnsZoneStatus)
      → Other u
      → zone_status z (adds ++ u ∷ []) ≡ zone_status z adds
  unfolding zone_status
  add-Other u [] d = rw (zone_eq_ids u.zone z d) refl
  add-Other u (s ∷ adds) d = ground (arith, add-Other u adds d)

  step-Other :
      (u : DnsZoneStatus) (b : Bool) (adds : List DnsZoneStatus)
      → Other u
      → zone_status z (if b then adds ++ u ∷ [] else adds) ≡ zone_status z adds
  step-Other u true adds d = add-Other u adds d
  step-Other u false adds d = refl

  pub merge_updates-Other :
      (ss adds us : List DnsZoneStatus)
      → All Other us
      → zone_status z (merge_updates now ss adds us)
        ≡ or_else (zone_status z ss) (zone_status z adds)
  unfolding merge_updates
  merge_updates-Other ss adds [] _ = zone_status-append z ss adds
  merge_updates-Other ss adds (u ∷ us) (d, h) =
      let (merged, add) = merge_status now u ss in
      merge_updates-Other merged (if add then adds ++ u ∷ [] else adds) us h
      ∙ ap₂ or_else (merge_status-Other u ss d) (step-Other u add adds d)

  -- An update of the zone itself, with the one condition that an answer of the provider leads to.
  module _ (u : DnsZoneStatus) (c : DnsZoneCondition) (here : u.zone ≡ z)
      (one : u.conditions ≡ c ∷ []) (t : c.type ≡ succeeded_condition_type)
      (reflexive : zone_eq z z ≡ true) where
    merge_status_found :
        (ss : List DnsZoneStatus)
        → (merge_status now u ss).1 ≡ false
        → zone_status z (merge_status now u ss).0 ≡ some c.status
    unfolding merge_status zone_status
    merge_status_found [] h = cc
    merge_status_found (s ∷ ss) h =
        rw (here, one)
          (ground (
            arith,
            here,
            one,
            merge_status_found ss,
            succeeded_status-merge_conditions now c t s.conditions,
          ))

    merge_status_missing :
        (ss : List DnsZoneStatus)
        → (merge_status now u ss).1 ≡ true
        → ((merge_status now u ss).0 ≡ ss) × (zone_status z ss ≡ none)
    unfolding merge_status zone_status
    merge_status_missing [] h = (refl, refl)
    merge_status_missing (s ∷ ss) h = ground (arith, merge_status_missing ss)

    add_self :
        (adds : List DnsZoneStatus)
        → zone_status z adds ≡ none
        → zone_status z (adds ++ u ∷ []) ≡ some c.status
    unfolding zone_status succeeded_status
    add_self [] h = ground (arith, eq_iff c.type succeeded_condition_type)
    add_self (s ∷ adds) h = ground (arith, add_self adds)

    decided :
        (ss adds : List DnsZoneStatus)
        → zone_status z adds ≡ none
        → or_else
            (zone_status z (merge_status now u ss).0)
            (zone_status z (if (merge_status now u ss).1 then adds ++ u ∷ [] else adds))
          ≡ some c.status
    decided ss adds h = elim (Bool-cases (merge_status now u ss).1) [
      | inl e ↦
          let (same_list, absent) = merge_status_missing ss e in
          rw (e, same_list, absent) (add_self adds h)
      | inr e ↦ rw (e, merge_status_found ss e) refl
    ]

    -- The update of the zone decides, wherever it stands among the updates of other zones.
    pub merge_updates_self :
        (ss adds before after : List DnsZoneStatus)
        → All Other before
        → All Other after
        → zone_status z adds ≡ none
        → zone_status z (merge_updates now ss adds (before ++ u ∷ after)) ≡ some c.status
    unfolding merge_updates
    merge_updates_self ss adds [] after _ k h =
        let (merged, add) = merge_status now u ss in
        merge_updates-Other merged (if add then adds ++ u ∷ [] else adds) after k
        ∙ decided ss adds h
    merge_updates_self ss adds (v ∷ before) after (d, b) k h =
        let (merged, add) = merge_status now v ss in
        merge_updates_self merged (if add then adds ++ v ∷ [] else adds) before after b k
          (step-Other v add adds d ∙ h)
