-- ===== src/Dns/Publish/Conditions.antt =====
-- dns_record.go: what a merge does to the first condition of type "Succeeded" of a zone, which is
-- what `RecordIsAlreadyPublishedToZone` reads.
use kcp_glbc.Prelude.{
  ℕ, List, [], ◌∷◌, ◌++◌, none, some, true, false, Bool-cases, eq_iff, ◌≡◌, refl, append-nil, arith,
  inl, inr,
}
use kcp_glbc.Api.{DnsZoneCondition, succeeded_condition_type}
use kcp_glbc.Dns.Publish.{succeeded_status, merge_condition, merge_conditions}

succeeded_status-append :
    (cs : List DnsZoneCondition) (c : DnsZoneCondition)
    → succeeded_status cs ≡ none
    → c.type ≡ succeeded_condition_type
    → succeeded_status (cs ++ c ∷ []) ≡ some c.status
unfolding succeeded_status
succeeded_status-append [] c h t = ground (arith, eq_iff c.type succeeded_condition_type)
succeeded_status-append (d ∷ cs) c h t = ground (arith, succeeded_status-append cs c)

module _ (now : ℕ) (u : DnsZoneCondition) (t : u.type ≡ succeeded_condition_type) where
  -- What the inner loop leaves, by its flag.
  merge_condition_found :
      (cs : List DnsZoneCondition)
      → (merge_condition now u cs).1 ≡ false
      → succeeded_status (merge_condition now u cs).0 ≡ some u.status
  unfolding merge_condition succeeded_status
  merge_condition_found [] h = cc
  merge_condition_found (c ∷ cs) h = ground (
    arith,
    merge_condition_found cs,
    eq_iff c.type u.type,
    eq_iff c.status u.status,
    eq_iff c.type succeeded_condition_type,
  )

  merge_condition_missing :
      (cs : List DnsZoneCondition)
      → (merge_condition now u cs).1 ≡ true
      → ((merge_condition now u cs).0 ≡ cs) × (succeeded_status cs ≡ none)
  unfolding merge_condition succeeded_status
  merge_condition_missing [] h = (refl, refl)
  merge_condition_missing (c ∷ cs) h = ground (
    arith,
    merge_condition_missing cs,
    eq_iff c.type u.type,
    eq_iff c.type succeeded_condition_type,
  )

  -- After one update of type "Succeeded" is merged into a list of conditions, the first condition of
  -- that type has the update's status.
  pub succeeded_status-merge_conditions :
      (cs : List DnsZoneCondition)
      → succeeded_status (merge_conditions now cs (u ∷ [])) ≡ some u.status
  unfolding merge_conditions
  succeeded_status-merge_conditions cs = elim (Bool-cases (merge_condition now u cs).1) [
    | inl e ↦
        let (same_list, absent) = merge_condition_missing cs e in
        rw (e, same_list)
          (succeeded_status-append cs (record u { last_transition_time = now }) absent t)
    | inr e ↦ rw (e, append-nil _) (merge_condition_found cs e)
  ]
