-- ===== src/Dns/Publish.antt =====
-- dns_record.go: publishing a DNS record to the zones of the controller, and the status that says so.
pub mod Conditions
pub mod Merging
pub mod Results
use kcp_glbc.Prelude.{
  ℕ, String, List, [], ◌∷◌, ◌++◌, Option, none, some, Bool, true, false, ◌&&◌, ◌||◌, not, Dict,
  lookup, length, same, all, ◌==◌, ◌^^◌, if◌then◌else◌, Error,
}
use kcp_glbc.Api.{
  DnsZone, DnsZoneCondition, DnsZoneStatus, DnsRecordStatus, DnsRecord, succeeded_condition_type,
}
use kcp_glbc.Api.Endpoints.{Endpoint}
use kcp_glbc.Dns.Provider.{Provider}

abbrev pub condition_true : String
condition_true = "True"

abbrev pub condition_false : String
condition_false = "False"

entry_eq : Option String → String → Bool
entry_eq none v = false
entry_eq (some w) v = w == v

dict_eq : Dict String → Dict String → Bool
unfolding entry_eq
dict_eq a b =
    same (length a) (length b) && all (λ (e : String × String). entry_eq (lookup e.0 b) e.1) a

tags_eq : Option (Dict String) → Option (Dict String) → Bool
unfolding dict_eq
tags_eq none none = true
tags_eq (some a) (some b) = dict_eq a b
tags_eq _ _ = false

-- `reflect.DeepEqual` on zones, and `cmp.Equal`, which agrees with it there.
unfoldable pub zone_eq : DnsZone → DnsZone → Bool
unfolding tags_eq
zone_eq a b = a.id == b.id && tags_eq a.tags b.tags

-- The status of the first condition of type "Succeeded".
unfoldable pub succeeded_status : List DnsZoneCondition → Option String
succeeded_status [] = none
succeeded_status (c ∷ cs) =
    if c.type == succeeded_condition_type then some c.status else succeeded_status cs

unfoldable pub published_in : DnsZone → List DnsZoneStatus → Bool
unfolding zone_eq succeeded_status
published_in z [] = false
published_in z (s ∷ ss) =
    let later = published_in z ss in
    if zone_eq s.zone z
    then elim (succeeded_status s.conditions) [
      | some status ↦ status == condition_true
      | none ↦ later
    ]
    else later

unfoldable pub record_is_already_published_to_zone : DnsRecord → DnsZone → Bool
unfolding published_in
record_is_already_published_to_zone r z = published_in z r.status.zones

unfoldable pub condition_changed : DnsZoneCondition → DnsZoneCondition → Bool
condition_changed a b = not (a.status == b.status) || not (a.reason == b.reason)

abbrev overwrite : ℕ → DnsZoneCondition → DnsZoneCondition → DnsZoneCondition
overwrite now cond update = record cond {
  status = update.status;
  reason = update.reason;
  message = update.message;
  last_transition_time = now;
}

-- The inner loop of `mergeConditions`, which stops at the first condition that it changes; the flag
-- says that no condition has the update's type.
merge_condition : ℕ → DnsZoneCondition → List DnsZoneCondition → List DnsZoneCondition × Bool
unfolding condition_changed
merge_condition now update [] = ([], true)
merge_condition now update (c ∷ cs) =
    let (later, add) = merge_condition now update cs in
    if c.type == update.type
    then (if condition_changed c update
        then (overwrite now c update ∷ cs, false)
        else (c ∷ later, false))
    else (c ∷ later, add)

merge_loop :
    ℕ
    → List DnsZoneCondition
    → List DnsZoneCondition
    → List DnsZoneCondition
    → List DnsZoneCondition
unfolding merge_condition
merge_loop now conditions additions [] = conditions ++ additions
merge_loop now conditions additions (u ∷ us) =
    let (merged, add) = merge_condition now u conditions in
    merge_loop now merged
      (if add then additions ++ record u { last_transition_time = now } ∷ [] else additions) us

unfoldable pub merge_conditions :
    ℕ → List DnsZoneCondition → List DnsZoneCondition → List DnsZoneCondition
unfolding merge_loop
merge_conditions now conditions updates = merge_loop now conditions [] updates

-- One update is merged into every status of its zone; the flag says that there was none.
unfoldable pub merge_status : ℕ → DnsZoneStatus → List DnsZoneStatus → List DnsZoneStatus × Bool
unfolding zone_eq merge_conditions
merge_status now u [] = ([], true)
merge_status now u (s ∷ ss) =
    let (later, add) = merge_status now u ss in
    if zone_eq s.zone u.zone
    then (
      record s {
        conditions = merge_conditions now s.conditions u.conditions;
        endpoints = u.endpoints;
      }
          ∷ later,
      false,
    )
    else (s ∷ later, add)

unfoldable pub merge_updates :
    ℕ → List DnsZoneStatus → List DnsZoneStatus → List DnsZoneStatus → List DnsZoneStatus
unfolding merge_status
merge_updates now statuses additions [] = statuses ++ additions
merge_updates now statuses additions (u ∷ us) =
    let (merged, add) = merge_status now u statuses in
    merge_updates now merged (if add then additions ++ u ∷ [] else additions) us

unfoldable pub merge_statuses : ℕ → List DnsZoneStatus → List DnsZoneStatus → List DnsZoneStatus
unfolding merge_updates
merge_statuses now statuses updates = merge_updates now statuses [] updates

verb : Bool → String
verb true = "replace"
verb false = "ensure"

gerund : Bool → String
gerund true = "replacing"
gerund false = "ensuring"

-- The condition that the answer of `Ensure` leads to; the flag says that the record was published.
outcome : ℕ → Bool → Option Error → DnsZoneCondition
unfolding verb gerund
outcome now replaced none = record {
  type = succeeded_condition_type;
  status = condition_true;
  last_transition_time = now;
  reason = "ProviderSuccess";
  message = "The DNS provider succeeded in " ^^ gerund replaced ^^ " the record";
}
outcome now replaced (some e) = record {
  type = succeeded_condition_type;
  status = condition_false;
  last_transition_time = now;
  reason = "ProviderError";
  message = "The DNS provider failed to " ^^ verb replaced ^^ " the record: " ^^ e.text;
}

-- The record has not changed since it was published to the zone: the zone is skipped.
unfoldable pub is_current : DnsRecord → DnsZone → Bool
is_current r z =
    same r.meta.generation r.status.observed_generation && record_is_already_published_to_zone r z

module _ (p : Provider) where
  open p use {State, ensure}

  -- The loop over the zones: the updates, and the provider's state after the calls.
  unfoldable pub publish_loop : ℕ → DnsRecord → List DnsZone → State → List DnsZoneStatus × State
  unfolding outcome is_current record_is_already_published_to_zone
  publish_loop now r [] st = ([], st)
  publish_loop now r (z ∷ zs) st =
      let skipped = publish_loop now r zs st in
      let (e, st') = ensure r z st in
      let (updates, last) = publish_loop now r zs st' in
      let published = record_is_already_published_to_zone r z in
      if is_current r z then skipped else (
        record { zone = z; conditions = outcome now published e ∷ []; endpoints = r.endpoints }
            ∷ updates,
        last,
      )

  unfoldable pub publish_record_to_zones :
      ℕ → List DnsZone → DnsRecord → State → List DnsZoneStatus × State
  unfolding publish_loop merge_statuses
  publish_record_to_zones now zones r st =
      let (updates, last) = publish_loop now r zones st in
      (merge_statuses now r.status.zones updates, last)
