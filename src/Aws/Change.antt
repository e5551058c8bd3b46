-- ===== src/Aws/Change.antt =====
-- aws/dns.go: the change batch that brings a zone from the endpoints published last to those of the
-- record.
pub mod Batch
use kcp_glbc.Prelude.{
  ℕ, String, List, [], ◌∷◌, ◌++◌, map, Option, none, some, Bool, true, false, not, ◌==◌, ◌^^◌,
  if◌then◌else◌, Error, errorf, Result, ok, err, ◌>>=◌, is_some, length,
}
use kcp_glbc.Prelude.Int.{ℤ, pos}
use kcp_glbc.Api.{DnsZone, DnsZoneStatus, DnsRecord}
use kcp_glbc.Api.Endpoints.{Endpoint, Property, set_id, get_provider_specific_property}
use kcp_glbc.Metadata.{contains_string}

abbrev pub weight_key : String
weight_key = "aws/weight"

abbrev pub region_key : String
region_key = "aws/region"

abbrev pub failover_key : String
failover_key = "aws/failover"

abbrev pub multi_value_answer_key : String
multi_value_answer_key = "aws/multi-value-answer"

abbrev pub health_check_id_key : String
health_check_id_key = "aws/health-check-id"

pub data Action : Type 0 where
  upsert delete : Action

-- The fields of `route53.ResourceRecordSet` that the program fills; its type is always "A".
pub record ResourceRecordSet : Type 0 where
  pub name : String
  pub ttl : ℕ
  pub resource_records : List String
  pub set_identifier : Option String
  pub weight : Option ℤ
  pub region : Option String
  pub failover : Option String
  pub multi_value_answer : Bool
  pub health_check_id : Option String

pub record Change : Type 0 where
  pub action : Action
  pub set : ResourceRecordSet

value_of : Option Property → Option String
value_of none = none
value_of (some p) = some p.value

-- `parse_int` is `strconv.ParseInt`: `none` where it fails.
weight_of : (String → Option ℤ) → Option Property → Option ℤ
weight_of parse_int none = none
weight_of parse_int (some p) = elim (parse_int p.value) [ none ↦ some (pos 0) | some n ↦ some n ]

unfoldable pub change_for_endpoint : (String → Option ℤ) → Endpoint → Action → Result Change
unfolding value_of weight_of get_provider_specific_property
change_for_endpoint parse_int e action =
    if not (e.record_type == "A")
    then err (errorf ("unsupported record type " ^^ e.record_type))
    else if e.dns_name == ""
    then err (errorf "domain is required")
    else elim e.targets [
      | [] ↦ err (errorf "targets is required")
      | t ∷ ts ↦ ok (record {
        action = action;
        set = record {
          name = e.dns_name;
          ttl = e.record_ttl;
          resource_records = t ∷ ts;
          set_identifier = if e.set_identifier == "" then none else some e.set_identifier;
          weight = weight_of parse_int (get_provider_specific_property e weight_key);
          region = value_of (get_provider_specific_property e region_key);
          failover = value_of (get_provider_specific_property e failover_key);
          multi_value_answer = is_some (get_provider_specific_property e multi_value_answer_key);
          health_check_id = value_of (get_provider_specific_property e health_check_id_key);
        };
      })
    ]

-- The endpoints of the first zone status with the id.
unfoldable pub endpoints_from_zone_status : List DnsZoneStatus → String → List Endpoint
endpoints_from_zone_status [] zone_id = []
endpoints_from_zone_status (s ∷ ss) zone_id =
    if s.zone.id == zone_id then s.endpoints else endpoints_from_zone_status ss zone_id

module _ (parse_int : String → Option ℤ) where
  -- The first loop: a change for each endpoint.
  unfoldable pub changes_for : Action → List Endpoint → Result (List Change)
  changes_for action [] = ok []
  changes_for action (e ∷ es) = do
    c ← change_for_endpoint parse_int e action
    cs ← changes_for action es
    ok (c ∷ cs)

  -- The second loop: a deletion for each endpoint published last that is not expected any more.
  unfoldable pub deletions_for : List String → List Endpoint → Result (List Change)
  deletions_for expected [] = ok []
  deletions_for expected (e ∷ es) =
      let rest = deletions_for expected es in
      if contains_string expected (set_id e)
      then rest
      else change_for_endpoint parse_int e delete >>= λ c. rest >>= λ cs. ok (c ∷ cs)

  unfoldable pub batch : DnsRecord → String → Action → Result (List Change)
  batch r zone_id delete = changes_for delete r.endpoints
  batch r zone_id upsert = do
    cs ← changes_for upsert r.endpoints
    ds ← deletions_for (map set_id r.endpoints) (endpoints_from_zone_status r.status.zones zone_id)
    ok (cs ++ ds)

  -- Route 53: a change batch for a zone is accepted or refused.
  module _ (State : Type 0)
      (change_resource_record_sets : String → List Change → State → Option Error × State) where
    send : DnsRecord → String → List Change → State → Option Error × State
    send r zone_id [] st = (none, st)
    send r zone_id (c ∷ cs) st =
        let (failed, st') = change_resource_record_sets zone_id (c ∷ cs) st in
        elim failed [
          | none ↦ (none, st')
          | some e ↦ (
            some (
                errorf (
                  "couldn't update DNS record " ^^ r.meta.name ^^ " in zone " ^^ zone_id ^^ ": "
                  ^^ e.text)),
            st',
          )
        ]

    unfoldable pub update_record : DnsRecord → String → Action → State → Option Error × State
    unfolding send
    update_record r zone_id action st = elim (batch r zone_id action) [
      | err e ↦ (some e, st)
      | ok cs ↦ send r zone_id cs st
    ]

    unfoldable pub change : DnsRecord → DnsZone → Action → State → Option Error × State
    unfolding update_record
    change r zone action st =
        let (failed, st') = update_record r zone.id action st in
        elim failed [
          | none ↦ (none, st')
          | some e ↦
              (some (errorf ("failed to update record in zone " ^^ zone.id ^^ ": " ^^ e.text)), st')
        ]

    unfoldable pub ensure : DnsRecord → DnsZone → State → Option Error × State
    unfolding change
    ensure r zone st = change r zone upsert st

    unfoldable pub delete_from : DnsRecord → DnsZone → State → Option Error × State
    unfolding change
    delete_from r zone st = change r zone delete st
