-- ===== src/Tests/Objects.antt =====
-- The theorems about metadata, endpoints and change batches, at small objects.
use kcp_glbc.Prelude.{String, [], ◌∷◌, Option, none, some, false, ◌≡◌, refl}
use kcp_glbc.Prelude.Int.{ℤ}
use kcp_glbc.Api.Endpoints.{Endpoint, set_id}
use kcp_glbc.Metadata.{contains_string}
use kcp_glbc.Aws.Change.{
  Action, changes_for, change_for_endpoint, deletions_for, endpoints_from_zone_status, batch,
  ResourceRecordSet,
}
use kcp_glbc.Aws.Change.Batch.{actions, times, actions-batch_upsert}
use kcp_glbc.Tests.Records.{record_example, old_endpoint, new_endpoint}

abbrev weighted : Endpoint
weighted = record old_endpoint {
  provider_specific = record { name = "aws/weight"; value = "120" } ∷ [];
}

abbrev no_int : String → Option ℤ
no_int s = none

abbrev set_of : Endpoint → ResourceRecordSet
set_of e = record {
  name = e.dns_name;
  ttl = 0;
  resource_records = e.targets;
  set_identifier = some e.set_identifier;
  weight = none;
  region = none;
  failover = none;
  multi_value_answer = false;
  health_check_id = none;
}

actions-batch_upsert_example :
    actions "1.1.1.1" (
      record { action = Action.upsert; set = set_of new_endpoint }
      ∷ record { action = Action.delete; set = set_of old_endpoint }
      ∷ [])
    ≡ Action.delete ∷ []
unfolding times batch changes_for change_for_endpoint deletions_for endpoints_from_zone_status
    contains_string set_id
actions-batch_upsert_example = actions-batch_upsert no_int record_example "Z1" "1.1.1.1" _ refl
