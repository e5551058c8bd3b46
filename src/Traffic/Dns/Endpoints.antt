-- ===== src/Traffic/Dns/Endpoints.antt =====
-- dns.go: the endpoints of a DNS record, from the targets of a traffic object.
pub mod Weights
pub mod Targets
use kcp_glbc.Prelude.{
  ℕ, zero, suc, ◌/◌, String, List, [], ◌∷◌, ◌++◌, Option, none, some, Dict, lookup, put, length,
  ltb, if◌then◌else◌,
}
use kcp_glbc.Api.{DnsRecord}
use kcp_glbc.Api.Endpoints.{Endpoint, blank, get_address, set_provider_specific}
use kcp_glbc.Aws.Change.{weight_key}

abbrev pub max_weight : ℕ
max_weight = 120

-- Before `Itoa`. The division by zero, a panic, is `none`.
unfoldable pub aws_endpoint_weight : ℕ → Option ℕ
aws_endpoint_weight zero = none
aws_endpoint_weight (suc n) =
    some (max_weight / (if ltb max_weight (suc n) then max_weight else suc n))

-- The endpoints by address; the last one of an address stays.
unfoldable pub endpoints_by_address : List Endpoint → Dict Endpoint → Dict Endpoint
endpoints_by_address [] m = m
endpoints_by_address (e ∷ es) m = elim (get_address e) [
  | none ↦ endpoints_by_address es m
  | some address ↦ endpoints_by_address es (put address e m)
]

or_blank : String → Option Endpoint → Endpoint
or_blank target none = blank target
or_blank target (some e) = e

-- `itoa` is `strconv.Itoa`, and `sort` is `sort.Slice` by the first target, in whatever order equal
-- targets come out.
module _ (itoa : ℕ → String) (sort : List Endpoint → List Endpoint) where
  weight_text : ℕ → String
  weight_text n = elim (aws_endpoint_weight n) [ none ↦ "" | some w ↦ itoa w ]

  -- The endpoint for a target of a group of `n`.
  unfoldable pub updated : String → ℕ → String → Endpoint → Endpoint
  unfolding weight_text
  updated dns_name n target e =
      set_provider_specific
        (record e {
          dns_name = dns_name;
          record_type = "A";
          targets = target ∷ [];
          record_ttl = 60;
        })
        weight_key (weight_text n)

  -- The inner loop. An endpoint that is there is overwritten in place, so a later visit finds it as
  -- this one leaves it; a new one is not entered.
  unfoldable pub visit_targets :
      String → ℕ → List String → Dict Endpoint → List Endpoint × Dict Endpoint
  unfolding or_blank updated
  visit_targets dns_name n [] current = ([], current)
  visit_targets dns_name n (target ∷ targets) current =
      let found = lookup target current in
      let e = updated dns_name n target (or_blank target found) in
      let next : Dict Endpoint = elim found [ none ↦ current | some _ ↦ put target e current ] in
      let (es, last) = visit_targets dns_name n targets next in (e ∷ es, last)

  -- The outer loop, over the groups in the order in which the map is met.
  unfoldable pub visit_groups : String → Dict (List String) → Dict Endpoint → List Endpoint
  unfolding visit_targets
  visit_groups dns_name [] current = []
  visit_groups dns_name ((_, targets) ∷ groups) current =
      let (es, next) = visit_targets dns_name (length targets) targets current in
      es ++ visit_groups dns_name groups next

  unfoldable pub set_endpoint_from_targets : String → Dict (List String) → DnsRecord → DnsRecord
  unfolding endpoints_by_address visit_groups
  set_endpoint_from_targets dns_name groups r = record r {
    endpoints = sort (visit_groups dns_name groups (endpoints_by_address r.endpoints []));
  }
