-- ===== src/Api.antt =====
-- pkg/apis/kuadrant/v1/types.go: the resources that the controllers read and write.
pub mod Endpoints
pub mod ProviderSpecific
use kcp_glbc.Prelude.{ℕ, String, List, Option, Dict, Bool}
use kcp_glbc.Prelude.Int.{ℤ}
use Endpoints.{Endpoint}

-- The parts of `metav1.ObjectMeta` that the program reads. `deleting` is a deletion timestamp that
-- is neither nil nor zero.
pub record ObjectMeta : Type 0 where
  pub name : String
  pub namespace : String
  pub cluster : String
  pub resource_version : String
  pub generation : ℕ
  pub deleting : Bool
  pub annotations : Dict String
  pub labels : Dict String
  pub finalizers : List String

-- A nil map of tags is `none`.
pub record DnsZone : Type 0 where
  pub id : String
  pub tags : Option (Dict String)

pub record DnsZoneCondition : Type 0 where
  pub type : String
  pub status : String
  pub last_transition_time : ℕ
  pub reason : String
  pub message : String

pub record DnsZoneStatus : Type 0 where
  pub zone : DnsZone
  pub conditions : List DnsZoneCondition
  pub endpoints : List Endpoint

pub record DnsRecordStatus : Type 0 where
  pub zones : List DnsZoneStatus
  pub observed_generation : ℕ

-- `endpoints` is `Spec.Endpoints`.
pub record DnsRecord : Type 0 where
  pub meta : ObjectMeta
  pub open meta use *
  pub endpoints : List Endpoint
  pub status : DnsRecordStatus

abbrev pub succeeded_condition_type : String
succeeded_condition_type = "Succeeded"

pub data HealthCheckProtocol : Type 0 where
  http https : HealthCheckProtocol

pub record HealthCheck : Type 0 where
  pub id : String
  pub name : String
  pub port : Option ℤ
  pub failure_threshold : Option ℤ
  pub path : String
  pub protocol : Option HealthCheckProtocol

pub record DomainVerificationStatus : Type 0 where
  pub verified : Bool
  pub token : String
  pub message : String
  pub last_checked : Option ℕ
  pub next_check : Option ℕ

-- `domain` is `Spec.Domain`.
pub record DomainVerification : Type 0 where
  pub meta : ObjectMeta
  pub domain : String
  pub status : DomainVerificationStatus
