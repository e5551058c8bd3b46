-- ===== src/Traffic/Certificates/Events.antt =====
-- tls.go and vars.go: the handlers of certificate events, and the metrics that they change.
pub mod Failures
use kcp_glbc.Prelude.{
  ℕ, String, List, [], ◌∷◌, ◌++◌, Option, none, some, Bool, true, false, not, ◌&&◌, ◌||◌, ◌==◌,
  ◌^^◌, Dict, contains, has, length, same, leb, ltb, all, if◌then◌else◌, Error, errorf,
  is_already_exists, is_cert_not_ready, Result, ok, err,
}

-- The metrics, by the labels that they are declared with.
pub data Metric : Type 0 where
  request_count request_total issuance_duration request_errors : Metric

abbrev pub labels_of : Metric → List String
labels_of request_count = "issuer" ∷ []
labels_of request_total = "issuer" ∷ "result" ∷ []
labels_of issuance_duration = "issuer" ∷ "result" ∷ []
labels_of request_errors = "issuer" ∷ []

-- A change of a metric, with the values of `WithLabelValues`.
pub record Observation : Type 0 where
  pub metric : Metric
  pub operation : String
  pub values : List String

-- `WithLabelValues` panics, `none`, when there are more or fewer values than labels.
unfoldable pub observe : List Observation → Option (List Observation)
observe [] = some []
observe (o ∷ os) =
    let later = observe os in
    if same (length o.values) (length (labels_of o.metric))
    then elim later [ none ↦ none | some rest ↦ some (o ∷ rest) ]
    else none

pub record CertificateCondition : Type 0 where
  pub type : String
  pub status : String

-- The fields of cert-manager's `Certificate` that are read, times in seconds.
pub record Certificate : Type 0 where
  pub issuer : String
  pub conditions : List CertificateCondition
  pub revision : Option ℕ
  pub last_failure_time : Option ℕ
  pub renewal_time : Option ℕ

ready_in : List CertificateCondition → Bool
ready_in [] = false
ready_in (c ∷ cs) = if c.type == "Ready" then c.status == "True" else ready_in cs

unfoldable pub certificate_ready : Certificate → Bool
unfolding ready_in
certificate_ready cert = ready_in cert.conditions

-- A missing revision counts as 0.
abbrev is_first : Option ℕ → Bool
is_first none = true
is_first (some n) = same n 1 || same n 0

failed_renewal : Option ℕ → Option ℕ → Bool
failed_renewal (some failure) (some renewal) = ltb renewal failure
failed_renewal _ _ = false

first_failure : Option ℕ → Option ℕ → Bool
first_failure (some failure) none = true
first_failure _ _ = false

-- The closure `hasFailed`, which reads the new certificate in its second test, whichever it is
-- called with.
unfoldable pub has_failed : Certificate → Certificate → Bool
unfolding failed_renewal first_failure
has_failed new cert =
    first_failure cert.last_failure_time cert.renewal_time
    || failed_renewal new.last_failure_time new.renewal_time

abbrev pub succeeded_observations : String → List Observation
succeeded_observations issuer =
    record { metric = request_count; operation = "Dec"; values = issuer ∷ [] }
    ∷ record { metric = request_total; operation = "Inc"; values = issuer ∷ "succeeded" ∷ [] }
    ∷ record {
      metric = issuance_duration;
      operation = "Observe";
      values = issuer ∷ "succeeded" ∷ [];
    }
    ∷ []

with_answer : Bool → Option (List Observation) → Option (Bool × List Observation)
with_answer enqueue none = none
with_answer enqueue (some os) = some (enqueue, os)

-- The answer `Enqueue`, with the changes of metrics; `none` is a panic.
unfoldable pub certificate_updated_handler :
    Certificate → Certificate → Option (Bool × List Observation)
unfolding has_failed certificate_ready observe with_answer
certificate_updated_handler old new =
    if not (certificate_ready old) && certificate_ready new
    then with_answer true
        (observe (if is_first new.revision then succeeded_observations new.issuer else []))
    else if not (certificate_ready new) && has_failed new new && not (has_failed new old)
    then with_answer false (
        observe (
          record { metric = request_errors; operation = "Inc"; values = new.issuer ∷ "failed" ∷ [] }
          ∷ []))
    else some (false, [])

unfoldable pub certificate_added_handler : Certificate → Option (List Observation)
unfolding observe
certificate_added_handler cert =
    observe (record { metric = request_count; operation = "Inc"; values = cert.issuer ∷ [] } ∷ [])

unfoldable pub certificate_deleted_handler : Certificate → Option (List Observation)
unfolding observe certificate_ready
certificate_deleted_handler cert =
    if certificate_ready cert
    then some []
    else observe
        (record { metric = request_count; operation = "Dec"; values = cert.issuer ∷ [] } ∷ [])
