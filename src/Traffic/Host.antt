-- ===== src/Traffic/Host.antt =====
-- host.go: the reconciler of the hosts of a traffic object.
pub mod Success
use kcp_glbc.Prelude.{List, Option, none, some, ◌^^◌, Error, errorf, Result, ok, err}
use kcp_glbc.Api.{DomainVerification}
use kcp_glbc.Traffic.Dns.{ReconcileStatus, stop, continue}

-- `process` is `ProcessCustomHosts` of the object, and `none` a panic in it.
module _ {A W : Type 0} (get_domain_verifications : A → W → Result (List DomainVerification))
    (process : List DomainVerification → A → W → Option (Option Error × A × W)) where
  abbrev Outcome : Type 0
  Outcome = ReconcileStatus × Option Error × A × W

  take_processed : Option (Option Error × A × W) → Option Outcome
  take_processed none = none
  take_processed (some (some e, a, wd)) =
      some (stop, some (errorf ("error processing custom hosts: " ^^ e.text)), a, wd)
  take_processed (some (none, a, wd)) = some (continue, none, a, wd)

  with_verifications : Result (List DomainVerification) → A → W → Option Outcome
  unfolding take_processed
  with_verifications (err e) a wd =
      some (continue, some (errorf ("error getting domain verifications: " ^^ e.text)), a, wd)
  with_verifications (ok dvs) a wd = take_processed (process dvs a wd)

  unfoldable pub reconcile_hosts : A → W → Option Outcome
  unfolding with_verifications
  reconcile_hosts a wd = with_verifications (get_domain_verifications a wd) a wd
