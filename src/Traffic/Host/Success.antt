-- ===== src/Traffic/Host/Success.antt =====
-- host.go: what a success of the host reconciler went through, and what it may change.
use kcp_glbc.Prelude.{
  List, Option, none, some, Error, Result, ok, err, ◌≡◌, refl, ap, arith, some-injective, Ends,
}
use kcp_glbc.Api.{DomainVerification}
use kcp_glbc.Traffic.Dns.{ReconcileStatus}
use kcp_glbc.Traffic.Host.{take_processed, with_verifications, reconcile_hosts}

module _ {A W : Type 0} (get : A → W → Result (List DomainVerification))
    (process : List DomainVerification → A → W → Option (Option Error × A × W)) where
  take_processed-none :
      (r : Option (Option Error × A × W)) (status : ReconcileStatus) (b : A) (wd : W)
      → take_processed get process r ≡ some (status, none, b, wd)
      → r ≡ some (none, b, wd)
  unfolding take_processed
  take_processed-none none status b wd h = absurd (ground (arith, h))
  take_processed-none (some (some e, a, wd')) status b wd h = absurd (ground (arith, h))
  take_processed-none (some (none, a, wd')) status b wd h =
      ap (λ (x : ReconcileStatus × Option Error × A × W). some (x.1, x.2, x.3)) (some-injective h)

  with_verifications-none :
      (found : Result (List DomainVerification)) (a b : A) (wd wd' : W) (status : ReconcileStatus)
      → with_verifications get process found a wd ≡ some (status, none, b, wd')
      → (dvs : List DomainVerification) × (found ≡ ok dvs)
        × (process dvs a wd ≡ some (none, b, wd'))
  unfolding with_verifications
  with_verifications-none (err e) a b wd wd' status h = absurd (ground (arith, h))
  with_verifications-none (ok dvs) a b wd wd' status h =
      (dvs, refl, take_processed-none (process dvs a wd) status b wd' h)

  pub reconcile_hosts-none :
      (a b : A) (wd wd' : W) (status : ReconcileStatus)
      → reconcile_hosts get process a wd ≡ some (status, none, b, wd')
      → (dvs : List DomainVerification) × (get a wd ≡ ok dvs)
        × (process dvs a wd ≡ some (none, b, wd'))
  unfolding reconcile_hosts
  reconcile_hosts-none a b wd wd' status h = with_verifications-none (get a wd) a b wd wd' status h

  module _ (P : A → Type 0) where
    take_processed-Ends :
        (r : Option (Option Error × A × W))
        → Ends (λ (x : Option Error × A × W). P x.1) r
        → Ends
            (λ (x : ReconcileStatus × Option Error × A × W). P x.2)
            (take_processed get process r)
    unfolding take_processed
    take_processed-Ends none h = tt
    take_processed-Ends (some (some e, a, wd)) h = h
    take_processed-Ends (some (none, a, wd)) h = h

    with_verifications-Ends :
        (found : Result (List DomainVerification)) (a : A) (wd : W)
        → P a
        → ((dvs : List DomainVerification)
            → Ends (λ (x : Option Error × A × W). P x.1) (process dvs a wd))
        → Ends
            (λ (x : ReconcileStatus × Option Error × A × W). P x.2)
            (with_verifications get process found a wd)
    unfolding with_verifications
    with_verifications-Ends (err e) a wd h k = h
    with_verifications-Ends (ok dvs) a wd h k = take_processed-Ends (process dvs a wd) (k dvs)

    -- A property that `ProcessCustomHosts` keeps is kept by the reconciler.
    pub reconcile_hosts-Ends :
        (a : A) (wd : W)
        → P a
        → ((dvs : List DomainVerification)
            → Ends (λ (x : Option Error × A × W). P x.1) (process dvs a wd))
        → Ends
            (λ (x : ReconcileStatus × Option Error × A × W). P x.2)
            (reconcile_hosts get process a wd)
    unfolding reconcile_hosts
    reconcile_hosts-Ends a wd h k = with_verifications-Ends (get a wd) a wd h k
