-- ===== src/Reconciler/Ingress/Events/Matches.antt =====
-- controller.go: `HostMatches` and `IsDomainVerified` walk up the same domains, and which ingresses a
-- domain verification wakes.
use kcp_glbc.Prelude.{
  ℕ, zero, suc, String, List, [], ◌∷◌, true, cut, eq_iff, ◌≡◌, refl, arith, Option-cases, inl, inr,
}
use kcp_glbc.Api.{DomainVerification}
use kcp_glbc.Traffic.Workload.{Workload}
use kcp_glbc.Traffic.Domain.{size, verify, is_domain_verified}
use kcp_glbc.Traffic.Ingress.{Ingress, tmc_enabled}
use kcp_glbc.Traffic.Ingress.Hosts.{Codec}
use kcp_glbc.Reconciler.Ingress.Events.{matches, host_matches, waiting_for}

matches-verify :
    (fuel : ℕ) (host : String) (dv : DomainVerification)
    → dv.status.verified ≡ true
    → verify fuel host (dv ∷ []) ≡ matches fuel host dv.domain
unfolding verify matches
matches-verify zero host dv h = refl
matches-verify (suc fuel) host dv h = elim (Option-cases (cut b'.' host)) [
  | inl e ↦ ground (arith, e, h, eq_iff dv.domain host, eq_iff host dv.domain)
  | inr ((label, parent), e) ↦
      ground
        (arith, e, h, eq_iff dv.domain host, eq_iff host dv.domain, matches-verify fuel parent dv h)
]

-- A host matches the domain of a verified domain verification exactly where that verification alone
-- makes the host a verified one.
pub host_matches_iff :
    (host : String) (dv : DomainVerification)
    → dv.status.verified ≡ true
    → is_domain_verified host (dv ∷ []) ≡ host_matches host dv.domain
unfolding is_domain_verified host_matches
host_matches_iff host dv h = matches-verify (suc (size host)) host dv h

module _ {V : Type 0} (w : Workload) (codec : Codec V) (lower : String → String) where
  -- An ingress of the list that runs under TMC ends the search: whatever ingresses come after it, the
  -- answer is the same.
  pub waiting_for-hides :
      (domain : String) (a : Ingress V) (rest bs found : List (Ingress V))
      → tmc_enabled w a ≡ true
      → waiting_for w codec lower domain (a ∷ rest) found
        ≡ waiting_for w codec lower domain (a ∷ bs) found
  unfolding waiting_for
  waiting_for-hides domain a rest bs found h = rw (h, waiting_for) refl
