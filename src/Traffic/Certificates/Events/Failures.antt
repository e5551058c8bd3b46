-- ===== src/Traffic/Certificates/Events/Failures.antt =====
-- tls.go: what the handler of updated certificates does.
use kcp_glbc.Prelude.{ℕ, [], none, some, true, false, not, ◌&&◌, ◌≡◌, ◌↔◌, ltb, arith}
use kcp_glbc.Traffic.Certificates.Events.{
  Certificate, observe, certificate_ready, has_failed, with_answer, failed_renewal,
  certificate_updated_handler,
}

-- The handler panics exactly if the new certificate is not ready and, by its test, has failed while
-- the old one has not.
pub certificate_updated_handler-none_iff :
    (old new : Certificate)
    → (certificate_updated_handler old new ≡ none)
      ↔ ((not (certificate_ready new) && has_failed new new && not (has_failed new old)) ≡ true)
unfolding certificate_updated_handler with_answer observe
certificate_updated_handler-none_iff old new = (λ h. ground arith, λ h. ground arith)

-- Where the new certificate shows a failed renewal, the handler changes no metric for the failure and
-- does not panic: the renewal counts as failed already for the old certificate, whatever that holds.
pub certificate_updated_handler-renewal :
    (old new : Certificate) (failure renewal : ℕ)
    → certificate_ready new ≡ false
    → new.last_failure_time ≡ some failure
    → new.renewal_time ≡ some renewal
    → ltb renewal failure ≡ true
    → certificate_updated_handler old new ≡ some (false, [])
unfolding certificate_updated_handler has_failed failed_renewal
certificate_updated_handler-renewal old new failure renewal r f n late =
    ground (arith, r, f, n, late)
