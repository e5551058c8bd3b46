-- ===== src/Domains.antt =====
-- pkg/domains/domainverification and pkg/dns/verification.go: the status of a domain verification.
pub mod Status
use kcp_glbc.Prelude.{
  ℕ, ◌+◌, String, List, [], ◌∷◌, Option, none, some, Bool, true, false, ◌==◌, ◌^^◌, any,
  if◌then◌else◌, Error, errorf, Result, ok, err,
}
use kcp_glbc.Api.{ObjectMeta, DomainVerification, DomainVerificationStatus}
use kcp_glbc.Metadata.{trim_space}

abbrev pub is_no_such_host : Error → Bool
is_no_such_host e = e.text == "no such host"

-- What is made of the answer of the resolver's `LookupTXT`.
look_for : String → String → Result (List String) → Result Bool
look_for domain value (err e) =
    err (errorf ("error looking for TXT record on '" ^^ domain ^^ "': " ^^ e.text))
look_for domain value (ok values) = ok (any (λ txt. trim_space txt == trim_space value) values)

unfoldable pub txt_record_exists : (String → Result (List String)) → String → String → Result Bool
unfolding look_for
txt_record_exists lookup_txt domain value = look_for domain value (lookup_txt domain)

pub data ReconcileStatus : Type 0 where
  stop : ReconcileStatus
  continue : ReconcileStatus

-- The verifier, `GetToken`, which hashes the name of the cluster, the clock, the time until the
-- next check, and `multierror.Append` with the aggregation of errors.
pub record Verifier : Type 0 where
  pub exists : String → String → Result Bool
  pub get_token : DomainVerification → String
  pub now : ℕ
  pub recheck : ℕ
  pub combine : Error → Error

module _ (v : Verifier) where
  open v use {exists, get_token, now, recheck, combine}

  abbrev with_status : DomainVerification → DomainVerificationStatus → DomainVerification
  with_status dv s = record dv { status = s }

  -- The answer of the verifier goes into the status.
  take_answer : Result Bool → DomainVerification → Bool × Option Error × DomainVerification
  take_answer (err e) dv = (
    false,
    some e,
    with_status dv (record dv.status {
      message = "domain verification was not successful: " ^^ e.text;
      next_check = some (now + recheck);
    }),
  )
  take_answer (ok false) dv = (
    false,
    none,
    with_status dv (record dv.status {
      message = "domain verification was not successful: TXT record does not exist";
      next_check = some (now + recheck);
    }),
  )
  take_answer (ok true) dv = (
    true,
    none,
    with_status dv
        (record dv.status { message = "domain verification was successful"; verified = true }),
  )

  unfoldable pub ensure_domain_verification_status :
      DomainVerification → Bool × Option Error × DomainVerification
  unfolding take_answer
  ensure_domain_verification_status dv =
      let reset = with_status dv (record dv.status { verified = false }) in
      let checked = with_status reset (record reset.status { last_checked = some now }) in
      if reset.status.token == ""
      then (false, none, with_status reset (record reset.status { token = get_token reset }))
      else if reset.status.verified
      then (true, none, reset)
      else take_answer (exists checked.domain checked.status.token) checked

  -- The flag says that the domain is put into the queue again.
  unfoldable pub reconcile_status :
      DomainVerification → ReconcileStatus × Option Error × DomainVerification × Bool
  unfolding ensure_domain_verification_status
  reconcile_status dv =
      let (verified, failed, dv') = ensure_domain_verification_status dv in
      let status : ReconcileStatus = elim failed [ none ↦ continue | some _ ↦ stop ] in
      let error : Option Error = elim failed [
        | none ↦ none
        | some e ↦
            if is_no_such_host e
            then none
            else some (combine (errorf ("error ensuring domain verification: " ^^ e.text)))
      ] in
      if verified then (status, error, dv', false) else (stop, error, dv', true)

  -- The controller's loop, over its one reconciler.
  unfoldable pub reconcile_verification :
      DomainVerification → Option Error × DomainVerification × Bool
  unfolding reconcile_status
  reconcile_verification dv =
      let (_, failed, dv', again) = reconcile_status dv in
      let error : Option Error = elim failed [
        | none ↦ none
        | some e ↦
            some (combine (errorf ("error from reconciler 'domainVerificationStatus': " ^^ e.text)))
      ] in
      (error, dv', again)

  -- The API server: a write answers with the new resource version.
  module _ (Server : Type 0)
      (update_status update_object : DomainVerification → Server → Result String × Server)
      (status_equal : DomainVerificationStatus → DomainVerificationStatus → Bool)
      (verification_equal : DomainVerification → DomainVerification → Bool) where
    write_object : DomainVerification → DomainVerification → Server → Option Error × Server
    write_object previous current sv =
        let (answer, sv') = update_object current sv in
        if verification_equal previous current then (none, sv) else (
          elim answer [
            | ok _ ↦ none
            | err e ↦ some (errorf ("could not update object: " ^^ e.text))
          ],
          sv',
        )

    write_back : DomainVerification → DomainVerification → Server → Option Error × Server
    unfolding write_object
    write_back previous current sv =
        let (answer, sv') = update_status current sv in
        if status_equal previous.status current.status
        then write_object previous current sv
        else elim answer [
          | err e ↦ (some (errorf ("could not update status: " ^^ e.text)), sv')
          | ok version ↦
              write_object previous
                (record current { meta = record current.meta { resource_version = version } }) sv'
        ]

    -- `found` is the answer of the informer's index. The flag says that the domain is put into the
    -- queue again.
    unfoldable pub process_verification :
        Result (Option DomainVerification) → Server → Option Error × Server × Bool
    unfolding write_back reconcile_verification
    process_verification (err e) sv = (some e, sv, false)
    process_verification (ok none) sv = (none, sv, false)
    process_verification (ok (some previous)) sv =
        let (failed, current, again) = reconcile_verification previous in
        let (error, sv') = write_back previous current sv in
        elim failed [ some e ↦ (some e, sv, again) | none ↦ (error, sv', again) ]
