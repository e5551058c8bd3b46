-- ===== src/Domains/Status.antt =====
-- reconciler.go and verification.go: when a domain counts as verified, and the errors of the lookup.
use kcp_glbc.Prelude.{
  ℕ, String, List, some, Bool, true, false, not, ◌&&◌, ◌==◌, ◌^^◌, Error, Result, ok, err, ◌≡◌,
  refl, arith, Bool-cases, inl, inr, eq_iff, sym, ap, subst, ◌∙◌, code,
}
use text.Mathlib.TextLemmas.{cons-append}
use kcp_glbc.Api.{DomainVerification}
use kcp_glbc.Domains.{
  Verifier, is_no_such_host, txt_record_exists, look_for, take_answer, reconcile_verification,
}

-- The verifier found the record.
abbrev pub says_yes : Result Bool → Bool
says_yes (ok b) = b
says_yes (err e) = false

module _ (v : Verifier) (dv : DomainVerification) where
  verified-take_answer :
      (a : Result Bool)
      → dv.status.verified ≡ false
      → ((take_answer v a dv).0 ≡ says_yes a)
        × ((take_answer v a dv).2.status.verified ≡ says_yes a)
  unfolding take_answer
  verified-take_answer (ok true) h = (refl, refl)
  verified-take_answer (ok false) h = (refl, h)
  verified-take_answer (err e) h = (refl, h)

module _ (v : Verifier) (dv : DomainVerification) where
  checked : DomainVerification
  checked = record dv { status = record dv.status { verified = false; last_checked = some v.now } }

  -- Whatever the status was: after a reconciliation the domain is verified exactly if its token was
  -- set and the verifier finds that token for the domain now.
  pub verified-reconcile_verification :
      (reconcile_verification v dv).1.status.verified
      ≡ (not (dv.status.token == "") && says_yes (v.exists dv.domain dv.status.token))
  unfolding reconcile_verification checked
  verified-reconcile_verification =
      ground (arith, verified-take_answer v checked (v.exists dv.domain dv.status.token) refl)

  -- The domain goes into the queue again exactly if the reconciliation leaves it unverified.
  pub reconcile_verification-again :
      (reconcile_verification v dv).2 ≡ not (reconcile_verification v dv).1.status.verified
  unfolding reconcile_verification checked
  reconcile_verification-again =
      ground (arith, verified-take_answer v checked (v.exists dv.domain dv.status.token) refl)

first_code : String → ℕ
first_code String.[] = 0
first_code (String.◌∷◌ c s) = code c

text_of : Result Bool → String
text_of (ok b) = "e"
text_of (err e) = e.text

starts_otherwise : (s : String) → first_code s ≡ b'e' → (s == "no such host") ≡ false
unfolding first_code
starts_otherwise s h = elim (Bool-cases (s == "no such host")) [
  | inr e ↦ e
  | inl e ↦ absurd (other (sym h ∙ ap first_code ((eq_iff s "no such host").0 e)))
]
  where
    other : ◌≡◌ {A = ℕ} b'e' b'n' → ⊥
    other k = ground (arith, k)

first_code-append : (s t : String) → first_code s ≡ b'e' → first_code (s ^^ t) ≡ b'e'
unfolding first_code
first_code-append String.[] t h = ground (arith, h)
first_code-append (String.◌∷◌ c s) t h = rw (cons-append c s t) h

look_for-no_such_host :
    (domain value : String) (answer : Result (List String))
    → first_code (text_of (look_for domain value answer)) ≡ b'e'
unfolding look_for first_code text_of
look_for-no_such_host domain value (ok values) = refl
look_for-no_such_host domain value (err e) =
    first_code-append "error looking for TXT record on '" (domain ^^ "': " ^^ e.text) refl

-- The verifier over a resolver never answers with the error that says that there is no such host,
-- also where the resolver does.
pub txt_record_exists-no_such_host :
    (lookup_txt : String → Result (List String)) (domain value : String) (e : Error)
    → txt_record_exists lookup_txt domain value ≡ err e
    → is_no_such_host e ≡ false
unfolding txt_record_exists text_of
txt_record_exists-no_such_host lookup_txt domain value e h = starts_otherwise e.text (
    subst (λ (r : Result Bool). first_code (text_of r) ≡ b'e') h
      (look_for-no_such_host domain value (lookup_txt domain)))
