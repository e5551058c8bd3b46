-- ===== src/Tls/Requests.antt =====
-- cert_manager.go: which hosts may have a certificate, and what the deletion of one leaves.
use kcp_glbc.Prelude.{
  String, List, [], ◌∷◌, some, true, ◌^^◌, eq_refl, has_suffix, Any, ◌≡◌, refl, arith, Error, err,
  inl, inr,
}
use text.Mathlib.TextLemmas.{cons-append, nil-append}
use kcp_glbc.Traffic.Certificates.{CertificateRequest}
use kcp_glbc.Tls.{CertManager, is_valid_domain, update_found, update, delete_parts, delete}

has_suffix_refl : (d : String) → has_suffix d d ≡ true
unfolding has_suffix
has_suffix_refl String.[] = refl
has_suffix_refl (String.◌∷◌ c d) = ground (arith, eq_refl (String.◌∷◌ c d))

has_suffix-append : (x d : String) → has_suffix (x ^^ d) d ≡ true
unfolding has_suffix
has_suffix-append String.[] d = rw (nil-append d) (has_suffix_refl d)
has_suffix-append (String.◌∷◌ c x) d =
    rw (cons-append c x d) (ground (arith, has_suffix-append x d))

-- A host that ends in the text of an allowed domain passes the check, whatever stands before, also
-- without a dot between: "evilhcg.com" where "hcg.com" is allowed.
pub is_valid_domain-append :
    (x d : String) (allowed : List String)
    → Any (λ v. v ≡ d) allowed
    → is_valid_domain (x ^^ d) allowed ≡ true
unfolding is_valid_domain
is_valid_domain-append x d [] h = absurd h
is_valid_domain-append x d (v ∷ vs) (inl e) = rw e (ground (arith, has_suffix-append x d))
is_valid_domain-append x d (v ∷ vs) (inr h) = ground (arith, is_valid_domain-append x d vs h)

module _ {W : Type 0} (cm : CertManager W) where
  -- Where the certificate cannot be read, `Delete` changes nothing and returns that error, also if the
  -- error says that there is no such certificate: the secret of the certificate stays.
  pub delete-unread :
      (cr : CertificateRequest) (wd : W) (e : Error)
      → cm.get_certificate cr.name wd ≡ err e
      → delete cm cr wd ≡ (some e, wd)
  unfolding delete update delete_parts update_found
  delete-unread cr wd e h = rw (h, delete, delete_parts, update, update_found) refl
