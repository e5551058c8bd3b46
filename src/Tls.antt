-- ===== src/Tls.antt =====
-- pkg/tls/cert_manager.go: the provider that asks cert-manager for certificates.
pub mod Requests
use kcp_glbc.Prelude.{
  String, List, [], ◌∷◌, Option, none, some, Bool, true, false, not, ◌&&◌, ◌||◌, ◌==◌, ◌^^◌, Dict,
  put, has_suffix, any, if◌then◌else◌, Reason, Error, errorf, is_not_found, Result, ok, err, ◌>>=◌,
}
use kcp_glbc.Api.{ObjectMeta}
use kcp_glbc.Metadata.{add_finalizer, remove_finalizer}
use kcp_glbc.Traffic.Object.{Secret}
use kcp_glbc.Traffic.Certificates.{CertificateRequest}
use kcp_glbc.Traffic.Certificates.Events.{CertificateCondition}

abbrev pub cert_finalizer : String
cert_finalizer = "kuadrant.dev/certificates-cleanup"

abbrev pub tls_issuer_annotation : String
tls_issuer_annotation = "kuadrant.dev/tls-issuer"

abbrev pub cert_not_ready_err : Error
cert_not_ready_err = record {
  reason = Reason.cert_not_ready;
  text = "certificate is not ready yet ";
}

-- cert-manager's `Certificate`, without the durations, the usages and the key's kind, which are
-- constants. The template of the secret has the labels and the annotations of the certificate.
pub record ManagedCertificate : Type 0 where
  pub meta : ObjectMeta
  pub secret_name : String
  pub dns_names : List String
  pub issuer : String
  pub conditions : List CertificateCondition

-- The clients, for the namespace of the certificates.
pub record CertManager (W : Type 0) : Type 0 where
  pub issuer_id : String
  pub certificate_ns : String
  pub valid_domains : List String
  pub get_certificate : String → W → Result ManagedCertificate
  pub create_certificate : ManagedCertificate → W → Option Error × W
  pub update_certificate : ManagedCertificate → W → Option Error × W
  pub delete_certificate : String → W → Option Error × W
  pub get_secret : String → W → Result Secret
  pub delete_secret : String → W → Option Error × W

unfoldable pub is_valid_domain : String → List String → Bool
is_valid_domain host allowed = any (λ v. has_suffix host v) allowed

some_unready : List CertificateCondition → Bool
some_unready cs =
    any (λ (c : CertificateCondition). c.type == "Ready" && not (c.status == "True")) cs

status_in : List CertificateCondition → String
status_in [] = "unknown"
status_in (c ∷ cs) =
    if c.type == "Issuing" && c.status == "True"
    then "issuing"
    else if c.type == "Ready" && c.status == "True"
    then "ready"
    else status_in cs

put_all : Dict String → Dict String → Dict String
put_all [] m = m
put_all ((k, v) ∷ from) m = put_all from (put k v m)

module _ {W : Type 0} (cm : CertManager W) where
  open cm use {
    issuer_id, certificate_ns, valid_domains, get_certificate, create_certificate,
    update_certificate, delete_certificate, get_secret, delete_secret,
  }

  unfoldable pub get_certificate_secret : CertificateRequest → W → Result Secret
  unfolding some_unready
  get_certificate_secret request wd = get_certificate request.name wd >>= λ c.
      if some_unready c.conditions then err cert_not_ready_err else get_secret c.secret_name wd

  unfoldable pub get_certificate_status : CertificateRequest → W → Result String
  unfolding status_in
  get_certificate_status request wd =
      get_certificate request.name wd >>= λ c. ok (status_in c.conditions)

  unfoldable pub certificate : CertificateRequest → ManagedCertificate
  certificate cr = record {
    meta = record {
      name = cr.name;
      namespace = certificate_ns;
      cluster = "";
      resource_version = "";
      generation = 0;
      deleting = false;
      annotations = put tls_issuer_annotation issuer_id cr.annotations;
      labels = cr.labels;
      finalizers = [];
    };
    secret_name = cr.name;
    dns_names = cr.host ∷ [];
    issuer = issuer_id;
    conditions = [];
  }

  unfoldable pub create : CertificateRequest → W → Option Error × W
  unfolding certificate
  create cr wd =
      let cert = certificate cr in
      if not (is_valid_domain cr.host valid_domains)
      then (
        some (errorf ("cannot create certificate for host " ^^ cr.host ^^ " invalid domain")),
        wd,
      )
      else create_certificate (record cert { meta = add_finalizer cert.meta cert_finalizer }) wd

  unfoldable pub merged : Bool → CertificateRequest → ManagedCertificate → ManagedCertificate
  unfolding put_all
  merged clean_up_finalizer cr cert =
      let meta : ObjectMeta = record cert.meta {
        labels = put_all cr.labels cert.meta.labels;
        annotations = put_all cr.annotations cert.meta.annotations;
      } in
      record cert {
        meta = if clean_up_finalizer then remove_finalizer meta cert_finalizer else meta;
      }

  update_found : Bool → CertificateRequest → Result ManagedCertificate → W → Option Error × W
  unfolding merged
  update_found clean_up_finalizer cr (err e) wd = (some e, wd)
  update_found clean_up_finalizer cr (ok cert) wd =
      update_certificate (merged clean_up_finalizer cr cert) wd

  -- The flag is the field `cleanUpFinalizer` of the request.
  unfoldable pub update : Bool → CertificateRequest → W → Option Error × W
  unfolding update_found
  update clean_up_finalizer cr wd =
      update_found clean_up_finalizer cr (get_certificate cr.name wd) wd

  -- An error ends the deletion, unless it says that there is nothing.
  unless_missing : Option Error × W → (W → Option Error × W) → Option Error × W
  unless_missing (none, wd) next = next wd
  unless_missing (some e, wd) next = if is_not_found e then next wd else (some e, wd)

  delete_parts : CertificateRequest → Option Error × W → Option Error × W
  unfolding unless_missing
  delete_parts cr (some e, wd) = (some e, wd)
  delete_parts cr (none, wd) =
      unless_missing (delete_certificate cr.name wd)
        (λ wd'. unless_missing (delete_secret cr.name wd') (λ wd''. (none, wd'')))

  unfoldable pub delete : CertificateRequest → W → Option Error × W
  unfolding delete_parts
  delete cr wd = delete_parts cr (update true cr wd)
