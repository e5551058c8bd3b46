-- ===== src/Traffic/Certificates.antt =====
-- tls.go: the reconciler of the certificates of traffic objects, ingresses and routes.
pub mod Events
pub mod Secrets
pub mod Frame
use kcp_glbc.Prelude.{
  ℕ, String, List, [], ◌∷◌, ◌++◌, Option, none, some, Bool, true, false, not, ◌&&◌, ◌||◌, ◌==◌,
  ◌^^◌, Dict, contains, has, length, same, leb, ltb, all, if◌then◌else◌, Error, errorf,
  is_already_exists, is_cert_not_ready, Result, ok, err,
}
use kcp_glbc.Metadata.{add_annotation}
use kcp_glbc.Traffic.Dns.{ReconcileStatus, stop, continue, traffic_key_annotation}
use kcp_glbc.Traffic.Object.{TrafficObject, Secret, err_generated_host_missing}

abbrev pub state_annotation : String
state_annotation = "kuadrant.dev/certificate-status"

pub record CertificateRequest : Type 0 where
  pub name : String
  pub labels : Dict String
  pub annotations : Dict String
  pub host : String

-- The functions of a `CertificateReconciler`, and those of package strings and of the client that it
-- calls: `lower` is `ToLower`, `without_colons` is `ReplaceAll` of ":" by "".
pub record CertificateServices (W : Type 0) : Type 0 where
  pub create_certificate : CertificateRequest → W → Option Error × W
  pub delete_certificate : CertificateRequest → W → Option Error × W
  pub get_certificate_secret : CertificateRequest → W → Result Secret
  pub get_certificate_status : CertificateRequest → W → Result String
  pub copy_secret : String → String → Secret → W → Option Error × W
  pub get_secret : String → String → String → W → Result Secret
  pub delete_secret : String → String → String → W → Option Error × W
  pub lower : String → String
  pub without_colons : String → String

abbrev pub is_missing : Option Error → Bool
is_missing none = true
is_missing (some e) = contains e.text "not found"

module _ {A W : Type 0} (o : TrafficObject A) (sv : CertificateServices W) where
  open o use {kind, meta, with_meta, get_cache_key, get_hcg_host, add_tls}
  open sv use {
    create_certificate, delete_certificate, get_certificate_secret, get_certificate_status,
    copy_secret, get_secret, delete_secret, lower, without_colons,
  }

  abbrev pub certificate_name : A → String
  certificate_name a = lower (
      without_colons
        ((meta a).cluster ^^ "-" ^^ kind ^^ "-" ^^ (meta a).namespace ^^ "-" ^^ (meta a).name))

  abbrev pub tls_secret_name : A → String
  tls_secret_name a = lower ("hcg-tls-" ^^ kind ^^ "-" ^^ (meta a).name)

  abbrev pub request_for : A → String → CertificateRequest
  request_for a host = record {
    name = certificate_name a;
    labels = ("kuadrant.dev/hcg.managed", "true") ∷ [];
    annotations =
        (traffic_key_annotation, get_cache_key a) ∷ ("kuadrant.dev/traffic-kind", kind) ∷ [];
    host = host;
  }

  abbrev pub with_state : A → String → A
  with_state a state = with_meta (add_annotation (meta a) state_annotation state) a

  unfoldable pub delete_certificates : A → W → ReconcileStatus × Option Error × A × W
  delete_certificates a wd =
      let (failed, wd1) = delete_certificate (request_for a "") wd in
      let (failed', wd2) =
        delete_secret (meta a).cluster (meta a).namespace (tls_secret_name a) wd1 in
      if not (is_missing failed)
      then (stop, failed, a, wd1)
      else if not (is_missing failed')
      then (stop, failed', a, wd2)
      else (continue, none, a, wd2)

  -- The TLS entry is set with the secret in the namespace of the object.
  set_tls : A → Result Secret → W → ReconcileStatus × Option Error × A × W
  set_tls a (err e) wd = (
    stop,
    some (
        errorf
          ("certificate reconciler: error getting secret to set on accessor error: " ^^ e.text)),
    a,
    wd,
  )
  set_tls a (ok secret) wd = (continue, none, add_tls (get_hcg_host a) secret a, wd)

  set_tls_from_cluster : A → W → ReconcileStatus × Option Error × A × W
  unfolding set_tls
  set_tls_from_cluster a wd =
      set_tls a (get_secret (tls_secret_name a) (meta a).namespace (meta a).cluster wd) wd

  -- The certificate is not ready: its state goes into the annotation.
  report_state : A → Result String → W → ReconcileStatus × Option Error × A × W
  report_state a (err e) wd = (
    stop,
    some (errorf ("certificate reconciler: error getting certificate status error: " ^^ e.text)),
    a,
    wd,
  )
  report_state a (ok status) wd = (continue, none, with_state a status, wd)

  copy_certificate_secret : A → Result Secret → W → ReconcileStatus × Option Error × A × W
  unfolding report_state set_tls_from_cluster
  copy_certificate_secret a (err e) wd =
      if is_cert_not_ready e
      then report_state a (get_certificate_status (request_for a (get_hcg_host a)) wd) wd
      else (
        stop,
        some
            (errorf ("certificate reconciler: error getting certificate secret error: " ^^ e.text)),
        a,
        wd,
      )
  copy_certificate_secret a (ok secret) wd =
      let ready = with_state a "ready" in
      let (failed, wd') =
        copy_secret (meta a).cluster (meta a).namespace
          (record secret { name = tls_secret_name a; namespace = (meta a).namespace }) wd in
      let copied = set_tls_from_cluster ready wd' in
      elim failed [
        | some e ↦ (
          stop,
          some (errorf ("certificate reconciler: error copying secret error: " ^^ e.text)),
          ready,
          wd',
        )
        | none ↦ copied
      ]

  created : A → Option Error → W → ReconcileStatus × Option Error × A × W
  unfolding copy_certificate_secret set_tls_from_cluster
  created a none wd = set_tls_from_cluster (with_state a "requested") wd
  created a (some e) wd =
      if is_already_exists e
      then copy_certificate_secret (with_state a "requested")
          (get_certificate_secret (request_for a (get_hcg_host a)) wd) wd
      else (
        stop,
        some (errorf ("certificate reconciler: error creating certificate, error: " ^^ e.text)),
        a,
        wd,
      )

  request_certificate : A → W → ReconcileStatus × Option Error × A × W
  unfolding created
  request_certificate a wd =
      let (failed, wd') = create_certificate (request_for a (get_hcg_host a)) wd in
      if (get_hcg_host a) == ""
      then (stop, some err_generated_host_missing, a, wd)
      else created a failed wd'

  unfoldable pub reconcile_tls : A → W → ReconcileStatus × Option Error × A × W
  unfolding delete_certificates request_certificate
  reconcile_tls a wd =
      if (meta a).deleting then delete_certificates a wd else request_certificate a wd
