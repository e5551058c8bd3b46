-- ===== src/Traffic/Certificates/Frame.antt =====
-- tls.go: what `Reconcile` may change in a traffic object.
use kcp_glbc.Prelude.{
  String, Option, none, some, Bool, true, false, ◌≡◌, if◌then◌else◌, Error, errorf, Result, ok, err,
  ◌==◌, ◌^^◌, is_already_exists, is_cert_not_ready, subst, sym, arith,
}
use kcp_glbc.Metadata.{add_annotation}
use kcp_glbc.Traffic.Dns.{ReconcileStatus}
use kcp_glbc.Traffic.Object.{TrafficObject, Secret, err_generated_host_missing}
use kcp_glbc.Traffic.Certificates.{
  CertificateServices, delete_certificates, set_tls, set_tls_from_cluster, report_state,
  copy_certificate_secret, created, request_certificate, reconcile_tls, with_state, request_for,
  state_annotation, tls_secret_name,
}

-- A property that the annotation of the state and `AddTLS` keep is kept by `Reconcile`.
module _ {A W : Type 0} (o : TrafficObject A) (sv : CertificateServices W) (P : A → Type 0)
    (annotates : (a : A) (key value : String)
      → P a
      → P (o.with_meta (add_annotation (o.meta a) key value) a))
    (adds : (a : A) (host : String) (secret : Secret) → P a → P (o.add_tls host secret a)) where
  open o use {meta, get_hcg_host}
  open sv use {
    get_secret, create_certificate, get_certificate_secret, get_certificate_status, copy_secret,
  }

  abbrev Outcome : Type 0
  Outcome = ReconcileStatus × Option Error × A × W

  choice-frame :
      (b : Bool) (x y : Outcome) → P x.2 → P y.2 → P (if◌then◌else◌ {A = Outcome} b x y).2
  choice-frame true x y h k = h
  choice-frame false x y h k = k

  state-frame : (a : A) (state : String) → P a → P (with_state o sv a state)
  state-frame a state h = annotates a state_annotation state h

  set_tls-frame : (a : A) (answer : Result Secret) (wd : W) → P a → P (set_tls o sv a answer wd).2
  unfolding set_tls
  set_tls-frame a (err e) wd h = h
  set_tls-frame a (ok secret) wd h = adds a (get_hcg_host a) secret h

  from_cluster-frame : (a : A) (wd : W) → P a → P (set_tls_from_cluster o sv a wd).2
  unfolding set_tls_from_cluster
  from_cluster-frame a wd h = set_tls-frame a _ wd h

  report_state-frame :
      (a : A) (status : Result String) (wd : W) → P a → P (report_state o sv a status wd).2
  unfolding report_state
  report_state-frame a (err e) wd h = h
  report_state-frame a (ok status) wd h = state-frame a status h

  copied-frame :
      (failed : Option Error) (x : Outcome) (f : Error → Outcome)
      → P x.2
      → ((e : Error) → P (f e).2)
      → P (elim failed as (λ _. Outcome) [ none ↦ x | some e ↦ f e ]).2
  copied-frame none x f h k = h
  copied-frame (some e) x f h k = k e

  copy-frame :
      (a : A) (found : Result Secret) (wd : W) → P a → P (copy_certificate_secret o sv a found wd).2
  unfolding copy_certificate_secret
  copy-frame a (err e) wd h = choice-frame (is_cert_not_ready e) _ _ (report_state-frame a _ wd h) h
  copy-frame a (ok secret) wd h =
      let ready = with_state o sv a "ready" in
      let (failed, wd') =
        copy_secret (meta a).cluster (meta a).namespace
          (record secret { name = tls_secret_name o sv a; namespace = (meta a).namespace }) wd in
      let refused : Error → Outcome = λ e. (
        ReconcileStatus.stop,
        some (errorf ("certificate reconciler: error copying secret error: " ^^ e.text)),
        ready,
        wd',
      ) in
      copied-frame failed (set_tls_from_cluster o sv ready wd') refused
        (from_cluster-frame ready wd' (state-frame a "ready" h)) (λ e. state-frame a "ready" h)

  created-frame : (a : A) (failed : Option Error) (wd : W) → P a → P (created o sv a failed wd).2
  unfolding created
  created-frame a none wd h = from_cluster-frame _ wd (state-frame a "requested" h)
  created-frame a (some e) wd h =
      let requested = with_state o sv a "requested" in
      let found = get_certificate_secret (request_for o sv a (get_hcg_host a)) wd in
      choice-frame (is_already_exists e) (copy_certificate_secret o sv requested found wd)
        (
          ReconcileStatus.stop,
          some (errorf ("certificate reconciler: error creating certificate, error: " ^^ e.text)),
          a,
          wd,
        )
        (copy-frame requested found wd (state-frame a "requested" h)) h

  same-delete : (a : A) (wd : W) → (delete_certificates o sv a wd).2 ≡ a
  unfolding delete_certificates
  same-delete a wd = ground arith

  delete-frame : (a : A) (wd : W) → P a → P (delete_certificates o sv a wd).2
  delete-frame a wd h = subst P (sym (same-delete a wd)) h

  pub reconcile_tls-frame : (a : A) (wd : W) → P a → P (reconcile_tls o sv a wd).2
  unfolding reconcile_tls request_certificate
  reconcile_tls-frame a wd h =
      let (failed, wd') = create_certificate (request_for o sv a (get_hcg_host a)) wd in
      choice-frame (meta a).deleting (delete_certificates o sv a wd) (request_certificate o sv a wd)
        (delete-frame a wd h)
        (choice-frame (get_hcg_host a == "")
          (ReconcileStatus.stop, some err_generated_host_missing, a, wd) (created o sv a failed wd')
          h (created-frame a failed wd' h))
