-- ===== src/Traffic/Certificates/Secrets.antt =====
-- tls.go: which TLS entries `Reconcile` sets.
use kcp_glbc.Prelude.{
  String, Option, none, some, Bool, true, false, ◌≡◌, ◌⊎◌, refl, inl, inr, if◌then◌else◌, Error,
  Result, ok, err, is_already_exists, is_cert_not_ready, arith, sym, ◌∙◌, ap, ◌^^◌, errorf, ◌==◌,
}
use kcp_glbc.Api.{ObjectMeta}
use kcp_glbc.Metadata.{add_annotation}
use kcp_glbc.Traffic.Dns.{ReconcileStatus}
use kcp_glbc.Traffic.Object.{TrafficObject, TlsLaws, Secret}
use kcp_glbc.Traffic.Certificates.{
  CertificateServices, tls_secret_name, delete_certificates, set_tls, set_tls_from_cluster,
  report_state, copy_certificate_secret, created, request_certificate, reconcile_tls, with_state,
  request_for, state_annotation,
}

module _ {A W T : Type 0} (o : TrafficObject A) (sv : CertificateServices W) {tls : A → T}
    {Serves : A → String → Secret → Type 0} (laws : TlsLaws o T tls Serves) where
  open o use {meta, with_meta, get_hcg_host, add_tls}
  open sv use {
    get_secret, create_certificate, get_certificate_secret, get_certificate_status, copy_secret,
    delete_certificate, delete_secret,
  }

  abbrev Outcome : Type 0
  Outcome = ReconcileStatus × Option Error × A × W

  -- The secret of the first object was found in its namespace, and the second one has what `AddTLS`
  -- leaves for the generated host and that secret.
  abbrev pub IsSecured : A → A → Type 0
  IsSecured a a' =
      (secret : Secret) × ((wd : W) × (get_secret (tls_secret_name o sv a) (meta a).namespace
            (meta a).cluster wd
          ≡ ok secret))
      × Serves a' (get_hcg_host a) secret

  abbrev IsSound : A → Outcome → Type 0
  IsSound a res = (tls res.2 ≡ tls a) ⊎ IsSecured a res.2

  choice-IsSound :
      (a : A) (b : Bool) (x y : Outcome)
      → IsSound a x
      → IsSound a y
      → IsSound a (if b then x else y)
  choice-IsSound a true x y h k = h
  choice-IsSound a false x y h k = k

  set_tls-IsSound :
      (a : A) (answer : Result Secret) (wd : W)
      → answer ≡ get_secret (tls_secret_name o sv a) (meta a).namespace (meta a).cluster wd
      → IsSound a (set_tls o sv a answer wd)
  unfolding set_tls
  set_tls-IsSound a (err e) wd h = inl refl
  set_tls-IsSound a (ok secret) wd h =
      inr (secret, (wd, sym h), laws.add_tls_lem (get_hcg_host a) secret a)

  from_cluster-IsSound : (a : A) (wd : W) → IsSound a (set_tls_from_cluster o sv a wd)
  unfolding set_tls_from_cluster
  from_cluster-IsSound a wd = set_tls-IsSound a _ wd refl

  -- An annotation with the state of the certificate does not matter.
  state-IsSound :
      (a : A) (state : String) (res : Outcome)
      → IsSound (with_state o sv a state) res
      → IsSound a res
  unfolding add_annotation
  state-IsSound a state res (inl same_tls) = inl (same_tls ∙ laws.with_meta_lem _ a)
  state-IsSound a state res (inr (secret, (wd, found), serves)) =
      let annotated = add_annotation (meta a) state_annotation state in
      let same_name : tls_secret_name o sv (with_state o sv a state) ≡ tls_secret_name o sv a =
        ap (λ (m : ObjectMeta). sv.lower ("hcg-tls-" ^^ o.kind ^^ "-" ^^ m.name))
          (laws.same_meta annotated a) in
      inr (
        secret,
        (wd, rw (same_name, laws.same_meta annotated a) at found),
        (rw (laws.same_hcg_host annotated a) at serves),
      )

  report_state-IsSound :
      (a : A) (status : Result String) (wd : W) → IsSound a (report_state o sv a status wd)
  unfolding report_state
  report_state-IsSound a (err e) wd = inl refl
  report_state-IsSound a (ok status) wd = inl (laws.with_meta_lem _ a)

  answer-IsSound :
      (a : A) (o : Option Error) (x : Outcome) (f : Error → Outcome)
      → IsSound a x
      → ((e : Error) → IsSound a (f e))
      → IsSound a (elim o [ none ↦ x | some e ↦ f e ])
  answer-IsSound a none x f h k = h
  answer-IsSound a (some e) x f h k = k e

  copy-IsSound :
      (a : A) (found : Result Secret) (wd : W) → IsSound a (copy_certificate_secret o sv a found wd)
  unfolding copy_certificate_secret add_annotation
  copy-IsSound a (err e) wd =
      choice-IsSound a (is_cert_not_ready e) _ _ (report_state-IsSound a _ wd) (inl refl)
  copy-IsSound a (ok secret) wd =
      let ready = with_state o sv a "ready" in
      let (failed, wd') =
        copy_secret (meta a).cluster (meta a).namespace
          (record secret { name = tls_secret_name o sv a; namespace = (meta a).namespace }) wd in
      let refused : Error → Outcome = λ e. (
        ReconcileStatus.stop,
        some (errorf ("certificate reconciler: error copying secret error: " ^^ e.text)),
        ready,
        wd',
      ) in
      answer-IsSound a failed (set_tls_from_cluster o sv ready wd') refused
        (state-IsSound a "ready" (set_tls_from_cluster o sv ready wd')
          (from_cluster-IsSound ready wd'))
        (λ e. inl (laws.with_meta_lem _ a))

  created-IsSound : (a : A) (failed : Option Error) (wd : W) → IsSound a (created o sv a failed wd)
  unfolding created add_annotation
  created-IsSound a none wd =
      let requested = with_state o sv a "requested" in
      state-IsSound a "requested" (set_tls_from_cluster o sv requested wd)
        (from_cluster-IsSound requested wd)
  created-IsSound a (some e) wd =
      let requested = with_state o sv a "requested" in
      let found = get_certificate_secret (request_for o sv a (get_hcg_host a)) wd in
      let copied = copy_certificate_secret o sv requested found wd in
      choice-IsSound a (is_already_exists e) copied
        (
          ReconcileStatus.stop,
          some (errorf ("certificate reconciler: error creating certificate, error: " ^^ e.text)),
          a,
          wd,
        )
        (state-IsSound a "requested" copied (copy-IsSound requested found wd)) (inl refl)

  tls-delete_certificates : (a : A) (wd : W) → tls (delete_certificates o sv a wd).2 ≡ tls a
  unfolding delete_certificates
  tls-delete_certificates a wd = ground arith

  -- Whatever the world answers: after `Reconcile` of a traffic object its TLS entries are as before, or the
  -- secret of the object was found in its namespace and the object has what its laws say of `AddTLS` with
  -- the generated host and that secret: an ingress has an entry for that host alone with the secret's
  -- name; a route that is for that host has the secret's key and certificate, and a route that is for
  -- another host has some TLS configuration.
  pub reconcile_tls-IsSecured :
      (a : A) (wd : W)
      → (tls (reconcile_tls o sv a wd).2 ≡ tls a) ⊎ IsSecured a (reconcile_tls o sv a wd).2
  unfolding reconcile_tls request_certificate
  reconcile_tls-IsSecured a wd =
      let requested =
        created-IsSound a (create_certificate (request_for o sv a (get_hcg_host a)) wd).0 _ in
      choice-IsSound a (meta a).deleting (delete_certificates o sv a wd)
        (request_certificate o sv a wd) (inl (tls-delete_certificates a wd))
        (choice-IsSound a ((get_hcg_host a) == "") _ _ (inl refl) requested)
