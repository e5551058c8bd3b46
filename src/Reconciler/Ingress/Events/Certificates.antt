-- ===== src/Reconciler/Ingress/Events/Certificates.antt =====
-- pkg/reconciler/ingress/controller.go: the handlers of the events of certificates.
use kcp_glbc.Prelude.{
  String, List, [], Option, none, some, Bool, true, false, ◌==◌, lookup, has, if◌then◌else◌,
  is_not_found, Result, ok, err,
}
use kcp_glbc.Api.{ObjectMeta}
use kcp_glbc.Traffic.Dns.{traffic_key_annotation}
use kcp_glbc.Traffic.Ingress.{Ingress}
use kcp_glbc.Traffic.Certificates.Events.{
  Certificate, Observation, certificate_added_handler, certificate_updated_handler,
  certificate_deleted_handler,
}

-- pkg/reconciler/controller.go
abbrev pub label_hcg_managed : String
label_hcg_managed = "kuadrant.dev/hcg.managed"

pub record CertificateObject : Type 0 where
  pub meta : ObjectMeta
  pub certificate : Certificate

unfoldable pub is_managed : CertificateObject → Bool
is_managed c = has label_hcg_managed c.meta.labels

abbrev key_of : CertificateObject → String
key_of c = elim (lookup traffic_key_annotation c.meta.annotations) [ none ↦ "" | some key ↦ key ]

-- `add` puts an ingress into the queue, and `get_by_key` is the answer of the indexer.
module _ {V W : Type 0} (add : Ingress V → W → W)
    (get_by_key : String → W → Result (Option (Ingress V))) where
  -- What a handler leaves: the metrics that it observes, and the queue; `none` is a panic.
  abbrev Handled : Type 0
  Handled = Option (List Observation × W)

  -- The ingress of `getIngressByKey`; none inside for the nil that comes with an error other than
  -- `NotFound`, and none for `NotFound`.
  found_ingress : Result (Option (Ingress V)) → Option (Option (Ingress V))
  found_ingress (err e) = if is_not_found e then none else some none
  found_ingress (ok none) = none
  found_ingress (ok (some a)) = some (some a)

  -- The name of the ingress is read for the log, so nil panics.
  enqueue_certified : Option (Ingress V) → List Observation → W → Handled
  enqueue_certified none seen wd = none
  enqueue_certified (some a) seen wd = some (seen, add a wd)

  with_metrics : Option (List Observation) → W → Handled
  with_metrics none wd = none
  with_metrics (some seen) wd = some (seen, wd)

  unfoldable pub certificate_added : CertificateObject → W → Handled
  unfolding found_ingress with_metrics
  certificate_added c wd = elim (found_ingress (get_by_key (key_of c) wd)) [
    | none ↦ some ([], wd)
    | some _ ↦ with_metrics (certificate_added_handler c.certificate) wd
  ]

  enqueue_if_asked : Option (Ingress V) → Option (Bool × List Observation) → W → Handled
  unfolding enqueue_certified
  enqueue_if_asked found none wd = none
  enqueue_if_asked found (some (false, seen)) wd = some (seen, wd)
  enqueue_if_asked found (some (true, seen)) wd = enqueue_certified found seen wd

  unfoldable pub certificate_updated : CertificateObject → CertificateObject → W → Handled
  unfolding found_ingress enqueue_if_asked
  certificate_updated old new wd =
      if old.meta.resource_version == new.meta.resource_version
      then some ([], wd)
      else elim (found_ingress (get_by_key (key_of new) wd)) [
        | none ↦ some ([], wd)
        | some found ↦
            enqueue_if_asked found (certificate_updated_handler old.certificate new.certificate) wd
      ]

  after_deletion : Option (Ingress V) → Option (List Observation) → W → Handled
  unfolding enqueue_certified
  after_deletion found none wd = none
  after_deletion found (some seen) wd = enqueue_certified found seen wd

  unfoldable pub certificate_deleted : CertificateObject → W → Handled
  unfolding found_ingress after_deletion
  certificate_deleted c wd = elim (found_ingress (get_by_key (key_of c) wd)) [
    | none ↦ some ([], wd)
    | some found ↦ after_deletion found (certificate_deleted_handler c.certificate) wd
  ]
