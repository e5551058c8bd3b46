-- ===== src/Traffic/Dns.antt =====
-- dns.go: the reconciler that keeps the DNS record of a traffic object, an ingress or a route.
pub mod Endpoints
mod Services
pub mod LoadBalancer
pub mod Frame
pub use Services.*
use kcp_glbc.Prelude.{
  ℕ, String, List, [], ◌∷◌, ◌++◌, Option, none, some, Bool, true, false, not, ◌&&◌, ◌||◌, ◌==◌,
  ◌^^◌, Dict, lookup, put, has, has_prefix, is_empty, if◌then◌else◌, Error, errorf, is_not_found,
  Result, ok, err,
}
use kcp_glbc.Api.{ObjectMeta, DnsRecord, DnsZone}
use kcp_glbc.Api.Endpoints.{Endpoint}
use kcp_glbc.Metadata.{
  get_annotation, add_annotation, has_annotation, remove_annotation, copy_annotations_predicate,
  contains_string,
}
use kcp_glbc.Dns.Health.{health_check_prefix}
use kcp_glbc.Dns.Publish.{record_is_already_published_to_zone}
use kcp_glbc.Traffic.Workload.{Workload}
use kcp_glbc.Traffic.Object.{
  TrafficObject, Target, TargetType, ip_target, err_generated_host_missing,
}
use kcp_glbc.Traffic.Dns.Endpoints.{set_endpoint_from_targets}

unfoldable pub copy_health_annotations : ObjectMeta → ObjectMeta → ObjectMeta
copy_health_annotations to from =
    (copy_annotations_predicate from to (λ k v. has_prefix k health_check_prefix)).0

-- The addresses found while the targets are read.
pub record Found : Type 0 where
  pub active : Dict (List String)
  pub deleting : Dict (List String)
  pub lb_hosts : List String

or_none : Option (List String) → List String
or_none none = []
or_none (some xs) = xs

unfoldable pub append_to : String → String → Dict (List String) → Dict (List String)
unfolding or_none
append_to key value m = put key (or_none (lookup key m) ++ value ∷ []) m

unfoldable pub append_all : String → List String → Dict (List String) → Dict (List String)
unfolding append_to
append_all key [] m = m
append_all key (value ∷ values) m = append_all key values (append_to key value m)

-- The addresses of losing clusters serve while no other cluster has one.
unfoldable pub choose_targets : Found → Dict (List String)
choose_targets found =
    if is_empty found.active && not (is_empty found.deleting) then found.deleting else found.active

abbrev is_ip : TargetType → Bool
is_ip t = elim t [ TargetType.ip_target ↦ true | _ ↦ false ]

module _ {A W : Type 0} (w : Workload) (o : TrafficObject A) (sv : DnsServices A W) where
  open o use {
    meta, with_meta, get_cache_key, get_hcg_host, set_hcg_host, tmc_enabled, has_dns_lb_host,
    set_dns_lb_host, get_dns_targets,
  }
  open sv use {
    delete_dns, get_dns, create_dns, update_dns, watch_host, forget_host, list_host_watchers,
    dns_lookup, found_nameservers, managed_domain, zone_id, cluster_key, xid, itoa, sort,
    record_equal,
  }

  -- Kind and API version are left out. The owner's reference that the code sets is dropped by its
  -- assignment of `ObjectMeta`.
  unfoldable pub new_dns_record_for_object : A → DnsRecord
  unfolding copy_health_annotations
  new_dns_record_for_object a =
      let own : Dict String = put cluster_key (meta a).cluster [] in
      let keyed =
        if has traffic_key_annotation own
        then own
        else put traffic_key_annotation (get_cache_key a) own in
      let fresh : ObjectMeta = record {
        name = (meta a).name;
        namespace = (meta a).namespace;
        cluster = (meta a).cluster;
        resource_version = "";
        generation = 0;
        deleting = false;
        annotations = keyed;
        labels = [];
        finalizers = [];
      } in
      record {
        meta = copy_health_annotations fresh (meta a);
        endpoints = [];
        status = record { zones = []; observed_generation = 0 };
      }

  unfoldable pub add_host_annotations : ObjectMeta → String → String → ObjectMeta × String
  add_host_annotations m id host =
      if has_annotation m host_annotation
      then (m, "")
      else (add_annotation m host_annotation (id ^^ "." ^^ host), id ^^ "." ^^ host)

  create_record : A → W → ReconcileStatus × Option Error × A × W
  unfolding new_dns_record_for_object add_host_annotations
  create_record a wd =
      let r = new_dns_record_for_object a in
      let (annotated, host) = add_host_annotations r.meta (xid wd) managed_domain in
      let (failed, wd') = create_dns (record r { meta = annotated }) wd in
      (continue, failed, set_hcg_host host a, wd')

  -- The generated host: the record's, or, for an upgrade, the ingress's, which it then gives up.
  unfoldable pub adopt_host : DnsRecord → A → Option (DnsRecord × A)
  adopt_host r a =
      let own = get_annotation r.meta host_annotation in
      let old = get_annotation (meta a) host_annotation in
      if not (own == "")
      then some (r, set_hcg_host own a)
      else if old == ""
      then none
      else some (
        record r { meta = add_annotation r.meta host_annotation old },
        set_hcg_host old (with_meta (remove_annotation (meta a) host_annotation) a),
      )

  unfoldable pub read_targets : A → List Target → Found → W → Option Error × Found × W
  unfolding append_to append_all
  read_targets a [] found wd = (none, found, wd)
  read_targets a (t ∷ ts) found wd =
      elim (has_annotation (meta a) (w.deletion_prefix ^^ t.cluster)) [
        | true ↦
            read_targets a ts (record found { deleting = append_to t.value t.value found.deleting })
              wd
        | false ↦ elim (is_ip t.target_type) [
          | true ↦
              read_targets a ts (record found { active = append_to t.value t.value found.active })
                wd
          | false ↦ elim (dns_lookup t.value wd) [
            | err e ↦ (
              some (errorf ("DNSLookup failed for host " ^^ t.value ^^ " : " ^^ e.text)),
              found,
              wd,
            )
            | ok addresses ↦
                read_targets a ts
                  (record found {
                    active = append_all t.value addresses found.active;
                    lb_hosts = found.lb_hosts ++ t.value ∷ [];
                  })
                  (watch_host (get_cache_key a) t.value wd)
          ]
        ]
      ]

  unfoldable pub forget_hosts : String → List String → List String → W → W
  forget_hosts key lb_hosts [] wd = wd
  forget_hosts key lb_hosts (host ∷ hosts) wd =
      forget_hosts key lb_hosts hosts
        (if contains_string lb_hosts host then wd else forget_host key host wd)

  -- The end of `Reconcile`, where nothing was changed in the record: the host goes into the status of
  -- the ingress once the record is published and resolves.
  unfoldable pub set_load_balancer :
      DnsRecord → DnsRecord → A → W → ReconcileStatus × Option Error × A × W
  set_load_balancer existing copy a wd =
      if tmc_enabled a
        && not (has_dns_lb_host a)
        && not (is_empty copy.endpoints)
        && record_equal copy existing
        && record_is_already_published_to_zone copy (record { id = zone_id; tags = none })
      then (if found_nameservers managed_domain (get_hcg_host a) wd
          then (continue, none, set_dns_lb_host (get_hcg_host a) a, wd)
          else (requeue_in_5_seconds, none, a, wd))
      else (continue, none, a, wd)

  unfoldable pub desired_record : DnsRecord → A → Found → DnsRecord
  unfolding choose_targets copy_health_annotations
  desired_record existing a found =
      let r =
        set_endpoint_from_targets itoa sort (get_hcg_host a) (choose_targets found) existing in
      record r { meta = copy_health_annotations r.meta (meta a) }

  -- The metric of the time to admission is left out.
  update_and_set : DnsRecord → A → Found → W → ReconcileStatus × Option Error × A × W
  unfolding desired_record set_load_balancer
  update_and_set existing a found wd =
      let copy = desired_record existing a found in
      let (failed, wd') = update_dns copy wd in
      if record_equal copy existing then set_load_balancer existing copy a wd else elim failed [
        | some e ↦ (stop, some e, a, wd')
        | none ↦ set_load_balancer existing copy a wd'
      ]

  with_targets : DnsRecord → A → Result (List Target) → W → ReconcileStatus × Option Error × A × W
  unfolding read_targets forget_hosts update_and_set
  with_targets existing a (err e) wd = (continue, some e, a, wd)
  with_targets existing a (ok targets) wd =
      let (failed, found, wd1) =
        read_targets a targets (record { active = []; deleting = []; lb_hosts = [] }) wd in
      let key = get_cache_key a in
      let wd2 = forget_hosts key found.lb_hosts (list_host_watchers key wd1) wd1 in
      elim failed [
        | some e ↦ (continue, some e, a, wd1)
        | none ↦ update_and_set existing a found wd2
      ]

  update_record_for : Option (DnsRecord × A) → A → W → ReconcileStatus × Option Error × A × W
  unfolding with_targets
  update_record_for none a wd = (stop, some err_generated_host_missing, a, wd)
  update_record_for (some (existing, a')) a wd = with_targets existing a' (get_dns_targets a') wd

  unfoldable pub reconcile_dns : A → W → ReconcileStatus × Option Error × A × W
  unfolding create_record adopt_host update_record_for
  reconcile_dns a wd =
      let (failed, swept) = delete_dns a wd in
      let gone : ReconcileStatus × Option Error × A × W = elim failed [
        | none ↦ (continue, none, a, swept)
        | some e ↦ if is_not_found e then (continue, none, a, swept) else (stop, some e, a, swept)
      ] in
      let kept : ReconcileStatus × Option Error × A × W = elim (get_dns a wd) [
        | err e ↦ if is_not_found e then create_record a wd else (stop, some e, a, wd)
        | ok r ↦ update_record_for (adopt_host r a) a wd
      ] in
      if (meta a).deleting then gone else kept
