-- ===== src/Traffic/Route/Hosts/Pending.antt =====
-- route.go: a host that waits for its domain, and the shadow of a route that is being deleted.
use kcp_glbc.Prelude.{
  String, List, Option, none, true, false, ◌≡◌, ◌≢◌, refl, ◌==◌, eq_iff, eq_refl, arith, ◌∙◌, ap,
  Error,
}
use kcp_glbc.Api.{DomainVerification}
use kcp_glbc.Metadata.{
  remove_finalizer, has_annotation, get_annotation, has_finalizer, add_annotation, add_label,
  remove_annotation, remove_label, trim_space,
}
use kcp_glbc.Metadata.Annotations.{get_annotation-add, has_annotation-add}
use kcp_glbc.Metadata.Finalizers.{has_finalizer-add}
use kcp_glbc.Traffic.Domain.{is_domain_verified}
use kcp_glbc.Traffic.Ingress.Hosts.{pending_hosts_annotation}
use kcp_glbc.Traffic.Route.{Route}
use kcp_glbc.Traffic.Route.Hosts.{
  shadow_finalizer, shadow_annotation, shadow_of, reset, postpone, admit, is_allowed, process_host,
  process_resource, process_custom_hosts,
}

module _ {V X : Type 0} where
  pending-postpone :
      (generated : String) (a : Route V X)
      → get_annotation (postpone generated a).meta pending_hosts_annotation ≡ a.host
  unfolding postpone get_annotation has_annotation add_label trim_space
  pending-postpone generated a = get_annotation-add a.meta pending_hosts_annotation a.host refl

  shadow-postpone :
      (generated : String) (a : Route V X)
      → has_annotation (postpone generated a).meta shadow_annotation
        ≡ has_annotation a.meta shadow_annotation
  unfolding postpone has_annotation add_label trim_space
  shadow-postpone generated a =
      has_annotation-add a.meta pending_hosts_annotation shadow_annotation a.host

  host-postpone : (generated : String) (a : Route V X) → (postpone generated a).host ≡ generated
  unfolding postpone
  host-postpone generated a = refl

  -- The host that waits comes back.
  reset-postpone :
      (generated : String) (a : Route V X)
      → a.host ≢ ""
      → (reset generated (postpone generated a)).host ≡ a.host
  unfolding reset
  reset-postpone generated a h =
      let pending = get_annotation (postpone generated a).meta pending_hosts_annotation in
      ground (
        arith,
        h,
        host-postpone generated a,
        pending-postpone generated a,
        eq_iff pending "",
        eq_iff (postpone generated a).host generated,
      )

  shadow-reset :
      (a : Route V X)
      → has_annotation (reset a.generated_host a).meta shadow_annotation
        ≡ has_annotation a.meta shadow_annotation
  unfolding reset
  shadow-reset a = ground arith

  generated-waiting :
      (a : Route V X)
      → (postpone a.generated_host (reset a.generated_host a)).generated_host ≡ a.generated_host
  unfolding postpone reset
  generated-waiting a = ground arith

  host-admit : (a : Route V X) → (admit a).host ≡ a.host
  unfolding admit
  host-admit a = refl

  is_allowed-blank :
      (dvs : List DomainVerification) (a : Route V X) → is_allowed dvs a ≡ false → a.host ≢ ""
  unfolding is_allowed
  is_allowed-blank dvs a refused blank = ground (arith, refused, eq_iff a.host "", blank)

  is_allowed-verified :
      (dvs : List DomainVerification) (a : Route V X)
      → is_domain_verified a.host dvs ≡ true
      → is_allowed dvs a ≡ true
  unfolding is_allowed
  is_allowed-verified dvs a h = ground (arith, h)

  -- The route has its generated host, is no shadow and is not being deleted.
  pub record IsLive (a : Route V X) : Type 0 where
    pub kept : a.meta.deleting ≡ false
    pub generated : (a.generated_host == "") ≡ false
    pub own : has_annotation a.meta shadow_annotation ≡ false

  -- The route that the first run leaves.
  abbrev pub waiting : Route V X → Route V X
  waiting a = postpone a.generated_host (reset a.generated_host a)

  -- The route without the finalizer of its shadow, once that was deleted.
  abbrev pub released : Route V X → Route V X
  released a = reset a.generated_host (record a { meta = remove_finalizer a.meta shadow_finalizer })

module _ {V X W : Type 0} (create_or_update delete : Route V X → W → Option Error × W) where
  abbrev process : List DomainVerification → Route V X → W → Option Error × Route V X × W
  process = process_custom_hosts create_or_update delete

  process-live :
      (dvs : List DomainVerification) (a : Route V X) (wd : W)
      → IsLive a
      → process dvs a wd
        ≡ process_host create_or_update delete dvs a.generated_host (reset a.generated_host a) wd
  unfolding process_custom_hosts process_resource
  process-live dvs a wd live = ground (arith, live.kept, live.generated, live.own)

  process_host-refused :
      (dvs : List DomainVerification) (generated : String) (a : Route V X) (wd : W)
      → is_allowed dvs a ≡ false
      → process_host create_or_update delete dvs generated a wd ≡ (none, postpone generated a, wd)
  unfolding process_host
  process_host-refused dvs generated a wd h = rw (h, process_host) refl

  process_host-allowed :
      (dvs : List DomainVerification) (generated : String) (a : Route V X) (wd : W)
      → is_allowed dvs a ≡ true
      → (create_or_update (shadow_of generated a) wd).0 ≡ none
      → process_host create_or_update delete dvs generated a wd
        ≡ (none, admit a, (create_or_update (shadow_of generated a) wd).1)
  unfolding process_host
  process_host-allowed dvs generated a wd h k = rw (h, k, process_host) refl

  IsLive-waiting : (a : Route V X) → IsLive a → IsLive (waiting a)
  unfolding postpone reset add_label add_annotation
  IsLive-waiting a live = record {
    kept = ground (arith, live.kept);
    generated = ground (arith, live.generated);
    own = shadow-postpone a.generated_host (reset a.generated_host a) ∙ shadow-reset a ∙ live.own;
  }

  -- A custom host that is not verified gives way to the generated host, without an error and without
  -- a shadow, and it comes back once a domain that covers it is verified and the shadow is written,
  -- for a route that has its generated host, is no shadow and is not being deleted.
  pub process_custom_hosts-resumes :
      (dvs dvs' : List DomainVerification) (a : Route V X) (wd wd' : W)
      → IsLive a
      → is_allowed dvs (reset a.generated_host a) ≡ false
      → is_domain_verified (reset a.generated_host a).host dvs' ≡ true
      → (create_or_update (shadow_of a.generated_host (reset a.generated_host (waiting a))) wd').0
        ≡ none
      → (process dvs a wd ≡ (none, waiting a, wd))
        × ((waiting a).host ≡ a.generated_host)
        × ((process dvs' (waiting a) wd').0 ≡ none)
        × ((process dvs' (waiting a) wd').1.host ≡ (reset a.generated_host a).host)
  process_custom_hosts-resumes dvs dvs' a wd wd' live refused verified written =
      let custom = reset a.generated_host a in
      let same_generated : (waiting a).generated_host ≡ a.generated_host = generated-waiting a in
      let back = reset-postpone a.generated_host custom (is_allowed-blank dvs custom refused) in
      let allowed : is_allowed dvs' (reset a.generated_host (waiting a)) ≡ true =
        is_allowed-verified dvs' _ (rw back verified) in
      let second : process dvs' (waiting a) wd'
          ≡ process_host create_or_update delete dvs' a.generated_host
              (reset a.generated_host (waiting a)) wd' =
        process-live dvs' (waiting a) wd' (IsLive-waiting a live)
        ∙ ap
            (λ generated.
              process_host create_or_update delete dvs' generated (reset generated (waiting a)) wd')
            same_generated in
      let done = second ∙ process_host-allowed dvs' a.generated_host _ wd' allowed written in
      (
        process-live dvs a wd live ∙ process_host-refused dvs a.generated_host custom wd refused,
        host-postpone a.generated_host custom,
        ap (λ (r : Option Error × Route V X × W). r.0) done,
        ap (λ (r : Option Error × Route V X × W). r.1.host) done ∙ host-admit _ ∙ back,
      )

  has_finalizer-admit : (a : Route V X) → has_finalizer (admit a).meta shadow_finalizer ≡ true
  unfolding admit has_finalizer remove_annotation remove_label
  has_finalizer-admit a =
      ground (
        arith,
        has_finalizer-add a.meta shadow_finalizer shadow_finalizer,
        eq_refl shadow_finalizer,
      )

  -- Where a route that is no shadow is being deleted and its host is verified: if `ProcessCustomHosts`
  -- returns no error, the route has the finalizer of its shadow.
  pub process_custom_hosts-keeps_finalizer :
      (dvs : List DomainVerification) (a a' : Route V X) (wd wd' : W)
      → a.meta.deleting ≡ true
      → has_annotation a.meta shadow_annotation ≡ false
      → is_allowed dvs (released a) ≡ true
      → process dvs a wd ≡ (none, a', wd')
      → has_finalizer a'.meta shadow_finalizer ≡ true
  unfolding process_custom_hosts process_resource process_host
  process_custom_hosts-keeps_finalizer dvs a a' wd wd' gone own allowed done =
      ground (arith, gone, own, allowed, done, has_finalizer-admit (released a))
