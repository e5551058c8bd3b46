-- ===== src/Traffic/Route/Hosts.antt =====
-- route.go: `ProcessCustomHosts` of a route.
pub mod Safety
pub mod Pending
use kcp_glbc.Prelude.{
  String, List, [], ◌∷◌, ◌++◌, Option, none, some, Bool, true, false, not, ◌&&◌, ◌||◌, ◌==◌, ◌^^◌,
  Dict, lookup, put, any, if◌then◌else◌, Error, errorf, Result, ok, err, ◌>>=◌,
}
use kcp_glbc.Api.{ObjectMeta, DomainVerification}
use kcp_glbc.Metadata.{
  has_annotation, get_annotation, add_annotation, remove_annotation, add_label, remove_label,
  add_finalizer, remove_finalizer,
}
use kcp_glbc.Traffic.Object.{err_generated_host_missing}
use kcp_glbc.Traffic.Domain.{is_domain_verified}
use kcp_glbc.Traffic.Ingress.Hosts.{pending_hosts_annotation, pending_hosts_label}
use kcp_glbc.Traffic.Route.{Route}

abbrev pub shadow_finalizer : String
shadow_finalizer = "kuadrant.dev/shadow_cleanup"

abbrev pub shadow_annotation : String
shadow_annotation = "kuadrant.dev/is_shadow_route"

module _ {V X : Type 0} where
  -- The copy of a route: its own name, and no generated host, which no field of the resource holds.
  abbrev pub shadow_named : Route V X → Route V X
  shadow_named a = record a {
    meta = record a.meta { name = a.meta.name ^^ "-shadow" };
    generated_host = "";
  }

  -- The owner's reference of the shadow is left out.
  unfoldable pub shadow_of : String → Route V X → Route V X
  shadow_of generated a =
      let copy = shadow_named a in
      record copy {
        host = generated;
        meta =
            remove_annotation (add_annotation copy.meta shadow_annotation "true")
              pending_hosts_annotation;
      }

  unfoldable pub reset : String → Route V X → Route V X
  reset generated a =
      let pending = get_annotation a.meta pending_hosts_annotation in
      if a.host == generated && not (pending == "") then record a { host = pending } else a

  -- A custom host that is not verified waits in the annotation.
  unfoldable pub postpone : String → Route V X → Route V X
  postpone generated a = record a {
    meta =
        add_label (add_annotation a.meta pending_hosts_annotation a.host) pending_hosts_label
          "true";
    host = generated;
  }

  unfoldable pub admit : Route V X → Route V X
  admit a = record a {
    meta =
        remove_annotation (remove_label (add_finalizer a.meta shadow_finalizer) pending_hosts_label)
          pending_hosts_annotation;
  }

  unfoldable pub is_allowed : List DomainVerification → Route V X → Bool
  is_allowed dvs a = is_domain_verified a.host dvs || a.host == ""

  -- `create_or_update` and `delete` act on the API server.
  module _ {W : Type 0} (create_or_update delete : Route V X → W → Option Error × W) where
    -- From the reset on.
    process_host : List DomainVerification → String → Route V X → W → Option Error × Route V X × W
    unfolding postpone admit is_allowed shadow_of
    process_host dvs generated a wd =
        let (failed, wd') = create_or_update (shadow_of generated a) wd in
        if is_allowed dvs a
        then elim failed [
          | some e ↦ (some (errorf ("error creating or updating shadow: " ^^ e.text)), a, wd')
          | none ↦ (none, admit a, wd')
        ]
        else (none, postpone generated a, wd)

    process_resource : List DomainVerification → Route V X → W → Option Error × Route V X × W
    unfolding process_host reset
    process_resource dvs a wd =
        let (failed, wd') = delete (shadow_named a) wd in
        let released = record a { meta = remove_finalizer a.meta shadow_finalizer } in
        let kept = process_host dvs a.generated_host (reset a.generated_host a) wd in
        if a.meta.deleting
        then (elim failed [
          | some e ↦ (some (errorf ("error deleting shadow: " ^^ e.text)), a, wd')
          | none ↦ process_host dvs a.generated_host (reset a.generated_host released) wd'
        ])
        else kept

    unfoldable pub process_custom_hosts :
        List DomainVerification → Route V X → W → Option Error × Route V X × W
    unfolding process_resource
    process_custom_hosts dvs a wd =
        if a.generated_host == "" && not a.meta.deleting
        then (some err_generated_host_missing, a, wd)
        else if has_annotation a.meta shadow_annotation
        then (none, record a { host = a.generated_host }, wd)
        else process_resource dvs a wd
