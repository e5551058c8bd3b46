-- ===== src/Traffic/Route/Hosts/Safety.antt =====
-- route.go: which host `ProcessCustomHosts` leaves in a route, and that it keeps a host that waits.
use kcp_glbc.Prelude.{
  String, List, Option, some, none, Bool, true, false, not, ◌&&◌, ◌≡◌, ◌≢◌, ◌⊎◌, refl, Bool-cases,
  inl, inr, ◌==◌, eq_iff, arith, if◌then◌else◌, ◌∙◌, sym, ap, Error, Any, errorf, ◌^^◌,
}
use kcp_glbc.Api.{DomainVerification}
use kcp_glbc.Metadata.{remove_finalizer, has_annotation}
use kcp_glbc.Traffic.Domain.{is_domain_verified}
use kcp_glbc.Traffic.Domain.Covers.{Covers, is_domain_verified_iff}
use kcp_glbc.Traffic.Route.{Route}
use kcp_glbc.Traffic.Route.Hosts.{
  shadow_finalizer, shadow_annotation, shadow_named, shadow_of, reset, postpone, admit, is_allowed,
  process_host, process_resource, process_custom_hosts,
}

module _ {V X W : Type 0} (create_or_update delete : Route V X → W → Option Error × W)
    (dvs : List DomainVerification) where
  abbrev Outcome : Type 0
  Outcome = Option Error × Route V X × W

  -- The host of the route is this one, or none, or one that a verified domain covers.
  abbrev pub IsServed : String → Route V X → Type 0
  IsServed generated a = (a.host ≡ generated) ⊎ ((a.host ≡ "") ⊎ Any (Covers a.host) dvs)

  -- The outcome is an error, or a route that may be served.
  abbrev IsSafe : String → Outcome → Type 0
  IsSafe generated res = (res.0 ≢ none) ⊎ IsServed generated res.1

  is_allowed-IsServed :
      (generated : String) (a : Route V X) → is_allowed dvs a ≡ true → IsServed generated (admit a)
  unfolding is_allowed admit
  is_allowed-IsServed generated a h = elim (Bool-cases (is_domain_verified a.host dvs)) [
    | inl e ↦ inr (inr ((is_domain_verified_iff a.host dvs).0 e))
    | inr e ↦ inr (inl ((eq_iff a.host "").0 (ground arith)))
  ]

  choice-IsSafe :
      (generated : String) (b : Bool) (x y : Outcome)
      → IsSafe generated x
      → IsSafe generated y
      → IsSafe generated (if b then x else y)
  choice-IsSafe generated true x y h k = h
  choice-IsSafe generated false x y h k = k

  answer-IsSafe :
      (generated : String) (failed : Option Error) (x : Outcome) (f : Error → Outcome)
      → IsSafe generated x
      → ((e : Error) → IsSafe generated (f e))
      → IsSafe generated (elim failed [ none ↦ x | some e ↦ f e ])
  answer-IsSafe generated none x f h k = h
  answer-IsSafe generated (some e) x f h k = k e

  process_host-IsSafe :
      (generated : String) (a : Route V X) (wd : W)
      → IsSafe generated (process_host create_or_update delete dvs generated a wd)
  unfolding process_host postpone
  process_host-IsSafe generated a wd = elim (Bool-cases (is_allowed dvs a)) [
    | inr e ↦ rw (e, process_host) (inr (inl refl))
    | inl e ↦
        rw (e, process_host)
          (answer-IsSafe generated (create_or_update (shadow_of generated a) wd).0
            (none, admit a, _) _ (inr (is_allowed-IsServed generated a e)) (λ x. inl (λ h. cc)))
  ]

  generated_host-reset :
      (generated : String) (a : Route V X) → (reset generated a).generated_host ≡ a.generated_host
  unfolding reset
  generated_host-reset generated a = ground arith

  process_resource-IsSafe :
      (a : Route V X) (wd : W)
      → IsSafe a.generated_host (process_resource create_or_update delete dvs a wd)
  unfolding process_resource
  process_resource-IsSafe a wd =
      let (failed, wd') = delete (shadow_named a) wd in
      let released : Route V X = record a { meta = remove_finalizer a.meta shadow_finalizer } in
      let later =
        process_host create_or_update delete dvs a.generated_host (reset a.generated_host released)
          wd' in
      let refused : Error → Outcome =
        λ e. (some (errorf ("error deleting shadow: " ^^ e.text)), a, wd') in
      let gone : Outcome = elim failed [ some e ↦ refused e | none ↦ later ] in
      let kept =
        process_host create_or_update delete dvs a.generated_host (reset a.generated_host a) wd in
      choice-IsSafe a.generated_host a.meta.deleting gone kept
        (answer-IsSafe a.generated_host failed later refused
          (process_host-IsSafe a.generated_host (reset a.generated_host released) wd')
          (λ e. inl (λ h. cc)))
        (process_host-IsSafe a.generated_host (reset a.generated_host a) wd)

  process_custom_hosts-IsSafe :
      (a : Route V X) (wd : W)
      → IsSafe a.generated_host (process_custom_hosts create_or_update delete dvs a wd)
  unfolding process_custom_hosts
  process_custom_hosts-IsSafe a wd =
      choice-IsSafe a.generated_host (a.generated_host == "" && not a.meta.deleting) _ _
        (inl (λ h. cc))
        (choice-IsSafe a.generated_host (has_annotation a.meta shadow_annotation)
          (none, record a { host = a.generated_host }, wd)
          (process_resource create_or_update delete dvs a wd) (inr (inl refl))
          (process_resource-IsSafe a wd))

  -- Where `ProcessCustomHosts` of a route returns no error, also for a shadow and for a route that is
  -- being deleted: the host of the route is the generated host, or none, or a host that a verified
  -- domain covers, whatever host was in its spec and in the annotation of pending hosts.
  pub process_custom_hosts-IsServed :
      (a a' : Route V X) (wd wd' : W)
      → process_custom_hosts create_or_update delete dvs a wd ≡ (none, a', wd')
      → IsServed a.generated_host a'
  unfolding process_custom_hosts
  process_custom_hosts-IsServed a a' wd wd' h = elim (rw h at (process_custom_hosts-IsSafe a wd)) [
    | inl failed ↦ absurd (failed refl)
    | inr served ↦ served
  ]

  generated_host-process_host :
      (generated : String) (a : Route V X) (wd : W)
      → (process_host create_or_update delete dvs generated a wd).1.generated_host
        ≡ a.generated_host
  unfolding process_host postpone admit
  generated_host-process_host generated a wd = ground arith

  generated_host-process_custom :
      (a : Route V X) (wd : W)
      → (process_custom_hosts create_or_update delete dvs a wd).1.generated_host ≡ a.generated_host
  unfolding process_custom_hosts process_resource
  generated_host-process_custom a wd =
      let released : Route V X = record a { meta = remove_finalizer a.meta shadow_finalizer } in
      ground (
        arith,
        generated_host-reset a.generated_host a,
        generated_host-reset a.generated_host released,
        generated_host-process_host a.generated_host (reset a.generated_host a) wd,
        generated_host-process_host a.generated_host (reset a.generated_host released)
            (delete (shadow_named a) wd).1,
      )

  pub generated_host-process_custom_hosts :
      (a a' : Route V X) (wd wd' : W)
      → process_custom_hosts create_or_update delete dvs a wd ≡ (none, a', wd')
      → a'.generated_host ≡ a.generated_host
  generated_host-process_custom_hosts a a' wd wd' h =
      ap (λ (r : Outcome). r.1.generated_host) (sym h) ∙ generated_host-process_custom a wd
