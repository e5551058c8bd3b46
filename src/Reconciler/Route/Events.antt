-- ===== src/Reconciler/Route/Events.antt =====
-- pkg/reconciler/route/controller.go: which routes the events of other objects put into the queue.
use kcp_glbc.Prelude.{
  ◌⊎◌, Option-cases, some-injective, String, List, [], ◌∷◌, Option, none, some, Bool, true, false,
  lookup, if◌then◌else◌, Result, ok, err, Any, subst, ◌≡◌, ◌↔◌, refl, sym, ◌∙◌, inl, inr,
  Bool-cases, arith,
}
use kcp_glbc.Api.{ObjectMeta, DomainVerification}
use kcp_glbc.Metadata.{trim_space}
use kcp_glbc.Traffic.Route.{Route}
use kcp_glbc.Traffic.Ingress.Hosts.{pending_hosts_annotation}
use kcp_glbc.Traffic.Domain.Covers.{IsBelow, is_domain_verified_iff}
use kcp_glbc.Reconciler.Ingress.Events.{host_matches}
use kcp_glbc.Reconciler.Ingress.Events.Matches.{host_matches_iff}

-- `lower` is `strings.ToLower`.
module _ {V X : Type 0} (lower : String → String) where
  -- Whether the host that a route waits for is under the domain.
  unfoldable pub waits_for : String → Route V X → Bool
  waits_for domain a = elim (lookup pending_hosts_annotation a.meta.annotations) [
    | none ↦ false
    | some pending ↦ host_matches (lower (trim_space pending)) domain
  ]

  -- The loop over the routes that were listed, which are read from unstructured objects.
  unfoldable pub routes_waiting : String → List (Route V X) → List (Route V X)
  unfolding waits_for
  routes_waiting domain [] = []
  routes_waiting domain (a ∷ others) =
      let rest = routes_waiting domain others in if waits_for domain a then a ∷ rest else rest

  -- `listed` is the answer of the lister for the label of pending hosts.
  unfoldable pub routes_from_domain_verification :
      Result (List (Route V X)) → DomainVerification → Result (List (Route V X))
  unfolding routes_waiting
  routes_from_domain_verification (err e) dv = err e
  routes_from_domain_verification (ok listed) dv =
      ok (routes_waiting (lower (trim_space dv.domain)) listed)

  -- The queue: `add` a route by its key.
  module _ {W : Type 0} (add : Route V X → W → W)
      (get_by_key : String → W → Result (Option (Route V X))) where
    add_routes : List (Route V X) → W → W
    add_routes [] wd = wd
    add_routes (a ∷ others) wd = add_routes others (add a wd)

    enqueue_listed : Result (List (Route V X)) → W → W
    unfolding add_routes
    enqueue_listed (err e) wd = wd
    enqueue_listed (ok routes) wd = add_routes routes wd

    unfoldable pub enqueue_routes : Result (List (Route V X)) → DomainVerification → W → W
    unfolding enqueue_listed
    enqueue_routes listed dv wd = enqueue_listed (routes_from_domain_verification listed dv) wd

    enqueue_answer : Result (Option (Route V X)) → W → W
    enqueue_answer (err e) wd = wd
    enqueue_answer (ok none) wd = wd
    enqueue_answer (ok (some a)) wd = add a wd

    unfoldable pub enqueue_route_by_key : String → W → W
    unfolding enqueue_answer
    enqueue_route_by_key key wd = enqueue_answer (get_by_key key wd) wd

-- The host is the domain, or it lies below it.
abbrev pub IsUnder : String → String → Type 0
IsUnder host domain = (domain ≡ host) ⊎ IsBelow host domain

-- A verification of the domain.
abbrev verified_domain : ObjectMeta → String → DomainVerification
verified_domain m domain = record {
  meta = m;
  domain = domain;
  status = record {
    verified = true;
    token = "";
    message = "";
    last_checked = none;
    next_check = none;
  };
}

IsUnder-host_matches :
    (m : ObjectMeta) (host domain : String)
    → (host_matches host domain ≡ true) ↔ IsUnder host domain
IsUnder-host_matches m host domain =
    let dv = verified_domain m domain in
    let walk = host_matches_iff host dv refl in
    let covers = is_domain_verified_iff host (dv ∷ []) in
    (
      λ h. elim (covers.0 (walk ∙ h)) [ inl c ↦ c.1 | inr later ↦ absurd later ],
      λ h. sym walk ∙ covers.1 (inl (refl, h)),
    )

module _ {V X : Type 0} (lower : String → String) where
  -- The annotation of pending hosts holds a host that is under the domain.
  abbrev pub IsWaiting : String → Route V X → Type 0
  IsWaiting domain a =
      (pending : String) × (lookup pending_hosts_annotation a.meta.annotations ≡ some pending)
      × IsUnder (lower (trim_space pending)) domain

  waits_for_iff :
      (domain : String) (a : Route V X) → (waits_for lower domain a ≡ true) ↔ IsWaiting domain a
  unfolding waits_for
  waits_for_iff domain a =
      elim (Option-cases (lookup pending_hosts_annotation a.meta.annotations)) [
        | inl e ↦
            rw (e, waits_for)
              (
                λ h. absurd (ground (arith, h)),
                λ (t, same_text, h). absurd (ground (arith, same_text)),
              )
        | inr (pending, e) ↦
            let under = IsUnder-host_matches a.meta (lower (trim_space pending)) domain in
            rw (e, waits_for)
              (
                λ h. (pending, refl, under.0 h),
                λ (other, same_text, h). under.1 (
                    subst (λ t. IsUnder (lower (trim_space t)) domain)
                      (sym (some-injective same_text)) h),
              )
      ]

  Any-routes_waiting :
      (P : Route V X → Type 0) (domain : String) (listed : List (Route V X))
      → Any P (routes_waiting lower domain listed) ↔ Any (λ a. P a × IsWaiting domain a) listed
  unfolding routes_waiting
  Any-routes_waiting P domain [] = (λ h. h, λ h. h)
  Any-routes_waiting P domain (a ∷ others) =
      let ih = Any-routes_waiting P domain others in
      let waits = waits_for_iff domain a in
      elim (Bool-cases (waits_for lower domain a)) [
        | inl e ↦
            rw (e, routes_waiting)
              (
                λ h. elim h [ inl here ↦ inl (here, waits.0 e) | inr later ↦ inr (ih.0 later) ],
                λ h. elim h [ inl here ↦ inl here.0 | inr later ↦ inr (ih.1 later) ],
              )
        | inr e ↦
            rw (e, routes_waiting)
              (
                λ h. inr (ih.0 h),
                λ h. elim h [
                  | inl here ↦ absurd (ground (arith, e, waits.1 here.1))
                  | inr later ↦ ih.1 later
                ],
              )
      ]

  module _ {W : Type 0} (add : Route V X → W → W)
      (get_by_key : String → W → Result (Option (Route V X))) (key_of : Route V X → String)
      (Holds : String → W → Type 0) where
    -- What the queue documents of `Add`: it holds the key of the object and the keys from before.
    abbrev pub AddsKeys : Type 0
    AddsKeys =
        (k : String) (a : Route V X) (wd : W) → Holds k (add a wd) ↔ ((key_of a ≡ k) ⊎ Holds k wd)

    Holds-add_routes :
        AddsKeys
        → (k : String) (routes : List (Route V X)) (wd : W)
        → Holds k (add_routes lower add get_by_key routes wd)
          ↔ (Holds k wd ⊎ Any (λ a. key_of a ≡ k) routes)
    unfolding add_routes
    Holds-add_routes adds k [] wd =
        (λ h. inl h, λ h. elim h [ inl before ↦ before | inr none_left ↦ absurd none_left ])
    Holds-add_routes adds k (a ∷ others) wd =
        let ih = Holds-add_routes adds k others (add a wd) in
        let added = adds k a wd in
        (
          λ h. elim (ih.0 h) [
            | inr later ↦ inr (inr later)
            | inl now ↦ elim (added.0 now) [ inl here ↦ inr (inl here) | inr before ↦ inl before ]
          ],
          λ h. elim h [
            | inl before ↦ ih.1 (inl (added.1 (inr before)))
            | inr (inl here) ↦ ih.1 (inl (added.1 (inl here)))
            | inr (inr later) ↦ ih.1 (inr later)
          ],
        )

    -- Where the queue holds the keys that are added: after the event of a domain verification it holds the
    -- keys that it held, and that of each route that the lister gave and whose pending host, trimmed and
    -- in lower case, is the domain or lies below it, wherever in the list the route stands; and no
    -- others.
    pub Holds-enqueue_routes :
        AddsKeys
        → (listed : List (Route V X)) (dv : DomainVerification) (k : String) (wd : W)
        → Holds k (enqueue_routes lower add get_by_key (ok listed) dv wd) ↔ (
            Holds k wd
            ⊎ Any (λ a. (key_of a ≡ k) × IsWaiting (lower (trim_space dv.domain)) a) listed)
    unfolding enqueue_routes enqueue_listed routes_from_domain_verification
    Holds-enqueue_routes adds listed dv k wd =
        let domain = lower (trim_space dv.domain) in
        let added = Holds-add_routes adds k (routes_waiting lower domain listed) wd in
        let waiting = Any-routes_waiting (λ a. key_of a ≡ k) domain listed in
        (
          λ h. elim (added.0 h) [ inl before ↦ inl before | inr new ↦ inr (waiting.0 new) ],
          λ h. elim h [
            | inl before ↦ added.1 (inl before)
            | inr new ↦ added.1 (inr (waiting.1 new))
          ],
        )
