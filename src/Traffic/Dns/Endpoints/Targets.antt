-- ===== src/Traffic/Dns/Endpoints/Targets.antt =====
-- dns.go: which endpoints a record gets from the targets, and the weights that they keep.
use mathlib.Core.List.{Perm}
use mathlib.Core.List.Perm
use kcp_glbc.Prelude.{
  ℕ, String, List, [], ◌∷◌, ◌++◌, map, none, some, Dict, lookup, put, length, All, All-append, ◌≢◌,
  ◌⊎◌, ◌≡◌, refl, arith, lookup-put, Option-cases, inl, inr, eq_iff, true, false, ◌==◌, subst, sym,
  ap, ◌∙◌, Bool-cases, ap₂,
}
use kcp_glbc.Api.{DnsRecord}
use kcp_glbc.Api.Endpoints.{Endpoint, get_provider_specific, set_provider_specific}
use kcp_glbc.Api.ProviderSpecific.{set_provider_specific_present}
use kcp_glbc.Aws.Change.{weight_key}
use kcp_glbc.Traffic.Dns.Endpoints.{
  weight_text, endpoints_by_address, or_blank, updated, visit_targets, visit_groups,
  set_endpoint_from_targets,
}

-- The targets of all groups.
abbrev pub all_targets : Dict (List String) → List String
all_targets [] = []
all_targets ((_, targets) ∷ groups) = targets ++ all_targets groups

abbrev pub alone : String → List String
alone t = t ∷ []

first_of : List String → String
first_of [] = ""
first_of (t ∷ ts) = t

eq_of : (s t : String) → (s == t) ≡ true → s ≡ t
eq_of s t h = (eq_iff s t).0 h

map-append {ℓ κ} :
    {A : Type ℓ} {B : Type κ} (f : A → B) (xs ys : List A) → map f (xs ++ ys) ≡ map f xs ++ map f ys
map-append f [] ys = refl
map-append f (x ∷ xs) ys = ap (λ zs. f x ∷ zs) (map-append f xs ys)

targets-set_provider_specific :
    (e : Endpoint) (name value : String) → (set_provider_specific e name value).targets ≡ e.targets
unfolding set_provider_specific
targets-set_provider_specific e name value = ground arith

module _ (itoa : ℕ → String) (sort : List Endpoint → List Endpoint) (dns_name : String) where
  targets-updated :
      (n : ℕ) (t : String) (e : Endpoint) → (updated itoa sort dns_name n t e).targets ≡ alone t
  unfolding updated
  targets-updated n t e = targets-set_provider_specific _ _ _

  targets-visit_targets :
      (n : ℕ) (targets : List String) (current : Dict Endpoint)
      → map (λ (e : Endpoint). e.targets) (visit_targets itoa sort dns_name n targets current).0
        ≡ map alone targets
  unfolding visit_targets
  targets-visit_targets n [] current = refl
  targets-visit_targets n (t ∷ ts) current =
      let e = updated itoa sort dns_name n t (or_blank t (lookup t current)) in
      let next : Dict Endpoint = elim (lookup t current) [
        | none ↦ current
        | some _ ↦ put t e current
      ] in
      ap₂ (λ x xs. x ∷ xs) (targets-updated n t (or_blank t (lookup t current)))
        (targets-visit_targets n ts next)

  targets-visit_groups :
      (groups : Dict (List String)) (current : Dict Endpoint)
      → map (λ (e : Endpoint). e.targets) (visit_groups itoa sort dns_name groups current)
        ≡ map alone (all_targets groups)
  unfolding visit_groups
  targets-visit_groups [] current = refl
  targets-visit_groups ((_, ts) ∷ groups) current =
      let visited = visit_targets itoa sort dns_name (length ts) ts current in
      map-append (λ (e : Endpoint). e.targets) visited.0
        (visit_groups itoa sort dns_name groups visited.1)
      ∙ ap₂ (λ xs ys. xs ++ ys) (targets-visit_targets (length ts) ts current)
          (targets-visit_groups groups visited.1)
      ∙ sym (map-append alone ts (all_targets groups))

  -- Whatever the endpoints were before, and in whatever order the groups are met: where sorting
  -- permutes, the record gets exactly one endpoint for each target, with that target alone.
  pub targets-set_endpoint_from_targets :
      ((es : List Endpoint) → Perm (sort es) es)
      → (groups : Dict (List String)) (r : DnsRecord)
      → Perm
          (map
            (λ (e : Endpoint). e.targets)
            (set_endpoint_from_targets itoa sort dns_name groups r).endpoints)
          (map alone (all_targets groups))
  unfolding set_endpoint_from_targets
  targets-set_endpoint_from_targets permutes groups r =
      let current = endpoints_by_address r.endpoints [] in
      subst
        (λ x.
          Perm
            (map (λ (e : Endpoint). e.targets)
              (sort (visit_groups itoa sort dns_name groups current)))
            x)
        (targets-visit_groups groups current)
        (Perm.map (λ (e : Endpoint). e.targets)
          (permutes (visit_groups itoa sort dns_name groups current)))

  module _ (t v : String) where
    -- The endpoint for the target has the weight.
    abbrev pub HasWeight : Endpoint → Type 0
    HasWeight e = (e.targets ≢ alone t) ⊎ (get_provider_specific e weight_key ≡ some v)

    Holds : Dict Endpoint → Type 0
    Holds current =
        (c : Endpoint) × (lookup t current ≡ some c) × (get_provider_specific c weight_key ≡ some v)

    weight-updated :
        (n : ℕ) (x : String) (c : Endpoint)
        → get_provider_specific c weight_key ≡ some v
        → get_provider_specific (updated itoa sort dns_name n x c) weight_key ≡ some v
    unfolding updated get_provider_specific weight_text
    weight-updated n x c h =
        let e : Endpoint = record c {
          dns_name = dns_name;
          record_type = "A";
          targets = x ∷ [];
          record_ttl = 60;
        } in
        subst (λ (y : Endpoint). get_provider_specific y weight_key ≡ some v)
          (sym (set_provider_specific_present e weight_key (weight_text itoa sort n) v h)) h

    HasWeight-other :
        (n : ℕ) (x : String) (c : Endpoint)
        → (x == t) ≡ false
        → HasWeight (updated itoa sort dns_name n x c)
    unfolding first_of
    HasWeight-other n x c d =
        inl (λ h. ground (arith, d, eq_iff x t, ap first_of (sym (targets-updated n x c) ∙ h)))

    visit_targets-HasWeight :
        (n : ℕ) (targets : List String) (current : Dict Endpoint)
        → Holds current
        → All HasWeight (visit_targets itoa sort dns_name n targets current).0
          × Holds (visit_targets itoa sort dns_name n targets current).1
    unfolding visit_targets Holds or_blank
    visit_targets-HasWeight n [] current h = (tt, h)
    visit_targets-HasWeight n (x ∷ xs) current (c, found, weight) = elim (Bool-cases (x == t)) [
      | inl e ↦
          let here : lookup x current ≡ some c = rw (eq_of x t e) found in
          let u = updated itoa sort dns_name n x c in
          let kept = weight-updated n x c weight in
          let (rest, last) =
            visit_targets-HasWeight n xs (put x u current)
              (u, ground (arith, e, lookup-put x t u current), kept) in
          rw (here, here, visit_targets) ((inr kept, rest), last)
      | inr d ↦ elim (Option-cases (lookup x current)) [
        | inl absent ↦
            let (rest, last) = visit_targets-HasWeight n xs current (c, found, weight) in
            rw (absent, visit_targets) ((HasWeight-other n x (or_blank x none) d, rest), last)
        | inr (b, there) ↦
            let u = updated itoa sort dns_name n x b in
            let (rest, last) =
              visit_targets-HasWeight n xs (put x u current)
                (c, ground (arith, d, found, lookup-put x t u current), weight) in
            rw (there, there, visit_targets) ((HasWeight-other n x b d, rest), last)
      ]
    ]

    visit_groups-HasWeight :
        (groups : Dict (List String)) (current : Dict Endpoint)
        → Holds current
        → All HasWeight (visit_groups itoa sort dns_name groups current)
    unfolding visit_groups
    visit_groups-HasWeight [] current h = tt
    visit_groups-HasWeight ((_, ts) ∷ groups) current h =
        let visited = visit_targets itoa sort dns_name (length ts) ts current in
        let (here, next) = visit_targets-HasWeight (length ts) ts current h in
        All-append HasWeight visited.0 (visit_groups itoa sort dns_name groups visited.1) here
          (visit_groups-HasWeight groups visited.1 next)

    -- Where sorting keeps what holds of all entries: if the record has an endpoint `c` for the target
    -- with a weight, then after the endpoints are set, however many targets the groups have, every
    -- endpoint for that target alone still has that weight.
    pub set_endpoint_from_targets-HasWeight :
        ((P : Endpoint → Type 0) (es : List Endpoint) → All P es → All P (sort es))
        → (groups : Dict (List String)) (r : DnsRecord) (c : Endpoint)
        → lookup t (endpoints_by_address r.endpoints []) ≡ some c
        → get_provider_specific c weight_key ≡ some v
        → All HasWeight (set_endpoint_from_targets itoa sort dns_name groups r).endpoints
    unfolding set_endpoint_from_targets Holds
    set_endpoint_from_targets-HasWeight keeps groups r c found weight =
        let current = endpoints_by_address r.endpoints [] in
        keeps HasWeight (visit_groups itoa sort dns_name groups current)
          (visit_groups-HasWeight groups current (c, found, weight))
