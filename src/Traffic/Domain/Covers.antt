-- ===== src/Traffic/Domain/Covers.antt =====
-- traffic.go: a host is verified exactly through a verified domain that it equals or lies below.
use kcp_glbc.Prelude.{
  ℕ, zero, suc, ◌<◌, String, Char, code, List, [], ◌∷◌, Option, none, some, Option-cases, true,
  false, eq_iff, cut, keep_first, any, Any, Any-map, same, same_iff, ◌≡◌, ◌≢◌, subst, sym, ap, ◌∙◌,
  ◌⊎◌, inl, inr, ◌↔◌, arith, Bool-cases,
}
use kcp_glbc.Api.{DomainVerification}
use kcp_glbc.Traffic.Domain.{size, is_verified_for, verify, is_domain_verified}

-- Some dot of the host is followed by the domain, up to the host's end.
abbrev pub IsBelow : String → String → Type 0
IsBelow String.[] domain = ⊥
IsBelow (String.◌∷◌ c s) domain = ((code c ≡ b'.') × (s ≡ domain)) ⊎ IsBelow s domain

-- The domain is verified, and the host is the domain or lies below it.
abbrev pub Covers : String → DomainVerification → Type 0
Covers host dv = (dv.status.verified ≡ true) × ((dv.domain ≡ host) ⊎ IsBelow host dv.domain)

cut-none : (host domain : String) → cut b'.' host ≡ none → IsBelow host domain → ⊥
unfolding cut
cut-none String.[] domain h b = b
cut-none (String.◌∷◌ c s) domain h (inl (dot, _)) = ground arith
cut-none (String.◌∷◌ c s) domain h (inr b) = cut-none s domain (ground arith) b

keep_first-some :
    (c : Char) (o : Option (String × String)) {before parent : String}
    → keep_first c o ≡ some (before, parent)
    → (b : String) × (o ≡ some (b, parent))
keep_first-some c none h = cc
keep_first-some c (some (b, p)) h = (b, ground arith)

-- The text is cut at its first character, or the rest of it is cut.
abbrev CutCases : Char → String → String → Type 0
CutCases c s parent =
    ((code c ≡ b'.') × (s ≡ parent))
    ⊎ ((code c ≢ b'.') × ((b : String) × (cut b'.' s ≡ some (b, parent))))

cut_cases :
    (c : Char) (s before parent : String)
    → cut b'.' (String.◌∷◌ c s) ≡ some (before, parent)
    → CutCases c s parent
unfolding cut
cut_cases c s before parent h = elim (Bool-cases (same (code c) b'.')) [
  | inl e ↦ inl ((same_iff (code c) b'.').0 e, ground arith)
  | inr e ↦ inr ((λ d. ground arith), keep_first-some c (cut b'.' s) (rw e at h))
]

cut_smaller :
    (host before parent : String) → cut b'.' host ≡ some (before, parent) → size parent < size host
unfolding size
cut_smaller String.[] before parent h = unfold cut in cc
cut_smaller (String.◌∷◌ c s) before parent h = elim (cut_cases c s before parent h) [
  | inl (dot, e) ↦ omega (arith, ap size e)
  | inr (other, (b, e)) ↦ omega (arith, cut_smaller s b parent e)
]

cut-IsBelow :
    (host before parent domain : String)
    → cut b'.' host ≡ some (before, parent)
    → IsBelow host domain
    → (domain ≡ parent) ⊎ IsBelow parent domain
cut-IsBelow String.[] before parent domain h b = absurd b
cut-IsBelow (String.◌∷◌ c s) before parent domain h b = elim (cut_cases c s before parent h) [
  | inl (dot, e) ↦ elim b [
    | inl (_, same_rest) ↦ inl (sym same_rest ∙ e)
    | inr deeper ↦ inr (subst (λ x. IsBelow x domain) e deeper)
  ]
  | inr (other, (b', e)) ↦ elim b [
    | inl (dot, _) ↦ absurd (other dot)
    | inr deeper ↦ cut-IsBelow s b' parent domain e deeper
  ]
]

IsBelow-cut :
    (host before parent domain : String)
    → cut b'.' host ≡ some (before, parent)
    → (domain ≡ parent) ⊎ IsBelow parent domain
    → IsBelow host domain
IsBelow-cut String.[] before parent domain h b = unfold cut in cc
IsBelow-cut (String.◌∷◌ c s) before parent domain h b = elim (cut_cases c s before parent h) [
  | inl (dot, e) ↦ elim b [
    | inl at_parent ↦ inl (dot, e ∙ sym at_parent)
    | inr deeper ↦ inr (subst (λ x. IsBelow x domain) (sym e) deeper)
  ]
  | inr (other, (b', e)) ↦ inr (IsBelow-cut s b' parent domain e b)
]

Any-verified :
    (host : String) (dvs : List DomainVerification)
    → any (is_verified_for host) dvs ≡ true
    → Any (Covers host) dvs
Any-verified host [] h = cc
Any-verified host (dv ∷ dvs) h = elim (Bool-cases (is_verified_for host dv)) [
  | inl e ↦ inl (ground arith, inl ((eq_iff dv.domain host).0 (ground arith)))
  | inr e ↦ inr (Any-verified host dvs (ground arith))
]

verify_sound :
    (fuel : ℕ) (host : String) (dvs : List DomainVerification)
    → verify fuel host dvs ≡ true
    → Any (Covers host) dvs
unfolding verify
verify_sound zero host dvs h = cc
verify_sound (suc fuel) host dvs h = elim (Bool-cases (any (is_verified_for host) dvs)) [
  | inl e ↦ Any-verified host dvs e
  | inr e ↦ elim (Option-cases (cut b'.' host)) [
    | inl stop ↦ ground arith
    | inr ((before, parent), next) ↦
        Any-map (λ dv c. (c.0, inr (IsBelow-cut host before parent dv.domain next c.1))) dvs
          (verify_sound fuel parent dvs (ground arith))
  ]
]

-- Where no verified domain is the host itself, the host lies below the one that covers it.
IsBelow-unmatched :
    (host : String) (dvs : List DomainVerification)
    → any (is_verified_for host) dvs ≡ false
    → Any (Covers host) dvs
    → Any (λ dv. (dv.status.verified ≡ true) × IsBelow host dv.domain) dvs
IsBelow-unmatched host [] h a = a
IsBelow-unmatched host (dv ∷ dvs) h (inl (v, inl e)) = ground (arith, eq_iff dv.domain host)
IsBelow-unmatched host (dv ∷ dvs) h (inl (v, inr b)) = inl (v, b)
IsBelow-unmatched host (dv ∷ dvs) h (inr a) = inr (IsBelow-unmatched host dvs (ground arith) a)

Any-false :
    (P : DomainVerification → Type 0) (dvs : List DomainVerification)
    → ((dv : DomainVerification) → P dv → ⊥)
    → Any P dvs
    → ⊥
Any-false P [] f a = a
Any-false P (dv ∷ dvs) f (inl p) = f dv p
Any-false P (dv ∷ dvs) f (inr a) = Any-false P dvs f a

verify_complete :
    (fuel : ℕ) (host : String) (dvs : List DomainVerification)
    → size host < fuel
    → Any (Covers host) dvs
    → verify fuel host dvs ≡ true
unfolding verify
verify_complete zero host dvs f a = absurd (omega arith)
verify_complete (suc fuel) host dvs f a = elim (Bool-cases (any (is_verified_for host) dvs)) [
  | inl e ↦ rw e
  | inr e ↦
      let below = IsBelow-unmatched host dvs e a in
      elim (Option-cases (cut b'.' host)) [
        | inl stop ↦ absurd (Any-false _ dvs (λ dv c. cut-none host dv.domain stop c.1) below)
        | inr ((before, parent), next) ↦
            let shorter : size parent < fuel = omega (arith, cut_smaller host before parent next) in
            let above =
              Any-map (λ dv c. (c.0, cut-IsBelow host before parent dv.domain next c.1)) dvs
                below in
            rw (e, next) (verify_complete fuel parent dvs shorter above)
      ]
]

-- A host is verified exactly if some domain verification with status verified has the host itself
-- as its domain, or a domain that follows a dot of the host.
pub is_domain_verified_iff :
    (host : String) (dvs : List DomainVerification)
    → (is_domain_verified host dvs ≡ true) ↔ Any (Covers host) dvs
unfolding is_domain_verified
is_domain_verified_iff host dvs = (
  verify_sound (suc (size host)) host dvs,
  verify_complete (suc (size host)) host dvs (omega arith),
)
