-- ===== src/Traffic/Dns/Endpoints/Weights.antt =====
-- dns.go: the weights of endpoints, and which endpoints a record gets.
use kcp_glbc.Prelude.{
  ℕ, zero, suc, ◌*◌, ◌/◌, ◌≤◌, some, ltb, ◌≡◌, refl, some-injective, Bool-cases, arith,
  if◌then◌else◌, inl, inr, false, subst, ap,
}
use native.Mathlib.Nat.{div-add-mod}
use kcp_glbc.Traffic.Dns.Endpoints.{max_weight, aws_endpoint_weight}

share_bounds : (k m : ℕ) → suc k ≤ m → (1 ≤ m / suc k) × (m / suc k ≤ m) × (suc k * (m / suc k) ≤ m)
share_bounds k m h = (
  grind (arith, h, div-add-mod m (suc k)),
  grind (arith, h, div-add-mod m (suc k)),
  grind (arith, h, div-add-mod m (suc k)),
)

capped :
    (n : ℕ)
    → (k : ℕ) × ((if ltb max_weight (suc n) then max_weight else suc n) ≡ suc k)
      × (suc k ≤ max_weight)
capped n = elim (Bool-cases (ltb max_weight (suc n))) [
  | inl e ↦ (119, rw e refl, omega arith)
  | inr e ↦ (n, rw e refl, ground (arith, e))
]

-- The weight of one of `n` addresses, one or more, is at least 1 and within Route 53's bound of 255.
pub aws_endpoint_weight_bounds :
    (n : ℕ) → 1 ≤ n → (w : ℕ) × (aws_endpoint_weight n ≡ some w) × (1 ≤ w) × (w ≤ 255)
unfolding aws_endpoint_weight
aws_endpoint_weight_bounds zero h = ground (arith, h)
aws_endpoint_weight_bounds (suc n) h =
    let (k, e, small) = capped n in
    let (low, high, _) = share_bounds k max_weight small in
    (max_weight / suc k, ap (λ m. some (max_weight / m)) e, low, omega (arith, high))

-- Up to 120 addresses of a target, one or more, the weights of all of them add up to no more than
-- the weight of the target.
pub aws_endpoint_weight_sum :
    (n w : ℕ) → n ≤ max_weight → aws_endpoint_weight n ≡ some w → n * w ≤ max_weight
unfolding aws_endpoint_weight
aws_endpoint_weight_sum zero w h e = omega arith
aws_endpoint_weight_sum (suc n) w h e =
    let uncapped : ltb max_weight (suc n) ≡ false = ground (arith, h) in
    let is : max_weight / suc n ≡ w = some-injective (rw (uncapped, aws_endpoint_weight) at e) in
    subst (λ x. suc n * x ≤ max_weight) is (share_bounds n max_weight h).2
