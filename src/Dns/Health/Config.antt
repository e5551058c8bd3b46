-- ===== src/Dns/Health/Config.antt =====
-- health_check_reconciler.go: which annotations configure health checks.
use kcp_glbc.Prelude.{
  String, [], ◌∷◌, Option, none, some, Bool, true, false, Dict, has_prefix, drop_prefix, All, Any,
  Result, ok, err, ◌>>=◌, ◌≡◌, refl, ap, ◌↔◌, Bool-cases, arith, inl, inr,
}
use kcp_glbc.Dns.Health.{
  health_check_prefix, HealthChecksConfig, configure, config_loop, config_from_annotations,
}

-- The annotation that asks for checks over plain HTTP.
abbrev pub protocol_key : String
protocol_key = "kuadrant.experimental/health-protocol"

abbrev pub is_error {ℓ} : {A : Type ℓ} → Result A → Bool
is_error (ok a) = false
is_error (err e) = true

configure-http :
    (result : Option HealthChecksConfig) → is_error (configure protocol_key "HTTP" result) ≡ true
unfolding configure has_prefix drop_prefix
configure-http none = refl
configure-http (some c) = refl

configure_http_only :
    (k v : String) (result : Option HealthChecksConfig)
    → k ≡ protocol_key
    → v ≡ "HTTP"
    → is_error (configure k v result) ≡ true
configure_http_only k v result p q = rw (p, q) (configure-http result)

abbrev pub AsksHttp : String × String → Type 0
AsksHttp (k, v) = (k ≡ protocol_key) × (v ≡ "HTTP")

is_error_of_bind {ℓ κ} :
    {A : Type ℓ} {B : Type κ} (m : Result A) (f : A → Result B)
    → ((a : A) → is_error (f a) ≡ true)
    → is_error (m >>= f) ≡ true
is_error_of_bind (ok a) f h = h a
is_error_of_bind (err e) f h = refl

config_loop-http :
    (m : Dict String) (result : Option HealthChecksConfig)
    → Any AsksHttp m
    → is_error (config_loop m result) ≡ true
unfolding config_loop
config_loop-http [] result h = absurd h
config_loop-http ((k, v) ∷ m) result (inl (p, q)) =
    stops (configure k v result) (configure_http_only k v result p q)
  where
    stops :
        (c : Result (Option HealthChecksConfig))
        → is_error c ≡ true
        → is_error (c >>= λ next. config_loop m next) ≡ true
    stops (ok a) e = cc
    stops (err x) e = refl
config_loop-http ((k, v) ∷ m) result (inr h) =
    is_error_of_bind (configure k v result) (λ next. config_loop m next)
      (λ next. config_loop-http m next h)

-- With an annotation that asks for the protocol HTTP, among whatever others and in whatever order
-- they are met, the configuration is refused.
pub config_from_annotations-http :
    (annotations : Dict String)
    → Any AsksHttp annotations
    → is_error (config_from_annotations annotations) ≡ true
unfolding config_from_annotations
config_from_annotations-http annotations h = config_loop-http annotations none h

abbrev pub IsUnrelated : String × String → Type 0
IsUnrelated (k, v) = has_prefix k health_check_prefix ≡ false

abbrev is_ok_none {ℓ} : {A : Type ℓ} → Result (Option A) → Bool
is_ok_none (ok none) = true
is_ok_none (ok (some a)) = false
is_ok_none (err e) = false

configure-some :
    (k v : String) (c : HealthChecksConfig) → is_ok_none (configure k v (some c)) ≡ false
unfolding configure
configure-some k v c = ground arith

configure_related :
    (k v : String)
    → has_prefix k health_check_prefix ≡ true
    → is_ok_none (configure k v none) ≡ false
unfolding configure
configure_related k v h = ground arith

set_stays :
    (r : Result (Option HealthChecksConfig))
    (f : Option HealthChecksConfig → Result (Option HealthChecksConfig))
    → is_ok_none r ≡ false
    → ((c : HealthChecksConfig) → is_ok_none (f (some c)) ≡ false)
    → is_ok_none (r >>= f) ≡ false
set_stays (err e) f h g = refl
set_stays (ok none) f h g = cc
set_stays (ok (some c)) f h g = g c

-- A configuration that exists does not go away.
some_stays :
    (m : Dict String) (c : HealthChecksConfig) → is_ok_none (config_loop m (some c)) ≡ false
unfolding config_loop
some_stays [] c = refl
some_stays ((k, v) ∷ m) c =
    set_stays (configure k v (some c)) (λ next. config_loop m next) (configure-some k v c)
      (some_stays m)

-- The first entry is not configured on its own.
head-IsUnrelated :
    (k v : String) (m : Dict String)
    → is_ok_none (config_loop ((k, v) ∷ m) none) ≡ true
    → IsUnrelated (k, v)
unfolding config_loop
head-IsUnrelated k v m h = elim (Bool-cases (has_prefix k health_check_prefix)) [
  | inr e ↦ e
  | inl e ↦
      let set =
        set_stays (configure k v none) (λ next. config_loop m next) (configure_related k v e)
          (some_stays m) in
      cc (set, h)
]

configure_unrelated :
    (k v : String) (result : Option HealthChecksConfig)
    → IsUnrelated (k, v)
    → configure k v result ≡ ok result
unfolding configure
configure_unrelated k v result e = rw e

config_loop-none : (m : Dict String) → is_ok_none (config_loop m none) ≡ true → All IsUnrelated m
unfolding config_loop
config_loop-none [] h = tt
config_loop-none ((k, v) ∷ m) h =
    let e = head-IsUnrelated k v m h in
    (e, config_loop-none m (rw (configure_unrelated k v none e) at h))

config_loop_unrelated : (m : Dict String) → All IsUnrelated m → config_loop m none ≡ ok none
unfolding config_loop
config_loop_unrelated [] h = refl
config_loop_unrelated ((k, v) ∷ m) (e, h) =
    rw (configure_unrelated k v none e) (config_loop_unrelated m h)

-- There is no configuration and no error exactly if no annotation's key has the prefix of the
-- health checks.
pub config_from_annotations-none_iff :
    (annotations : Dict String)
    → (config_from_annotations annotations ≡ ok none) ↔ All IsUnrelated annotations
unfolding config_from_annotations
config_from_annotations-none_iff m =
    (λ e. config_loop-none m (ap is_ok_none e), config_loop_unrelated m)
