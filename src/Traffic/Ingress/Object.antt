-- ===== src/Traffic/Ingress/Object.antt =====
-- ingress.go: an ingress as a traffic object.
use kcp_glbc.Prelude.{String, List, [], ◌∷◌, Result, ◌≡◌, refl, Any, Bool-cases, inl, inr}
use kcp_glbc.Api.{ObjectMeta}
use kcp_glbc.Metadata.{contains_string}
use kcp_glbc.Traffic.Workload.{Workload}
use kcp_glbc.Traffic.Object.{TrafficObject, StatusLaws, TlsLaws, MetaLaws, Secret}
use kcp_glbc.Traffic.Ingress.{
  IngressTls, LoadBalancerIngress, Ingress, tmc_enabled, has_dns_lb_host, set_dns_lb_host, put_tls,
  add_tls,
}
use kcp_glbc.Traffic.Ingress.Statuses.{get_dns_targets}

abbrev pub only_address : String → List LoadBalancerIngress
only_address host = record { ip = ""; hostname = host } ∷ []

-- An entry serves the host, alone, with the secret.
abbrev pub Serves : {V : Type 0} → Ingress V → String → Secret → Type 0
Serves a host secret =
    Any (λ (t : IngressTls). (t.hosts ≡ host ∷ []) × (t.secret_name ≡ secret.name)) a.tls

put_tls-Any :
    (host secret : String) (ts : List IngressTls)
    → Any
        (λ (t : IngressTls). (t.hosts ≡ host ∷ []) × (t.secret_name ≡ secret))
        (put_tls host secret ts)
unfolding put_tls
put_tls-Any host secret [] = inl (refl, refl)
put_tls-Any host secret (t ∷ ts) = elim (Bool-cases (contains_string t.hosts host)) [
  | inl e ↦ rw (e, put_tls) (inl (refl, refl))
  | inr e ↦ rw (e, put_tls) (inr (put_tls-Any host secret ts))
]

-- `key_of` is `MetaNamespaceKeyFunc`.
module _ {V : Type 0} (w : Workload) (unmarshal : String → Result (List LoadBalancerIngress))
    (key_of : ObjectMeta → String) where
  abbrev pub ingress_object : TrafficObject (Ingress V)
  ingress_object = record {
    kind = "Ingress";
    meta = λ a. a.meta;
    with_meta = λ m a. record a { meta = m };
    get_cache_key = λ a. key_of a.meta;
    get_hcg_host = λ a. a.generated_host;
    set_hcg_host = λ host a. record a { generated_host = host };
    tmc_enabled = λ a. tmc_enabled w a;
    has_dns_lb_host = λ a. has_dns_lb_host a;
    set_dns_lb_host = λ host a. set_dns_lb_host a host;
    get_dns_targets = λ a. get_dns_targets w unmarshal a;
    add_tls = λ host secret a. add_tls a host secret.name;
  }

  pub ingress_object-StatusLaws :
      StatusLaws ingress_object (List LoadBalancerIngress) (λ a. a.load_balancer) only_address
  unfolding set_dns_lb_host
  ingress_object-StatusLaws = record {
    with_meta_lem = λ m a. refl;
    set_hcg_host_lem = λ host a. refl;
    set_dns_lb_host_lem = λ host a. refl;
    same_hcg_host = λ host a. refl;
  }

  pub ingress_object-TlsLaws : TlsLaws ingress_object (List IngressTls) (λ a. a.tls) Serves
  unfolding add_tls
  ingress_object-TlsLaws = record {
    with_meta_lem = λ m a. refl;
    same_hcg_host = λ m a. refl;
    same_meta = λ m a. refl;
    add_tls_lem = λ host secret a. put_tls-Any host secret.name a.tls;
  }

  pub ingress_object-MetaLaws : MetaLaws ingress_object
  unfolding add_tls set_dns_lb_host
  ingress_object-MetaLaws = record {
    with_meta_lem = λ m a. refl;
    set_hcg_host_lem = λ host a. refl;
    set_dns_lb_host_lem = λ host a. refl;
    add_tls_lem = λ host secret a. refl;
  }
