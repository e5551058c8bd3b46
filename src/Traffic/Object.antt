-- ===== src/Traffic/Object.antt =====
-- traffic.go: `Interface`, what the reconcilers ask of a traffic object, an ingress or a route; and
-- the values that they pass to it.
use kcp_glbc.Prelude.{String, List, Bool, Dict, Error, errorf, Result, ◌≡◌}
use kcp_glbc.Api.{ObjectMeta}

abbrev pub err_generated_host_missing : Error
err_generated_host_missing =
    errorf "generated host annotation was expected but was not set. Ensure DNSRecord created"

-- pkg/dns/target.go
pub data TargetType : Type 0 where
  -- The zero value, of a status without address.
  no_target : TargetType
  host_target : TargetType
  ip_target : TargetType

pub record Target : Type 0 where
  pub cluster : String
  pub target_type : TargetType
  pub value : String

pub record Secret : Type 0 where
  pub name : String
  pub namespace : String
  pub contents : Dict String

-- The methods of `Interface` that the reconcilers call. `with_meta` stands for the writes through the
-- embedded metadata.
pub record TrafficObject (A : Type 0) : Type 0 where
  pub kind : String
  pub meta : A → ObjectMeta
  pub with_meta : ObjectMeta → A → A
  pub get_cache_key : A → String
  pub get_hcg_host : A → String
  pub set_hcg_host : String → A → A
  pub tmc_enabled : A → Bool
  pub has_dns_lb_host : A → Bool
  pub set_dns_lb_host : String → A → A
  pub get_dns_targets : A → Result (List Target)
  pub add_tls : String → Secret → A → A

module _ {A : Type 0} (o : TrafficObject A) where
  open o use {with_meta, get_hcg_host, set_hcg_host, set_dns_lb_host, add_tls, meta}

  -- The addresses in the status change by `SetDNSLBHost` alone, to the one host.
  pub record StatusLaws (S : Type 0) (addresses : A → S) (only : String → S) : Type 0 where
    pub with_meta_lem : (m : ObjectMeta) (a : A) → addresses (with_meta m a) ≡ addresses a
    pub set_hcg_host_lem : (host : String) (a : A) → addresses (set_hcg_host host a) ≡ addresses a
    pub set_dns_lb_host_lem :
        (host : String) (a : A) → addresses (set_dns_lb_host host a) ≡ only host
    pub same_hcg_host :
        (host : String) (a : A) → get_hcg_host (set_dns_lb_host host a) ≡ get_hcg_host a

  -- The TLS entries change by `AddTLS` alone, which makes them serve the host with the secret.
  pub record TlsLaws (T : Type 0) (tls : A → T) (Serves : A → String → Secret → Type 0)
      : Type 0 where
    pub with_meta_lem : (m : ObjectMeta) (a : A) → tls (with_meta m a) ≡ tls a
    pub same_hcg_host : (m : ObjectMeta) (a : A) → get_hcg_host (with_meta m a) ≡ get_hcg_host a
    pub same_meta : (m : ObjectMeta) (a : A) → meta (with_meta m a) ≡ m
    pub add_tls_lem : (host : String) (s : Secret) (a : A) → Serves (add_tls host s a) host s

  -- Only writes to the metadata change it.
  pub record MetaLaws : Type 0 where
    pub with_meta_lem : (m : ObjectMeta) (a : A) → meta (with_meta m a) ≡ m
    pub set_hcg_host_lem : (host : String) (a : A) → meta (set_hcg_host host a) ≡ meta a
    pub set_dns_lb_host_lem : (host : String) (a : A) → meta (set_dns_lb_host host a) ≡ meta a
    pub add_tls_lem : (host : String) (s : Secret) (a : A) → meta (add_tls host s a) ≡ meta a
