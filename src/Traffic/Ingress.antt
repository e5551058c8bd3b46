-- ===== src/Traffic/Ingress.antt =====
-- ingress.go: the traffic object that wraps an Ingress.
pub mod Removal
pub mod Statuses
pub mod Transform
pub mod Hosts
pub mod Object
use kcp_glbc.Prelude.{
  String, List, [], ◌∷◌, ◌++◌, Bool, true, false, not, ◌||◌, ◌==◌, if◌then◌else◌, Error, errorf,
}
use kcp_glbc.Api.{ObjectMeta}
use kcp_glbc.Metadata.{contains_string}
use kcp_glbc.Traffic.Workload.{Workload, tmc_annotated}

-- `V` is `IngressRuleValue`, which the program copies and never reads.
pub record IngressRule (V : Type 0) : Type 0 where
  pub host : String
  pub value : V

pub record IngressTls : Type 0 where
  pub hosts : List String
  pub secret_name : String

pub record LoadBalancerIngress : Type 0 where
  pub ip : String
  pub hostname : String

-- `rules` and `tls` are the fields of the spec that the program writes.
pub record Ingress (V : Type 0) : Type 0 where
  pub meta : ObjectMeta
  pub rules : List (IngressRule V)
  pub tls : List IngressTls
  pub load_balancer : List LoadBalancerIngress
  pub generated_host : String

some_hostname : List LoadBalancerIngress → Bool
some_hostname [] = false
some_hostname (i ∷ is) = not (i.hostname == "") || some_hostname is

unfoldable pub has_dns_lb_host : {V : Type 0} → Ingress V → Bool
unfolding some_hostname
has_dns_lb_host a = some_hostname a.load_balancer

unfoldable pub set_dns_lb_host : {V : Type 0} → Ingress V → String → Ingress V
set_dns_lb_host a host = record a { load_balancer = record { ip = ""; hostname = host } ∷ [] }

status_decides : List LoadBalancerIngress → String → Bool
status_decides (i ∷ []) host = if not (i.hostname == "") then i.hostname == host else i.ip == ""
status_decides _ host = true

unfoldable pub tmc_enabled : {V : Type 0} → Workload → Ingress V → Bool
unfolding tmc_annotated status_decides
tmc_enabled w a =
    if tmc_annotated w a.meta then true else status_decides a.load_balancer a.generated_host

hosts_from : {V : Type 0} → List String → List (IngressRule V) → List String
hosts_from hosts [] = hosts
hosts_from hosts (r ∷ rs) =
    hosts_from (if contains_string hosts r.host then hosts else hosts ++ r.host ∷ []) rs

unfoldable pub get_hosts : {V : Type 0} → Ingress V → List String
unfolding hosts_from
get_hosts a = hosts_from [] a.rules

unfoldable pub put_tls : String → String → List IngressTls → List IngressTls
put_tls host secret [] = record { hosts = host ∷ []; secret_name = secret } ∷ []
put_tls host secret (t ∷ ts) =
    if contains_string t.hosts host
    then record { hosts = host ∷ []; secret_name = secret } ∷ ts
    else t ∷ put_tls host secret ts

unfoldable pub add_tls : {V : Type 0} → Ingress V → String → String → Ingress V
unfolding put_tls
add_tls a host secret = record a { tls = put_tls host secret a.tls }
