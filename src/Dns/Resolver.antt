-- ===== src/Dns/Resolver.antt =====
-- pkg/dns/hostresolv.go: the resolvers of host addresses.
pub mod Panics
use kcp_glbc.Prelude.{
  ℕ, ◌*◌, String, List, [], ◌∷◌, Option, none, some, Bool, true, false, ◌==◌, ◌^^◌, Dict, lookup,
  any, is_empty, map, if◌then◌else◌, Error, errorf, Result, ok, err, ◌>>=◌,
}
use kcp_glbc.Prelude.Int.{ℤ, pos, int_mul, wrap64}
use kcp_glbc.Dns.Watcher.{HostAddress}

abbrev pub no_such_host : Error
no_such_host = errorf "no such host"

abbrev pub second : ℤ
second = pos 1000000000

-- An entry in the JSON of a `ConfigMap`: an address, or the text of a TXT record.
pub record HostEntry : Type 0 where
  pub ip : String
  pub ttl : ℤ
  pub txt : String

-- The data of the `ConfigMap`, `encoding/json`, and `ParseIP`.
pub record ConfigMapHostResolver : Type 0 where
  pub name : String
  pub namespace : String
  pub get : Result (Dict String)
  pub unmarshal : String → Result (List HostEntry)
  pub parse_ip : String → String

module _ (r : ConfigMapHostResolver) where
  open r use {name, namespace, unmarshal, parse_ip}

  addresses_of : String → List HostEntry → List HostAddress
  addresses_of host entries =
      map
        (λ (e : HostEntry). record {
          host = host;
          ip = parse_ip e.ip;
          ttl = wrap64 (int_mul e.ttl second);
        })
        entries

  unfoldable pub lookup_config_map : String → Result (List HostAddress)
  unfolding addresses_of
  lookup_config_map host = r.get >>= λ m. elim (lookup host m) [
    | none ↦
        err (errorf ("host " ^^ host ^^ " not found in ConfigMap " ^^ namespace ^^ "/" ^^ name))
    | some value ↦ unmarshal value >>= λ entries. ok (addresses_of host entries)
  ]

  unfoldable pub txt_in_config_map : String → String → Result Bool
  txt_in_config_map domain value = r.get >>= λ m. elim (lookup domain m) [
    | none ↦ err no_such_host
    | some raw ↦ unmarshal raw >>= λ entries. ok (any (λ (e : HostEntry). e.txt == value) entries)
  ]

-- A record in an answer of a name server: an `A` record with its address and TTL in seconds, or
-- another one.
pub data Answer : Type 0 where
  a_record : String → ℕ → Answer
  other_record : Answer

-- The records of type A.
addresses_in : String → List Answer → List HostAddress
addresses_in host [] = []
addresses_in host (a_record ip ttl ∷ answers) =
    record { host = host; ip = ip; ttl = pos (ttl * 1000000000) } ∷ addresses_in host answers
addresses_in host (other_record ∷ answers) = addresses_in host answers

-- The loop over the name servers, each of which is asked for the A records of the host.
unfoldable pub ask :
    (String → Result (List Answer)) → String → List String → Result (List HostAddress)
unfolding addresses_in
ask exchange host [] = err (errorf "no records found for host")
ask exchange host (server ∷ servers) = elim (exchange server) [
  | err e ↦ err e
  | ok [] ↦ ask exchange host servers
  | ok (answer ∷ answers) ↦ ok (addresses_in host (answer ∷ answers))
]

-- `LookupIPAddr` of the `DefaultHostResolver`: `configured` are the name servers in /etc/resolv.conf.
unfoldable pub lookup_ip_addr :
    Result (List String) → (String → Result (List Answer)) → String → Result (List HostAddress)
unfolding ask
lookup_ip_addr configured exchange host = configured >>= λ servers. ask exchange host servers
