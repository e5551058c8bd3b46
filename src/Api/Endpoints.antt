-- ===== src/Api/Endpoints.antt =====
-- types.go: an endpoint of a DNS record and its methods.
use kcp_glbc.Prelude.{
  ℕ, String, List, [], ◌∷◌, ◌++◌, Option, none, some, Bool, true, false, Dict, ◌==◌, if◌then◌else◌,
}

pub record Property : Type 0 where
  pub name : String
  pub value : String

pub record Endpoint : Type 0 where
  pub dns_name : String
  pub targets : List String
  pub record_type : String
  pub set_identifier : String
  pub record_ttl : ℕ
  pub labels : Dict String
  pub provider_specific : List Property

-- The value of `new(Endpoint)` with a set identifier.
abbrev pub blank : String → Endpoint
blank id = record {
  dns_name = "";
  targets = [];
  record_type = "";
  set_identifier = id;
  record_ttl = 0;
  labels = [];
  provider_specific = [];
}

unfoldable pub find_property : String → List Property → Option Property
find_property key [] = none
find_property key (p ∷ ps) = if p.name == key then some p else find_property key ps

unfoldable pub get_provider_specific_property : Endpoint → String → Option Property
unfolding find_property
get_provider_specific_property e key = find_property key e.provider_specific

unfoldable pub get_provider_specific : Endpoint → String → Option String
unfolding find_property
get_provider_specific e name = elim (find_property name e.provider_specific) [
  | none ↦ none
  | some p ↦ some p.value
]

-- `property = &pair` points at the loop's own variable, so the write through it is lost.
unfoldable pub set_provider_specific : Endpoint → String → String → Endpoint
unfolding find_property
set_provider_specific e name value = elim (find_property name e.provider_specific) [
  | some _ ↦ e
  | none ↦ record e {
    provider_specific = e.provider_specific ++ record { name = name; value = value } ∷ [];
  }
]

unfoldable pub without_property : String → List Property → List Property
without_property name [] = []
without_property name (p ∷ ps) =
    let rest = without_property name ps in if p.name == name then rest else p ∷ rest

has_property : String → List Property → Bool
has_property name [] = false
has_property name (p ∷ ps) = if p.name == name then true else has_property name ps

unfoldable pub delete_provider_specific : Endpoint → String → Endpoint × Bool
unfolding without_property has_property
delete_provider_specific e name = (
  record e { provider_specific = without_property name e.provider_specific },
  has_property name e.provider_specific,
)

unfoldable pub set_id : Endpoint → String
set_id e = if e.set_identifier == "" then e.dns_name else e.set_identifier

first_target : List String → Option String
first_target [] = none
first_target (t ∷ ts) = some t

unfoldable pub get_address : Endpoint → Option String
unfolding first_target
get_address e = if e.set_identifier == "" then none else first_target e.targets
