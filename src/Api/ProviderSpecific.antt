-- ===== src/Api/ProviderSpecific.antt =====
-- types.go: what reading, writing and deleting a provider specific property amount to.
use kcp_glbc.Prelude.{
  String, List, [], ◌∷◌, ◌++◌, none, some, ◌==◌, eq_iff, eq_refl, ◌≡◌, refl, if◌then◌else◌, arith,
}
use kcp_glbc.Api.Endpoints.{
  Property, Endpoint, find_property, get_provider_specific, set_provider_specific,
  delete_provider_specific, without_property,
}

find_property-append :
    (key : String) (ps : List Property) (p : Property)
    → find_property key ps ≡ none
    → find_property key (ps ++ p ∷ []) ≡ (if p.name == key then some p else none)
unfolding find_property
find_property-append key [] p h = refl
find_property-append key (q ∷ ps) p h = ground (arith, find_property-append key ps p)

find_property-without :
    (name key : String) (ps : List Property)
    → find_property key (without_property name ps)
      ≡ (if name == key then none else find_property key ps)
unfolding find_property without_property
find_property-without name key [] = ground arith
find_property-without name key (p ∷ ps) = ground (
  arith,
  find_property-without name key ps,
  eq_iff p.name name,
  eq_iff p.name key,
  eq_iff name key,
)

-- Writing a property that the endpoint already has changes nothing.
pub set_provider_specific_present :
    (e : Endpoint) (name value old : String)
    → get_provider_specific e name ≡ some old
    → set_provider_specific e name value ≡ e
unfolding set_provider_specific get_provider_specific
set_provider_specific_present e name value old h = ground arith

-- A property that was absent reads as written.
pub get_provider_specific-set_absent :
    (e : Endpoint) (name value : String)
    → get_provider_specific e name ≡ none
    → get_provider_specific (set_provider_specific e name value) name ≡ some value
unfolding get_provider_specific set_provider_specific
get_provider_specific-set_absent e name value h =
    let p : Property = record { name = name; value = value } in
    ground (arith, find_property-append name e.provider_specific p, eq_refl name)

-- After a delete the property is gone and every other property is as before.
pub get_provider_specific-delete :
    (e : Endpoint) (name key : String)
    → get_provider_specific (delete_provider_specific e name).0 key
      ≡ (if name == key then none else get_provider_specific e key)
unfolding get_provider_specific delete_provider_specific
get_provider_specific-delete e name key =
    ground (arith, find_property-without name key e.provider_specific)
