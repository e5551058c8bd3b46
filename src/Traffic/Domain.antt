-- ===== src/Traffic/Domain.antt =====
-- traffic.go: whether a host lies in a verified domain.
pub mod Covers
use Prim.Native.String
use kcp_glbc.Prelude.{
  ℕ, zero, suc, String, List, [], ◌∷◌, Option, none, some, Bool, true, false, ◌&&◌, ◌||◌, ◌==◌, cut,
  any,
}
use kcp_glbc.Api.{DomainVerification}

-- The characters of a text; a label more than this ends the walk up the domains.
unfoldable pub size : String → ℕ
size String.[] = 0
size (String.◌∷◌ c s) = suc (size s)

abbrev pub is_verified_for : String → DomainVerification → Bool
is_verified_for host dv = dv.domain == host && dv.status.verified

-- The recursion of `IsDomainVerified`, on fuel.
unfoldable pub verify : ℕ → String → List DomainVerification → Bool
verify zero host dvs = false
verify (suc fuel) host dvs =
    any (is_verified_for host) dvs
    || elim (cut b'.' host) [ none ↦ false | some (_, parent) ↦ verify fuel parent dvs ]

unfoldable pub is_domain_verified : String → List DomainVerification → Bool
unfolding verify size
is_domain_verified host dvs = verify (suc (size host)) host dvs
