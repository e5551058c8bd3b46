-- ===== src/Traffic/Ingress/Transform.antt =====
-- ingress.go: `Transform` of an ingress.
pub mod Diffs
use kcp_glbc.Prelude.{
  String, List, [], ◌∷◌, ◌++◌, Option, none, some, Bool, true, false, not, ◌&&◌, ◌^^◌, Dict,
  is_empty, if◌then◌else◌, Error, errorf, Result, ok, err,
}
use kcp_glbc.Api.{ObjectMeta}
use kcp_glbc.Metadata.{has_annotations_containing, add_annotation, remove_annotation}
use kcp_glbc.Traffic.Workload.{Workload, get_sync_targets}
use kcp_glbc.Traffic.Patches.{Patch, apply_transform_patches}
use kcp_glbc.Traffic.Ingress.{IngressRule, IngressTls, Ingress, tmc_enabled}

-- The values that the patches of an ingress have.
pub data PatchValue (V : Type 0) : Type 0 where
  patch_rules : List (IngressRule V) → PatchValue V
  patch_tls : List IngressTls → PatchValue V

-- `equality.Semantic.DeepEqual` on rules and on TLS entries, and `encoding/json` on patches.
pub record Comparer (V : Type 0) : Type 0 where
  pub rules_equal : List (IngressRule V) → List (IngressRule V) → Bool
  pub tls_equal : List IngressTls → List IngressTls → Bool
  pub marshal : List (Patch (PatchValue V)) → Result String

module _ {V : Type 0} (w : Workload) (cmp : Comparer V) where
  open cmp use {rules_equal, tls_equal, marshal}

  -- Which slices are nil: `process` copies the ingress, `ProcessCustomHosts` builds the rules anew, from
  -- nil, so they are nil where they are empty. `RemoveTLS` cuts the TLS entries, so they are nil only if
  -- there were none in the old ingress; and the comparison takes two empty slices to be equal.
  unfoldable pub patches_for : Ingress V → Ingress V → List (Patch (PatchValue V))
  patches_for old a =
      (if not (is_empty a.rules) && not (rules_equal a.rules old.rules)
        then record { op = "replace"; path = "/rules"; value = patch_rules a.rules } ∷ []
        else [])
      ++ (if not (is_empty a.tls && is_empty old.tls) && not (tls_equal a.tls old.tls)
          then record { op = "replace"; path = "/tls"; value = patch_tls a.tls } ∷ []
          else [])

  restore : Ingress V → Ingress V → Ingress V
  restore old a = if tmc_enabled w a then record a { rules = old.rules; tls = old.tls } else a

  unfoldable pub transform : Ingress V → Ingress V → Option Error × Ingress V
  unfolding apply_transform_patches patches_for restore
  transform old a =
      let (failed, meta) = apply_transform_patches w marshal (patches_for old a) a.meta in
      let patched = record a { meta = meta } in
      elim failed [ some e ↦ (some e, patched) | none ↦ (none, restore old patched) ]
