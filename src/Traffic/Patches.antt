-- ===== src/Traffic/Patches.antt =====
-- traffic.go: the patches of a spec, which `applyTransformPatches` writes as annotations, one for each
-- sync target.
use kcp_glbc.Prelude.{
  String, List, [], ◌∷◌, Option, none, some, ◌^^◌, Dict, Error, errorf, Result, ok, err,
}
use kcp_glbc.Api.{ObjectMeta}
use kcp_glbc.Metadata.{has_annotations_containing, add_annotation, remove_annotation}
use kcp_glbc.Traffic.Workload.{Workload, get_sync_targets}

pub record Patch (X : Type 0) : Type 0 where
  pub op : String
  pub path : String
  pub value : X

unfoldable pub remove_each_annotation : Dict String → ObjectMeta → ObjectMeta
remove_each_annotation [] meta = meta
remove_each_annotation ((k, _) ∷ m) meta = remove_each_annotation m (remove_annotation meta k)

unfoldable pub add_diffs : String → String → List String → ObjectMeta → ObjectMeta
add_diffs prefix diff [] meta = meta
add_diffs prefix diff (c ∷ cs) meta =
    add_diffs prefix diff cs (add_annotation meta (prefix ^^ c) diff)

unfoldable pub reset_diffs : Workload → ObjectMeta → ObjectMeta
unfolding remove_each_annotation
reset_diffs w meta =
    remove_each_annotation (has_annotations_containing meta w.spec_diff_prefix).1 meta

-- `marshal` is `encoding/json`.
module _ {X : Type 0} (w : Workload) (marshal : List (Patch X) → Result String) where
  unfoldable pub set_diffs : Result String → ObjectMeta → Option Error × ObjectMeta
  unfolding add_diffs
  set_diffs (err e) meta =
      (some (errorf ("failed to marshal ingress transform patch " ^^ e.text)), meta)
  set_diffs (ok diff) meta =
      (none, add_diffs w.spec_diff_prefix diff (get_sync_targets w meta) meta)

  unfoldable pub apply_transform_patches : List (Patch X) → ObjectMeta → Option Error × ObjectMeta
  unfolding reset_diffs set_diffs
  apply_transform_patches [] meta = (none, reset_diffs w meta)
  apply_transform_patches (p ∷ ps) meta = set_diffs (marshal (p ∷ ps)) (reset_diffs w meta)
