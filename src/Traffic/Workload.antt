-- ===== src/Traffic/Workload.antt =====
-- The constants of kcp's package workload, and the functions of traffic.go that read them.
use kcp_glbc.Prelude.{String, List, [], ◌∷◌, Bool, Dict, split, Option, none, some}
use kcp_glbc.Api.{ObjectMeta}
use kcp_glbc.Metadata.{has_annotations_containing, has_labels_containing}

pub record Workload : Type 0 where
  -- `InternalClusterStatusAnnotationPrefix`
  pub status_prefix : String
  -- `InternalClusterDeletionTimestampAnnotationPrefix`
  pub deletion_prefix : String
  -- `ClusterSpecDiffAnnotationPrefix`
  pub spec_diff_prefix : String
  -- `ClusterResourceStateLabelPrefix`
  pub state_label_prefix : String

unfoldable pub tmc_annotated : Workload → ObjectMeta → Bool
tmc_annotated w meta = (has_annotations_containing meta w.status_prefix).0

-- The second part of a text that is cut at its slashes.
abbrev pub after_slash : String → Option String
after_slash s = elim (split b'/' s) [ [] ↦ none | _ ∷ [] ↦ none | _ ∷ part ∷ _ ↦ some part ]

clusters_of : Dict String → List String
clusters_of [] = []
clusters_of ((label, _) ∷ m) =
    let rest = clusters_of m in elim (after_slash label) [ none ↦ rest | some c ↦ c ∷ rest ]

unfoldable pub get_sync_targets : Workload → ObjectMeta → List String
unfolding clusters_of
get_sync_targets w meta = clusters_of (has_labels_containing meta w.state_label_prefix).1
