-- ===== src/Metadata/Same.antt =====
-- Metadata that differs in annotations and labels at most.
use kcp_glbc.Prelude.{String, ◌≡◌, refl, ◌∙◌}
use kcp_glbc.Api.{ObjectMeta}
use kcp_glbc.Metadata.{add_annotation, remove_annotation, add_label, remove_label}

-- The two differ in their annotations and labels at most.
pub record SameBut (m m' : ObjectMeta) : Type 0 where
  pub finalizers : m'.finalizers ≡ m.finalizers
  pub deleting : m'.deleting ≡ m.deleting

abbrev pub same_refl : (m : ObjectMeta) → SameBut m m
same_refl m = record { finalizers = refl; deleting = refl }

pub same_trans : (m m' m'' : ObjectMeta) → SameBut m m' → SameBut m' m'' → SameBut m m''
same_trans m m' m'' s t = record {
  finalizers = t.finalizers ∙ s.finalizers;
  deleting = t.deleting ∙ s.deleting;
}

pub add_annotation-SameBut :
    (m m' : ObjectMeta) (key value : String)
    → SameBut m m'
    → SameBut m (add_annotation m' key value)
unfolding add_annotation
add_annotation-SameBut m m' key value s = record {
  finalizers = s.finalizers;
  deleting = s.deleting;
}

pub remove_annotation-SameBut :
    (m m' : ObjectMeta) (key : String) → SameBut m m' → SameBut m (remove_annotation m' key)
unfolding remove_annotation
remove_annotation-SameBut m m' key s = record { finalizers = s.finalizers; deleting = s.deleting }

pub add_label-SameBut :
    (m m' : ObjectMeta) (key value : String) → SameBut m m' → SameBut m (add_label m' key value)
unfolding add_label
add_label-SameBut m m' key value s = record { finalizers = s.finalizers; deleting = s.deleting }

pub remove_label-SameBut :
    (m m' : ObjectMeta) (key : String) → SameBut m m' → SameBut m (remove_label m' key)
unfolding remove_label
remove_label-SameBut m m' key s = record { finalizers = s.finalizers; deleting = s.deleting }
