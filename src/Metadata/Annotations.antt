-- ===== src/Metadata/Annotations.antt =====
-- What the functions of annotations.go and labels.go do to the map that a later read sees.
use kcp_glbc.Prelude.{
  String, none, some, Option-cases, false, Dict, lookup, [], ◌∷◌, contains, lookup-put,
  lookup-delete, ◌==◌, eq_iff, eq_refl, ◌≡◌, if◌then◌else◌, arith, inl, inr, ◌||◌,
}
use kcp_glbc.Api.{ObjectMeta}
use kcp_glbc.Metadata.{
  put_new, add_annotation, remove_annotation, get_annotation, has_annotation, trim_space,
  matches_containing,
}

pub lookup-put_new :
    (key j value : String) (m : Dict String)
    → lookup j (put_new key value m) ≡ (if key == j then some value else lookup j m)
unfolding put_new
lookup-put_new key j value m = elim (Option-cases (lookup key m)) [
  | inl e ↦ rw (e, put_new) (lookup-put key j value m)
  | inr (old, e) ↦ ground (arith, lookup-put key j value m, e, eq_iff key j, eq_iff old value)
]

-- Adding an annotation with a key that holds no outer spaces: the key reads back as written.
pub get_annotation-add :
    (obj : ObjectMeta) (key value : String)
    → trim_space key ≡ key
    → get_annotation (add_annotation obj key value) key ≡ value
unfolding get_annotation has_annotation add_annotation
get_annotation-add obj key value h =
    ground (arith, h, lookup-put_new key key value obj.annotations, eq_refl key)

pub has_annotation-add :
    (obj : ObjectMeta) (key j value : String)
    → has_annotation (add_annotation obj key value) j
      ≡ (key == trim_space j || has_annotation obj j)
unfolding has_annotation add_annotation
has_annotation-add obj key j value =
    ground (arith, lookup-put_new key (trim_space j) value obj.annotations)

-- After an annotation is removed, exactly the keys are absent that are the removed one, when their
-- outer spaces are trimmed; every other key is present or absent as before.
pub has_annotation-remove :
    (obj : ObjectMeta) (key j : String)
    → has_annotation (remove_annotation obj key) j
      ≡ (if key == trim_space j then false else has_annotation obj j)
unfolding has_annotation remove_annotation
has_annotation-remove obj key j = ground (arith, lookup-delete key (trim_space j) obj.annotations)

-- The entries found are those of the map whose key contains the text.
pub lookup-matches_containing :
    (key j : String) (m : Dict String)
    → lookup j (matches_containing key m) ≡ (if contains j key then lookup j m else none)
unfolding matches_containing lookup
lookup-matches_containing key j [] = ground arith
lookup-matches_containing key j ((k, v) ∷ m) =
    ground (arith, lookup-matches_containing key j m, eq_iff k j)
