-- ===== src/Traffic/Ingress/Transform/Diffs.antt =====
-- ingress.go: what `Transform` leaves in the annotations and in the spec.
use kcp_glbc.Prelude.{
  String, List, [], ◌∷◌, Option, none, some, Bool, false, ◌==◌, Dict, lookup, contains,
  if◌then◌else◌, Error, ◌≡◌, refl, arith, Bool-cases, Option-cases, inl, inr, lookup-delete, eq_iff,
  ◌||◌, Any, ◌^^◌, eq_refl, subst, sym, ok, ap,
}
use kcp_glbc.Api.{ObjectMeta}
use kcp_glbc.Metadata.{
  add_annotation, has_labels_containing, remove_annotation, matches_containing,
  has_annotations_containing,
}
use kcp_glbc.Metadata.Annotations.{lookup-put_new}
use kcp_glbc.Traffic.Workload.{Workload, get_sync_targets}
use kcp_glbc.Traffic.Ingress.{Ingress, tmc_enabled}
use kcp_glbc.Traffic.Patches.{
  Patch, add_diffs, set_diffs, remove_each_annotation, reset_diffs, apply_transform_patches,
}
use kcp_glbc.Traffic.Ingress.Transform.{Comparer, PatchValue, patches_for, restore, transform}

has_key : String → Dict String → Bool
has_key k [] = false
has_key k ((j, _) ∷ m) = j == k || has_key k m

lookup-remove_each_annotation :
    (m : Dict String) (meta : ObjectMeta) (k : String)
    → lookup k (remove_each_annotation m meta).annotations
      ≡ (if has_key k m then none else lookup k meta.annotations)
unfolding remove_each_annotation has_key remove_annotation
lookup-remove_each_annotation [] meta k = refl
lookup-remove_each_annotation ((j, v) ∷ m) meta k = ground (
  arith,
  lookup-remove_each_annotation m (remove_annotation meta j) k,
  lookup-delete j k meta.annotations,
)

-- An entry of the matches has a key that contains the text; an entry of the map with such a key is
-- a match.
has_key-matches_containing :
    (text k : String) (m : Dict String)
    → has_key k (matches_containing text m) ≡ (if contains k text then has_key k m else false)
unfolding has_key matches_containing
has_key-matches_containing text k [] = ground arith
has_key-matches_containing text k ((j, v) ∷ m) =
    ground (arith, has_key-matches_containing text k m, eq_iff j k)

lookup_absent : (k : String) (m : Dict String) → has_key k m ≡ false → lookup k m ≡ none
unfolding has_key lookup
lookup_absent k [] h = refl
lookup_absent k ((j, v) ∷ m) h = ground (arith, lookup_absent k m)

-- Resetting removes every annotation whose key contains the prefix of the spec diffs, and leaves the
-- others.
lookup-reset_diffs :
    (w : Workload) (meta : ObjectMeta) (k : String)
    → lookup k (reset_diffs w meta).annotations
      ≡ (if contains k w.spec_diff_prefix then none else lookup k meta.annotations)
unfolding reset_diffs has_annotations_containing
lookup-reset_diffs w meta k = ground (
  arith,
  lookup-remove_each_annotation (matches_containing w.spec_diff_prefix meta.annotations) meta k,
  has_key-matches_containing w.spec_diff_prefix k meta.annotations,
  lookup_absent k meta.annotations,
)

labels-remove_each_annotation :
    (m : Dict String) (meta : ObjectMeta) → (remove_each_annotation m meta).labels ≡ meta.labels
unfolding remove_each_annotation remove_annotation
labels-remove_each_annotation [] meta = refl
labels-remove_each_annotation ((k, v) ∷ m) meta =
    labels-remove_each_annotation m (remove_annotation meta k)

sync_targets-reset_diffs :
    (w : Workload) (meta : ObjectMeta)
    → get_sync_targets w (reset_diffs w meta) ≡ get_sync_targets w meta
unfolding reset_diffs get_sync_targets has_labels_containing
sync_targets-reset_diffs w meta =
    rw (labels-remove_each_annotation (has_annotations_containing meta w.spec_diff_prefix).1 meta)
      refl

-- An annotation that has the text already keeps it.
add_diffs-keeps :
    (prefix diff key : String) (cs : List String) (meta : ObjectMeta)
    → lookup key meta.annotations ≡ some diff
    → lookup key (add_diffs prefix diff cs meta).annotations ≡ some diff
unfolding add_diffs add_annotation
add_diffs-keeps prefix diff key [] meta h = h
add_diffs-keeps prefix diff key (c ∷ cs) meta h =
    add_diffs-keeps prefix diff key cs (add_annotation meta (prefix ^^ c) diff)
      (ground (arith, h, lookup-put_new (prefix ^^ c) key diff meta.annotations))

lookup-add_diffs :
    (prefix diff c : String) (cs : List String) (meta : ObjectMeta)
    → Any (λ x. x ≡ c) cs
    → lookup (prefix ^^ c) (add_diffs prefix diff cs meta).annotations ≡ some diff
unfolding add_diffs add_annotation
lookup-add_diffs prefix diff c [] meta h = absurd h
lookup-add_diffs prefix diff c (x ∷ cs) meta (inl e) =
    add_diffs-keeps prefix diff (prefix ^^ c) cs (add_annotation meta (prefix ^^ x) diff) (
      rw e (
        ground (
          arith,
          lookup-put_new (prefix ^^ c) (prefix ^^ c) diff meta.annotations,
          eq_refl (prefix ^^ c),
        )))
lookup-add_diffs prefix diff c (x ∷ cs) meta (inr h) =
    lookup-add_diffs prefix diff c cs (add_annotation meta (prefix ^^ x) diff) h

module _ {V : Type 0} (w : Workload) (cmp : Comparer V) (old a : Ingress V) where
  -- Where the ingress asks for no patch: `Transform` removes every annotation whose key contains the
  -- prefix of the spec diffs and leaves all the others.
  pub lookup-transform_unpatched :
      (k : String)
      → patches_for w cmp old a ≡ []
      → lookup k (transform w cmp old a).1.meta.annotations
        ≡ (if contains k w.spec_diff_prefix then none else lookup k a.meta.annotations)
  unfolding transform apply_transform_patches restore
  lookup-transform_unpatched k h =
      rw (h, transform, apply_transform_patches) (ground (arith, lookup-reset_diffs w a.meta k))

  -- Where the patches marshal to a text: after `Transform` the spec diff of each sync target of the
  -- ingress is that text.
  pub lookup-transform :
      (p : Patch (PatchValue V)) (ps : List (Patch (PatchValue V))) (diff c : String)
      → patches_for w cmp old a ≡ p ∷ ps
      → cmp.marshal (p ∷ ps) ≡ ok diff
      → Any (λ x. x ≡ c) (get_sync_targets w a.meta)
      → lookup (w.spec_diff_prefix ^^ c) (transform w cmp old a).1.meta.annotations ≡ some diff
  unfolding transform apply_transform_patches restore set_diffs
  lookup-transform p ps diff c h m member =
      let there =
        lookup-add_diffs w.spec_diff_prefix diff c (get_sync_targets w (reset_diffs w a.meta))
          (reset_diffs w a.meta)
          (subst (Any (λ x. x ≡ c)) (sym (sync_targets-reset_diffs w a.meta)) member) in
      rw (h, m, transform, apply_transform_patches, set_diffs) (ground (arith, there))

  -- The spec is the old one where TMC is enabled, and that of the ingress where it is not.
  abbrev pub HasSpec : Ingress V → Type 0
  HasSpec x =
      (x.rules ≡ (if tmc_enabled w x then old.rules else a.rules))
      × (x.tls ≡ (if tmc_enabled w x then old.tls else a.tls))

  restore-HasSpec : (meta : ObjectMeta) → HasSpec (restore w cmp old (record a { meta = meta }))
  unfolding restore tmc_enabled
  restore-HasSpec meta =
      let patched = record a { meta = meta } in
      elim (Bool-cases (tmc_enabled w patched)) [
        | inl e ↦
            rw (e, restore)
              (
                sym (ap (λ (b : Bool). if b then old.rules else a.rules) e),
                sym (ap (λ (b : Bool). if b then old.tls else a.tls) e),
              )
        | inr e ↦
            rw (e, restore)
              (
                sym (ap (λ (b : Bool). if b then old.rules else a.rules) e),
                sym (ap (λ (b : Bool). if b then old.tls else a.tls) e),
              )
      ]

  -- When `Transform` succeeds, the rules and the TLS entries are those of the old ingress if TMC is
  -- enabled for the result, and those that the ingress had if it is not.
  pub transform-HasSpec : (a' : Ingress V) → transform w cmp old a ≡ (none, a') → HasSpec a'
  unfolding transform
  transform-HasSpec a' h =
      let applied = apply_transform_patches w cmp.marshal (patches_for w cmp old a) a.meta in
      elim (Option-cases applied.0) [
        | inl e ↦
            subst HasSpec (ap (λ (r : Option Error × Ingress V). r.1) (rw (e, transform) at h))
              (restore-HasSpec applied.1)
        | inr (x, e) ↦
            ground (arith, ap (λ (r : Option Error × Ingress V). r.0) (rw (e, transform) at h))
      ]
