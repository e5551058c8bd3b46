-- ===== src/Migration/Frame.antt =====
-- migrate.go: what `Migrate` leaves alone.
use kcp_glbc.Prelude.{
  ℕ, String, [], ◌∷◌, Option, none, Dict, refl, arith, Option-cases, inl, inr, Bool, true, false,
  if◌then◌else◌, ◌^^◌,
}
use kcp_glbc.Prelude.Int.{ℤ, Parsed}
use kcp_glbc.Api.{ObjectMeta}
use kcp_glbc.Metadata.{has_annotation, add_annotation, remove_annotation}
use kcp_glbc.Metadata.Same.{SameBut, same_refl, same_trans}
use kcp_glbc.Traffic.Workload.{Workload, after_slash}
use kcp_glbc.Migration.{
  Clock, delete_at_of, ensure_finalizer, ensure_loop, ensure_soft_finalizers, expire,
  remove_finalizer_of, remove_loop, graceful_remove_soft_finalizers, migrate,
}

choice-SameBut :
    (m : ObjectMeta) (b : Bool) (x y : ObjectMeta × Option ℤ)
    → SameBut m x.0
    → SameBut m y.0
    → SameBut m (if◌then◌else◌ {A = ObjectMeta × Option ℤ} b x y).0
choice-SameBut m true x y h k = h
choice-SameBut m false x y h k = k

module _ (w : Workload) (clock : Clock) (itoa : ℕ → String) where
  ensure_finalizer-SameBut :
      (c : String) (m : ObjectMeta) → SameBut m (ensure_finalizer w clock itoa c m)
  unfolding ensure_finalizer add_annotation remove_annotation
  ensure_finalizer-SameBut c m = ground arith

  ensure_loop-SameBut :
      (labels : Dict String) (m : ObjectMeta) → SameBut m (ensure_loop w clock itoa labels m)
  unfolding ensure_loop
  ensure_loop-SameBut [] m = same_refl m
  ensure_loop-SameBut ((label, v) ∷ labels) m = elim (Option-cases (after_slash label)) [
    | inl e ↦ rw (e, ensure_loop) (ensure_loop-SameBut labels m)
    | inr (c, e) ↦
        rw (e, ensure_loop)
          (same_trans m (ensure_finalizer w clock itoa c m) _ (ensure_finalizer-SameBut c m)
            (ensure_loop-SameBut labels (ensure_finalizer w clock itoa c m)))
  ]

  expire-SameBut :
      (readings : ℕ × ℕ) (c : String) (at : Parsed) (m : ObjectMeta)
      → SameBut m (expire w clock itoa readings c at m).0
  unfolding expire remove_annotation
  expire-SameBut readings c at m = ground arith

  remove_finalizer_of-SameBut :
      (readings : ℕ × ℕ) (c : String) (m : ObjectMeta)
      → SameBut m (remove_finalizer_of w clock itoa readings c m).0
  unfolding remove_finalizer_of add_annotation
  remove_finalizer_of-SameBut readings c m =
      choice-SameBut m (has_annotation m (w.deletion_prefix ^^ c)) _ (m, none)
        (choice-SameBut m (has_annotation m (delete_at_of c)) _ _ (expire-SameBut readings c _ m)
          (record { finalizers = refl; deleting = refl }))
        (same_refl m)

  remove_loop-SameBut :
      (annotations : Dict String) (m : ObjectMeta)
      → SameBut m (remove_loop w clock itoa annotations m).0
  unfolding remove_loop
  remove_loop-SameBut [] m = same_refl m
  remove_loop-SameBut ((label, v) ∷ labels) m = elim (Option-cases (after_slash label)) [
    | inl e ↦ rw (e, remove_loop) (remove_loop-SameBut labels m)
    | inr (c, e) ↦
        rw (e, remove_loop)
          (same_trans m (remove_finalizer_of w clock itoa (clock.in_round label) c m).0 _
            (remove_finalizer_of-SameBut (clock.in_round label) c m)
            (remove_loop-SameBut labels
              (remove_finalizer_of w clock itoa (clock.in_round label) c m).0))
  ]

  pub migrate-SameBut : (m : ObjectMeta) → SameBut m (migrate w clock itoa m).0
  unfolding migrate ensure_soft_finalizers graceful_remove_soft_finalizers
  migrate-SameBut m =
      same_trans m (ensure_soft_finalizers w clock itoa m) _ (ensure_loop-SameBut _ m)
        (remove_loop-SameBut _ (ensure_soft_finalizers w clock itoa m))
