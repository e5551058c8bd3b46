-- ===== src/Migration.antt =====
-- pkg/migration/workload/migrate.go: the soft finalizers of an object that leaves a cluster.
pub mod Delays
pub mod Frame
use kcp_glbc.Prelude.{
  ℕ, ◌+◌, ◌-◌, ◌*◌, String, List, [], ◌∷◌, ◌++◌, Option, none, some, Bool, true, false, Dict,
  lookup, ◌^^◌, if◌then◌else◌,
}
use kcp_glbc.Prelude.Int.{ℤ, pos, int_leb, int_mul, int_sub, wrap64, Parsed, atoi}
use kcp_glbc.Api.{ObjectMeta}
use kcp_glbc.Metadata.{
  has_annotation, has_annotations_containing, has_labels_containing, add_annotation,
  remove_annotation,
}
use kcp_glbc.Traffic.Workload.{Workload, after_slash}

abbrev pub target_label : String
target_label = "state.workload.kcp.dev/"

abbrev pub soft_finalizer_prefix : String
soft_finalizer_prefix = "finalizers.workload.kcp.dev"

abbrev pub soft_finalizer : String
soft_finalizer = "kuadrant.dev/glbc-migration"

abbrev pub delete_at_annotation : String
delete_at_annotation = "kuadrant.dev/glbc-delete-at"

abbrev pub ttl : ℕ
ttl = 60

abbrev pub finalizer_of : String → String
finalizer_of cluster = soft_finalizer_prefix ^^ "/" ^^ cluster

abbrev pub delete_at_of : String → String
delete_at_of cluster = delete_at_annotation ^^ "-" ^^ cluster

abbrev pub second : ℤ
second = pos 1000000000

-- The readings of the clock in one call, in seconds: at its start, and, in the round for an annotation,
-- in the test and in the subtraction.
pub record Clock : Type 0 where
  pub start : ℕ
  pub in_round : String → ℕ × ℕ

-- `itoa` is `strconv.FormatInt`. A delay is an `int64` of nanoseconds.
module _ (w : Workload) (clock : Clock) (itoa : ℕ → String) where
  ensure_finalizer : String → ObjectMeta → ObjectMeta
  ensure_finalizer cluster obj =
      if has_annotation obj (w.deletion_prefix ^^ cluster)
      then obj
      else remove_annotation (add_annotation obj (finalizer_of cluster) soft_finalizer)
          (delete_at_of cluster)

  ensure_loop : Dict String → ObjectMeta → ObjectMeta
  unfolding ensure_finalizer
  ensure_loop [] obj = obj
  ensure_loop ((label, _) ∷ m) obj = elim (after_slash label) [
    | none ↦ ensure_loop m obj
    | some cluster ↦ ensure_loop m (ensure_finalizer cluster obj)
  ]

  unfoldable pub ensure_soft_finalizers : ObjectMeta → ObjectMeta
  unfolding ensure_loop
  ensure_soft_finalizers obj = ensure_loop (has_labels_containing obj target_label).1 obj

  or_blank : Option String → String
  or_blank none = ""
  or_blank (some s) = s

  -- `time.Duration(queueFor) * time.Second`
  delay_until : ℤ → ℕ → ℤ
  delay_until at queued = wrap64 (int_mul (int_sub at queued) second)

  -- The delay, if there is one, with which the object goes into the queue again.
  unfoldable pub expire : ℕ × ℕ → String → Parsed → ObjectMeta → ObjectMeta × Option ℤ
  unfolding delay_until
  expire (tested, queued) cluster at obj =
      let kept = if at.failed then remove_annotation obj (delete_at_of cluster) else obj in
      if int_leb at.value (pos tested)
      then (
        remove_annotation (remove_annotation kept (finalizer_of cluster)) (delete_at_of cluster),
        none,
      )
      else (kept, some (delay_until at.value queued))

  unfoldable pub remove_finalizer_of : ℕ × ℕ → String → ObjectMeta → ObjectMeta × Option ℤ
  unfolding expire or_blank
  remove_finalizer_of readings cluster obj =
      if has_annotation obj (w.deletion_prefix ^^ cluster)
      then (if has_annotation obj (delete_at_of cluster)
          then expire readings cluster
              (atoi (or_blank (lookup (delete_at_of cluster) obj.annotations))) obj
          else (
            add_annotation obj (delete_at_of cluster) (itoa (clock.start + ttl * 2)),
            some (int_mul (pos (ttl * 2)) second),
          ))
      else (obj, none)

  requeued : Option ℤ → List ℤ → List ℤ
  requeued none delays = delays
  requeued (some d) delays = d ∷ delays

  unfoldable pub remove_loop : Dict String → ObjectMeta → ObjectMeta × List ℤ
  unfolding remove_finalizer_of requeued
  remove_loop [] obj = (obj, [])
  remove_loop ((annotation, _) ∷ m) obj = elim (after_slash annotation) [
    | none ↦ remove_loop m obj
    | some cluster ↦
        let (obj', delay) = remove_finalizer_of (clock.in_round annotation) cluster obj in
        let (last, delays) = remove_loop m obj' in (last, requeued delay delays)
  ]

  unfoldable pub graceful_remove_soft_finalizers : ObjectMeta → ObjectMeta × List ℤ
  unfolding remove_loop
  graceful_remove_soft_finalizers obj =
      remove_loop (has_annotations_containing obj soft_finalizer_prefix).1 obj

  unfoldable pub migrate : ObjectMeta → ObjectMeta × List ℤ
  unfolding ensure_soft_finalizers graceful_remove_soft_finalizers
  migrate obj = graceful_remove_soft_finalizers (ensure_soft_finalizers obj)
