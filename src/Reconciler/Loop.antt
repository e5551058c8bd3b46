-- ===== src/Reconciler/Loop.antt =====
-- pkg/reconciler/ingress/ingress_reconciler.go and pkg/reconciler/route/route_reconciler.go: `reconcile`
-- of a traffic object.
pub mod Finalizer
pub mod Success
pub mod Chain
pub mod Members
pub mod Served
use kcp_glbc.Prelude.{
  ℕ, zero, suc, String, List, [], ◌∷◌, ◌++◌, Option, none, some, Bool, true, false, ◌==◌, ◌^^◌,
  contains, length, get_elem?, if◌then◌else◌, Error,
}
use kcp_glbc.Prelude.Int.{ℤ, pos, int_mul}
use kcp_glbc.Api.{ObjectMeta}
use kcp_glbc.Metadata.{add_finalizer, remove_finalizer, has_finalizer}
use kcp_glbc.Migration.{Clock, second, migrate}
use kcp_glbc.Traffic.Workload.{Workload}
use kcp_glbc.Traffic.Object.{TrafficObject}
use kcp_glbc.Traffic.Dns.{ReconcileStatus}

abbrev pub cascade_finalizer : String
cascade_finalizer = "kuadrant.dev/cascade-cleanup"

abbrev pub syncer_finalizer : String
syncer_finalizer = "workload.kcp.dev/syncer-"

last_of : String → List String → String
last_of x [] = x
last_of x (y ∷ ys) = last_of y ys

-- What stands in the array behind the finalizers, after them, once one of them was removed.
left_behind : String → ObjectMeta → List String → List String
unfolding last_of
left_behind f m stale = if has_finalizer m f then last_of f m.finalizers ∷ stale else stale

-- `n` rounds of the loop over the array, from the index `j`. The array keeps its length, while
-- finalizers are removed from it.
unfoldable pub remove_syncer_finalizers : ℕ → ℕ → List String → ObjectMeta → ObjectMeta
unfolding left_behind
remove_syncer_finalizers zero j stale m = m
remove_syncer_finalizers (suc n) j stale m = elim (get_elem? (m.finalizers ++ stale) j) [
  | none ↦ m
  | some f ↦
      remove_syncer_finalizers n (suc j)
        (if contains f syncer_finalizer then left_behind f m stale else stale)
        (if contains f syncer_finalizer then remove_finalizer m f else m)
]

-- One of the `Reconciler`s; `none` is a panic.
pub record Member (A W : Type 0) : Type 0 where
  pub name : String
  pub reconcile : A → W → Option (ReconcileStatus × Option Error × A × W)

-- The queue and the watchers, what becomes of an error, `NewAggregate` of a list that is not empty,
-- and the clock and `FormatInt` of the migration.
pub record LoopServices (W : Type 0) : Type 0 where
  pub add_after : String → ℤ → W → W
  pub stop_watching : String → String → W → W
  pub wrap : String → Error → Error
  pub aggregate : Error → List Error → Error
  pub clock : Clock
  pub itoa : ℕ → String

module _ {A W : Type 0} (w : Workload) (o : TrafficObject A) (sv : LoopServices W) where
  open o use {meta, with_meta, get_cache_key}
  open sv use {add_after, stop_watching, wrap, aggregate, clock, itoa}

  wrapped : String → Option Error → List Error
  wrapped name none = []
  wrapped name (some e) = wrap name e ∷ []

  requeue : ReconcileStatus → A → W → W
  requeue s a wd = elim s [
    | ReconcileStatus.requeue_in_5_seconds ↦ add_after (get_cache_key a) (int_mul (pos 5) second) wd
    | _ ↦ wd
  ]

  abbrev pub is_stop : ReconcileStatus → Bool
  is_stop s = elim s [ ReconcileStatus.stop ↦ true | _ ↦ false ]

  put_first : List Error → Option (List Error × A × W) → Option (List Error × A × W)
  put_first errs none = none
  put_first errs (some (rest, a, wd)) = some (errs ++ rest, a, wd)

  -- The loop over the reconcilers.
  unfoldable pub run_members : List (Member A W) → A → W → Option (List Error × A × W)
  unfolding wrapped requeue put_first
  run_members [] a wd = some ([], a, wd)
  run_members (r ∷ rs) a wd = elim (r.reconcile a wd) [
    | none ↦ none
    | some (status, failed, a', wd') ↦ put_first (wrapped r.name failed) (
        let rest = run_members rs a' (requeue status a' wd') in
        if is_stop status then some ([], a', requeue status a' wd') else rest)
  ]

  unfoldable pub prepare : A → A
  prepare a =
      if (meta a).deleting then a else with_meta (add_finalizer (meta a) cascade_finalizer) a

  add_each : String → List ℤ → W → W
  add_each key [] wd = wd
  add_each key (d ∷ ds) wd = add_each key ds (add_after key d wd)

  -- `Migrate` of the object.
  unfoldable pub migrate_object : A → W → A × W
  unfolding add_each
  migrate_object a wd =
      let (m, delays) = migrate w clock itoa (meta a) in
      (with_meta m a, add_each (get_cache_key a) delays wd)

  unfoldable pub release : ObjectMeta → ObjectMeta
  unfolding remove_syncer_finalizers
  release m =
      let m' = remove_finalizer m cascade_finalizer in
      remove_syncer_finalizers (length m'.finalizers) 0 [] m'

  -- The end of `reconcile`.
  conclude : List Error × A × W → Option Error × A × W
  unfolding release
  conclude (e ∷ es, a, wd) = (some (aggregate e es), a, wd)
  conclude ([], a, wd) =
      if (meta a).deleting
      then (none, with_meta (release (meta a)) a, stop_watching (get_cache_key a) "" wd)
      else (none, a, wd)

  concluded : Option (List Error × A × W) → Option (Option Error × A × W)
  unfolding conclude
  concluded none = none
  concluded (some outcome) = some (conclude outcome)

  unfoldable pub reconcile : List (Member A W) → A → W → Option (Option Error × A × W)
  unfolding prepare migrate_object run_members concluded
  reconcile members a wd =
      let (a', wd') = migrate_object (prepare a) wd in concluded (run_members members a' wd')
