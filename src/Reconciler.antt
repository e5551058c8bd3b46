-- ===== src/Reconciler.antt =====
-- pkg/reconciler/controller.go: the worker that takes keys from a rate limited queue.
pub mod Retries
pub mod Keys
pub mod Draining
pub mod Loop
pub mod Secrets
pub mod Ingress
pub mod Route
use kcp_glbc.Prelude.{
  ℕ, zero, suc, ◌+◌, ◌≡◌, String, List, [], ◌∷◌, Option, none, some, Bool, true, false, not, ◌==◌,
  ◌^^◌, if◌then◌else◌, ltb, Error, Result, ok, err,
}
use mathlib.Core.List.{Perm}

-- `ControllerConfig.GetName`
unfoldable pub get_name : String → String → String
get_name name_suffix default_name =
    if not (name_suffix == "") then default_name ^^ "/" ^^ name_suffix else default_name

-- client-go's `RateLimitingInterface`, with the world in which `Process` acts. `get` has no answer
-- where the queue is shut down, or would wait. The metrics and the log are left out.
pub record Queue (W : Type 0) : Type 0 where
  pub get : W → Option (String × W)
  pub done : String → W → W
  pub add : String → W → W
  pub forget : String → W → W
  pub num_requeues : String → W → ℕ
  pub add_rate_limited : String → W → W

abbrev pub max_requeues : ℕ
max_requeues = 5

module _ {W : Type 0} (q : Queue W) where
  open q use {get, done, add, forget, num_requeues, add_rate_limited}

  -- `key` is the answer of `DeletionHandlingMetaNamespaceKeyFunc`.
  unfoldable pub enqueue : Result String → W → W
  enqueue (err e) wd = wd
  enqueue (ok key) wd = add key wd

  -- Both branches after a failed `Process`.
  retry : String → W → W
  retry key wd =
      if ltb (num_requeues key wd) max_requeues then add_rate_limited key wd else forget key wd

  settle : String → Option Error → W → W
  unfolding retry
  settle key none wd = forget key wd
  settle key (some e) wd = retry key wd

  module _ (process : String → W → Option Error × W) where
    -- What `processNextWorkItem` does with the key that it got.
    unfoldable pub handle : String → W → W
    unfolding settle
    handle key wd = let (failed, wd') = process key wd in done key (settle key failed wd')

    unfoldable pub process_next_work_item : W → Bool × W
    unfolding handle
    process_next_work_item wd = elim (get wd) [
      | none ↦ (false, wd)
      | some (key, wd') ↦ (true, handle key wd')
    ]

    -- `startWorker`, for at most so many rounds.
    unfoldable pub start_worker : ℕ → W → W
    unfolding process_next_work_item
    start_worker zero wd = wd
    start_worker (suc fuel) wd =
        let (more, wd') = process_next_work_item wd in
        let rest = start_worker fuel wd' in if more then rest else wd'
