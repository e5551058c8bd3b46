-- ===== src/Reconciler/Retries.antt =====
-- controller.go: how often a key is tried again.
use kcp_glbc.Prelude.{
  ℕ, ◌+◌, ◌%◌, ◌≤◌, ◌≡◌, String, List, [], ◌∷◌, none, some, ◌==◌, eq_iff, if◌then◌else◌, arith, ltb,
  is_some, true, Bool-cases, inl, inr, Option, Error, refl, subst, sym, ◌∙◌,
}
use kcp_glbc.Reconciler.{Queue, settle, handle, max_requeues}

-- How often the key stands in the list.
unfoldable pub occurrences : String → List String → ℕ
occurrences k [] = 0
occurrences k (key ∷ keys) = (if key == k then 1 else 0) + occurrences k keys

-- The count after an attempt with this outcome.
abbrev pub next_count : Option Error → ℕ → ℕ
next_count none n = 0
next_count (some e) n = if ltb n max_requeues then n + 1 else 0

module _ {W : Type 0} (q : Queue W) (process : String → W → Option Error × W) where
  open q use {done, forget, num_requeues, add_rate_limited}

  -- What the rate limiter documents: it counts the calls of `AddRateLimited` for each key since the
  -- last `Forget`. `Done` is no concern of it, and neither is `Process`, which only adds keys.
  pub record CountsRequeues : Type 0 where
    pub forgotten :
        (key k : String) (wd : W)
        → num_requeues k (forget key wd) ≡ (if key == k then 0 else num_requeues k wd)
    pub requeued :
        (key k : String) (wd : W)
        → num_requeues k (add_rate_limited key wd)
          ≡ (if key == k then num_requeues k wd + 1 else num_requeues k wd)
    pub finished : (key k : String) (wd : W) → num_requeues k (done key wd) ≡ num_requeues k wd
    pub processed :
        (key k : String) (wd : W) → num_requeues k (process key wd).1 ≡ num_requeues k wd

  -- Rounds of the worker, with the keys that it gets.
  unfoldable pub handle_all : List String → W → W
  handle_all [] wd = wd
  handle_all (key ∷ keys) wd = handle_all keys (handle q process key wd)

  module _ (laws : CountsRequeues) where
    num_requeues-settle :
        (key k : String) (failed : Option Error) (wd : W)
        → num_requeues k (settle q key failed wd)
          ≡ (if key == k then next_count failed (num_requeues k wd) else num_requeues k wd)
    unfolding settle
    num_requeues-settle key k none wd = laws.forgotten key k wd
    num_requeues-settle key k (some e) wd =
        ground (arith, laws.forgotten key k wd, laws.requeued key k wd, eq_iff key k)

    -- The count of a key after one round of the worker.
    pub num_requeues-handle :
        (key k : String) (wd : W)
        → num_requeues k (handle q process key wd) ≡ (
            if key == k
            then next_count (process key wd).0 (num_requeues k wd)
            else num_requeues k wd)
    unfolding handle
    num_requeues-handle key k wd = ground (
      arith,
      laws.finished key k (settle q key (process key wd).0 (process key wd).1),
      num_requeues-settle key k (process key wd).0 (process key wd).1,
      laws.processed key k wd,
    )

    module _ (k : String) (fails : (wd : W) → is_some (process k wd).0 ≡ true) where
      next_of_failure :
          (failed : Option Error) (n : ℕ)
          → is_some failed ≡ true
          → next_count failed n ≡ (if ltb n max_requeues then n + 1 else 0)
      next_of_failure none n h = ground arith
      next_of_failure (some e) n h = refl

      num_requeues-fails :
          (key : String) (wd : W)
          → num_requeues k wd ≤ max_requeues
          → (num_requeues k (handle q process key wd) ≤ max_requeues)
            × (num_requeues k (handle q process key wd)
                ≡ (num_requeues k wd + (if key == k then 1 else 0)) % 6)
      num_requeues-fails key wd h = elim (Bool-cases (key == k)) [
        | inr e ↦
            let other = num_requeues-handle key k wd in
            let unchanged : num_requeues k (handle q process key wd) ≡ num_requeues k wd =
              rw e at other in
            rw (unchanged, e) (h, omega arith)
        | inl e ↦
            let counted = num_requeues-handle key k wd in
            let failed : is_some (process key wd).0 ≡ true =
              subst (λ j. is_some (process j wd).0 ≡ true) (sym ((eq_iff key k).0 e)) (fails wd) in
            let next : num_requeues k (handle q process key wd)
                ≡ next_count (process key wd).0 (num_requeues k wd) =
              rw e at counted in
            let now = next ∙ next_of_failure (process key wd).0 (num_requeues k wd) failed in
            rw (now, e) (ground (arith, h), ground (arith, h))
      ]

      -- A key whose `Process` always fails is tried again five times in a row and dropped at the sixth
      -- failure, whatever keys the worker handles between: its count of requeues is, modulo six, the
      -- number of its attempts, on top of a count of at most five at the start.
      pub num_requeues-handle_all :
          (keys : List String) (wd : W)
          → num_requeues k wd ≤ max_requeues
          → num_requeues k (handle_all keys wd) ≡ (num_requeues k wd + occurrences k keys) % 6
      unfolding handle_all occurrences
      num_requeues-handle_all [] wd h = omega (arith, h)
      num_requeues-handle_all (key ∷ keys) wd h =
          let (bound, step) = num_requeues-fails key wd h in
          omega (arith, num_requeues-handle_all keys (handle q process key wd) bound, step)
