-- ===== src/Reconciler/Draining.antt =====
-- controller.go: the worker comes to an end, whatever fails.
use kcp_glbc.Prelude.{
  ℕ, zero, suc, ◌+◌, ◌-◌, ◌*◌, ◌≤◌, ◌<◌, ◌≡◌, String, List, [], ◌∷◌, ◌++◌, none, some, ◌==◌,
  eq_refl, arith, ltb, true, false, Bool-cases, Option-cases, inl, inr, Option, Error, refl, ◌∙◌,
  ap, length, ◌⊎◌, ltb→lt,
}
use kcp_glbc.Reconciler.{Queue, settle, handle, max_requeues, process_next_work_item, start_worker}
use kcp_glbc.Reconciler.Keys.{
  total, total-split, occurrences-split, occurrences-alone, total-other, total-same,
  total-le-length,
}
use kcp_glbc.Reconciler.Retries.{occurrences, CountsRequeues, next_count, num_requeues-handle}

-- Every key stands in the list at most once.
abbrev pub IsDistinct : List String → Type 0
IsDistinct keys = (k : String) → occurrences k keys ≤ 1

module _ {W : Type 0} (q : Queue W) (process : String → W → Option Error × W) where
  open q use {get, done, forget, num_requeues, add_rate_limited}

  -- What client-go documents of the keys that wait in the queue or for their rate limit, where
  -- `Process` adds no key by itself: `Get` waits until it can take one of them away, and answers that
  -- it quits only where none is left; and only `AddRateLimited` adds one.
  pub record KeepsKeys (pending : W → List String) : Type 0 where
    pub idle : (wd : W) → get wd ≡ none → pending wd ≡ []
    pub taken :
        (wd : W) (k : String) (wd' : W)
        → get wd ≡ some (k, wd')
        → (xs : List String) × (ys : List String) × (pending wd ≡ xs ++ k ∷ ys)
          × (pending wd' ≡ xs ++ ys)
    pub counted :
        (wd : W) (k : String) (wd' : W)
        → get wd ≡ some (k, wd')
        → (j : String) → num_requeues j wd' ≡ num_requeues j wd
    pub processed : (k : String) (wd : W) → pending (process k wd).1 ≡ pending wd
    pub forgotten : (k : String) (wd : W) → pending (forget k wd) ≡ pending wd
    pub finished : (k : String) (wd : W) → pending (done k wd) ≡ pending wd
    pub requeued :
        (k : String) (wd : W)
        → occurrences k (pending wd) ≡ 0
        → pending (add_rate_limited k wd) ≡ k ∷ pending wd

  module _ (counts : CountsRequeues q process) {pending : W → List String}
      (keeps : KeepsKeys pending) where
    -- The rounds that a key may still take.
    rounds : W → String → ℕ
    rounds wd k = suc (max_requeues - num_requeues k wd)

    rounds-other :
        (key : String) (wd : W) (j : String)
        → (key == j) ≡ false
        → rounds (handle q process key wd) j ≡ rounds wd j
    unfolding rounds
    rounds-other key wd j e =
        let counted = num_requeues-handle q process counts key j wd in
        let unchanged : num_requeues j (handle q process key wd) ≡ num_requeues j wd =
          rw e at counted in
        rw unchanged

    -- The keys after the branches of a round.
    pending-settle :
        (key : String) (failed : Option Error) (wd : W)
        → occurrences key (pending wd) ≡ 0
        → (pending (settle q key failed wd) ≡ pending wd)
          ⊎ ((ltb (num_requeues key wd) max_requeues ≡ true)
              × ((e : Error) × (failed ≡ some e))
              × (pending (settle q key failed wd) ≡ key ∷ pending wd))
    unfolding settle
    pending-settle key none wd h = inl (keeps.forgotten key wd)
    pending-settle key (some e) wd h = elim (Bool-cases (ltb (num_requeues key wd) max_requeues)) [
      | inl few ↦ rw few (inr (refl, (e, refl), keeps.requeued key wd h))
      | inr many ↦ rw many (inl (keeps.forgotten key wd))
    ]

    pending-handle :
        (key : String) (wd : W)
        → occurrences key (pending wd) ≡ 0
        → (pending (handle q process key wd) ≡ pending wd)
          ⊎ ((rounds (handle q process key wd) key < rounds wd key)
              × (pending (handle q process key wd) ≡ key ∷ pending wd))
    unfolding handle rounds
    pending-handle key wd h =
        let (failed, wd') = process key wd in
        let same_keys = keeps.processed key wd in
        let done_keys = keeps.finished key (settle q key failed wd') in
        elim (pending-settle key failed wd' (ap (occurrences key) same_keys ∙ h)) [
          | inl e ↦ inl (done_keys ∙ e ∙ same_keys)
          | inr (few, (x, fails), e) ↦
              let same_count = counts.processed key key wd in
              let next = num_requeues-handle q process counts key key wd in
              let now : num_requeues key (handle q process key wd)
                  ≡ next_count failed (num_requeues key wd) =
                rw (eq_refl key) at next in
              let step : next_count failed (num_requeues key wd) ≡ num_requeues key wd + 1 =
                rw fails (ground (arith, few, same_count)) in
              inr (
                omega (arith, now ∙ step, ltb→lt _ _ few, same_count),
                done_keys ∙ e ∙ ap (λ ks. key ∷ ks) same_keys,
              )
        ]

    rounds-taken :
        (wd : W) (key : String) (wd' : W)
        → get wd ≡ some (key, wd')
        → (j : String) → rounds wd' j ≡ rounds wd j
    unfolding rounds
    rounds-taken wd key wd' got j = rw (keeps.counted wd key wd' got j)

    rounds-pos : (wd : W) (key : String) → 1 ≤ rounds wd key
    unfolding rounds
    rounds-pos wd key = omega arith

    -- A round takes a step towards the end.
    total-handle :
        (wd : W) (key : String) (wd' : W)
        → get wd ≡ some (key, wd')
        → IsDistinct (pending wd)
        → IsDistinct (pending (handle q process key wd'))
          × (total (rounds (handle q process key wd')) (pending (handle q process key wd'))
              < total (rounds wd) (pending wd))
    unfolding total occurrences
    total-handle wd key wd' got distinct =
        let (xs, ys, before, after) = keeps.taken wd key wd' got in
        let counted : total (rounds wd') (pending wd') ≡ total (rounds wd) (pending wd') =
          total-same (rounds wd') (rounds wd) (pending wd') (rounds-taken wd key wd' got) in
        let weighed = total-split (rounds wd) key xs ys in
        let all_keys = ap (total (rounds wd)) before in
        let rest_keys = ap (total (rounds wd)) after in
        let alone : occurrences key (pending wd') ≡ 0 =
          rw after (occurrences-alone key xs ys (rw (← before) (distinct key))) in
        let others =
          total-other (rounds (handle q process key wd')) (rounds wd') key (pending wd')
            (rounds-other key wd') alone in
        elim (pending-handle key wd' alone) [
          | inl kept ↦ rw kept (
            λ j. omega (
              arith,
              distinct j,
              occurrences-split j key xs ys,
              ap (occurrences j) before,
              ap (occurrences j) after,
            ),
            omega (arith, others, counted, weighed, all_keys, rest_keys, rounds-pos wd key),
          )
          | inr (fewer, again) ↦ rw again (
            λ j. omega (
              arith,
              distinct j,
              occurrences-split j key xs ys,
              ap (occurrences j) before,
              ap (occurrences j) after,
            ),
            omega (
              arith,
              others,
              counted,
              weighed,
              all_keys,
              rest_keys,
              fewer,
              rounds-taken wd key wd' got key,
            ),
          )
        ]

    -- Enough rounds for the keys empty the queue.
    start_worker-total :
        (fuel : ℕ) (wd : W)
        → IsDistinct (pending wd)
        → total (rounds wd) (pending wd) ≤ fuel
        → get (start_worker q process fuel wd) ≡ none
    unfolding start_worker process_next_work_item
    start_worker-total zero wd distinct enough = elim (Option-cases (get wd)) [
      | inl e ↦ e
      | inr ((key, wd'), e) ↦
          let (_, fewer) = total-handle wd key wd' e distinct in
          absurd (omega (arith, fewer, enough))
    ]
    start_worker-total (suc fuel) wd distinct enough = elim (Option-cases (get wd)) [
      | inl e ↦ rw (e, start_worker, process_next_work_item) e
      | inr ((key, wd'), e) ↦
          let (distinct', fewer) = total-handle wd key wd' e distinct in
          rw (e, start_worker, process_next_work_item)
            (start_worker-total fuel (handle q process key wd') distinct'
              (omega (arith, fewer, enough)))
    ]

    -- The worker empties the queue, whatever fails: where `Process` adds no keys, no key waits twice,
    -- and the loop may run for six rounds or more for each waiting key, no key waits at the end, neither
    -- in the queue nor for its rate limit.
    pub pending-start_worker :
        (fuel : ℕ) (wd : W)
        → IsDistinct (pending wd)
        → 6 * length (pending wd) ≤ fuel
        → pending (start_worker q process fuel wd) ≡ []
    unfolding rounds
    pending-start_worker fuel wd distinct enough = keeps.idle _ (
        start_worker-total fuel wd distinct
          (omega (arith, enough, total-le-length (rounds wd) 6 (pending wd) (λ j. omega arith))))
