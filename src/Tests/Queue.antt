-- ===== src/Tests/Queue.antt =====
-- The theorems about the work queue, at a queue whose keys never succeed.
use kcp_glbc.Prelude.{
  ℕ, ◌+◌, ◌%◌, String, List, [], ◌∷◌, ◌++◌, Option, none, some, Error, errorf, ◌==◌, if◌then◌else◌,
  ◌≡◌, refl, sym, ap, arith, some-injective,
}
use kcp_glbc.Reconciler.{Queue, start_worker}
use kcp_glbc.Reconciler.Retries.{CountsRequeues, handle_all, occurrences, num_requeues-handle_all}
use kcp_glbc.Reconciler.Draining.{KeepsKeys, IsDistinct, pending-start_worker}

record Waiting : Type 0 where
  keys : List String
  requeues : String → ℕ

pop : List String → (String → ℕ) → Option (String × Waiting)
pop [] requeues = none
pop (key ∷ keys) requeues = some (key, record { keys = keys; requeues = requeues })

abbrev queue : Queue Waiting
queue = record {
  get = λ wd. pop wd.keys wd.requeues;
  done = λ key wd. wd;
  add = λ key wd. record wd { keys = wd.keys ++ key ∷ [] };
  forget = λ key wd. record wd { requeues = λ k. if key == k then 0 else wd.requeues k };
  num_requeues = λ key wd. wd.requeues key;
  add_rate_limited = λ key wd. record {
    keys = key ∷ wd.keys;
    requeues = λ k. if key == k then wd.requeues k + 1 else wd.requeues k;
  };
}

abbrev process : String → Waiting → Option Error × Waiting
process key wd = (some (errorf "not now"), wd)

queue-CountsRequeues : CountsRequeues queue process
queue-CountsRequeues = record {
  forgotten = λ key k wd. refl;
  requeued = λ key k wd. refl;
  finished = λ key k wd. refl;
  processed = λ key k wd. refl;
}

pop-idle : (keys : List String) (requeues : String → ℕ) → pop keys requeues ≡ none → keys ≡ []
unfolding pop
pop-idle [] requeues h = refl
pop-idle (key ∷ keys) requeues h = absurd (ground (arith, h))

-- What the first key leaves.
pop-taken :
    (keys : List String) (requeues : String → ℕ) (k : String) (wd : Waiting)
    → pop keys requeues ≡ some (k, wd)
    → (xs : List String) × (ys : List String) × (keys ≡ xs ++ k ∷ ys) × (wd.keys ≡ xs ++ ys)
unfolding pop
pop-taken [] requeues k wd h = absurd (ground (arith, h))
pop-taken (key ∷ keys) requeues k wd h =
    let first = some-injective h in
    (
      [],
      keys,
      ap (λ (p : String × Waiting). p.0 ∷ keys) first,
      sym (ap (λ (p : String × Waiting). p.1.keys) first),
    )

pop-counted :
    (keys : List String) (requeues : String → ℕ) (k : String) (wd : Waiting)
    → pop keys requeues ≡ some (k, wd)
    → (j : String) → wd.requeues j ≡ requeues j
unfolding pop
pop-counted [] requeues k wd h j = absurd (ground (arith, h))
pop-counted (key ∷ keys) requeues k wd h j =
    sym (ap (λ (p : String × Waiting). p.1.requeues j) (some-injective h))

queue-KeepsKeys : KeepsKeys queue process (λ wd. wd.keys)
queue-KeepsKeys = record {
  idle = λ wd h. pop-idle wd.keys wd.requeues h;
  taken = λ wd k wd' h. pop-taken wd.keys wd.requeues k wd' h;
  counted = λ wd k wd' h j. pop-counted wd.keys wd.requeues k wd' h j;
  processed = λ k wd. refl;
  forgotten = λ k wd. refl;
  finished = λ k wd. refl;
  requeued = λ k wd h. refl;
}

abbrev start : Waiting
start = record { keys = "default/web" ∷ []; requeues = λ k. 0 }

num_requeues-handle_all_example :
    queue.num_requeues "default/web"
      (handle_all queue process ("default/web" ∷ "default/api" ∷ "default/web" ∷ []) start)
    ≡ (queue.num_requeues "default/web" start
        + occurrences "default/web" ("default/web" ∷ "default/api" ∷ "default/web" ∷ []))
      % 6
num_requeues-handle_all_example =
    num_requeues-handle_all queue process queue-CountsRequeues "default/web" (λ wd. refl)
      ("default/web" ∷ "default/api" ∷ "default/web" ∷ []) start (omega arith)

start-IsDistinct : IsDistinct start.keys
unfolding occurrences
start-IsDistinct k = ground arith

pending-start_worker_example : (start_worker queue process 6 start).keys ≡ []
pending-start_worker_example =
    pending-start_worker queue process queue-CountsRequeues queue-KeepsKeys 6 start start-IsDistinct
      (omega arith)
