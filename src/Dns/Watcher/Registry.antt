-- ===== src/Dns/Watcher/Registry.antt =====
-- host_watcher.go: over any run of its operations the list of watchers implements a set of pairs of
-- a key and a host.
use kcp_glbc.Prelude.{
  ◌≤◌, String, List, [], ◌∷◌, ◌++◌, Bool, false, not, ◌&&◌, ◌||◌, ◌==◌, eq_iff, any, ◌≡◌, refl, ap,
  ◌∙◌, arith, if◌then◌else◌, Bool-cases, inl, inr,
}
use kcp_glbc.Dns.Watcher.{
  RecordWatcher, HostsWatcher, new_hosts_watcher, new_record_watcher, is_for, is_stopped,
  start_watching, split_watchers, stop_watching,
}
use kcp_glbc.Dns.Watcher.Counts.{
  watchers_for, watchers_for-absent, watchers_for-append, watchers_for-new, watchers_for-present,
  watchers_for-split_watchers,
}

-- The calls that a reconciler makes.
pub data Call : Type 0 where
  start : String → String → Call
  stop : String → String → Call

unfoldable pub step : Call → HostsWatcher → HostsWatcher
step (start key host) w = (start_watching key host w).0
step (stop key host) w = stop_watching key host w

unfoldable pub run : List Call → HostsWatcher → HostsWatcher
unfolding step
run [] w = w
run (call ∷ calls) w = run calls (step call w)

-- The specification: a set of pairs, as its characteristic function.
abbrev pub Watched : Type 0
Watched = String → String → Bool

abbrev pub step_set : Call → Watched → Watched
step_set (start key host) s k h = (key == k && host == h) || s k h
step_set (stop key host) s k h = not ((host == "" || host == h) && k == key) && s k h

unfoldable pub run_set : List Call → Watched → Watched
run_set [] s = s
run_set (call ∷ calls) s = run_set calls (step_set call s)

-- The set that the list stands for.
abbrev pub watched : HostsWatcher → Watched
watched w k h = any (is_for k h) w.records

any-append {ℓ} :
    {A : Type ℓ} (p : A → Bool) (xs ys : List A) → any p (xs ++ ys) ≡ (any p xs || any p ys)
any-append p [] ys = refl
any-append p (x ∷ xs) ys = ground (arith, any-append p xs ys)

swapped : (a b : Bool) → (a || (b || false)) ≡ (b || a)
swapped a b = ground arith

watched-start :
    (key host : String) (w : HostsWatcher) (k h : String)
    → watched (start_watching key host w).0 k h ≡ step_set (start key host) (watched w) k h
unfolding start_watching
watched-start key host w k h = elim (Bool-cases (any (is_for key host) w.records)) [
  | inr e ↦
      rw (e, start_watching)
        (any-append (is_for k h) w.records (new_record_watcher key host ∷ [])
          ∙ swapped (any (is_for k h) w.records) (key == k && host == h))
  | inl e ↦ elim (Bool-cases (key == k && host == h)) [
    | inr other ↦ rw (e, other, start_watching) refl
    | inl here ↦
        let same_key : key ≡ k = (eq_iff key k).0 (ground (arith, here)) in
        let same_host : host ≡ h = (eq_iff host h).0 (ground (arith, here)) in
        rw (e, here, start_watching) (rw (← same_key, ← same_host) e)
  ]
]

any-split_watchers :
    (key host k h : String) (rs : List RecordWatcher)
    → any (is_for k h) (split_watchers key host rs).0
      ≡ (not ((host == "" || host == h) && k == key) && any (is_for k h) rs)
unfolding split_watchers
any-split_watchers key host k h [] = ground arith
any-split_watchers key host k h (r ∷ rs) =
    let ih = any-split_watchers key host k h rs in
    elim (Bool-cases (is_stopped key host r)) [
      | inl e ↦
          rw (e, split_watchers)
            (ground (
              arith,
              ih,
              e,
              eq_iff r.key k,
              eq_iff r.host h,
              eq_iff r.key key,
              eq_iff host r.host,
              eq_iff host h,
              eq_iff k key,
            ))
      | inr e ↦
          rw (e, split_watchers)
            (ground (
              arith,
              ih,
              e,
              eq_iff r.key k,
              eq_iff r.host h,
              eq_iff r.key key,
              eq_iff host r.host,
              eq_iff host h,
              eq_iff k key,
            ))
    ]

watched-step :
    (call : Call) (w : HostsWatcher) (s : Watched)
    → ((k h : String) → watched w k h ≡ s k h)
    → (k h : String) → watched (step call w) k h ≡ step_set call s k h
unfolding step stop_watching
watched-step (start key host) w s same k h =
    watched-start key host w k h ∙ ap (λ b. (key == k && host == h) || b) (same k h)
watched-step (stop key host) w s same k h =
    any-split_watchers key host k h w.records
    ∙ ap (λ b. not ((host == "" || host == h) && k == key) && b) (same k h)

watched-run :
    (calls : List Call) (w : HostsWatcher) (s : Watched)
    → ((k h : String) → watched w k h ≡ s k h)
    → (k h : String) → watched (run calls w) k h ≡ run_set calls s k h
unfolding run run_set
watched-run [] w s same k h = same k h
watched-run (call ∷ calls) w s same k h =
    watched-run calls (step call w) (step_set call s) (watched-step call w s same) k h

-- No pair has two watchers.
abbrev pub IsDistinct : HostsWatcher → Type 0
IsDistinct w = (k h : String) → watchers_for k h w.records ≤ 1

start-IsDistinct :
    (key host : String) (w : HostsWatcher) → IsDistinct w → IsDistinct (start_watching key host w).0
unfolding start_watching
start-IsDistinct key host w distinct k h =
    let added = watchers_for-append k h w.records (new_record_watcher key host ∷ []) in
    elim (Bool-cases (any (is_for key host) w.records)) [
      | inl e ↦ rw (e, start_watching) (distinct k h)
      | inr e ↦
          rw (e, start_watching)
            (elim (Bool-cases (key == k && host == h)) [
              | inr other ↦
                  (let none_new = watchers_for-new key host k h in
                    omega (arith, added, (rw other at none_new), distinct k h))
              | inl here ↦
                  let same_key : key ≡ k = (eq_iff key k).0 (ground (arith, here)) in
                  let same_host : host ≡ h = (eq_iff host h).0 (ground (arith, here)) in
                  let absent : watchers_for k h w.records ≡ 0 =
                    rw (← same_key, ← same_host) (watchers_for-absent key host w.records e) in
                  let one_new = watchers_for-new key host k h in
                  omega (arith, added, (rw here at one_new), absent)
            ])
    ]

step-IsDistinct : (call : Call) (w : HostsWatcher) → IsDistinct w → IsDistinct (step call w)
unfolding step stop_watching
step-IsDistinct (start key host) w distinct k h = start-IsDistinct key host w distinct k h
step-IsDistinct (stop key host) w distinct k h =
    omega (arith, watchers_for-split_watchers key host k h w.records, distinct k h)

run-IsDistinct : (calls : List Call) (w : HostsWatcher) → IsDistinct w → IsDistinct (run calls w)
unfolding run
run-IsDistinct [] w distinct = distinct
run-IsDistinct (call ∷ calls) w distinct =
    run-IsDistinct calls (step call w) (step-IsDistinct call w distinct)

-- After any run of calls from no watchers, the watchers are those of the set of pairs of a key and
-- a host to which `StartWatching` adds a pair, and from which `StopWatching` takes one pair or, without
-- a host, all pairs of a key; and each pair of the set has one watcher alone.
pub run-refines :
    (calls : List Call) (k h : String)
    → (watched (run calls new_hosts_watcher) k h ≡ run_set calls (λ k h. false) k h)
      × (watchers_for k h (run calls new_hosts_watcher).records
          ≡ (if run_set calls (λ k h. false) k h then 1 else 0))
unfolding watchers_for
run-refines calls k h =
    let w = run calls new_hosts_watcher in
    let member = watched-run calls new_hosts_watcher (λ k h. false) (λ k h. refl) k h in
    let distinct = run-IsDistinct calls new_hosts_watcher (λ k h. omega arith) k h in
    (
      member,
      rw (← member) (elim (Bool-cases (watched w k h)) [
        | inl e ↦ rw e (omega (arith, watchers_for-present k h w.records e, distinct))
        | inr e ↦ rw e (watchers_for-absent k h w.records e)
      ]),
    )
