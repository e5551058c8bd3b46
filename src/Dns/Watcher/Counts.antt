-- ===== src/Dns/Watcher/Counts.antt =====
-- host_watcher.go: how many watchers a list has for a pair of a key and a host.
use kcp_glbc.Prelude.{
  ℕ, ◌+◌, ◌≤◌, String, List, [], ◌∷◌, ◌++◌, true, false, ◌&&◌, ◌==◌, any, ◌≡◌, refl, arith,
  if◌then◌else◌, Bool-cases, inl, inr,
}
use kcp_glbc.Dns.Watcher.{RecordWatcher, new_record_watcher, is_for, is_stopped, split_watchers}

-- How many watchers there are for a pair.
unfoldable pub watchers_for : String → String → List RecordWatcher → ℕ
watchers_for k h [] = 0
watchers_for k h (r ∷ rs) = (if is_for k h r then 1 else 0) + watchers_for k h rs

pub watchers_for-append :
    (k h : String) (xs ys : List RecordWatcher)
    → watchers_for k h (xs ++ ys) ≡ watchers_for k h xs + watchers_for k h ys
unfolding watchers_for
watchers_for-append k h [] ys = omega arith
watchers_for-append k h (x ∷ xs) ys = omega (arith, watchers_for-append k h xs ys)

pub watchers_for-absent :
    (k h : String) (rs : List RecordWatcher) → any (is_for k h) rs ≡ false → watchers_for k h rs ≡ 0
unfolding watchers_for
watchers_for-absent k h [] e = refl
watchers_for-absent k h (r ∷ rs) e = ground (arith, watchers_for-absent k h rs, e)

pub watchers_for-split_watchers :
    (key host k h : String) (rs : List RecordWatcher)
    → watchers_for k h (split_watchers key host rs).0 ≤ watchers_for k h rs
unfolding split_watchers watchers_for
watchers_for-split_watchers key host k h [] = omega arith
watchers_for-split_watchers key host k h (r ∷ rs) =
    let ih = watchers_for-split_watchers key host k h rs in
    elim (Bool-cases (is_stopped key host r)) [
      | inl e ↦ rw (e, split_watchers) (omega (arith, ih))
      | inr e ↦ rw (e, split_watchers) (omega (arith, ih))
    ]

pub watchers_for-present :
    (k h : String) (rs : List RecordWatcher) → any (is_for k h) rs ≡ true → 1 ≤ watchers_for k h rs
unfolding watchers_for
watchers_for-present k h [] e = absurd (ground (arith, e))
watchers_for-present k h (r ∷ rs) e = elim (Bool-cases (is_for k h r)) [
  | inl here ↦ rw here (omega arith)
  | inr other ↦
      let rest : any (is_for k h) rs ≡ true = rw other at e in
      rw other (omega (arith, watchers_for-present k h rs rest))
]

pub watchers_for-new :
    (key host k h : String)
    → watchers_for k h (new_record_watcher key host ∷ []) ≡ (if key == k && host == h then 1 else 0)
unfolding watchers_for
watchers_for-new key host k h = omega arith
