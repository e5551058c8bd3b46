-- ===== src/Traffic/Ingress/Removal.antt =====
-- ingress.go: `RemoveTLS`, on the arrays behind its slices. `none` is a panic: a slice expression out
-- of range.
pub mod Limits
use kcp_glbc.Prelude.{
  ℕ, zero, suc, ◌-◌, String, List, [], ◌∷◌, ◌++◌, Option, none, some, length, take, drop, get_elem?,
  leb, same, ◌==◌, if◌then◌else◌,
}
use kcp_glbc.Traffic.Ingress.{IngressTls}

-- The array after `append(x[:i], x[i+1:]...)` on its first `len` elements: those after `i` move up
-- by one, and the last of them stays behind.
unfoldable pub shift {ℓ} : {A : Type ℓ} → ℕ → ℕ → List A → List A
shift i len xs = take i xs ++ drop (suc i) (take len xs) ++ drop (len - 1) xs

-- `hosts` is the argument's array, `entries` the one behind `a.Spec.TLS`, whose length is `count`.
pub record Arrays : Type 0 where
  pub hosts : List String
  pub entries : List IngressTls
  pub count : ℕ

-- The loop over the hosts of one entry. The number is the length of `tlsHosts`.
unfoldable pub scan_hosts : String → ℕ → List String → ℕ → Arrays → Option (ℕ × Arrays)
unfolding shift
scan_hosts removed j [] len st = some (len, st)
scan_hosts removed j (host ∷ rest) len st =
    let kept = scan_hosts removed (suc j) rest len st in
    let n = length st.hosts in
    let cut_out =
      scan_hosts removed (suc j) rest (n - 1) (record st { hosts = shift j n st.hosts }) in
    if host == removed then (if leb (suc j) n then cut_out else none) else kept

drop_entry : ℕ → ℕ × Arrays → Option Arrays
unfolding shift
drop_entry i (len, st) =
    if same len 0
    then (if leb (suc i) st.count
        then some (record st { entries = shift i st.count st.entries; count = st.count - 1 })
        else none)
    else some st

visit_entry : String → ℕ → Arrays → Option Arrays
unfolding scan_hosts drop_entry
visit_entry removed i st = elim (get_elem? st.entries i) [
  | none ↦ none
  | some t ↦ elim (scan_hosts removed 0 t.hosts (length t.hosts) st) [
    | none ↦ none
    | some found ↦ drop_entry i found
  ]
]

-- `n` rounds of the loop over the entries, from the index `i`.
unfoldable pub visit_entries : String → ℕ → ℕ → Arrays → Option Arrays
unfolding visit_entry
visit_entries removed zero i st = some st
visit_entries removed (suc n) i st = elim (visit_entry removed i st) [
  | none ↦ none
  | some st' ↦ visit_entries removed n (suc i) st'
]

-- `n` rounds of the loop over the argument, from the index `k`.
unfoldable pub remove_each : ℕ → ℕ → Arrays → Option Arrays
unfolding visit_entries
remove_each zero k st = some st
remove_each (suc n) k st = elim (get_elem? st.hosts k) [
  | none ↦ none
  | some removed ↦ elim (visit_entries removed st.count 0 st) [
    | none ↦ none
    | some st' ↦ remove_each n (suc k) st'
  ]
]

unfoldable pub remove_tls : List String → List IngressTls → Option (List IngressTls)
unfolding remove_each
remove_tls hosts tls =
    elim (remove_each (length hosts) 0
      (record { hosts = hosts; entries = tls; count = length tls })) [
        | none ↦ none
        | some st ↦ some (take st.count st.entries)
      ]
