-- ===== src/Traffic/Ingress/Removal/Limits.antt =====
-- ingress.go: what `RemoveTLS` removes of two hosts or more.
use kcp_glbc.Prelude.{
  ℕ, zero, suc, ◌-◌, ◌≤◌, String, List, [], ◌∷◌, ◌++◌, some, false, Bool-cases, Option-cases, inl,
  inr, length, length-append, take, drop, get_elem?, leb, same, ◌==◌, ◌≡◌, refl, ◌∙◌, ap, ap₂, sym,
  subst, some-injective, All, arith,
}
use kcp_glbc.Traffic.Ingress.{IngressTls}
use kcp_glbc.Traffic.Ingress.Removal.{
  Arrays, shift, scan_hosts, drop_entry, visit_entry, visit_entries, remove_each, remove_tls,
}

module _ {ℓ} {A : Type ℓ} where
  length-take : (n : ℕ) (xs : List A) → n ≤ length xs → length (take n xs) ≡ n
  length-take zero xs h = refl
  length-take (suc n) [] h = omega (arith, h)
  length-take (suc n) (x ∷ xs) h = omega (arith, length-take n xs (omega (arith, h)))

  length-drop : (n : ℕ) (xs : List A) → length (drop n xs) ≡ length xs - n
  length-drop zero xs = omega arith
  length-drop (suc n) [] = omega arith
  length-drop (suc n) (x ∷ xs) = omega (arith, length-drop n xs)

  take-length : (xs : List A) → take (length xs) xs ≡ xs
  take-length [] = refl
  take-length (x ∷ xs) = ap (λ ys. x ∷ ys) (take-length xs)

  length-shift :
      (i : ℕ) (xs : List A) → suc i ≤ length xs → length (shift i (length xs) xs) ≡ length xs
  unfolding shift
  length-shift i xs h =
      let front = take i xs in
      let middle = drop (suc i) (take (length xs) xs) in
      let back = drop (length xs - 1) xs in
      let total : length (front ++ middle ++ back) ≡ length xs = omega (
        arith,
        h,
        length-append (front ++ middle) back,
        length-append front middle,
        length-take i xs (omega (arith, h)),
        length-drop (suc i) (take (length xs) xs),
        length-take (length xs) xs (omega arith),
        length-drop (length xs - 1) xs,
      ) in
      total

-- The loops leave the entries and their number, and at least two hosts.
record Keeps (st st' : Arrays) : Type 0 where
  many : 2 ≤ length st'.hosts
  entries : st'.entries ≡ st.entries
  count : st'.count ≡ st.count

module _ (st st' st'' : Arrays) where
  Keeps-trans : Keeps st st' → Keeps st' st'' → Keeps st st''
  Keeps-trans k l = record {
    many = l.many;
    entries = l.entries ∙ k.entries;
    count = l.count ∙ k.count;
  }

scan_hosts-Keeps :
    (removed : String) (j : ℕ) (hs : List String) (len : ℕ) (st : Arrays)
    → 2 ≤ length st.hosts
    → 1 ≤ len
    → (len' : ℕ) (st' : Arrays) → scan_hosts removed j hs len st ≡ some (len', st')
    → (1 ≤ len') × Keeps st st'
unfolding scan_hosts
scan_hosts-Keeps removed j [] len st m l len' st' h =
    let e : (len, st) ≡ (len', st') = some-injective h in
    (
      subst (λ (n : ℕ). 1 ≤ n) (ap (λ (r : ℕ × Arrays). r.0) e) l,
      subst (Keeps st) (ap (λ (r : ℕ × Arrays). r.1) e)
          (record { many = m; entries = refl; count = refl }),
    )
scan_hosts-Keeps removed j (host ∷ rest) len st m l len' st' h =
    let n = length st.hosts in
    let cut = record st { hosts = shift j n st.hosts } in
    elim (Bool-cases (host == removed)) [
      | inr other ↦ scan_hosts-Keeps removed (suc j) rest len st m l len' st' (rw other at h)
      | inl here ↦ elim (Bool-cases (leb (suc j) n)) [
        | inr outside ↦ ground (arith, here, outside)
        | inl inside ↦
            let size : length cut.hosts ≡ n = length-shift j st.hosts (ground (arith, inside)) in
            let (some_left, kept) =
              scan_hosts-Keeps removed (suc j) rest (n - 1) cut (omega (arith, m, size))
                (omega (arith, m)) len' st' (rw (here, inside) at h) in
            (some_left, record { many = kept.many; entries = kept.entries; count = kept.count })
      ]
    ]

-- Every entry lists a host.
abbrev pub AllFilled : List IngressTls → Type 0
AllFilled ts = All (λ (t : IngressTls). 1 ≤ length t.hosts) ts

filled_at :
    (ts : List IngressTls) (i : ℕ) (t : IngressTls)
    → AllFilled ts
    → get_elem? ts i ≡ some t
    → 1 ≤ length t.hosts
filled_at [] i t f h = ground (arith, h)
filled_at (u ∷ us) zero t (p, f) h =
    subst (λ (x : IngressTls). 1 ≤ length x.hosts) (some-injective h) p
filled_at (u ∷ us) (suc i) t (p, f) h = filled_at us i t f h

visit_entry-Keeps :
    (removed : String) (i : ℕ) (st st' : Arrays)
    → AllFilled st.entries
    → 2 ≤ length st.hosts
    → visit_entry removed i st ≡ some st'
    → Keeps st st'
unfolding visit_entry drop_entry
visit_entry-Keeps removed i st st' f m h = elim (Option-cases (get_elem? st.entries i)) [
  | inl past ↦ ground (arith, past)
  | inr (t, there) ↦ elim (Option-cases (scan_hosts removed 0 t.hosts (length t.hosts) st)) [
    | inl panic ↦ ground (arith, there, panic)
    | inr ((len, found), scanned) ↦
        let (some_left, kept) =
          scan_hosts-Keeps removed 0 t.hosts (length t.hosts) st m
            (filled_at st.entries i t f there) len found scanned in
        let more : same len 0 ≡ false = ground (arith, some_left) in
        let left : some found ≡ some st' =
          rw (there, scanned, more, visit_entry, drop_entry) at h in
        subst (Keeps st) (some-injective left) kept
  ]
]

visit_entries-Keeps :
    (removed : String) (n i : ℕ) (st st' : Arrays)
    → AllFilled st.entries
    → 2 ≤ length st.hosts
    → visit_entries removed n i st ≡ some st'
    → Keeps st st'
unfolding visit_entries
visit_entries-Keeps removed zero i st st' f m h =
    subst (Keeps st) (some-injective h) (record { many = m; entries = refl; count = refl })
visit_entries-Keeps removed (suc n) i st st' f m h =
    elim (Option-cases (visit_entry removed i st)) [
      | inl panic ↦ ground (arith, panic)
      | inr (next, stepped) ↦
          let first = visit_entry-Keeps removed i st next f m stepped in
          Keeps-trans st next st' first (
            visit_entries-Keeps removed n (suc i) next st' (subst AllFilled (sym first.entries) f)
              first.many (rw (stepped, visit_entries) at h))
    ]

remove_each-Keeps :
    (n k : ℕ) (st st' : Arrays)
    → AllFilled st.entries
    → 2 ≤ length st.hosts
    → remove_each n k st ≡ some st'
    → Keeps st st'
unfolding remove_each
remove_each-Keeps zero k st st' f m h =
    subst (Keeps st) (some-injective h) (record { many = m; entries = refl; count = refl })
remove_each-Keeps (suc n) k st st' f m h = elim (Option-cases (get_elem? st.hosts k)) [
  | inl past ↦ ground (arith, past)
  | inr (removed, there) ↦ elim (Option-cases (visit_entries removed st.count 0 st)) [
    | inl panic ↦ ground (arith, there, panic)
    | inr (next, visited) ↦
        let first = visit_entries-Keeps removed st.count 0 st next f m visited in
        Keeps-trans st next st' first (
          remove_each-Keeps n (suc k) next st' (subst AllFilled (sym first.entries) f) first.many
            (rw (there, visited, remove_each) at h))
  ]
]

-- Asked to remove two hosts or more, from TLS entries that each list a host, `RemoveTLS` panics or
-- leaves every entry as it was, whether or not the entry lists a host to remove.
pub remove_tls_unchanged :
    (hosts : List String) (tls tls' : List IngressTls)
    → 2 ≤ length hosts
    → AllFilled tls
    → remove_tls hosts tls ≡ some tls'
    → tls' ≡ tls
unfolding remove_tls
remove_tls_unchanged hosts tls tls' m f h =
    let start : Arrays = record { hosts = hosts; entries = tls; count = length tls } in
    elim (Option-cases (remove_each (length hosts) 0 start)) [
      | inl panic ↦ ground (arith, panic)
      | inr (last, looped) ↦
          let kept = remove_each-Keeps (length hosts) 0 start last f m looped in
          let left : some (take last.count last.entries) ≡ some tls' =
            rw (looped, remove_tls) at h in
          sym (some-injective left)
          ∙ ap₂ (λ n ts. take n ts) kept.count kept.entries
          ∙ take-length tls
    ]
