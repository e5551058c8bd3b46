-- ===== src/Dns/Watcher/Rounds.antt =====
-- host_watcher.go: what a round of the loop does with the answer of the resolver.
use kcp_glbc.Prelude.{
  ℕ, String, List, [], ◌∷◌, Option, none, some, Bool, true, false, not, ◌||◌, same, same_iff,
  length, ◌≡◌, ◌↔◌, refl, arith, if◌then◌else◌, Error, Result, ok, err, Bool-cases, inl, inr, ◌⊎◌,
  ap, sym, ◌∙◌,
}
use kcp_glbc.Prelude.Int.{ℤ, pos, negsuc, int_leb}
use kcp_glbc.Dns.Watcher.{
  HostAddress, RecordWatcher, Round, max_error_interval, error_interval, min_from, min,
  compare_records, update_records, sleep_after, watch_round,
}

int_leb_refl : (a : ℤ) → int_leb a a ≡ true
int_leb_refl (pos a) = ground arith
int_leb_refl (negsuc a) = ground arith

int_leb-choice :
    (least current value : ℤ)
    → int_leb least (if int_leb current value then current else value) ≡ true
    → int_leb least current ≡ true
int_leb-choice (pos l) (pos c) (pos v) h = ground arith
int_leb-choice (pos l) (pos c) (negsuc v) h = ground arith
int_leb-choice (pos l) (negsuc c) (pos v) h = ground arith
int_leb-choice (pos l) (negsuc c) (negsuc v) h = ground arith
int_leb-choice (negsuc l) (pos c) (pos v) h = ground arith
int_leb-choice (negsuc l) (pos c) (negsuc v) h = ground arith
int_leb-choice (negsuc l) (negsuc c) (pos v) h = ground arith
int_leb-choice (negsuc l) (negsuc c) (negsuc v) h = ground arith

min_from-le : (current : ℤ) (values : List ℤ) → int_leb (min_from current values) current ≡ true
unfolding min_from
min_from-le current [] = int_leb_refl current
min_from-le current (value ∷ values) =
    int_leb-choice _ current value
      (min_from-le (if int_leb current value then current else value) values)

-- `Min` of any values is at most zero, since it starts from the zero value of its type.
pub min-le-zero : (values : List ℤ) → int_leb (min values) (pos 0) ≡ true
unfolding min
min-le-zero values = min_from-le (pos 0) values

choice-fst : (b f x y : Bool) → (if◌then◌else◌ {A = Bool × Bool} b (f, x) (f, y)).0 ≡ f
choice-fst true f x y = refl
choice-fst false f x y = refl

empty-cases {ℓ} :
    {A : Type ℓ} (xs : List A) → (xs ≡ []) ⊎ ((x : A) × (rest : List A) × (xs ≡ x ∷ rest))
empty-cases [] = inl refl
empty-cases (x ∷ xs) = inr (x, xs, refl)

empty_of_length {ℓ} : {A : Type ℓ} (xs : List A) → length xs ≡ 0 → xs ≡ []
empty_of_length [] h = refl
empty_of_length (x ∷ xs) h = absurd (omega (arith, h))

-- The addresses in an answer.
abbrev length_of : Result (List HostAddress) → ℕ
length_of (ok xs) = length xs
length_of (err e) = 0

module _ (ip_equal : String → String → Bool) where
  -- The two answers have the same addresses, in the same order.
  abbrev pub SameAddresses : List HostAddress → List HostAddress → Type 0
  SameAddresses [] [] = Unit
  SameAddresses (a ∷ xs) (b ∷ ys) = (ip_equal a.ip b.ip ≡ true) × SameAddresses xs ys
  SameAddresses _ _ = ⊥

  compare_records-cons :
      (a b : HostAddress) (xs ys : List HostAddress)
      → (compare_records ip_equal (a ∷ xs) (b ∷ ys)).0
        ≡ (not (ip_equal a.ip b.ip) || (compare_records ip_equal xs ys).0)
  unfolding compare_records
  compare_records-cons a b xs ys = elim (Bool-cases (ip_equal a.ip b.ip)) [
    | inr e ↦ rw e refl
    | inl e ↦ rw e (choice-fst (not (int_leb b.ttl a.ttl)) _ _ _)
  ]

  compare_records-SameAddresses :
      (olds news : List HostAddress)
      → ((same (length olds) (length news) ≡ true)
          × ((compare_records ip_equal olds news).0 ≡ false))
        ↔ SameAddresses olds news
  unfolding compare_records
  compare_records-SameAddresses [] [] = (λ h. tt, λ h. (refl, refl))
  compare_records-SameAddresses [] (b ∷ ys) = (λ h. ground (arith, h.0), λ h. absurd h)
  compare_records-SameAddresses (a ∷ xs) [] = (λ h. ground (arith, h.0), λ h. absurd h)
  compare_records-SameAddresses (a ∷ xs) (b ∷ ys) =
      let ih = compare_records-SameAddresses xs ys in
      let step = compare_records-cons a b xs ys in
      (
        λ h. (ground (arith, h, step), ih.0 (ground (arith, h.0), ground (arith, h, step))),
        λ h. (ground (arith, ih.1 h.1), ground (arith, h, step, ih.1 h.1)),
      )

  -- `updateRecords` answers false exactly where the addresses are those that it had, in their order.
  pub update_records-SameAddresses :
      (new : List HostAddress) (w : RecordWatcher)
      → ((update_records ip_equal new w).1 ≡ false) ↔ SameAddresses w.records new
  unfolding update_records
  update_records-SameAddresses new w =
      let compared = compare_records-SameAddresses w.records new in
      let (ips, ttls) = compare_records ip_equal w.records new in
      elim (Bool-cases (same (length w.records) (length new))) [
        | inr e ↦ (λ h. ground (arith, e, h), λ h. ground (arith, e, compared.1 h))
        | inl e ↦ (λ h. compared.0 (e, ground (arith, e, h)), λ h. ground (arith, e, compared.1 h))
      ]

  length-update_records :
      (new : List HostAddress) (w : RecordWatcher)
      → length (update_records ip_equal new w).0.records ≡ length new
  unfolding update_records
  length-update_records new w = ground (arith, same_iff (length w.records) (length new))

  SameAddresses-refl :
      ((ip : String) → ip_equal ip ip ≡ true) → (xs : List HostAddress) → SameAddresses xs xs
  SameAddresses-refl h [] = tt
  SameAddresses-refl h (a ∷ xs) = (h a.ip, SameAddresses-refl h xs)

  records-update_records :
      ((ip : String) → ip_equal ip ip ≡ true)
      → (new : List HostAddress) (w : RecordWatcher)
      → SameAddresses (update_records ip_equal new w).0.records new
  unfolding update_records
  records-update_records h new w =
      let compared = compare_records-SameAddresses w.records new in
      let (ips, ttls) = compare_records ip_equal w.records new in
      elim (Bool-cases (same (length w.records) (length new))) [
        | inr e ↦ rw (e, update_records) (SameAddresses-refl h new)
        | inl e ↦ elim (Bool-cases (ips || ttls)) [
          | inl grew ↦ rw (e, grew, update_records) (SameAddresses-refl h new)
          | inr kept ↦ rw (e, kept, update_records) (compared.0 (e, ground (arith, kept)))
        ]
      ]

  module _ (watch_interval : ℤ → ℤ) where
    abbrev Rounds : Type 0
    Rounds = Option (Round ip_equal)

    sleep_after-none :
        (w : RecordWatcher) (changed : Bool)
        → (sleep_after ip_equal watch_interval (w, changed) ≡ none) ↔ (length w.records ≡ 0)
    unfolding sleep_after
    sleep_after-none w changed = elim (empty-cases w.records) [
      | inl e ↦ rw (e, sleep_after) (λ h. refl, λ h. refl)
      | inr (a, rest, e) ↦
          rw (e, sleep_after) (λ h. ground (arith, h), λ h. absurd (omega (arith, h)))
    ]

    -- A round of the loop panics exactly where the resolver answers without an error and without an
    -- address.
    pub watch_round-none_iff :
        (answer : Result (List HostAddress)) (w : RecordWatcher)
        → (watch_round ip_equal watch_interval answer w ≡ none) ↔ (answer ≡ ok [])
    unfolding watch_round
    watch_round-none_iff (err e) w = (λ h. ground (arith, h), λ h. ground (arith, h))
    watch_round-none_iff (ok new) w =
        let updated = update_records ip_equal new (record w { err_interval = error_interval }) in
        let sized = length-update_records new (record w { err_interval = error_interval }) in
        let stuck = sleep_after-none updated.0 updated.1 in
        (
          λ h. ap ok (empty_of_length new (sym sized ∙ stuck.0 h)),
          λ h. stuck.1 (sized ∙ ap length_of h),
        )

    -- After an error the loop never waits: it sleeps for a time that is at most zero, whatever the
    -- watcher's interval for errors is, and no change is reported.
    pub watch_round-error :
        (e : Error) (w : RecordWatcher)
        → (r : Round ip_equal) × (watch_round ip_equal watch_interval (err e) w ≡ some r)
          × (int_leb r.sleep (pos 0) ≡ true)
          × (r.changed ≡ false)
          × (r.watcher.records ≡ w.records)
    unfolding watch_round
    watch_round-error e w =
        (_, refl, min-le-zero (w.err_interval ∷ max_error_interval ∷ []), refl, refl)

    sleep_after-some :
        (u : RecordWatcher × Bool) (r : Round ip_equal)
        → sleep_after ip_equal watch_interval u ≡ some r
        → (r.watcher ≡ u.0) × (r.changed ≡ u.1)
    unfolding sleep_after
    sleep_after-some u r h = elim (empty-cases u.0.records) [
      | inl e ↦ ground (arith, e, h)
      | inr (a, rest, e) ↦ ground (arith, e, h)
    ]

    -- After a round with addresses the watcher has those of the answer, and `onChange` was called
    -- exactly where the addresses before were others; `IP.Equal` holds of equal addresses.
    pub watch_round-SameAddresses :
        ((ip : String) → ip_equal ip ip ≡ true)
        → (new : List HostAddress) (w : RecordWatcher) (r : Round ip_equal)
        → watch_round ip_equal watch_interval (ok new) w ≡ some r
        → SameAddresses r.watcher.records new × ((r.changed ≡ false) ↔ SameAddresses w.records new)
    unfolding watch_round
    watch_round-SameAddresses h new w r done =
        let reset = record w { err_interval = error_interval } in
        let (watcher, changed) = sleep_after-some (update_records ip_equal new reset) r done in
        let answered = update_records-SameAddresses new reset in
        (
          rw watcher (records-update_records h new reset),
          (λ k. answered.0 (sym changed ∙ k), λ k. changed ∙ answered.1 k),
        )
