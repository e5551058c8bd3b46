-- ===== src/Migration/Delays.antt =====
-- migrate.go: what a malformed time of deletion does, and the delays that times of deletion lead to.
use kcp_glbc.Prelude.{
  ◌<◌, ◌+◌, ◌-◌, ◌*◌, ◌∙◌, ap, ◌⊎◌, leb, ℕ, ◌≤◌, String, some, true, false, lookup, ◌^^◌, ◌≡◌, refl,
  arith, Bool-cases, inl, inr,
}
use kcp_glbc.Prelude.Int.{pos, negsuc, int_leb, int_sub, int_mul, wrap64, atoi}
use kcp_glbc.Api.{ObjectMeta}
use kcp_glbc.Metadata.{has_annotation}
use kcp_glbc.Traffic.Workload.{Workload}
use kcp_glbc.Migration.{delay_until, Clock, delete_at_of, or_blank, expire, remove_finalizer_of}

module _ (w : Workload) (clock : Clock) (itoa : ℕ → String) (readings : ℕ × ℕ) where
  -- An `int64` holds so many seconds in nanoseconds, and no more.
  delay_until-small :
      (n queued : ℕ)
      → queued ≤ n
      → n ≤ queued + 9223372036
      → delay_until w clock itoa (pos n) queued ≡ pos ((n - queued) * 1000000000)
  unfolding delay_until int_sub int_mul wrap64
  delay_until-small n queued h k = ground (arith, h, k)

  delay_until-large :
      (n queued : ℕ)
      → queued + 9223372036 < n
      → n ≤ queued + 18446744073
      → (m : ℕ) × (delay_until w clock itoa (pos n) queued ≡ negsuc m)
  unfolding delay_until int_sub int_mul wrap64
  delay_until-large n queued h k =
      (18446744073709551615 - (n - queued) * 1000000000, ground (arith, h, k))

  module _ (cluster text : String) (obj : ObjectMeta) (n : ℕ)
      (deleting : has_annotation obj (w.deletion_prefix ^^ cluster) ≡ true)
      (timed : has_annotation obj (delete_at_of cluster) ≡ true)
      (written : lookup (delete_at_of cluster) obj.annotations ≡ some text)
      (number : atoi text ≡ record { value = pos n; failed = false }) (later : readings.0 < n) where
    delay-remove_finalizer_of :
        (remove_finalizer_of w clock itoa readings cluster obj).1
        ≡ some (delay_until w clock itoa (pos n) readings.1)
    unfolding remove_finalizer_of expire or_blank
    delay-remove_finalizer_of =
        let early : int_leb (pos n) (pos readings.0) ≡ false = ground (arith, later) in
        rw (deleting, timed, written, or_blank, number, early, remove_finalizer_of, expire) refl

    -- A cluster that is being deleted, with a time of deletion that is after the clock's reading in the
    -- test, and not before its reading in the subtraction: the object goes into the queue again with the
    -- time between in nanoseconds, where that is at most 9223372036 seconds, and with a negative delay
    -- where it is more, up to 18446744073 seconds.
    pub remove_finalizer_of-delay :
        readings.1 ≤ n
        → n ≤ readings.1 + 18446744073
        → ((n ≤ readings.1 + 9223372036)
            × ((remove_finalizer_of w clock itoa readings cluster obj).1
                ≡ some (pos ((n - readings.1) * 1000000000))))
          ⊎ ((readings.1 + 9223372036 < n)
              × ((m : ℕ) × ((remove_finalizer_of w clock itoa readings cluster obj).1
                    ≡ some (negsuc m))))
    remove_finalizer_of-delay h k = elim (Bool-cases (leb n (readings.1 + 9223372036))) [
      | inl e ↦
          let near : n ≤ readings.1 + 9223372036 = ground (arith, e) in
          inl (near, delay-remove_finalizer_of ∙ ap some (delay_until-small n readings.1 h near))
      | inr e ↦
          let far : readings.1 + 9223372036 < n = ground (arith, e) in
          let (m, wrapped) = delay_until-large n readings.1 far k in
          inr (far, (m, delay-remove_finalizer_of ∙ ap some wrapped))
    ]
