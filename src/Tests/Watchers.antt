-- ===== src/Tests/Watchers.antt =====
-- The theorems about watchers, resolvers and requests for certificates, at small inputs.
use kcp_glbc.Prelude.{
  String, List, [], ◌∷◌, none, some, Bool, true, false, errorf, ok, err, ◌==◌, eq_refl,
  if◌then◌else◌, ◌≡◌, ◌↔◌, refl,
}
use kcp_glbc.Prelude.Int.{ℤ, pos, int_leb}
use kcp_glbc.Dns.Watcher.{
  HostAddress, RecordWatcher, Round, new_hosts_watcher, new_record_watcher, watch_round,
}
use kcp_glbc.Dns.Watcher.Counts.{watchers_for}
use kcp_glbc.Dns.Watcher.Registry.{Call, start, stop, run, run_set, watched, run-refines}
use kcp_glbc.Dns.Watcher.Rounds.{SameAddresses, watch_round-SameAddresses, watch_round-error}
use kcp_glbc.Dns.Resolver.{other_record, lookup_ip_addr}
use kcp_glbc.Dns.Resolver.Panics.{watch_round-others}

abbrev calls : List Call
calls = start "default/web" "lb.c1" ∷ start "default/web" "lb.c1" ∷ stop "default/web" "" ∷ []

run-refines_example :
    (watched (run calls new_hosts_watcher) "default/web" "lb.c1"
      ≡ run_set calls (λ k h. false) "default/web" "lb.c1")
    × (watchers_for "default/web" "lb.c1" (run calls new_hosts_watcher).records
        ≡ (if run_set calls (λ k h. false) "default/web" "lb.c1" then 1 else 0))
run-refines_example = run-refines calls "default/web" "lb.c1"

abbrev half : ℤ → ℤ
half ttl = ttl

abbrev ip_equal : String → String → Bool
ip_equal a b = a == b

abbrev addresses : List HostAddress
addresses = record { host = "lb.c1"; ip = "1.1.1.1"; ttl = pos 60 } ∷ []

abbrev fresh : RecordWatcher
fresh = new_record_watcher "default/web" "lb.c1"

abbrev answered : Round ip_equal
answered = record { watcher = record fresh { records = addresses }; changed = true; sleep = pos 60 }

watch_round-SameAddresses_example :
    SameAddresses ip_equal answered.watcher.records addresses
    × ((answered.changed ≡ false) ↔ SameAddresses ip_equal fresh.records addresses)
unfolding watch_round
watch_round-SameAddresses_example =
    watch_round-SameAddresses ip_equal half (λ ip. eq_refl ip) addresses fresh answered refl

watch_round-error_example :
    (r : Round ip_equal) × (watch_round ip_equal half (err (errorf "timeout")) fresh ≡ some r)
    × (int_leb r.sleep (pos 0) ≡ true)
    × (r.changed ≡ false)
    × (r.watcher.records ≡ fresh.records)
watch_round-error_example = watch_round-error ip_equal half (errorf "timeout") fresh

watch_round-others_example :
    watch_round ip_equal half
      (lookup_ip_addr (ok ("10.0.0.1" ∷ [])) (λ server. ok (other_record ∷ [])) "lb.c1")
      fresh
    ≡ none
watch_round-others_example =
    watch_round-others ip_equal half (λ server. ok (other_record ∷ [])) "lb.c1" "10.0.0.1" []
      other_record [] fresh refl (refl, tt)
