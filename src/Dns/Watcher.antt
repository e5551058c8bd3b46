-- ===== src/Dns/Watcher.antt =====
-- pkg/dns/host_watcher.go and pkg/_internal/util/math: the watchers of the addresses of hosts.
pub mod Counts
pub mod Registry
pub mod Rounds
use kcp_glbc.Prelude.{
  ℕ, zero, suc, ◌*◌, String, List, [], ◌∷◌, ◌++◌, Option, none, some, Bool, true, false, not, ◌&&◌,
  ◌||◌, ◌==◌, same, length, any, if◌then◌else◌, Error, Result, ok, err,
}
use kcp_glbc.Prelude.Int.{ℤ, pos, int_leb, int_mul, wrap64}

-- The loops of `Max` and `Min`, from the zero value.
max_from : ℤ → List ℤ → ℤ
max_from current [] = current
max_from current (value ∷ values) =
    max_from (if int_leb current value then value else current) values

min_from : ℤ → List ℤ → ℤ
min_from current [] = current
min_from current (value ∷ values) =
    min_from (if int_leb current value then current else value) values

unfoldable pub max : List ℤ → ℤ
unfolding max_from
max values = max_from (pos 0) values

unfoldable pub min : List ℤ → ℤ
unfolding min_from
min values = min_from (pos 0) values

-- A `HostAddress`, whose text of a TXT record nothing here reads. Durations are nanoseconds.
pub record HostAddress : Type 0 where
  pub host : String
  pub ip : String
  pub ttl : ℤ

abbrev pub error_interval : ℤ
error_interval = pos (2 * 1000000000)

abbrev pub max_error_interval : ℤ
max_error_interval = pos (5 * 60 * 1000000000)

-- The fields of a `RecordWatcher` that change, and those by which it is found.
pub record RecordWatcher : Type 0 where
  pub key : String
  pub host : String
  pub err_interval : ℤ
  pub records : List HostAddress

-- `cancelled` are the watchers that were stopped, whose loops end with their context.
pub record HostsWatcher : Type 0 where
  pub records : List RecordWatcher
  pub cancelled : List RecordWatcher

abbrev pub new_hosts_watcher : HostsWatcher
new_hosts_watcher = record { records = []; cancelled = [] }

watchers_of : String → List RecordWatcher → List RecordWatcher
watchers_of key [] = []
watchers_of key (r ∷ rs) = let rest = watchers_of key rs in if key == r.key then r ∷ rest else rest

unfoldable pub list_host_record_watchers : String → HostsWatcher → List RecordWatcher
unfolding watchers_of
list_host_record_watchers key w = watchers_of key w.records

abbrev pub new_record_watcher : String → String → RecordWatcher
new_record_watcher key host = record {
  key = key;
  host = host;
  err_interval = error_interval;
  records = [];
}

abbrev pub is_for : String → String → RecordWatcher → Bool
is_for key host r = r.key == key && r.host == host

-- The list keeps a copy of the watcher that the loop changes.
unfoldable pub start_watching : String → String → HostsWatcher → HostsWatcher × Bool
start_watching key host w =
    if any (is_for key host) w.records
    then (w, false)
    else (record w { records = w.records ++ new_record_watcher key host ∷ [] }, true)

abbrev pub is_stopped : String → String → RecordWatcher → Bool
is_stopped key host r = (host == "" || host == r.host) && r.key == key

-- The watchers that are kept, and those that are stopped.
unfoldable pub split_watchers :
    String → String → List RecordWatcher → List RecordWatcher × List RecordWatcher
split_watchers key host [] = ([], [])
split_watchers key host (r ∷ rs) =
    let (kept, stopped) = split_watchers key host rs in
    if is_stopped key host r then (kept, r ∷ stopped) else (r ∷ kept, stopped)

unfoldable pub stop_watching : String → String → HostsWatcher → HostsWatcher
unfolding split_watchers
stop_watching key host w =
    let (kept, stopped) = split_watchers key host w.records in
    record w { records = kept; cancelled = w.cancelled ++ stopped }

-- `ip_equal` is `IP.Equal` of package net.
module _ (ip_equal : String → String → Bool) where
  -- Whether an address changed, and whether a TTL grew where the address did not.
  unfoldable pub compare_records : List HostAddress → List HostAddress → Bool × Bool
  compare_records (old ∷ olds) (new ∷ news) =
      let (ips, ttls) = compare_records olds news in
      if not (ip_equal old.ip new.ip)
      then (true, ttls)
      else if not (int_leb new.ttl old.ttl)
      then (ips, true)
      else (ips, ttls)
  compare_records _ _ = (false, false)

  unfoldable pub update_records : List HostAddress → RecordWatcher → RecordWatcher × Bool
  unfolding compare_records
  update_records new w =
      let (ips, ttls) = compare_records w.records new in
      if not (same (length w.records) (length new))
      then (record w { records = new }, true)
      else if ips || ttls
      then (record w { records = new }, ips)
      else (w, ips)

  -- What a round of the loop leaves: the watcher, whether `onChange` was called, and the time for
  -- which it sleeps.
  pub record Round : Type 0 where
    pub watcher : RecordWatcher
    pub changed : Bool
    pub sleep : ℤ

  module _ (watch_interval : ℤ → ℤ) where
    sleep_after : RecordWatcher × Bool → Option Round
    sleep_after (w, changed) = elim w.records [
      | [] ↦ none
      | address ∷ _ ↦
          some (record { watcher = w; changed = changed; sleep = watch_interval address.ttl })
    ]

    -- One round of the loop in `watch`, with the answer of the resolver; `none` is a panic.
    unfoldable pub watch_round : Result (List HostAddress) → RecordWatcher → Option Round
    unfolding update_records sleep_after
    watch_round (err e) w = some (record {
      watcher = record w { err_interval = wrap64 (int_mul w.err_interval w.err_interval) };
      changed = false;
      sleep = min (w.err_interval ∷ max_error_interval ∷ []);
    })
    watch_round (ok new) w =
        sleep_after (update_records new (record w { err_interval = error_interval }))
