-- ===== src/Dns/Resolver/Panics.antt =====
-- hostresolv.go and host_watcher.go together: answers of name servers at which a watcher panics.
use kcp_glbc.Prelude.{String, List, [], ◌∷◌, none, Bool, Result, ok, ◌≡◌, refl, ap, All}
use kcp_glbc.Prelude.Int.{ℤ}
use kcp_glbc.Dns.Watcher.{RecordWatcher, watch_round}
use kcp_glbc.Dns.Watcher.Rounds.{watch_round-none_iff}
use kcp_glbc.Dns.Resolver.{Answer, other_record, addresses_in, ask, lookup_ip_addr}

-- The record is not of type A.
abbrev pub IsOther : Answer → Type 0
IsOther a = a ≡ other_record

addresses_in-others :
    (host : String) (answers : List Answer) → All IsOther answers → addresses_in host answers ≡ []
unfolding addresses_in
addresses_in-others host [] h = refl
addresses_in-others host (a ∷ answers) (e, h) = rw e (addresses_in-others host answers h)

-- Where the first name server answers with records none of which is of type A, such as an alias
-- alone, the loop of a watcher that uses the default resolver panics.
pub watch_round-others :
    (ip_equal : String → String → Bool) (watch_interval : ℤ → ℤ)
    (exchange : String → Result (List Answer)) (host server : String) (servers : List String)
    (a : Answer) (answers : List Answer) (w : RecordWatcher)
    → exchange server ≡ ok (a ∷ answers)
    → All IsOther (a ∷ answers)
    → watch_round ip_equal watch_interval (lookup_ip_addr (ok (server ∷ servers)) exchange host) w
      ≡ none
unfolding lookup_ip_addr ask
watch_round-others ip_equal watch_interval exchange host server servers a answers w h others =
    let empty : lookup_ip_addr (ok (server ∷ servers)) exchange host ≡ ok [] =
      rw (h, lookup_ip_addr, ask) (ap ok (addresses_in-others host (a ∷ answers) others)) in
    (watch_round-none_iff ip_equal watch_interval _ w).1 empty
