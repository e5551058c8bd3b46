-- ===== src/Aws/Change/Batch.antt =====
-- aws/dns.go: what a change batch does to each set identifier.
use kcp_glbc.Prelude.{
  String, List, [], ◌∷◌, ◌++◌, map, Option, none, some, false, Bool-cases, ◌==◌, eq_iff, ◌≡◌, refl,
  if◌then◌else◌, Result, ok, err, ◌>>=◌, append-nil, arith, inl, inr,
}
use kcp_glbc.Prelude.Int.{ℤ}
use kcp_glbc.Api.{DnsRecord}
use kcp_glbc.Api.Endpoints.{Endpoint, set_id}
use kcp_glbc.Metadata.{contains_string}
use kcp_glbc.Aws.Change.{
  Action, upsert, delete, Change, change_for_endpoint, changes_for, deletions_for,
  endpoints_from_zone_status, batch,
}

-- The identifier by which Route 53 tells the record sets of one name apart, or the name.
abbrev pub key : Change → String
key c = elim c.set.set_identifier [ none ↦ c.set.name | some id ↦ id ]

-- What the changes for an identifier do, in the order of the batch.
unfoldable pub actions : String → List Change → List Action
actions k [] = []
actions k (c ∷ cs) = let later = actions k cs in if key c == k then c.action ∷ later else later

-- The action once for each time that the identifier stands in the list.
unfoldable pub times : Action → String → List String → List Action
times a k [] = []
times a k (id ∷ ids) = let later = times a k ids in if id == k then a ∷ later else later

actions-append :
    (k : String) (cs ds : List Change) → actions k (cs ++ ds) ≡ actions k cs ++ actions k ds
unfolding actions
actions-append k [] ds = refl
actions-append k (c ∷ cs) ds = ground (arith, actions-append k cs ds)

times_absent :
    (a : Action) (k : String) (ids : List String)
    → contains_string ids k ≡ false
    → times a k ids ≡ []
unfolding times contains_string
times_absent a k [] h = refl
times_absent a k (id ∷ ids) h = ground (arith, h, times_absent a k ids)

-- Inversion of the two loops' step.
cons_ok :
    (m : Result Change) (ms : Result (List Change)) {cs : List Change}
    → (m >>= λ d. ms >>= λ ds. ok (d ∷ ds)) ≡ ok cs
    → (c : Change) × (ds : List Change) × (m ≡ ok c) × (ms ≡ ok ds) × (cs ≡ c ∷ ds)
cons_ok (ok c) (ok ds) h = (c, ds, refl, refl, cc)
cons_ok (ok c) (err e) h = cc
cons_ok (err e) ms h = cc

append_ok :
    (m n : Result (List Change)) {cs : List Change}
    → (m >>= λ us. n >>= λ ds. ok (us ++ ds)) ≡ ok cs
    → (us ds : List Change) × (m ≡ ok us) × (n ≡ ok ds) × (cs ≡ us ++ ds)
append_ok (ok us) (ok ds) h = (us, ds, refl, refl, cc)
append_ok (ok us) (err e) h = cc
append_ok (err e) n h = cc

module _ (parse_int : String → Option ℤ) where
  change_for_endpoint-key :
      (e : Endpoint) (a : Action) (c : Change)
      → change_for_endpoint parse_int e a ≡ ok c
      → (key c ≡ set_id e) × (c.action ≡ a)
  unfolding change_for_endpoint set_id
  change_for_endpoint-key e a c h = ground arith

  actions-changes_for :
      (a : Action) (k : String) (es : List Endpoint) (cs : List Change)
      → changes_for parse_int a es ≡ ok cs
      → actions k cs ≡ times a k (map set_id es)
  unfolding changes_for actions times
  actions-changes_for a k [] [] h = refl
  actions-changes_for a k [] (c ∷ cs) h = cc
  actions-changes_for a k (e ∷ es) cs h =
      let (c, ds, hc, hds, shape) =
        cons_ok (change_for_endpoint parse_int e a) (changes_for parse_int a es) h in
      let (same_key, action) = change_for_endpoint-key e a c hc in
      let ih = actions-changes_for a k es ds hds in rw shape (ground (arith, same_key, action, ih))

  actions-deletions_for :
      (expected : List String) (k : String) (es : List Endpoint) (cs : List Change)
      → deletions_for parse_int expected es ≡ ok cs
      → actions k cs ≡ (if contains_string expected k then [] else times delete k (map set_id es))
  unfolding deletions_for actions times
  actions-deletions_for expected k [] [] h = ground arith
  actions-deletions_for expected k [] (c ∷ cs) h = cc
  actions-deletions_for expected k (e ∷ es) cs h =
      elim (Bool-cases (contains_string expected (set_id e))) [
        | inl there ↦ ground (
          arith,
          actions-deletions_for expected k es cs (rw there at h),
          there,
          eq_iff (set_id e) k,
        )
        | inr gone ↦
            let (c, ds, hc, hds, shape) =
              cons_ok (change_for_endpoint parse_int e delete) (deletions_for parse_int expected es)
                (rw gone at h) in
            let (same_key, action) = change_for_endpoint-key e delete c hc in
            let ih = actions-deletions_for expected k es ds hds in
            rw shape (ground (arith, same_key, action, ih, gone, eq_iff (set_id e) k))
      ]

  -- A batch that brings a zone to the record's endpoints: an identifier of the record is upserted, once
  -- for each endpoint that has it, and never deleted; one that was published last and is not the
  -- record's any more is deleted, once for each endpoint that had it; and no other one is touched.
  pub actions-batch_upsert :
      (r : DnsRecord) (zone_id k : String) (cs : List Change)
      → batch parse_int r zone_id upsert ≡ ok cs
      → actions k cs ≡ (
          if contains_string (map set_id r.endpoints) k
          then times upsert k (map set_id r.endpoints)
          else times delete k (map set_id (endpoints_from_zone_status r.status.zones zone_id)))
  unfolding batch
  actions-batch_upsert r zone_id k cs h =
      let ids = map set_id r.endpoints in
      let old = endpoints_from_zone_status r.status.zones zone_id in
      let (us, ds, hu, hd, shape) =
        append_ok (changes_for parse_int upsert r.endpoints) (deletions_for parse_int ids old) h in
      let upserted = actions-changes_for upsert k r.endpoints us hu in
      let deleted = actions-deletions_for ids k old ds hd in
      rw shape (
        rw (actions-append k us ds) (
          rw (upserted, deleted)
            (elim (Bool-cases (contains_string ids k)) [
              | inl e ↦ rw (e, append-nil (times upsert k ids)) refl
              | inr e ↦ rw (e, times_absent upsert k ids e) refl
            ])))
