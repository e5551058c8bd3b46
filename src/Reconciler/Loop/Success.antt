-- ===== src/Reconciler/Loop/Success.antt =====
-- What a run of the reconcilers without an error went through.
use kcp_glbc.Prelude.{
  String, List, [], ◌∷◌, Option, none, some, true, false, Error, ◌≡◌, ◌⊎◌, refl, sym, ap, ◌∙◌,
  arith, Bool-cases, Option-cases, inl, inr, some-injective,
}
use kcp_glbc.Api.{ObjectMeta}
use kcp_glbc.Traffic.Workload.{Workload}
use kcp_glbc.Traffic.Object.{TrafficObject}
use kcp_glbc.Traffic.Dns.{ReconcileStatus}
use kcp_glbc.Reconciler.Loop.{
  Member, LoopServices, is_stop, wrapped, requeue, put_first, run_members, prepare, migrate_object,
  conclude, concluded, reconcile,
}

module _ {A W : Type 0} (w : Workload) (o : TrafficObject A) (sv : LoopServices W) where
  put_first-empty :
      (errs : List Error) (r : Option (List Error × A × W)) (a : A) (wd : W)
      → put_first w o sv errs r ≡ some ([], a, wd)
      → (errs ≡ []) × (r ≡ some ([], a, wd))
  unfolding put_first
  put_first-empty errs none a wd h = absurd (ground (arith, h))
  put_first-empty [] (some r) a wd h = (refl, h)
  put_first-empty (e ∷ es) (some r) a wd h = absurd (ground (arith, h))

  wrapped-empty :
      (name : String) (failed : Option Error) → wrapped w o sv name failed ≡ [] → failed ≡ none
  unfolding wrapped
  wrapped-empty name none h = refl
  wrapped-empty name (some e) h = absurd (ground (arith, h))

  -- The first reconciler had no error, and the others had none, unless it was a stop.
  pub run_members-first :
      (r : Member A W) (rs : List (Member A W)) (a a' : A) (wd wd' : W)
      → run_members w o sv (r ∷ rs) a wd ≡ some ([], a', wd')
      → (status : ReconcileStatus) × (b : A) × (wd'' : W) × (r.reconcile a wd
          ≡ some (status, none, b, wd''))
        × (((is_stop w o sv status ≡ true) × (b ≡ a'))
            ⊎ ((is_stop w o sv status ≡ false)
                × ((next : W) × (run_members w o sv rs b next ≡ some ([], a', wd')))))
  unfolding run_members
  run_members-first r rs a a' wd wd' h = elim (Option-cases (r.reconcile a wd)) [
    | inl e ↦ absurd (ground (arith, e, h))
    | inr ((status, failed, b, wd''), e) ↦
        let next = requeue w o sv status b wd'' in
        let (silent, rest) =
          put_first-empty (wrapped w o sv r.name failed) _ a' wd' (rw (e, run_members) at h) in
        let quiet = wrapped-empty r.name failed silent in
        (
          status,
          b,
          wd'',
          e ∙ ap (λ f. some (status, f, b, wd'')) quiet,
          elim (Bool-cases (is_stop w o sv status)) [
            | inl stops ↦
                inl
                  (stops, ap (λ (x : List Error × A × W). x.1) (some-injective (rw stops at rest)))
            | inr goes ↦ inr (goes, (next, rw goes at rest))
          ],
        )
  ]

  conclude-none :
      (errs : List Error) (b a' : A) (wd wd' : W)
      → conclude w o sv (errs, b, wd) ≡ (none, a', wd')
      → (errs ≡ []) × ((a' ≡ b) ⊎ ((m : ObjectMeta) × (a' ≡ o.with_meta m b)))
  unfolding conclude
  conclude-none (e ∷ es) b a' wd wd' h = absurd (ground (arith, h))
  conclude-none [] b a' wd wd' h =
      let object : Option Error × A × W → A = λ r. r.1 in
      elim (Bool-cases (o.meta b).deleting) [
        | inl e ↦ (refl, inr (_, sym (ap object (rw (e, conclude) at h))))
        | inr e ↦ (refl, inl (sym (ap object (rw (e, conclude) at h))))
      ]

  -- Without an error the loop had none, and only the metadata changed after it.
  pub reconcile-none :
      (rs : List (Member A W)) (a a' : A) (wd wd' : W)
      → reconcile w o sv rs a wd ≡ some (none, a', wd')
      → (a0 : A) × (wd0 : W) × (b : A) × (wd1 : W) × (run_members w o sv rs a0 wd0
          ≡ some ([], b, wd1))
        × ((a' ≡ b) ⊎ ((m : ObjectMeta) × (a' ≡ o.with_meta m b)))
  unfolding reconcile concluded
  reconcile-none rs a a' wd wd' h =
      let (a0, wd0) = migrate_object w o sv (prepare w o sv a) wd in
      elim (Option-cases (run_members w o sv rs a0 wd0)) [
        | inl e ↦ absurd (ground (arith, h, e))
        | inr ((errs, b, wd1), e) ↦
            let done : conclude w o sv (errs, b, wd1) ≡ (none, a', wd') =
              some-injective (ap (concluded w o sv) (sym e) ∙ h) in
            let (clean, end) = conclude-none errs b a' wd1 wd' done in
            (a0, wd0, b, wd1, e ∙ ap (λ es. some (es, b, wd1)) clean, end)
      ]
