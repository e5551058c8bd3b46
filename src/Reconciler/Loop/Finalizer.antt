-- ===== src/Reconciler/Loop/Finalizer.antt =====
-- The finalizers of a traffic object that is reconciled.
use kcp_glbc.Prelude.{
  String, List, [], ◌∷◌, Option, none, some, Bool, true, false, if◌then◌else◌, Error, All, ◌≡◌,
  refl, ◌∙◌, sym, ap, subst, arith, Option-cases, inl, inr, eq_refl, ◌||◌, some-injective, Ends,
  result-Ends,
}
use kcp_glbc.Api.{ObjectMeta}
use kcp_glbc.Metadata.{add_finalizer, has_finalizer, contains_string}
use kcp_glbc.Metadata.Finalizers.{has_finalizer-add}
use kcp_glbc.Migration.{migrate}
use kcp_glbc.Migration.Frame.{migrate-SameBut}
use kcp_glbc.Metadata.Same.{SameBut}
use kcp_glbc.Traffic.Workload.{Workload}
use kcp_glbc.Traffic.Object.{TrafficObject}
use kcp_glbc.Traffic.Dns.{ReconcileStatus}
use kcp_glbc.Reconciler.Loop.{
  Member, LoopServices, cascade_finalizer, wrapped, requeue, is_stop, put_first, run_members,
  prepare, migrate_object, conclude, concluded, reconcile,
}

deleting-add_finalizer : (m : ObjectMeta) (f : String) → (add_finalizer m f).deleting ≡ m.deleting
unfolding add_finalizer
deleting-add_finalizer m f = ground arith

-- The cascade finalizer and the time of deletion are as they were.
pub record Holds (m m' : ObjectMeta) : Type 0 where
  pub cascade : has_finalizer m' cascade_finalizer ≡ has_finalizer m cascade_finalizer
  pub deleting : m'.deleting ≡ m.deleting

pub Holds-of_same : (m m' : ObjectMeta) → SameBut m m' → Holds m m'
unfolding has_finalizer
Holds-of_same m m' s = record {
  cascade = ap (λ fs. contains_string fs cascade_finalizer) s.finalizers;
  deleting = s.deleting;
}

module _ {A W : Type 0} (w : Workload) (o : TrafficObject A) (sv : LoopServices W)
    (same_meta : (m : ObjectMeta) (a : A) → o.meta (o.with_meta m a) ≡ m) where
  open o use {meta, with_meta}

  abbrev pub KeepsMeta : ObjectMeta → ReconcileStatus × Option Error × A × W → Type 0
  KeepsMeta m res = Holds m (meta res.2)

  -- The reconciler leaves the cascade finalizer, and the time of deletion, alone.
  abbrev pub Keeps : Member A W → Type 0
  Keeps r = (a : A) (wd : W) → Ends (KeepsMeta (meta a)) (r.reconcile a wd)

  abbrev Ran : ObjectMeta → List Error × A × W → Type 0
  Ran m res = Holds m (meta res.1)

  put_first-Ends :
      (m : ObjectMeta) (errs : List Error) (r : Option (List Error × A × W))
      → Ends (Ran m) r
      → Ends (Ran m) (put_first w o sv errs r)
  unfolding put_first
  put_first-Ends m errs none h = tt
  put_first-Ends m errs (some r) h = h

  same_trans : (m m' m'' : ObjectMeta) → Holds m m' → Holds m' m'' → Holds m m''
  same_trans m m' m'' s t = record {
    cascade = t.cascade ∙ s.cascade;
    deleting = t.deleting ∙ s.deleting;
  }

  Ends-trans :
      (m m' : ObjectMeta) (r : Option (List Error × A × W))
      → Holds m m'
      → Ends (Ran m') r
      → Ends (Ran m) r
  Ends-trans m m' none s h = tt
  Ends-trans m m' (some r) s h = same_trans m m' (meta r.1) s h

  choice-Ends :
      (m : ObjectMeta) (b : Bool) (x y : Option (List Error × A × W))
      → Ends (Ran m) x
      → Ends (Ran m) y
      → Ends (Ran m) (if b then x else y)
  choice-Ends m true x y h k = h
  choice-Ends m false x y h k = k

  run_members-Ends :
      (rs : List (Member A W)) (a : A) (wd : W)
      → All Keeps rs
      → Ends (Ran (meta a)) (run_members w o sv rs a wd)
  unfolding run_members
  run_members-Ends [] a wd h = record { cascade = refl; deleting = refl }
  run_members-Ends (r ∷ rs) a wd (keeps, h) = elim (Option-cases (r.reconcile a wd)) [
    | inl e ↦ rw (e, run_members) tt
    | inr ((status, failed, a', wd'), e) ↦
        let step = result-Ends (KeepsMeta (meta a)) (r.reconcile a wd) (keeps a wd) e in
        let wd'' = requeue w o sv status a' wd' in
        rw (e, run_members)
          (put_first-Ends (meta a) (wrapped w o sv r.name failed) _ (
            choice-Ends (meta a) (is_stop w o sv status) (some ([], a', wd''))
              (run_members w o sv rs a' wd'') step
              (Ends-trans (meta a) (meta a') (run_members w o sv rs a' wd'') step
                (run_members-Ends rs a' wd'' h))))
  ]

  -- The object that the reconcilers get.
  abbrev started : A → W → A × W
  started a wd = migrate_object w o sv (prepare w o sv a) wd

  started-Holds : (a : A) (wd : W) → Holds (meta (prepare w o sv a)) (meta (started a wd).0)
  unfolding migrate_object
  started-Holds a wd =
      let m = meta (prepare w o sv a) in
      subst (λ m'. Holds m m') (sym (same_meta (migrate w sv.clock sv.itoa m).0 (prepare w o sv a)))
        (Holds-of_same m _ (migrate-SameBut w sv.clock sv.itoa m))

  meta-prepare_live :
      (a : A)
      → (meta a).deleting ≡ false
      → meta (prepare w o sv a) ≡ add_finalizer (meta a) cascade_finalizer
  unfolding prepare
  meta-prepare_live a h = rw (h, prepare) (same_meta _ a)

  prepare_deleting : (a : A) → (meta a).deleting ≡ true → prepare w o sv a ≡ a
  unfolding prepare
  prepare_deleting a h = rw (h, prepare) refl

  -- What `reconcile` makes of the outcome of the loop.
  ran :
      (rs : List (Member A W)) (failed : Option Error) (a a' : A) (wd wd' : W)
      → All Keeps rs
      → reconcile w o sv rs a wd ≡ some (failed, a', wd')
      → (errs : List Error) × (b : A) × (wd'' : W) × Holds (meta (prepare w o sv a)) (meta b)
        × (conclude w o sv (errs, b, wd'') ≡ (failed, a', wd'))
  unfolding reconcile concluded
  ran rs failed a a' wd wd' keeps h =
      let (b, wd0) = started a wd in
      elim (Option-cases (run_members w o sv rs b wd0)) [
        | inl e ↦ absurd (ground (arith, h, e))
        | inr ((errs, c, wd''), e) ↦
            let loop = result-Ends (Ran (meta b)) _ (run_members-Ends rs b wd0 keeps) e in
            (
              errs,
              c,
              wd'',
              same_trans (meta (prepare w o sv a)) (meta b) (meta c) (started-Holds a wd) loop,
              some-injective (ap (concluded w o sv) (sym e) ∙ h),
            )
      ]

  conclude_live :
      (errs : List Error) (b : A) (wd : W)
      → (meta b).deleting ≡ false
      → (conclude w o sv (errs, b, wd)).1 ≡ b
  unfolding conclude
  conclude_live [] b wd h = rw (h, conclude) refl
  conclude_live (e ∷ es) b wd h = refl

  -- An object that is not being deleted has the cascade finalizer after `reconcile`, with or without
  -- an error; the reconcilers leave that finalizer alone.
  pub reconcile_live :
      (rs : List (Member A W)) (failed : Option Error) (a a' : A) (wd wd' : W)
      → All Keeps rs
      → (meta a).deleting ≡ false
      → reconcile w o sv rs a wd ≡ some (failed, a', wd')
      → has_finalizer (meta a') cascade_finalizer ≡ true
  reconcile_live rs failed a a' wd wd' keeps live h =
      let (errs, b, wd'', loop, done) = ran rs failed a a' wd wd' keeps h in
      let prepared = meta-prepare_live a live in
      let still : (meta b).deleting ≡ false =
        loop.deleting
        ∙ ap (λ (m : ObjectMeta). m.deleting) prepared
        ∙ deleting-add_finalizer (meta a) cascade_finalizer
        ∙ live in
      let same_object : b ≡ a' =
        sym (conclude_live errs b wd'' still) ∙ ap (λ (r : Option Error × A × W). r.1) done in
      ap (λ c. has_finalizer (meta c) cascade_finalizer) (sym same_object)
      ∙ loop.cascade
      ∙ ap (λ m. has_finalizer m cascade_finalizer) prepared
      ∙ has_finalizer-add (meta a) cascade_finalizer cascade_finalizer
      ∙ ap (λ b. b || has_finalizer (meta a) cascade_finalizer) (eq_refl cascade_finalizer)

  conclude_failed :
      (errs : List Error) (b a' : A) (wd wd' : W) (e : Error)
      → conclude w o sv (errs, b, wd) ≡ (some e, a', wd')
      → b ≡ a'
  unfolding conclude
  conclude_failed [] b a' wd wd' e h = absurd (ground (arith, h))
  conclude_failed (x ∷ xs) b a' wd wd' e h = ap (λ (r : Option Error × A × W). r.1) h

  -- While one of the reconcilers fails, an object that is being deleted keeps the cascade finalizer if
  -- it had it; the reconcilers leave that finalizer alone.
  pub reconcile_failed :
      (rs : List (Member A W)) (e : Error) (a a' : A) (wd wd' : W)
      → All Keeps rs
      → (meta a).deleting ≡ true
      → reconcile w o sv rs a wd ≡ some (some e, a', wd')
      → has_finalizer (meta a') cascade_finalizer ≡ has_finalizer (meta a) cascade_finalizer
  reconcile_failed rs e a a' wd wd' keeps gone h =
      let (errs, b, wd'', loop, done) = ran rs (some e) a a' wd wd' keeps h in
      ap (λ c. has_finalizer (meta c) cascade_finalizer)
        (sym (conclude_failed errs b a' wd'' wd' e done))
      ∙ loop.cascade
      ∙ ap (λ c. has_finalizer (meta c) cascade_finalizer) (prepare_deleting a gone)
