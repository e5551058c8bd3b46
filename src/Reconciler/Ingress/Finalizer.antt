-- ===== src/Reconciler/Ingress/Finalizer.antt =====
-- The cascade finalizer of an ingress.
use kcp_glbc.Prelude.{Option, none, some, true, false, Error, ◌≡◌, Ends, All}
use kcp_glbc.Api.{ObjectMeta}
use kcp_glbc.Metadata.{has_finalizer}
use kcp_glbc.Metadata.Same.{SameBut}
use kcp_glbc.Traffic.Ingress.{Ingress}
use kcp_glbc.Traffic.Object.{MetaLaws}
use kcp_glbc.Traffic.Ingress.Object.{ingress_object-MetaLaws}
use kcp_glbc.Traffic.Ingress.Hosts.{process_custom_hosts}
use kcp_glbc.Traffic.Ingress.Hosts.Frame.{process_custom_hosts-Kept}
use kcp_glbc.Reconciler.Loop.{cascade_finalizer}
use kcp_glbc.Reconciler.Loop.Chain.{members}
use kcp_glbc.Reconciler.Loop.Finalizer.{
  Holds, Holds-of_same, Keeps, reconcile_live, reconcile_failed,
}
use kcp_glbc.Reconciler.Loop.Members.{members-Keeps}
use kcp_glbc.Reconciler.Ingress.{
  IngressController, object, chain, with_world, process_hosts, reconcile_ingress,
}

module _ {V W : Type 0} (c : IngressController V W) where
  open c use {workload, codec, unmarshal, key_of, dns, certificates, loop, get_domain_verifications}

  with_world-Ends :
      (m : ObjectMeta) (wd : W) (r : Option (Option Error × Ingress V))
      → Ends (λ (x : Option Error × Ingress V). SameBut m x.1.meta) r
      → Ends (λ (x : Option Error × Ingress V × W). Holds m x.1.meta) (with_world c wd r)
  unfolding with_world
  with_world-Ends m wd none h = tt
  with_world-Ends m wd (some (failed, a)) h = Holds-of_same m a.meta h

  abbrev laws : MetaLaws (object c)
  laws = ingress_object-MetaLaws workload unmarshal key_of

  ingress-Keeps :
      All
        (Keeps workload (object c) loop laws.with_meta_lem)
        (members workload (object c) (chain c))
  unfolding process_hosts
  ingress-Keeps = members-Keeps workload (object c) laws loop (chain c) (λ dvs a wd.
      with_world-Ends a.meta wd (process_custom_hosts workload codec dvs a)
        (process_custom_hosts-Kept workload codec dvs a))

  -- An ingress that is not being deleted has the cascade finalizer after `reconcile`, with or without
  -- an error.
  pub reconcile_ingress_live :
      (a a' : Ingress V) (wd wd' : W) (failed : Option Error)
      → a.meta.deleting ≡ false
      → reconcile_ingress c a wd ≡ some (failed, a', wd')
      → has_finalizer a'.meta cascade_finalizer ≡ true
  unfolding reconcile_ingress
  reconcile_ingress_live a a' wd wd' failed live h =
      reconcile_live workload (object c) loop laws.with_meta_lem
        (members workload (object c) (chain c)) failed a a' wd wd' ingress-Keeps live h

  -- While one of its reconcilers fails, an ingress that is being deleted keeps the cascade finalizer,
  -- if it had it.
  pub reconcile_ingress_failed :
      (a a' : Ingress V) (wd wd' : W) (e : Error)
      → a.meta.deleting ≡ true
      → reconcile_ingress c a wd ≡ some (some e, a', wd')
      → has_finalizer a'.meta cascade_finalizer ≡ has_finalizer a.meta cascade_finalizer
  unfolding reconcile_ingress
  reconcile_ingress_failed a a' wd wd' e gone h =
      reconcile_failed workload (object c) loop laws.with_meta_lem
        (members workload (object c) (chain c)) e a a' wd wd' ingress-Keeps gone h
