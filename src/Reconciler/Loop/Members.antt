-- ===== src/Reconciler/Loop/Members.antt =====
-- The reconcilers leave the cascade finalizer alone.
use kcp_glbc.Prelude.{String, List, Option, Error, ◌≡◌, refl, sym, subst, Ends, All}
use kcp_glbc.Api.{ObjectMeta, DomainVerification}
use kcp_glbc.Metadata.{add_annotation, remove_annotation, has_finalizer}
use kcp_glbc.Traffic.Workload.{Workload}
use kcp_glbc.Traffic.Object.{TrafficObject, MetaLaws}
use kcp_glbc.Traffic.Dns.{DnsServices, reconcile_dns, host_annotation}
use kcp_glbc.Traffic.Dns.Frame.{reconcile_dns-frame}
use kcp_glbc.Traffic.Certificates.{CertificateServices, reconcile_tls}
use kcp_glbc.Traffic.Certificates.Frame.{reconcile_tls-frame}
use kcp_glbc.Reconciler.Loop.{LoopServices}
use kcp_glbc.Reconciler.Loop.Finalizer.{Holds, Keeps}
use kcp_glbc.Reconciler.Loop.Chain.{Chain, members}
use kcp_glbc.Traffic.Host.Success.{reconcile_hosts-Ends}

module _ {A : Type 0} (o : TrafficObject A) (laws : MetaLaws o) where
  open o use {meta, with_meta}

  Holds-along : (m m' m'' : ObjectMeta) → m'' ≡ m' → Holds m m' → Holds m m''
  Holds-along m m' m'' e h = subst (Holds m) (sym e) h

  Holds-annotated :
      (m : ObjectMeta) (b : A) (key value : String)
      → Holds m (meta b)
      → Holds m (meta (with_meta (add_annotation (meta b) key value) b))
  unfolding add_annotation has_finalizer
  Holds-annotated m b key value h =
      let annotated = add_annotation (meta b) key value in
      Holds-along m annotated _ (laws.with_meta_lem annotated b)
        (record { cascade = h.cascade; deleting = h.deleting })

  Holds-unannotated :
      (m : ObjectMeta) (b : A) (key : String)
      → Holds m (meta b)
      → Holds m (meta (with_meta (remove_annotation (meta b) key) b))
  unfolding remove_annotation has_finalizer
  Holds-unannotated m b key h =
      let bare = remove_annotation (meta b) key in
      Holds-along m bare _ (laws.with_meta_lem bare b)
        (record { cascade = h.cascade; deleting = h.deleting })

module _ {A W : Type 0} (w : Workload) (o : TrafficObject A) (laws : MetaLaws o) where
  open o use {meta}

  pub dns-Holds :
      (sv : DnsServices A W) (a : A) (wd : W) → Holds (meta a) (meta (reconcile_dns w o sv a wd).2)
  dns-Holds sv a wd =
      (reconcile_dns-frame w o sv (λ b. Holds (meta a) (meta b))
        (λ b host h. Holds-along o laws (meta a) (meta b) _ (laws.set_hcg_host_lem host b) h)
        (λ b host h. Holds-along o laws (meta a) (meta b) _ (laws.set_dns_lb_host_lem host b) h)
        (λ b h. Holds-unannotated o laws (meta a) b host_annotation h) a wd
        (record { cascade = refl; deleting = refl })).0

  pub tls-Holds :
      (sv : CertificateServices W) (a : A) (wd : W)
      → Holds (meta a) (meta (reconcile_tls o sv a wd).2)
  tls-Holds sv a wd =
      reconcile_tls-frame o sv (λ b. Holds (meta a) (meta b))
        (λ b key value h. Holds-annotated o laws (meta a) b key value h)
        (λ b host secret h.
          Holds-along o laws (meta a) (meta b) _ (laws.add_tls_lem host secret b) h)
        a wd (record { cascade = refl; deleting = refl })

  -- So do the three reconcilers, where `ProcessCustomHosts` does.
  pub members-Keeps :
      (sv : LoopServices W) (chain : Chain A W)
      → ((dvs : List DomainVerification) (a : A) (wd : W)
          → Ends (λ (x : Option Error × A × W). Holds (meta a) (meta x.1)) (chain.process dvs a wd))
      → All (Keeps w o sv laws.with_meta_lem) (members w o chain)
  members-Keeps sv chain processed = (
    λ a wd. dns-Holds chain.dns a wd,
    (
      λ a wd.
          reconcile_hosts-Ends chain.get_domain_verifications chain.process
            (λ b. Holds (meta a) (meta b)) a wd (record { cascade = refl; deleting = refl })
            (λ dvs. processed dvs a wd),
      (λ a wd. tls-Holds chain.certificates a wd, tt),
    ),
  )
