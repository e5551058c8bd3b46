-- ===== src/Reconciler/Loop/Served.antt =====
-- What a traffic object that was reconciled without an error has from its host reconciler.
use kcp_glbc.Prelude.{
  String, List, [], ◌∷◌, none, some, false, Error, ok, ◌≡◌, refl, sym, ap, subst, arith, inl, inr,
  some-injective,
}
use kcp_glbc.Api.{ObjectMeta, DomainVerification}
use kcp_glbc.Traffic.Workload.{Workload}
use kcp_glbc.Traffic.Object.{TrafficObject, Secret}
use kcp_glbc.Traffic.Dns.{ReconcileStatus}
use kcp_glbc.Traffic.Dns.Frame.{gives_up, reconcile_dns-frame}
use kcp_glbc.Traffic.Certificates.Frame.{reconcile_tls-frame}
use kcp_glbc.Traffic.Host.Success.{reconcile_hosts-none}
use kcp_glbc.Reconciler.Loop.{LoopServices, is_stop, run_members, reconcile}
use kcp_glbc.Reconciler.Loop.Chain.{Chain, dns_member, host_member, certificate_member, members}
use kcp_glbc.Reconciler.Loop.Success.{run_members-first, reconcile-none}

-- `P` is what `ProcessCustomHosts` establishes, with the verifications that were listed; writes to the
-- metadata and `AddTLS` keep it.
module _ {A W : Type 0} (w : Workload) (o : TrafficObject A) (sv : LoopServices W)
    (chain : Chain A W) (P : List DomainVerification → A → Type 0)
    (processed : (dvs : List DomainVerification) (a b : A) (wd wd' : W)
      → chain.process dvs a wd ≡ some (none, b, wd')
      → P dvs b)
    (writes : (dvs : List DomainVerification) (m : ObjectMeta) (a : A)
      → P dvs a
      → P dvs (o.with_meta m a))
    (secures : (dvs : List DomainVerification) (host : String) (secret : Secret) (a : A)
      → P dvs a
      → P dvs (o.add_tls host secret a)) where
  open chain use {dns, certificates, get_domain_verifications}

  -- The domain verifications were listed, and the object has the property under them.
  abbrev pub Served : A → Type 0
  Served a =
      (dvs : List DomainVerification) × ((b : A) × (wd : W) × (get_domain_verifications b wd
          ≡ ok dvs))
      × P dvs a

  host-Served :
      (a b : A) (wd wd' : W) (status : ReconcileStatus)
      → (host_member w o chain).reconcile a wd ≡ some (status, none, b, wd')
      → Served b
  host-Served a b wd wd' status h =
      let (dvs, listed, done) =
        reconcile_hosts-none get_domain_verifications chain.process a b wd wd' status h in
      (dvs, (a, wd, listed), processed dvs a b wd wd' done)

  status-goes :
      (status : ReconcileStatus) (b : A) (wd : W)
      → gives_up (status, none, b, wd) ≡ false
      → is_stop w o sv status ≡ false
  status-goes ReconcileStatus.stop b wd h = absurd (ground (arith, h))
  status-goes ReconcileStatus.continue b wd h = refl
  status-goes ReconcileStatus.requeue_in_5_seconds b wd h = refl

  -- A reconciler of DNS that stops has an error.
  dns-goes :
      (a b : A) (wd wd' : W) (status : ReconcileStatus)
      → (dns_member w o chain).reconcile a wd ≡ some (status, none, b, wd')
      → is_stop w o sv status ≡ false
  dns-goes a b wd wd' status h =
      let sound =
        reconcile_dns-frame w o dns (λ _. Unit {0}) (λ a host p. p) (λ a host p. p) (λ a p. p) a wd
          tt in
      let done = some-injective h in status-goes status b wd' (rw done at sound.1)

  certificates-Served :
      (a a' : A) (wd wd' : W)
      → Served a
      → run_members w o sv (certificate_member w o chain ∷ []) a wd ≡ some ([], a', wd')
      → Served a'
  unfolding run_members
  certificates-Served a a' wd wd' (dvs, listed, served) h =
      let (status, b, wd1, secured, end) =
        run_members-first w o sv (certificate_member w o chain) [] a a' wd wd' h in
      let kept =
        reconcile_tls-frame o certificates (P dvs) (λ a key value p. writes dvs _ a p)
          (λ a host secret p. secures dvs host secret a p) a wd served in
      let still = rw (some-injective secured) at kept in
      (
        dvs,
        listed,
        elim end [
          | inl (_, e) ↦ subst (P dvs) e still
          | inr (_, (next, rest)) ↦
              subst (P dvs) (ap (λ (x : List Error × A × W). x.1) (some-injective rest)) still
        ],
      )

  hosts-Served :
      (a a' : A) (wd wd' : W)
      → run_members w o sv (host_member w o chain ∷ certificate_member w o chain ∷ []) a wd
        ≡ some ([], a', wd')
      → Served a'
  hosts-Served a a' wd wd' h =
      let (status, b, wd1, hosted, end) =
        run_members-first w o sv (host_member w o chain) _ a a' wd wd' h in
      let served = host-Served a b wd wd1 status hosted in
      elim end [
        | inl (_, e) ↦ subst Served e served
        | inr (_, (next, rest)) ↦ certificates-Served b a' next wd' served rest
      ]

  members-Served :
      (a a' : A) (wd wd' : W)
      → run_members w o sv (members w o chain) a wd ≡ some ([], a', wd')
      → Served a'
  members-Served a a' wd wd' h =
      let (status, b, wd1, named, after_dns) =
        run_members-first w o sv (dns_member w o chain) _ a a' wd wd' h in
      elim after_dns [
        | inl (stops, e) ↦ absurd (ground (arith, stops, dns-goes a b wd wd1 status named))
        | inr (goes, (next, rest)) ↦ hosts-Served b a' next wd' rest
      ]

  pub reconcile-Served :
      (a a' : A) (wd wd' : W)
      → reconcile w o sv (members w o chain) a wd ≡ some (none, a', wd')
      → Served a'
  reconcile-Served a a' wd wd' h =
      let (a0, wd0, b, wd1, run, end) = reconcile-none w o sv (members w o chain) a a' wd wd' h in
      let (dvs, listed, served) = members-Served a0 b wd0 wd1 run in
      (
        dvs,
        listed,
        elim end [
          | inl e ↦ subst (P dvs) (sym e) served
          | inr (m, e) ↦ subst (P dvs) (sym e) (writes dvs m b served)
        ],
      )
