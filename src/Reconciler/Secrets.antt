-- ===== src/Reconciler/Secrets.antt =====
-- pkg/reconciler/ingress/controller.go and pkg/reconciler/route/controller.go: the copy of a TLS secret
-- in the namespace of the traffic object.
use kcp_glbc.Prelude.{
  String, Option, none, some, if◌then◌else◌, is_not_found, is_already_exists, Error, Result, ok,
  err, Dict, ◌≡◌, refl, sym, ap, ◌∙◌, inl, inr, Bool-cases, arith,
}
use kcp_glbc.Api.{ObjectMeta}

-- A secret of the API server.
pub record KubeSecret : Type 0 where
  pub meta : ObjectMeta
  pub contents : Dict String

-- The client for the secrets of the namespace.
pub record SecretClient (W : Type 0) : Type 0 where
  pub create : KubeSecret → W → Option Error × W
  pub get : String → W → Result KubeSecret
  pub update : KubeSecret → W → Option Error × W
  pub delete : String → W → Option Error × W

module _ {W : Type 0} (client : SecretClient W) where
  overwrite : KubeSecret → Result KubeSecret → W → Option Error × W
  overwrite secret (err e) wd = (some e, wd)
  overwrite secret (ok found) wd = client.update (record found { contents = secret.contents }) wd

  -- After `Create`.
  after_create : KubeSecret → Option Error × W → Option Error × W
  unfolding overwrite
  after_create secret (none, wd) = (none, wd)
  after_create secret (some e, wd) =
      let replaced = overwrite secret (client.get secret.meta.name wd) wd in
      if is_already_exists e then replaced else (some e, wd)

  unfoldable pub copy_secret : KubeSecret → W → Option Error × W
  unfolding after_create
  copy_secret secret wd =
      let fresh = record secret { meta = record secret.meta { resource_version = "" } } in
      after_create fresh (client.create fresh wd)

  after_delete : Option Error × W → Option Error × W
  after_delete (none, wd) = (none, wd)
  after_delete (some e, wd) = if is_not_found e then (none, wd) else (some e, wd)

  unfoldable pub delete_tls_secret : String → W → Option Error × W
  unfolding after_delete
  delete_tls_secret name wd = after_delete (client.delete name wd)

  -- What the API server documents: what was written without an error is what is read, and an object
  -- is read under its own name.
  pub record StoresSecrets (contents_at : String → W → Option (Dict String)) : Type 0 where
    pub from_create :
        (s : KubeSecret) (wd : W)
        → (client.create s wd).0 ≡ none
        → contents_at s.meta.name (client.create s wd).1 ≡ some s.contents
    pub from_update :
        (s : KubeSecret) (wd : W)
        → (client.update s wd).0 ≡ none
        → contents_at s.meta.name (client.update s wd).1 ≡ some s.contents
    pub named :
        (name : String) (wd : W) (s : KubeSecret) → client.get name wd ≡ ok s → s.meta.name ≡ name

  module _ {contents_at : String → W → Option (Dict String)}
      (stores : StoresSecrets contents_at) where
    overwrite-stores :
        (secret : KubeSecret) (wd : W) (answer : Result KubeSecret)
        → client.get secret.meta.name wd ≡ answer
        → (overwrite secret answer wd).0 ≡ none
        → contents_at secret.meta.name (overwrite secret answer wd).1 ≡ some secret.contents
    unfolding overwrite
    overwrite-stores secret wd (err e) read h = absurd (ground (arith, h))
    overwrite-stores secret wd (ok found) read h =
        let kept = record found { contents = secret.contents } in
        ap (λ n. contents_at n (client.update kept wd).1)
          (sym (stores.named secret.meta.name wd found read))
        ∙ stores.from_update kept wd h

    after_create-stores :
        (secret : KubeSecret) (outcome : Option Error × W)
        → (outcome.0 ≡ none → contents_at secret.meta.name outcome.1 ≡ some secret.contents)
        → (after_create secret outcome).0 ≡ none
        → contents_at secret.meta.name (after_create secret outcome).1 ≡ some secret.contents
    unfolding after_create
    after_create-stores secret (none, wd) stored h = stored refl
    after_create-stores secret (some e, wd) stored h = elim (Bool-cases (is_already_exists e)) [
      | inr other ↦ absurd (ground (arith, other, h))
      | inl exists ↦
          let replaced = overwrite-stores secret wd (client.get secret.meta.name wd) refl in
          rw (exists, after_create) (replaced (rw (exists, after_create) at h))
    ]

    -- Once the secret was copied without an error, the namespace holds its contents under its name,
    -- whether it was there before or not.
    pub contents-copy_secret :
        (secret : KubeSecret) (wd : W)
        → (copy_secret secret wd).0 ≡ none
        → contents_at secret.meta.name (copy_secret secret wd).1 ≡ some secret.contents
    unfolding copy_secret
    contents-copy_secret secret wd h =
        let fresh = record secret { meta = record secret.meta { resource_version = "" } } in
        after_create-stores fresh (client.create fresh wd) (stores.from_create fresh wd) h
