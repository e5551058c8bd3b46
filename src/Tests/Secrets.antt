-- ===== src/Tests/Secrets.antt =====
-- The theorem about copied secrets, at a namespace that holds one secret at most.
use kcp_glbc.Prelude.{
  String, [], ◌∷◌, Option, some, none, Dict, Error, Reason, Result, ok, err, ◌==◌, eq_iff, eq_refl,
  if◌then◌else◌, ◌≡◌, refl, arith,
}
use kcp_glbc.Reconciler.Secrets.{
  KubeSecret, SecretClient, StoresSecrets, copy_secret, contents-copy_secret,
}
use kcp_glbc.Tests.Records.{meta_example}

abbrev create_one : KubeSecret → Option KubeSecret → Option Error × Option KubeSecret
create_one s none = (none, some s)
create_one s (some t) = (some (record { reason = Reason.already_exists; text = "" }), some t)

abbrev get_one : String → Option KubeSecret → Result KubeSecret
get_one name none = err (record { reason = Reason.not_found; text = "" })
get_one name (some s) =
    if s.meta.name == name then ok s else err (record { reason = Reason.not_found; text = "" })

abbrev contents_of : String → Option KubeSecret → Option (Dict String)
contents_of name none = none
contents_of name (some s) = if s.meta.name == name then some s.contents else none

abbrev client : SecretClient (Option KubeSecret)
client = record {
  create = create_one;
  get = get_one;
  update = λ s wd. (none, some s);
  delete = λ name wd. (none, none);
}

created_lem :
    (s : KubeSecret) (wd : Option KubeSecret)
    → (client.create s wd).0 ≡ none
    → contents_of s.meta.name (client.create s wd).1 ≡ some s.contents
created_lem s none h = ground (arith, eq_refl s.meta.name)
created_lem s (some t) h = absurd (ground (arith, h))

named_lem :
    (name : String) (wd : Option KubeSecret) (s : KubeSecret)
    → client.get name wd ≡ ok s
    → s.meta.name ≡ name
named_lem name none s h = absurd (ground (arith, h))
named_lem name (some t) s h = ground (arith, h, eq_iff t.meta.name name)

client-StoresSecrets : StoresSecrets client contents_of
client-StoresSecrets = record {
  from_create = created_lem;
  from_update = λ s wd h. ground (arith, eq_refl s.meta.name);
  named = named_lem;
}

-- The secret of another time is in the namespace already.
abbrev old_secret : KubeSecret
old_secret = record { meta = meta_example; contents = ("tls.crt", "old") ∷ [] }

abbrev new_secret : KubeSecret
new_secret = record { meta = meta_example; contents = ("tls.crt", "new") ∷ [] }

contents-copy_secret_example :
    contents_of "web" (copy_secret client new_secret (some old_secret)).1
    ≡ some (("tls.crt", "new") ∷ [])
unfolding copy_secret
contents-copy_secret_example =
    contents-copy_secret client client-StoresSecrets new_secret (some old_secret) refl
