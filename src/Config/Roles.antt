-- ===== src/Config/Roles.antt =====
-- What a configuration that is accepted has.
use newt_rust.Common.{
  Bool, true, false, ◌&&◌, Option, none, some, List, ◌≡◌, refl, Text, is_empty, arith, subst,
}
use newt_rust.Common.Results.{ok, >>=-eq-ok}
use newt_rust.Config.{
  Config, Raw, SiteRun, ClientRun, from_sources, read_env, read_args, build, site_of, client_of,
  is_none, default, checked,
}

-- A role is there, and each role that is there has an endpoint, an id and a secret.
pub record IsConfig (c : Config) : Type 0 where
  pub role : (is_none c.site && is_none c.client) ≡ false
  pub site_credentials :
      (s : SiteRun)
      → c.site ≡ some s
      → (is_empty s.endpoint ≡ false) × (is_empty s.id ≡ false) × (is_empty s.secret ≡ false)
  pub client_credentials :
      (s : ClientRun)
      → c.client ≡ some s
      → (is_empty s.endpoint ≡ false) × (is_empty s.id ≡ false) × (is_empty s.secret ≡ false)

site_of-some :
    (r : Raw) (s : SiteRun)
    → site_of r ≡ some s
    → (s.endpoint ≡ r.endpoint) × (is_empty s.id ≡ false) × (is_empty s.secret ≡ false)
site_of-some r s h = ground arith

client_of-some :
    (r : Raw) (s : ClientRun)
    → client_of r ≡ some s
    → (s.endpoint ≡ r.endpoint) × (is_empty s.id ≡ false) × (is_empty s.secret ≡ false)
client_of-some r s h = ground arith

-- The three checks of an accepted configuration.
pub checked-ok :
    (log_level : Text) (missing : Bool) (site : Option SiteRun) (client : Option ClientRun)
    (c : Config)
    → checked log_level missing site client ≡ ok c
    → (missing ≡ false)
      × ((is_none site && is_none client) ≡ false)
      × (record { log_level = log_level; site = site; client = client } ≡ c)
checked-ok l true site client c h = cc
checked-ok l false none none c h = cc
checked-ok l false none (some b) c h = (refl, refl, cc)
checked-ok l false (some a) none c h = (refl, refl, cc)
checked-ok l false (some a) (some b) c h = (refl, refl, cc)

build-IsConfig : (r : Raw) (c : Config) → build r ≡ ok c → IsConfig c
unfolding build
build-IsConfig r c h =
    let (given, role, same) =
      checked-ok r.log_level (is_empty r.endpoint) (site_of r) (client_of r) c h in
    subst IsConfig same (record {
      role = role;
      site_credentials =
          λ s e. let (at, id, secret) = site_of-some r s e in (rw at given, id, secret);
      client_credentials =
          λ s e. let (at, id, secret) = client_of-some r s e in (rw at given, id, secret);
    })

-- An accepted configuration has a role, and each role that it has, an endpoint, an id and a secret.
pub from_sources-IsConfig :
    (linux : Bool) (env : Text → Option Text) (args : List Text) (c : Config)
    → from_sources linux env args ≡ ok c
    → IsConfig c
unfolding from_sources
from_sources-IsConfig linux env args c h =
    let (r, _, h1) = >>=-eq-ok (read_env env (default linux)) _ h in
    let (r', _, h2) = >>=-eq-ok (read_args args r) _ h1 in build-IsConfig r' c h2
