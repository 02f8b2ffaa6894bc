-- ===== src/Config.antt =====
-- crates/newt/src/config.rs: the configuration from the environment and the command line.
pub mod Parse
pub mod Model
pub mod Roles
pub mod Override
use newt_rust.Common.{
  ℕ, Bool, true, false, not, ◌&&◌, ◌||◌, Option, none, some, List, [], ◌∷◌, ◌++◌, map, Text, codes,
  text_eq, is_empty, if◌then◌else◌,
}
use newt_rust.Common.Numbers.{parse_uint, max_u16, max_u64}
use newt_rust.Common.Results.{Result, ok, err, ok_or, ◌>>=◌}
use newt_rust.Config.Parse.{
  AccessMode, kernel, userspace, Forward, truthy, parse_secs, parse_access, parse_forwards,
}
pub use Model.*

-- `if let Some(v) = env(name) { .. }`
abbrev pub if_set : Option Text → (Text → Raw → Result Raw) → Raw → Result Raw
if_set none set r = ok r
if_set (some v) set r = set v r

abbrev pub or_else : Option Text → Option Text → Option Text
or_else none b = b
or_else (some a) b = some a

-- the part of `from_sources` that reads the environment
unfoldable pub read_env : (Text → Option Text) → Raw → Result Raw
read_env env r0 = do
  r ← if_set (env (codes "PANGOLIN_ENDPOINT")) (λ v r. ok (record r { endpoint = v })) r0
  r ←
      if_set (env (codes "MTU"))
        (λ v r. do n ← ok_or (codes "bad MTU") (parse_uint max_u64 v); ok (record r { mtu = n })) r
  r ← if_set (env (codes "LOG_LEVEL")) (λ v r. ok (record r { log_level = v })) r
  r ← if_set (env (codes "SKIP_TLS_VERIFY")) (λ v r. ok (record r { skip_tls_verify = truthy v })) r
  r ←
      if_set (env (codes "NEWT_UDP_PROXY_IDLE_TIMEOUT"))
        (λ v r. do n ← parse_secs v; ok (record r { udp_idle_timeout = n })) r
  r ← if_set (env (codes "NEWT_ID")) (λ v r. ok (record r { newt_id = v })) r
  r ← if_set (env (codes "NEWT_SECRET")) (λ v r. ok (record r { newt_secret = v })) r
  r ← if_set (env (codes "OLM_ID")) (λ v r. ok (record r { olm_id = v })) r
  r ← if_set (env (codes "OLM_SECRET")) (λ v r. ok (record r { olm_secret = v })) r
  r ← if_set (env (codes "OLM_USER_TOKEN")) (λ v r. ok (record r { user_token = v })) r
  r ←
      if_set (or_else (env (codes "PANGOLIN_ORG_ID")) (env (codes "ORG_ID")))
        (λ v r. ok (record r { org_id = v })) r
  r ←
      if_set (env (codes "OLM_ACCESS_MODE"))
        (λ v r. do m ← parse_access v; ok (record r { access = m })) r
  r ← if_set (env (codes "OLM_INTERFACE")) (λ v r. ok (record r { interface = v })) r
  r ←
      if_set (env (codes "OLM_FORWARDS"))
        (λ v r. do fs ← parse_forwards v; ok (record r { forwards = fs })) r
  if_set (env (codes "OLM_SOCKS_PORT"))
      (λ v r. do
        n ← ok_or (codes "bad OLM_SOCKS_PORT") (parse_uint max_u16 v)
        ok (record r { socks_port = some n }))
      r

-- The flags of the command line; `--skip-tls-verify` alone has no value.
pub data Flag : Type 0 where
  endpoint_flag id_flag secret_flag mtu_flag log_level_flag skip_tls_verify_flag olm_id_flag
        olm_secret_flag :
      Flag
  olm_user_token_flag org_id_flag olm_access_flag olm_interface_flag olm_forwards_flag
        olm_socks_port_flag :
      Flag

-- is the argument the name with one dash, or with two?
abbrev pub named : Text → Text → Bool
named a name = text_eq a (codes "-" ++ name) || text_eq a (codes "--" ++ name)

-- the arms of the match on an argument
unfoldable pub flag_of : Text → Option Flag
flag_of a =
    if named a (codes "endpoint")
    then some endpoint_flag
    else if named a (codes "id")
    then some id_flag
    else if named a (codes "secret")
    then some secret_flag
    else if named a (codes "mtu")
    then some mtu_flag
    else if named a (codes "log-level")
    then some log_level_flag
    else if named a (codes "skip-tls-verify")
    then some skip_tls_verify_flag
    else if named a (codes "olm-id")
    then some olm_id_flag
    else if named a (codes "olm-secret")
    then some olm_secret_flag
    else if named a (codes "olm-user-token")
    then some olm_user_token_flag
    else if named a (codes "org-id")
    then some org_id_flag
    else if named a (codes "olm-access")
    then some olm_access_flag
    else if named a (codes "olm-interface")
    then some olm_interface_flag
    else if named a (codes "olm-forwards")
    then some olm_forwards_flag
    else if named a (codes "olm-socks-port")
    then some olm_socks_port_flag
    else none

-- what an arm does with the value of its flag
unfoldable pub apply_flag : Flag → Text → Raw → Result Raw
apply_flag endpoint_flag v r = ok (record r { endpoint = v })
apply_flag id_flag v r = ok (record r { newt_id = v })
apply_flag secret_flag v r = ok (record r { newt_secret = v })
apply_flag mtu_flag v r = do
  n ← ok_or (codes "bad --mtu") (parse_uint max_u64 v)
  ok (record r { mtu = n })
apply_flag log_level_flag v r = ok (record r { log_level = v })
apply_flag skip_tls_verify_flag v r = ok (record r { skip_tls_verify = true })
apply_flag olm_id_flag v r = ok (record r { olm_id = v })
apply_flag olm_secret_flag v r = ok (record r { olm_secret = v })
apply_flag olm_user_token_flag v r = ok (record r { user_token = v })
apply_flag org_id_flag v r = ok (record r { org_id = v })
apply_flag olm_access_flag v r = do m ← parse_access v; ok (record r { access = m })
apply_flag olm_interface_flag v r = ok (record r { interface = v })
apply_flag olm_forwards_flag v r = do fs ← parse_forwards v; ok (record r { forwards = fs })
apply_flag olm_socks_port_flag v r = do
  n ← ok_or (codes "bad --olm-socks-port") (parse_uint max_u16 v)
  ok (record r { socks_port = some n })

abbrev pub has_value : Flag → Bool
has_value skip_tls_verify_flag = false
has_value _ = true

-- the last argument, with its flag
abbrev pub last_arg : Text → Raw → Option Flag → Result Raw
last_arg a r none = err (codes "unknown flag: " ++ a)
last_arg a r (some f) =
    if has_value f then err (codes "missing value for " ++ a) else apply_flag f [] r

-- an argument before the argument `v`, with its flag: what follows `v`, and what follows the flag, is read next
abbrev pub next_arg :
    Text → Text → (Raw → Result Raw) → (Raw → Result Raw) → Raw → Option Flag → Result Raw
next_arg a v past_value past_flag r none = err (codes "unknown flag: " ++ a)
next_arg a v past_value past_flag r (some f) =
    if has_value f then apply_flag f v r >>= past_value else apply_flag f [] r >>= past_flag

-- the loop over the arguments; a flag that has a value takes the next argument (`next`)
unfoldable pub read_args : List Text → Raw → Result Raw
read_args [] r = ok r
read_args (a ∷ []) r = last_arg a r (flag_of a)
read_args (a ∷ v ∷ args) r = next_arg a v (read_args args) (read_args (v ∷ args)) r (flag_of a)

-- the site role, if its credentials are there
abbrev pub site_of : Raw → Option SiteRun
site_of r =
    if not (is_empty r.newt_id) && not (is_empty r.newt_secret)
    then some (record {
      endpoint = r.endpoint;
      id = r.newt_id;
      secret = r.newt_secret;
      mtu = r.mtu;
      skip_tls_verify = r.skip_tls_verify;
      udp_idle_timeout = r.udp_idle_timeout;
    })
    else none

abbrev pub client_of : Raw → Option ClientRun
client_of r =
    if not (is_empty r.olm_id) && not (is_empty r.olm_secret)
    then some (record {
      endpoint = r.endpoint;
      id = r.olm_id;
      secret = r.olm_secret;
      user_token = r.user_token;
      org_id = r.org_id;
      mtu = r.mtu;
      skip_tls_verify = r.skip_tls_verify;
      access = r.access;
      interface = r.interface;
      forwards = r.forwards;
      socks_port = r.socks_port;
    })
    else none

abbrev pub is_none {ℓ} : {A : Type ℓ} → Option A → Bool
is_none none = true
is_none (some a) = false

-- the checks at the end of `from_sources`: is the endpoint missing, and are both roles?
abbrev pub checked : Text → Bool → Option SiteRun → Option ClientRun → Result Config
checked log_level missing site client =
    if missing
    then err (codes "PANGOLIN_ENDPOINT (or --endpoint) is required")
    else if is_none site && is_none client
    then err (
        codes
          "no role configured: set NEWT_ID/NEWT_SECRET (site) and/or OLM_ID/OLM_SECRET (client)")
    else ok (record { log_level = log_level; site = site; client = client })

-- `from_sources` behind the arguments
unfoldable pub build : Raw → Result Config
build r = checked r.log_level (is_empty r.endpoint) (site_of r) (client_of r)

-- `Config::from_sources`; the first argument says whether the target is Linux
unfoldable pub from_sources : Bool → (Text → Option Text) → List Text → Result Config
from_sources linux env args = do r ← read_env env (default linux); r ← read_args args r; build r
