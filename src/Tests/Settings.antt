-- ===== src/Tests/Settings.antt =====
-- Configurations from concrete environments and arguments.
use newt_rust.Common.{
  true, Option, none, some, List, [], ◌∷◌, ◌++◌, ◌≡◌, refl, Text, codes, text_eq, if◌then◌else◌,
  split_once, rsplit_once, trim,
}
use newt_rust.Common.Numbers.{parse_uint}
use newt_rust.Common.Results.{ok}
use newt_rust.Config.Parse.{parse_forwards, parse_each, split, parse_forward}
use newt_rust.Config.{Config, from_sources, read_env, read_args, flag_of, apply_flag, build}
use newt_rust.Config.Roles.{IsConfig, from_sources-IsConfig}
use newt_rust.Config.Override.{with_endpoint, from_sources-endpoint}

abbrev env : Text → Option Text
env k =
    if text_eq k (codes "PANGOLIN_ENDPOINT")
    then some (codes "https://env")
    else if text_eq k (codes "NEWT_ID")
    then some (codes "envid")
    else if text_eq k (codes "NEWT_SECRET")
    then some (codes "envsecret")
    else none

abbrev args : List Text
args = codes "--skip-tls-verify" ∷ codes "-id" ∷ codes "cliid" ∷ []

abbrev config : Config
config = record {
  log_level = codes "INFO";
  site = some (record {
    endpoint = codes "https://env";
    id = codes "cliid";
    secret = codes "envsecret";
    mtu = 1280;
    skip_tls_verify = true;
    udp_idle_timeout = 90;
  });
  client = none;
}

builds_site : from_sources true env args ≡ ok config
unfolding from_sources read_env read_args flag_of apply_flag build text_eq
builds_site = refl

parses_forwards :
    parse_forwards (codes "8080:10.0.0.5:80, 9090:10.0.0.6:443")
    ≡ ok (
        record { listen_port = 8080; dest_host = codes "10.0.0.5"; dest_port = 80 }
        ∷ record { listen_port = 9090; dest_host = codes "10.0.0.6"; dest_port = 443 }
        ∷ [])
unfolding parse_forwards parse_each split parse_forward trim split_once rsplit_once parse_uint
parses_forwards = refl

from_sources-IsConfig_example : IsConfig config
from_sources-IsConfig_example = from_sources-IsConfig true env args config builds_site

from_sources-endpoint_example :
    from_sources true env (args ++ codes "--endpoint" ∷ codes "https://cli" ∷ [])
    ≡ ok (with_endpoint (codes "https://cli") config)
from_sources-endpoint_example =
    from_sources-endpoint true env args (codes "https://cli") config refl builds_site
