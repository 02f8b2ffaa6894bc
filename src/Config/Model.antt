-- ===== src/Config/Model.antt =====
-- The configuration, and the record that it is gathered in (`Config`, `SiteRun`, `ClientRun`, `Raw` of
-- crates/newt/src/config.rs).
use newt_rust.Common.{ℕ, Bool, false, Option, none, List, [], Text, codes, if◌then◌else◌}
use newt_rust.Config.Parse.{AccessMode, kernel, userspace, Forward}

pub record SiteRun : Type 0 where
  pub endpoint : Text
  pub id : Text
  pub secret : Text
  pub mtu : ℕ
  pub skip_tls_verify : Bool
  pub udp_idle_timeout : ℕ

pub record ClientRun : Type 0 where
  pub endpoint : Text
  pub id : Text
  pub secret : Text
  pub user_token : Text
  pub org_id : Text
  pub mtu : ℕ
  pub skip_tls_verify : Bool
  pub access : AccessMode
  pub interface : Text
  pub forwards : List Forward
  pub socks_port : Option ℕ

pub record Config : Type 0 where
  pub log_level : Text
  pub site : Option SiteRun
  pub client : Option ClientRun

pub record Raw : Type 0 where
  pub endpoint : Text
  pub mtu : ℕ
  pub log_level : Text
  pub skip_tls_verify : Bool
  pub udp_idle_timeout : ℕ
  pub newt_id : Text
  pub newt_secret : Text
  pub olm_id : Text
  pub olm_secret : Text
  pub user_token : Text
  pub org_id : Text
  pub access : AccessMode
  pub interface : Text
  pub forwards : List Forward
  pub socks_port : Option ℕ

-- `default_access`, by whether the target is Linux
abbrev pub default_access : Bool → AccessMode
default_access linux = if linux then kernel else userspace

-- `Raw::default`
abbrev pub default : Bool → Raw
default linux = record {
  endpoint = [];
  mtu = 1280;
  log_level = codes "INFO";
  skip_tls_verify = false;
  udp_idle_timeout = 90;
  newt_id = [];
  newt_secret = [];
  olm_id = [];
  olm_secret = [];
  user_token = [];
  org_id = [];
  access = default_access linux;
  interface = codes "olm";
  forwards = [];
  socks_port = none;
}
