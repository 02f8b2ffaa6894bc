-- ===== src/Olm/Proto.antt =====
-- crates/newt/src/olm/proto.rs: the messages of the client's control channel.
pub mod Topic
use newt_rust.Common.{ℕ, List, [], ◌++◌, Option, none, some, Text, is_empty, if◌then◌else◌}
use newt_rust.Common.Int.{ℤ}

pub record SiteConfig : Type 0 where
  pub site_id : ℤ
  pub name : Text
  pub endpoint : Text
  pub relay_endpoint : Text
  pub public_key : Text
  pub server_ip : Text
  pub server_port : ℕ
  pub remote_subnets : List Text
  pub allowed_ips : List Text

-- the relay endpoint when present, otherwise the direct one
unfoldable pub wg_endpoint : SiteConfig → Text
wg_endpoint s = if is_empty s.relay_endpoint then s.endpoint else s.relay_endpoint

abbrev pub routed_cidrs : SiteConfig → List Text
routed_cidrs s = s.remote_subnets ++ s.allowed_ips

pub record WgData : Type 0 where
  pub sites : List SiteConfig
  pub tunnel_ip : Text
  pub utility_subnet : Text

pub record PeerRemove : Type 0 where
  pub site_id : ℤ

pub record PeerRelay : Type 0 where
  pub site_id : ℤ
  pub relay_endpoint : Text

pub record PeerUnrelay : Type 0 where
  pub site_id : ℤ
  pub endpoint : Text

pub record PeerData : Type 0 where
  pub site_id : ℤ
  pub remote_subnets : List Text

pub record PeerDataUpdate : Type 0 where
  pub site_id : ℤ
  pub old_remote_subnets : List Text
  pub new_remote_subnets : List Text

pub record ErrorData : Type 0 where
  pub code : Text
  pub message : Text

pub record SyncData : Type 0 where
  pub sites : List SiteConfig

-- `WgData::default`
abbrev pub wg_default : WgData
wg_default = record { sites = []; tunnel_ip = []; utility_subnet = [] }

-- The derived decoders from a JSON value, which serde generates.
pub record Serde (V : Type 0) : Type 0 where
  pub wg_data : V → Option WgData
  pub site_config : V → Option SiteConfig
  pub peer_remove : V → Option PeerRemove
  pub peer_relay : V → Option PeerRelay
  pub peer_unrelay : V → Option PeerUnrelay
  pub peer_data : V → Option PeerData
  pub sync_data : V → Option SyncData
