-- ===== src/Olm/Client.antt =====
-- The control messages of a client (`handle_message` of crates/newt/src/olm/mod.rs).
pub mod Exits
pub mod Session
pub mod Table
pub mod Sites
pub mod Spec
pub mod Effects
pub mod Upkeep
pub mod Keeps
pub mod Sync
pub mod Refused
use newt_rust.Common.{Bool, true, false, List, [], ◌∷◌, Option, none, some}
use newt_rust.Common.Int.{ℤ}
use newt_rust.Common.Io.{Io, pure, lift, attempt, ◌>>=◌, ◌>>◌}
use newt_rust.Common.Net.{SocketAddr}
use newt_rust.Core.Proto.{WsMessage}
use newt_rust.Config.Model.{ClientRun}
use newt_rust.Wg.{Noise, Keys}
use newt_rust.Olm.Cidr.{IpParser}
use newt_rust.Olm.Proto.{
  SiteConfig, WgData, PeerRemove, PeerRelay, PeerUnrelay, PeerData, SyncData, Serde, wg_default,
}
use newt_rust.Olm.Proto.Topic.{
  Arm, connects, upserts, removes, relays, unrelays, adds_data, removes_data, syncs, errors,
  terminates, ignores, arm_of,
}
use newt_rust.Olm.Plane.{
  Network, Device, Plane, to_list, parse_cidrs, resolve, send_all, routes_added, build_dataplane,
  upsert_site,
}
use newt_rust.Olm.Router.{remove_peer, set_endpoint, add_cidrs, remove_cidrs}

module _ {V : Type 0} (noise : Noise) (std : IpParser) (net : Network V)
    (dev : Device net.World) where
  open noise use {StaticSecret}
  open net use {World}

  abbrev pub Planes : Type 0
  Planes = Option (Plane noise std net dev)

  -- a site of PEER_ADD, PEER_UPDATE or SYNC, whose handshake is sent at once
  pub update_site : Plane noise std net dev → SiteConfig → Io World (Plane noise std net dev)
  unfolding upsert_site
  update_site d site = do
    (d', init) ← upsert_site noise std net dev d site
    send_all net (to_list init)
    pure d'

  pub update_sites : Plane noise std net dev → List SiteConfig → Io World (Plane noise std net dev)
  unfolding update_site
  update_sites d [] = pure d
  update_sites d (site ∷ sites) = do d' ← update_site d site; update_sites d' sites

  -- a peer gets the endpoint that the text resolves to, if it does
  pub move_to : Plane noise std net dev → ℤ → Option SocketAddr → Plane noise std net dev
  move_to d site none = d
  move_to d site (some ep) = record d { router = set_endpoint d.router site ep }

  -- Each arm of the match; `none` is a payload that does not decode.
  pub on_connect : ClientRun → Keys StaticSecret → Option WgData → Io World (Planes × Bool)
  unfolding build_dataplane
  on_connect cfg keys wg = do
    (d, inits) ←
        build_dataplane noise std net dev cfg keys
          (elim wg [ none ↦ wg_default | some given ↦ given ])
    send_all net inits
    pure (some d, false)

  pub on_upsert : Planes → Option SiteConfig → Io World (Planes)
  unfolding update_site
  on_upsert (some d) (some site) = do d' ← update_site d site; pure (some d')
  on_upsert dp _ = pure dp

  pub on_remove : Planes → Option PeerRemove → Planes
  on_remove (some d) (some r) = some (record d { router = remove_peer d.router r.site_id })
  on_remove dp _ = dp

  pub on_relay : Planes → Option PeerRelay → Io World (Planes)
  on_relay (some d) (some r) = do
    ep ← attempt (resolve net r.relay_endpoint)
    pure (some (move_to d r.site_id ep))
  on_relay dp _ = pure dp

  pub on_unrelay : Planes → Option PeerUnrelay → Io World (Planes)
  on_unrelay (some d) (some r) = do
    ep ← attempt (resolve net r.endpoint)
    pure (some (move_to d r.site_id ep))
  on_unrelay dp _ = pure dp

  pub on_data_add : Planes → Option PeerData → Io World (Planes)
  on_data_add (some d) (some r) = do
    let cidrs = parse_cidrs std r.remote_subnets
    (d', added) ←
        routes_added noise std net dev cidrs
          (record d { router = add_cidrs d.router r.site_id cidrs })
    lift added
    pure (some d')
  on_data_add dp _ = pure dp

  pub on_data_remove : Planes → Option PeerData → Planes
  on_data_remove (some d) (some r) =
      let gone = parse_cidrs std r.remote_subnets in
      some (record d { router = remove_cidrs d.router r.site_id gone })
  on_data_remove dp _ = dp

  pub on_sync : Planes → Option SyncData → Io World (Planes)
  unfolding update_sites
  on_sync (some d) (some s) = do d' ← update_sites d s.sites; pure (some d')
  on_sync dp _ = pure dp

  -- the session goes on
  abbrev pub going : Io World (Planes) → Io World (Planes × Bool)
  going m = do dp ← m; pure (dp, false)

  pub dispatch :
      Serde V → ClientRun → Keys StaticSecret → Arm → V → Planes → Io World (Planes × Bool)
  unfolding on_connect on_upsert on_remove on_relay on_unrelay on_data_add on_data_remove on_sync
  dispatch serde cfg keys connects v dp = on_connect cfg keys (serde.wg_data v)
  dispatch serde cfg keys upserts v dp = going (on_upsert dp (serde.site_config v))
  dispatch serde cfg keys removes v dp = going (pure (on_remove dp (serde.peer_remove v)))
  dispatch serde cfg keys relays v dp = going (on_relay dp (serde.peer_relay v))
  dispatch serde cfg keys unrelays v dp = going (on_unrelay dp (serde.peer_unrelay v))
  dispatch serde cfg keys adds_data v dp = going (on_data_add dp (serde.peer_data v))
  dispatch serde cfg keys removes_data v dp = going (pure (on_data_remove dp (serde.peer_data v)))
  dispatch serde cfg keys syncs v dp = going (on_sync dp (serde.sync_data v))
  dispatch serde cfg keys errors v dp = pure (dp, false)
  dispatch serde cfg keys terminates v dp = pure (dp, true)
  dispatch serde cfg keys ignores v dp = pure (dp, false)

  -- The data plane after a message, and whether the session ends.
  unfoldable pub handle_message :
      Serde V → ClientRun → Keys StaticSecret → WsMessage V → Planes → Io World (Planes × Bool)
  unfolding dispatch
  handle_message serde cfg keys msg dp = dispatch serde cfg keys (arm_of msg.typ) msg.payload dp
