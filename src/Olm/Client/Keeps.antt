-- ===== src/Olm/Client/Keeps.antt =====
-- What every call of a method keeps of the router, every control message keeps.
use newt_rust.Common.{Bool, false, List, Option, none, some}
use newt_rust.Common.Results.{Result}
use newt_rust.Common.Io.{pure, lift, ◌>>◌, Ends, Ends-after, Ends-any, attempt, after}
use newt_rust.Common.Net.{Bytes, SocketAddr}
use newt_rust.Core.Proto.{WsMessage}
use newt_rust.Config.Model.{ClientRun}
use newt_rust.Wg.{Noise, Keys}
use newt_rust.Olm.Cidr.{IpParser}
use newt_rust.Olm.Proto.{
  SiteConfig, WgData, PeerRemove, PeerRelay, PeerUnrelay, PeerData, SyncData, Serde, wg_default,
}
use newt_rust.Olm.Proto.Topic.{
  Arm, connects, upserts, removes, relays, unrelays, adds_data, removes_data, syncs, errors,
  terminates, ignores, arm_of,
}
use newt_rust.Olm.Plane.{
  Network, Device, parse_cidrs, resolve, routes_added, build_dataplane, send_all,
}
use newt_rust.Olm.Router
use newt_rust.Olm.Router.{Router}
use newt_rust.Olm.Router.Calls
use newt_rust.Olm.Router.Calls.{Call}
use newt_rust.Olm.Client.{
  Planes, update_site, update_sites, on_connect, on_upsert, on_remove, on_relay, on_unrelay,
  on_data_add, on_data_remove, on_sync, dispatch, handle_message,
}
use newt_rust.Olm.Client.Upkeep.{
  Here, Holds, build_dataplane-Ends, update_site-Ends, update_sites-Ends, move_to-Holds,
  routes_added-Ends,
}

module _ {V : Type 0} (noise : Noise) (std : IpParser) (net : Network V) (dev : Device net.World)
    (P : Router noise.StaticSecret noise.Tunn → Type 0)
    (keep : (r : Router noise.StaticSecret noise.Tunn) (c : Call)
      → P r
      → P (Calls.step noise r c)) where
  open noise use {StaticSecret, Tunn}
  open net use {World}

  abbrev pub HoldsIn : Planes noise std net dev → Type 0
  HoldsIn none = Unit {0}
  HoldsIn (some d) = P d.router

  abbrev HoldsNext : Planes noise std net dev × Bool → Type 0
  HoldsNext x = HoldsIn x.0

  going-Ends :
      (res : Result (Planes noise std net dev) × World)
      → Ends HoldsIn res
      → Ends HoldsNext (after res (λ dp. pure (dp, false)))
  going-Ends res h = Ends-after HoldsIn HoldsNext res (λ dp. pure (dp, false)) h (λ dp w1 h1. h1)

  on_connect-Ends :
      (cfg : ClientRun) (keys : Keys StaticSecret) (o : Option WgData) (w : World)
      → P (Router.new keys.secret cfg.mtu)
      → Ends HoldsNext (on_connect noise std net dev cfg keys o w)
  unfolding on_connect
  on_connect-Ends cfg keys o w start =
      let wg : WgData = elim o [ none ↦ wg_default | some given ↦ given ] in
      Ends-after
        (λ (x : Here noise std net dev P keep × List (Bytes × SocketAddr)).
          Holds noise std net dev P keep x.0)
        HoldsNext (build_dataplane noise std net dev cfg keys wg w)
        (λ x. do send_all net x.1; pure (some x.0, false))
        (build_dataplane-Ends noise std net dev P keep cfg keys wg w start)
        (λ x w1 h1.
          Ends-any HoldsNext (send_all net x.1 w1) (λ u. pure (some x.0, false)) (λ u w2. h1))

  on_upsert-Ends :
      (dp : Planes noise std net dev) (o : Option SiteConfig) (w : World)
      → HoldsIn dp
      → Ends HoldsIn (on_upsert noise std net dev dp o w)
  unfolding on_upsert
  on_upsert-Ends none o w h = tt
  on_upsert-Ends (some d) none w h = h
  on_upsert-Ends (some d) (some site) w h =
      Ends-after (Holds noise std net dev P keep) HoldsIn (update_site noise std net dev d site w) _
        (update_site-Ends noise std net dev P keep d site w h) (λ d' w1 h1. h1)

  on_sync-Ends :
      (dp : Planes noise std net dev) (o : Option SyncData) (w : World)
      → HoldsIn dp
      → Ends HoldsIn (on_sync noise std net dev dp o w)
  unfolding on_sync
  on_sync-Ends none o w h = tt
  on_sync-Ends (some d) none w h = h
  on_sync-Ends (some d) (some s) w h =
      Ends-after (Holds noise std net dev P keep) HoldsIn
        (update_sites noise std net dev d s.sites w) _
        (update_sites-Ends noise std net dev P keep d s.sites w h) (λ d' w1 h1. h1)

  on_relay-Ends :
      (dp : Planes noise std net dev) (o : Option PeerRelay) (w : World)
      → HoldsIn dp
      → Ends HoldsIn (on_relay noise std net dev dp o w)
  unfolding on_relay
  on_relay-Ends none o w h = tt
  on_relay-Ends (some d) none w h = h
  on_relay-Ends (some d) (some r) w h =
      Ends-any HoldsIn (attempt (resolve net r.relay_endpoint) w) _
        (λ ep w1. move_to-Holds noise std net dev P keep d r.site_id ep h)

  on_unrelay-Ends :
      (dp : Planes noise std net dev) (o : Option PeerUnrelay) (w : World)
      → HoldsIn dp
      → Ends HoldsIn (on_unrelay noise std net dev dp o w)
  unfolding on_unrelay
  on_unrelay-Ends none o w h = tt
  on_unrelay-Ends (some d) none w h = h
  on_unrelay-Ends (some d) (some r) w h =
      Ends-any HoldsIn (attempt (resolve net r.endpoint) w) _
        (λ ep w1. move_to-Holds noise std net dev P keep d r.site_id ep h)

  on_data_add-Ends :
      (dp : Planes noise std net dev) (o : Option PeerData) (w : World)
      → HoldsIn dp
      → Ends HoldsIn (on_data_add noise std net dev dp o w)
  unfolding on_data_add Calls.step
  on_data_add-Ends none o w h = tt
  on_data_add-Ends (some d) none w h = h
  on_data_add-Ends (some d) (some r) w h =
      let cidrs = parse_cidrs std r.remote_subnets in
      let grown : Here noise std net dev P keep = record d {
        router = Router.add_cidrs d.router r.site_id cidrs;
      } in
      Ends-after
        (λ (x : Here noise std net dev P keep × Result (Unit {0})).
          Holds noise std net dev P keep x.0)
        HoldsIn (routes_added noise std net dev cidrs grown w) (λ x. do lift x.1; pure (some x.0))
        (routes_added-Ends noise std net dev P keep cidrs grown w
          (keep d.router (Call.adds_cidrs r.site_id cidrs) h))
        (λ x w1 h1. Ends-any HoldsIn (x.1, w1) (λ u. pure (some x.0)) (λ u w2. h1))

  on_remove-Holds :
      (dp : Planes noise std net dev) (o : Option PeerRemove)
      → HoldsIn dp
      → HoldsIn (on_remove noise std net dev dp o)
  unfolding on_remove Calls.step
  on_remove-Holds none o h = tt
  on_remove-Holds (some d) none h = h
  on_remove-Holds (some d) (some r) h = keep d.router (Call.removes r.site_id) h

  on_data_remove-Holds :
      (dp : Planes noise std net dev) (o : Option PeerData)
      → HoldsIn dp
      → HoldsIn (on_data_remove noise std net dev dp o)
  unfolding on_data_remove Calls.step
  on_data_remove-Holds none o h = tt
  on_data_remove-Holds (some d) none h = h
  on_data_remove-Holds (some d) (some r) h =
      keep d.router (Call.removes_cidrs r.site_id (parse_cidrs std r.remote_subnets)) h

  module _ (serde : Serde V) (cfg : ClientRun) (keys : Keys StaticSecret) where
    dispatch-Ends :
        (arm : Arm) (v : V) (dp : Planes noise std net dev) (w : World)
        → P (Router.new keys.secret cfg.mtu)
        → HoldsIn dp
        → Ends HoldsNext (dispatch noise std net dev serde cfg keys arm v dp w)
    unfolding dispatch
    dispatch-Ends connects v dp w start h = on_connect-Ends cfg keys (serde.wg_data v) w start
    dispatch-Ends upserts v dp w start h =
        going-Ends (on_upsert noise std net dev dp (serde.site_config v) w)
          (on_upsert-Ends dp (serde.site_config v) w h)
    dispatch-Ends removes v dp w start h = on_remove-Holds dp (serde.peer_remove v) h
    dispatch-Ends relays v dp w start h =
        going-Ends (on_relay noise std net dev dp (serde.peer_relay v) w)
          (on_relay-Ends dp (serde.peer_relay v) w h)
    dispatch-Ends unrelays v dp w start h =
        going-Ends (on_unrelay noise std net dev dp (serde.peer_unrelay v) w)
          (on_unrelay-Ends dp (serde.peer_unrelay v) w h)
    dispatch-Ends adds_data v dp w start h =
        going-Ends (on_data_add noise std net dev dp (serde.peer_data v) w)
          (on_data_add-Ends dp (serde.peer_data v) w h)
    dispatch-Ends removes_data v dp w start h = on_data_remove-Holds dp (serde.peer_data v) h
    dispatch-Ends syncs v dp w start h =
        going-Ends (on_sync noise std net dev dp (serde.sync_data v) w)
          (on_sync-Ends dp (serde.sync_data v) w h)
    dispatch-Ends errors v dp w start h = h
    dispatch-Ends terminates v dp w start h = h
    dispatch-Ends ignores v dp w start h = h

    pub handle_message-Ends :
        (msg : WsMessage V) (dp : Planes noise std net dev) (w : World)
        → P (Router.new keys.secret cfg.mtu)
        → HoldsIn dp
        → Ends (λ x. HoldsIn x.0) (handle_message noise std net dev serde cfg keys msg dp w)
    unfolding handle_message
    handle_message-Ends msg dp w start h = dispatch-Ends (arm_of msg.typ) msg.payload dp w start h
