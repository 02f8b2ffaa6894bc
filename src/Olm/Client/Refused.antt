-- ===== src/Olm/Client/Refused.antt =====
-- Messages without a data plane, and a connect that fails.
use newt_rust.Common.{Bool, true, false, Option, none, some, ◌≡◌, ◌≢◌, refl, get_or, codes}
use newt_rust.Common.Results.{ok, err}
use newt_rust.Core.Proto.{WsMessage}
use newt_rust.Config.Parse.{split}
use newt_rust.Config.Model.{ClientRun}
use newt_rust.Wg.{Noise, Keys}
use newt_rust.Olm.Cidr.{IpParser}
use newt_rust.Olm.Proto.{WgData, Serde}
use newt_rust.Olm.Proto.Topic.{
  Arm, connects, upserts, removes, relays, unrelays, adds_data, removes_data, syncs, errors,
  terminates, ignores, arm_of,
}
use newt_rust.Olm.Plane.{Network, Device, build_dataplane, tunnel_addr}
use newt_rust.Olm.Client.{Planes, dispatch, handle_message, on_connect}

-- Does the arm end the session?
abbrev pub is_end : Arm → Bool
is_end terminates = true
is_end _ = false

module _ {V : Type 0} (noise : Noise) (std : IpParser) (net : Network V) (dev : Device net.World)
    (serde : Serde V) (cfg : ClientRun) (keys : Keys noise.StaticSecret) where
  dispatch-none :
      (arm : Arm) (v : V) (w : net.World)
      → arm ≢ connects
      → dispatch noise std net dev serde cfg keys arm v none w ≡ (ok (none, is_end arm), w)
  unfolding dispatch
  dispatch-none connects v w h = absurd (h refl)
  dispatch-none upserts v w h = refl
  dispatch-none removes v w h = refl
  dispatch-none relays v w h = refl
  dispatch-none unrelays v w h = refl
  dispatch-none adds_data v w h = refl
  dispatch-none removes_data v w h = refl
  dispatch-none syncs v w h = refl
  dispatch-none errors v w h = refl
  dispatch-none terminates v w h = refl
  dispatch-none ignores v w h = refl

  -- Before the client is connected, a message of any topic but the connect leaves the client without a
  -- data plane and resolves, sends and opens nothing; it ends the session exactly when its topic is
  -- the termination.
  pub handle_message-none :
      (msg : WsMessage V) (w : net.World)
      → arm_of msg.typ ≢ connects
      → handle_message noise std net dev serde cfg keys msg none w
        ≡ (ok (none, is_end (arm_of msg.typ)), w)
  unfolding handle_message
  handle_message-none msg w h = dispatch-none (arm_of msg.typ) msg.payload w h

  refused-on_connect :
      (wg : WgData) (o : Option WgData) (w : net.World)
      → o ≡ some wg
      → std.parse_ip (get_or (split b'/' wg.tunnel_ip) 0 wg.tunnel_ip) ≡ none
      → on_connect noise std net dev cfg keys o w ≡ (err (codes "bad olm tunnelIP"), w)
  unfolding on_connect build_dataplane tunnel_addr
  refused-on_connect wg o w given bad = rw given (rw bad refl)

  -- A connect whose tunnel address, in front of a slash, is no address fails with this error, whatever
  -- was connected before, and resolves, sends and opens nothing.
  pub handle_message-bad_tunnel_ip :
      (msg : WsMessage V) (wg : WgData) (dp : Planes noise std net dev) (w : net.World)
      → arm_of msg.typ ≡ connects
      → serde.wg_data msg.payload ≡ some wg
      → std.parse_ip (get_or (split b'/' wg.tunnel_ip) 0 wg.tunnel_ip) ≡ none
      → handle_message noise std net dev serde cfg keys msg dp w
        ≡ (err (codes "bad olm tunnelIP"), w)
  unfolding handle_message dispatch
  handle_message-bad_tunnel_ip msg wg dp w topic given bad =
      rw topic (refused-on_connect wg (serde.wg_data msg.payload) w given bad)
