-- ===== src/Tests/Loops.antt =====
-- The session loop of a site on concrete input.
use newt_rust.Common.{
  List, [], ◌∷◌, ◌++◌, none, some, Text, codes, false, true, Bool, ◌≡◌, refl, arith, any, replicate,
  text_eq, text_eq_refl,
}
use newt_rust.Common.Results.{ok}
use newt_rust.Common.Io.{Ends, EndsWith, after}
use newt_rust.Core.Sm
use newt_rust.Core.Topic
use newt_rust.Config.Model.{SiteRun}
use newt_rust.Tunnel.Session
use newt_rust.Tunnel.Session.{Site, Input, received, tick_due, plane_ready}
use newt_rust.Tunnel.Session.Agrees.{AgreesAt, session-Agrees}
use newt_rust.Tunnel.Session.Monitor.{Monitor}
use newt_rust.Tunnel.Session.Beats.{SeenAt, turns-Seen}
use newt_rust.Tests.Instances.{printed}
use newt_rust.Tests.Session.{nodes, wg}
use newt_rust.Tests.World.{reading, keys}

-- A data plane that is the list of its targets; the world is what was sent.
abbrev listed : Site printed (Unit {0})
listed = record {
  World = List Text;
  DataPlane = List Text;
  ws_send = λ m w. (ok tt, w ++ m.typ ∷ []);
  bring_up = λ data' cfg keys token w. (ok data'.targets.tcp, w);
  add_targets = λ specs d. d ++ specs;
  remove_targets = λ specs d. [];
  reconcile_targets = λ specs d. specs;
  send_ping = λ d w. (ok d, w);
  send_holepunch = λ d w. (ok tt, w);
  step_io = λ d w. (ok d, w);
  exit_node_data = λ v. some nodes;
  wg_data = λ v. some wg;
}

abbrev pub cfg : SiteRun
cfg = record {
  endpoint = codes "https://pangolin.example";
  id = codes "site";
  secret = codes "s";
  mtu = 1280;
  skip_tls_verify = false;
  udp_idle_timeout = 90;
}

abbrev message : Text → Input Text
message topic =
    received (ok (some (record { typ = topic; payload = codes "x"; config_version = none })))

-- The exit nodes, the tunnel, a target, the turn of the data plane, and a reconnection.
abbrev inputs : List (Input Text)
inputs =
    message Topic.ping_exit_nodes
    ∷ message Topic.wg_connect
    ∷ message Topic.tcp_add
    ∷ plane_ready
    ∷ tick_due
    ∷ message Topic.wg_reconnect
    ∷ []

session-Agrees_example : Ends (AgreesAt printed reading listed cfg keys (codes "t")) (
    after
      (Session.opened printed reading listed cfg keys
        (codes "t")
        (Sm.new (codes "k") (codes "1.0") false)
        [])
      (λ s. Session.turns printed reading listed cfg keys (codes "t") (Session.continues s) inputs))
session-Agrees_example =
    session-Agrees printed reading listed cfg keys (codes "t") (codes "k") (codes "1.0") false
      inputs []

abbrev beat : Text → Bool
beat typ = text_eq typ Topic.ping

any-push : (t : Text) (w : List Text) → beat t ≡ true → any beat (w ++ t ∷ []) ≡ true
any-push t [] h = rw h refl
any-push t (x ∷ w) h = ground (arith, any-push t w h)

any-kept : (t : Text) (w : List Text) → any beat w ≡ true → any beat (w ++ t ∷ []) ≡ true
any-kept t [] h = cc
any-kept t (x ∷ w) h = ground (arith, any-kept t w)

is_ping : beat Topic.ping ≡ true
is_ping = text_eq_refl Topic.ping

abbrev watching : Monitor printed reading listed cfg keys (codes "t")
unfolding Session.ping_msg
watching = record {
  Seen = λ w. any beat w ≡ true;
  ping_seen = λ v w. any-push Topic.ping w is_ping;
  send_keeps = λ m w h. any-kept m.typ w h;
  bring_up_keeps = λ wg w h. h;
  ping_keeps = λ d w h. h;
  punch_keeps = λ d w h. h;
  step_keeps = λ d w h. h;
}

abbrev fresh : Session.State printed reading listed cfg keys (codes "t")
fresh = record {
  plane = none;
  sm = Sm.new (codes "k") (codes "1.0") false;
  config_version = none;
  ping_ticks = 3;
}

abbrev ten_ticks : List (Input Text)
ten_ticks = message Topic.tcp_add ∷ replicate 10 tick_due

turns-Seen_example : EndsWith (SeenAt printed reading listed cfg keys (codes "t") watching) (
    Session.turns printed reading listed cfg keys
      (codes "t")
      (Session.continues fresh)
      ten_ticks
      [])
turns-Seen_example =
    turns-Seen printed reading listed cfg keys (codes "t") watching fresh ten_ticks [] (omega arith)
      (omega arith)
