-- ===== src/Tests/Clients.antt =====
-- The session of a client at concrete messages.
use newt_rust.Common.{
  ◌≡◌, refl, sym, List, [], ◌∷◌, Option, none, some, Text, codes, replicate, trim,
}
use newt_rust.Common.Results.{ok, err}
use newt_rust.Common.Io.{Ends, after}
use newt_rust.Common.Int.{pos}
use newt_rust.Common.Net.{Bytes, IpAddr, IsAddr}
use newt_rust.Core.Proto.{WsMessage}
use newt_rust.Wg
use newt_rust.Olm.Cidr
use newt_rust.Olm.Cidr.{IpParser}
use newt_rust.Holepunch
use newt_rust.Holepunch.{server_key, plaintext, build}
use newt_rust.Holepunch.Opens.{Says, ExitNode, Opened, build-Opened}
use newt_rust.Olm.Plane.{Plane, parse_cidrs}
use newt_rust.Olm.Proto.Topic
use newt_rust.Olm.Proto.Topic.{Arm, arm_of}
use newt_rust.Olm.Router.{remove_peer, upsert_peer}
use newt_rust.Olm.Client.{handle_message}
use newt_rust.Olm.Client.Refused.{handle_message-bad_tunnel_ip}
use newt_rust.Olm.Client.Session
use newt_rust.Olm.Client.Session.{Input, received, tick_due, host_ready, Setting}
use newt_rust.Olm.Client.Session.Invariant.{ApartAt, session-IsApart}
use newt_rust.Tests.Instances.{printed, clear, tens}
use newt_rust.Tests.Routing.{router, office}
use newt_rust.Tests.World.{lan, idle, branch, decoding, cfg, keys, open_cipher, reading}

abbrev plane : Plane clear tens lan idle
plane = record { router = router; backend = tt }

abbrev message : Text → Text → WsMessage Text
message topic payload = record { typ = topic; payload = payload; config_version = none }

abbrev smaller : Plane clear tens lan idle
smaller = record { router = remove_peer router (pos 1); backend = tt }

-- The first two sites stay beside the branch that a sync lists.
abbrev synced : Plane clear tens lan idle
synced = record {
  router =
      (upsert_peer clear router (pos 3) branch.public_key office
        (parse_cidrs tens branch.remote_subnets)).0;
  backend = tt;
}

is_terminate : arm_of Topic.terminate ≡ Arm.terminates
unfolding arm_of
is_terminate = refl

-- A parser that reads no address.
no_address : (s : Text) (ip : IpAddr) → ◌≡◌ {A = Option IpAddr} none (some ip) → IsAddr ip
no_address s ip h = cc

abbrev strict : IpParser
strict = record { parse_ip = λ s. none; parse_ip-IsAddr = no_address }

is_connect : arm_of Topic.connect ≡ Arm.connects
unfolding arm_of
is_connect = refl

handle_message-bad_tunnel_ip_example :
    handle_message clear strict lan idle decoding cfg keys
      (message Topic.connect (codes "?/32"))
      none
      []
    ≡ (err (codes "bad olm tunnelIP"), [])
handle_message-bad_tunnel_ip_example =
    handle_message-bad_tunnel_ip clear strict lan idle decoding cfg keys
      (message Topic.connect (codes "?/32"))
      (record { sites = branch ∷ []; tunnel_ip = codes "?/32"; utility_subnet = [] }) none []
      is_connect refl refl

abbrev setting : Setting Text (Unit {0})
setting = record { cfg = cfg; keys = keys; version = codes "rust-1"; serde = decoding }

-- The set-up of the data plane, an update, a tick and the host's packets.
abbrev inputs : List (Input Text)
inputs =
    received (ok (some (message Topic.connect (codes "100.89.0.5/32"))))
    ∷ received (ok (some (message Topic.peer_update [])))
    ∷ tick_due
    ∷ host_ready
    ∷ []

session-IsApart_example : Ends (ApartAt printed clear tens lan idle open_cipher setting) (
    after
      (Session.opened printed clear tens lan idle open_cipher setting reading (codes "t") [])
      (λ s.
        Session.turns printed clear tens lan idle open_cipher setting (Session.continues s) inputs))
session-IsApart_example =
    session-IsApart printed clear tens lan idle open_cipher setting reading (codes "t") inputs []

-- An exit node with the secret 65.
abbrev node : ExitNode printed open_cipher
node = record {
  secret = 65;
  decrypt = λ k nonce c. some c;
  agreed = λ eph. refl;
  undone = λ k nonce text c e. sym e;
}

abbrev server_pub : Text
server_pub = replicate 32 65

abbrev built : Bytes
built =
    Holepunch.envelope printed open_cipher (replicate 32 7) (replicate 12 0)
      (plaintext printed open_cipher (codes "olmId") (codes "olm") (codes "t") (codes "k"))

builds :
    (build printed open_cipher
      (codes "olmId")
      (codes "olm")
      (codes "t")
      (codes "k")
      server_pub
      []).0
    ≡ some built
unfolding build trim
builds = refl

key_read : server_key printed open_cipher server_pub ≡ some (replicate 32 65)
unfolding trim
key_read = refl

build-Opened_example :
    (text : Bytes) × Says printed open_cipher text (
      (codes "olmId", codes "olm")
      ∷ (codes "token", codes "t")
      ∷ (codes "publicKey", codes "k")
      ∷ [])
    × Opened printed open_cipher node text built
build-Opened_example =
    build-Opened printed open_cipher node (codes "olmId") (codes "olm") (codes "t") (codes "k")
      server_pub [] built key_read builds
