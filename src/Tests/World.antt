-- ===== src/Tests/World.antt =====
-- A world of a client that records what is sent, for the theorems at concrete inputs.
use newt_rust.Common.{ℕ, false, List, [], ◌∷◌, ◌++◌, none, some, Text, codes, replicate}
use newt_rust.Common.Results.{ok, err}
use newt_rust.Common.Int.{pos}
use newt_rust.Common.Net.{Bytes}
use newt_rust.Common.Json.{Reader}
use newt_rust.Config.Model.{ClientRun}
use newt_rust.Config.Parse.{userspace}
use newt_rust.Wg.{Keys}
use newt_rust.Holepunch.{Crypto}
use newt_rust.Olm.Plane.{Network, Device}
use newt_rust.Olm.Proto.{Serde, SiteConfig}
use newt_rust.Tests.Routing.{office, key}

-- Every name has the address of the office. The world is what was sent.
abbrev pub lan : Network Text
lan = record {
  World = List Bytes;
  lookup_host = λ host w. (ok (office ∷ []), w);
  lookup_port = λ host port w. (ok (office ∷ []), w);
  send_to = λ b e w. (ok tt, w ++ b ∷ []);
  ws_send = λ m w. (ok tt, w ++ m.typ ∷ []);
}

-- A host without packets, whose routes are never added.
abbrev pub idle : Device (List Bytes)
idle = record {
  Backend = Unit;
  new = λ cfg ip w. (ok tt, w);
  drive = λ b w. (ok (b, []), w);
  deliver_inbound = λ b p w. (ok b, w);
  add_routes = λ b cidrs w. ((b, err (codes "no route")), w);
}

abbrev pub branch : SiteConfig
branch = record {
  site_id = pos 3;
  name = codes "branch";
  endpoint = codes "branch.example:51820";
  relay_endpoint = [];
  public_key = key;
  server_ip = [];
  server_port = 0;
  remote_subnets = codes "10.0.0.0/8" ∷ [];
  allowed_ips = [];
}

-- Every payload decodes, to the first site or to the branch.
abbrev pub decoding : Serde Text
decoding = record {
  wg_data = λ v. some (record { sites = branch ∷ []; tunnel_ip = v; utility_subnet = [] });
  site_config = λ v. some branch;
  peer_remove = λ v. some (record { site_id = pos 1 });
  peer_relay = λ v. some (record { site_id = pos 1; relay_endpoint = v });
  peer_unrelay = λ v. some (record { site_id = pos 1; endpoint = v });
  peer_data = λ v. some (record { site_id = pos 1; remote_subnets = v ∷ [] });
  sync_data = λ v. some (record { sites = branch ∷ [] });
}

abbrev pub cfg : ClientRun
cfg = record {
  endpoint = codes "https://pangolin.example";
  id = codes "olm";
  secret = codes "s";
  user_token = [];
  org_id = [];
  mtu = 1280;
  skip_tls_verify = false;
  access = userspace;
  interface = codes "olm";
  forwards = [];
  socks_port = none;
}

abbrev pub keys : Keys (Unit {0})
keys = record { secret = tt; public_b64 = codes "k" }

-- A cipher that hides nothing, and a generator of zeros.
abbrev pub open_cipher : Crypto (List Bytes) Text
open_cipher = record {
  Secret = ℕ;
  decode64 = λ s. some s;
  encode64 = λ b. b;
  random_secret = λ w. (7, w);
  fill_bytes = λ n w. (replicate n 0, w);
  public_key = λ s. replicate 32 s;
  diffie_hellman = λ s p. [];
  encrypt = λ k n text. some text;
  print = λ v. v;
  as_bytes = λ t. t;
}

-- A response of one text at every key.
abbrev pub reading : Reader Text
reading = record {
  index = λ v k. v;
  get = λ v k. some v;
  as_str = λ v. some v;
  as_u64 = λ v. some 0;
  as_array = λ v. some (v ∷ []);
}
