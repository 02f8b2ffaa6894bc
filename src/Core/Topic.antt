-- ===== src/Core/Topic.antt =====
-- The topics of a site's control channel (the module `topic` of crates/newt-core/src/proto.rs).
use newt_rust.Common.{Text, codes}

abbrev pub ping_request : Text
ping_request = codes "newt/ping/request"

abbrev pub ping_exit_nodes : Text
ping_exit_nodes = codes "newt/ping/exitNodes"

abbrev pub ping : Text
ping = codes "newt/ping"

abbrev pub wg_register : Text
wg_register = codes "newt/wg/register"

abbrev pub wg_connect : Text
wg_connect = codes "newt/wg/connect"

abbrev pub wg_reconnect : Text
wg_reconnect = codes "newt/wg/reconnect"

abbrev pub wg_terminate : Text
wg_terminate = codes "newt/wg/terminate"

abbrev pub tcp_add : Text
tcp_add = codes "newt/tcp/add"

abbrev pub tcp_remove : Text
tcp_remove = codes "newt/tcp/remove"

abbrev pub sync : Text
sync = codes "newt/sync"
