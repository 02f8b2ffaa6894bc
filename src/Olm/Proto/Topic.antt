-- ===== src/Olm/Proto/Topic.antt =====
-- The topics of the client's control channel (the module `topic` of crates/newt/src/olm/proto.rs), and
-- the arms of the `match` over them in `handle_message` (crates/newt/src/olm/mod.rs).
use newt_rust.Common.{Text, codes, text_eq, if◌then◌else◌}

abbrev pub register : Text
register = codes "olm/wg/register"

abbrev pub ping : Text
ping = codes "olm/ping"

abbrev pub connect : Text
connect = codes "olm/wg/connect"

abbrev pub error : Text
error = codes "olm/error"

abbrev pub terminate : Text
terminate = codes "olm/terminate"

abbrev pub peer_add : Text
peer_add = codes "olm/wg/peer/add"

abbrev pub peer_remove : Text
peer_remove = codes "olm/wg/peer/remove"

abbrev pub peer_update : Text
peer_update = codes "olm/wg/peer/update"

abbrev pub peer_relay : Text
peer_relay = codes "olm/wg/peer/relay"

abbrev pub peer_unrelay : Text
peer_unrelay = codes "olm/wg/peer/unrelay"

abbrev pub peer_data_add : Text
peer_data_add = codes "olm/wg/peer/data/add"

abbrev pub peer_data_remove : Text
peer_data_remove = codes "olm/wg/peer/data/remove"

-- declared, and in no arm
abbrev pub peer_data_update : Text
peer_data_update = codes "olm/wg/peer/data/update"

abbrev pub sync : Text
sync = codes "olm/sync"

-- The arms of the match; `upserts` is that of both PEER_ADD and PEER_UPDATE.
pub data Arm : Type 0 where
  connects : Arm
  upserts : Arm
  removes : Arm
  relays : Arm
  unrelays : Arm
  adds_data : Arm
  removes_data : Arm
  syncs : Arm
  errors : Arm
  terminates : Arm
  ignores : Arm

unfoldable pub arm_of : Text → Arm
unfolding text_eq
arm_of t =
    if text_eq t connect
    then connects
    else if text_eq t peer_add
    then upserts
    else if text_eq t peer_update
    then upserts
    else if text_eq t peer_remove
    then removes
    else if text_eq t peer_relay
    then relays
    else if text_eq t peer_unrelay
    then unrelays
    else if text_eq t peer_data_add
    then adds_data
    else if text_eq t peer_data_remove
    then removes_data
    else if text_eq t sync
    then syncs
    else if text_eq t error
    then errors
    else if text_eq t terminate
    then terminates
    else ignores
