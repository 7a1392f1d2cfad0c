-- ===== src/App/Session.antt =====
-- src/app/server_session.cpp: the handshake of one connected client, and its messages.
use mksync.Prelude.{String, List, Option, none, some, Result, ok, err, if◌then◌else◌, str_eq}
use mksync.Core.Events.{ScreenInfo}
use mksync.Config.AppConfig.{is_trusted_client}
use mksync.Rpc.Message.{RpcMessage, hello, screens, input, ping, pong, error, HelloMessage}
use mksync.Rpc.Transport.{RpcError, protocol_error}
use mksync.App.Screens.{Endpoint, ScreenStore, remember_owner}

-- `format` is `ownerIdFromEndpoint`, the printed endpoint.
abbrev pub owner_id_of : (Endpoint → String) → Endpoint → HelloMessage → String
owner_id_of format endpoint m = if str_eq m.machine_id "" then format endpoint else m.machine_id

-- The handshake on its first message, with the owner id of the session.
unfoldable pub handshake :
    (Endpoint → String) → ScreenStore → Endpoint → RpcMessage → ScreenStore × Result RpcError String
handshake format store endpoint (hello m) =
    let owner = owner_id_of format endpoint m in
    let store' = remember_owner store endpoint owner in
    if is_trusted_client store'.config m.machine_id m.name
    then (store', ok owner)
    else (store', err protocol_error)
handshake format store endpoint (screens s) = (store, err protocol_error)
handshake format store endpoint (input e) = (store, err protocol_error)
handshake format store endpoint (ping p) = (store, err protocol_error)
handshake format store endpoint (pong p) = (store, err protocol_error)
handshake format store endpoint (error t) = (store, err protocol_error)

-- What the read loop hands to `onScreens`.
abbrev pub reported_screens : RpcMessage → Option (List ScreenInfo)
reported_screens (screens s) = some s
reported_screens (hello m) = none
reported_screens (input e) = none
reported_screens (ping p) = none
reported_screens (pong p) = none
reported_screens (error t) = none
