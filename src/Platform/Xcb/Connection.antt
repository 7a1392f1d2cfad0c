-- ===== src/Platform/Xcb/Connection.antt =====
-- src/platform/xcb_connection.cpp: errors of an XCB connection. What `xcb_flush` and
-- `xcb_connection_has_error` return are parameters.
use mksync.Prelude.{Bool, true, false, Option, none, some, Result, ok, err, if◌then◌else◌}

-- The constants `XCB_CONN_…` of xcb.h, and any other number but 0.
pub data ConnectionStatus : Type 0 where
  error closed_ext_notsupported closed_mem_insufficient closed_req_len_exceed closed_parse_err
        closed_invalid_screen closed_fdpassing_failed unknown :
      ConnectionStatus

-- The values of `std::errc` that the X11 backend uses.
pub data Errc : Type 0 where
  connection_refused protocol_not_supported not_enough_memory message_size invalid_argument
        no_such_device io_error not_connected device_or_resource_busy operation_not_supported :
      Errc

unfoldable pub connection_error : ConnectionStatus → Errc
connection_error error = connection_refused
connection_error closed_ext_notsupported = protocol_not_supported
connection_error closed_mem_insufficient = not_enough_memory
connection_error closed_req_len_exceed = message_size
connection_error closed_parse_err = invalid_argument
connection_error closed_invalid_screen = no_such_device
connection_error closed_fdpassing_failed = io_error
connection_error unknown = io_error

-- `none` is no error.
unfoldable pub check : Bool → Result Errc (Unit {0})
check accepted = if accepted then ok tt else err io_error

unfoldable pub flush : Bool → Option ConnectionStatus → Result Errc (Unit {0})
unfolding connection_error
flush true status = ok tt
flush false none = err io_error
flush false (some status) = err (connection_error status)

-- `connect`: whether there is an object, and its status.
unfoldable pub connect : Bool → Option ConnectionStatus → Result Errc (Unit {0})
unfolding connection_error
connect false status = err not_enough_memory
connect true none = ok tt
connect true (some status) = err (connection_error status)
