-- ===== src/Platform/Portal/Errors.antt =====
-- src/platform/wayland_portal.cpp: the errors of the portal.
use mksync.Prelude.{ℕ, Option, none, some}

-- The values of `std::errc` that the backend uses, and an error number of libei.
pub data Errc : Type 0 where
  operation_canceled permission_denied operation_not_supported io_error not_enough_memory : Errc
  not_connected invalid_argument connection_refused connection_reset : Errc
  generic : ℕ → Errc

-- A `GError`, by its domain and code.
pub data GError : Type 0 where
  io_cancelled io_permission_denied dbus_access_denied dbus_auth_failed : GError
  io_not_supported dbus_unknown_method dbus_unknown_interface other_error : GError

unfoldable pub portal_error : Option GError → Errc
portal_error none = io_error
portal_error (some io_cancelled) = operation_canceled
portal_error (some io_permission_denied) = permission_denied
portal_error (some dbus_access_denied) = permission_denied
portal_error (some dbus_auth_failed) = permission_denied
portal_error (some io_not_supported) = operation_not_supported
portal_error (some dbus_unknown_method) = operation_not_supported
portal_error (some dbus_unknown_interface) = operation_not_supported
portal_error (some other_error) = io_error
