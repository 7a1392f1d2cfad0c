-- ===== src/Platform/Portal/Probe.antt =====
-- src/platform/wayland_portal.cpp: the check of the portal's interfaces.
use Prim.Native.Nat.{bit_and, bit_or}
use mksync.Prelude.{
  ℕ, ◌==◌, leb, String, Bool, true, false, not, ◌&&◌, ◌||◌, Option, none, some, if◌then◌else◌,
  str_eq,
}
use mksync.Platform.Backend.{BackendFeatureCheck, BackendCheck}

pub record PortalInterfaceInfo : Type 0 where
  pub available : Bool
  pub version : ℕ
  pub capabilities : ℕ
  pub error : String

-- A D-Bus proxy: whether its name has an owner, and the two cached properties, if there are any.
pub record Proxy : Type 0 where
  pub has_owner : Bool
  pub version : Option ℕ
  pub capabilities : Option ℕ

abbrev or_zero : Option ℕ → ℕ
or_zero none = 0
or_zero (some n) = n

abbrev unavailable : Option String → PortalInterfaceInfo
unavailable error = record {
  available = false;
  version = 0;
  capabilities = 0;
  error = elim error [ none ↦ "Portal interface has no D-Bus owner" | some message ↦ message ];
}

-- The proxy, or none, and the message of the error, if there is one.
unfoldable pub portal_interface : Option Proxy → Option String → PortalInterfaceInfo
portal_interface none error = unavailable error
portal_interface (some p) error =
    if p.has_owner
    then record {
      available = true;
      version = or_zero p.version;
      capabilities = or_zero p.capabilities;
      error = "";
    }
    else unavailable error

-- The texts that the format library makes, of the two versions, the two errors, and a version.
pub record Texts : Type 0 where
  pub detected : ℕ → ℕ → String
  pub no_portal : String → String → String
  pub captures : ℕ → String
  pub injects : ℕ → String

-- XDP_INPUT_CAPABILITY_… and XDP_DEVICE_…
pub record Masks : Type 0 where
  pub capture_pointer : ℕ
  pub capture_keyboard : ℕ
  pub device_pointer : ℕ
  pub device_keyboard : ℕ

abbrev has_all : ℕ → ℕ → Bool
has_all capabilities mask = bit_and capabilities mask == mask

abbrev pub can_capture : Masks → PortalInterfaceInfo → Bool
can_capture m capture =
    capture.available && has_all capture.capabilities (bit_or m.capture_pointer m.capture_keyboard)

abbrev pub can_inject : Masks → PortalInterfaceInfo → Bool
can_inject m remote =
    remote.available
    && (leb 2 remote.version
        && has_all remote.capabilities (bit_or m.device_pointer m.device_keyboard))

abbrev feature : Bool → String → BackendFeatureCheck
feature supported detail = record { supported = supported; detail = detail }

abbrev no_session : BackendCheck
no_session = record {
  available = false;
  detail = "Not running in a Wayland session";
  screens = feature false "Wayland session unavailable";
  capture = feature false "Wayland session unavailable";
  injection = feature false "Wayland session unavailable";
}

-- The environment variables; `none` where one is not set.
abbrev is_wayland : Option String → Option String → Bool
is_wayland display session =
    elim display [ none ↦ false | some text ↦ not (str_eq text "") ]
    || elim session [ none ↦ false | some text ↦ str_eq text "wayland" ]

abbrev or_default : String → String → String
or_default error default = if str_eq error "" then default else error

unfoldable pub check_portal_backend :
    Texts
    → Masks
    → Option String
    → Option String
    → PortalInterfaceInfo
    → PortalInterfaceInfo
    → BackendCheck
check_portal_backend t m display session capture remote =
    let captures = can_capture m capture in
    let injects = can_inject m remote in
    let available = capture.available || remote.available in
    if not (is_wayland display session) then no_session else record {
      available = available;
      detail =
          if available
          then t.detected capture.version remote.version
          else t.no_portal capture.error remote.error;
      screens = feature (captures || injects) (
          if captures
          then "Outputs are provided by authorized InputCapture zones"
          else if injects
          then "Outputs are provided by authorized libei regions"
          else "No portal topology source is available");
      capture = feature captures (
          if captures
          then t.captures capture.version
          else or_default capture.error "InputCapture lacks pointer/keyboard capabilities");
      injection = feature injects (
          if injects
          then t.injects remote.version
          else or_default remote.error "RemoteDesktop v2/libei pointer and keyboard are required");
    }
