-- ===== src/Tests/Platform.antt =====
-- The probe of a backend.
use mksync.Prelude.{◌≡◌, true, some, ok, err}
use mksync.Platform.Backend.Probe.{Texts, Created, probe_backend, meets, supports-probe_backend}
use mksync.Platform.Backend.{supports, capture_flag}

abbrev texts : Texts
texts = record {
  not_created = "Test could not be created";
  is_available = "Test is available";
  no_outputs = "No outputs were reported";
  count = λ n. "some outputs";
  no_capture = "Capture interface is not provided";
  capture_succeeded = "Capture initialization succeeded";
  no_injection = "Injection interface is not provided";
  injection_succeeded = "Injection initialization succeeded";
}

-- A platform with a screen and an injector, whose capture throws at its shutdown.
abbrev probed : Created
probed = record {
  screens = ok 1;
  capture = record { creates = ok true; initializes = ok (ok tt); shuts_down = err "closed" };
  injector = record { creates = ok true; initializes = ok (ok tt); shuts_down = ok tt };
}

supports-probe_backend_example :
    supports (probe_backend texts (ok (some probed))) capture_flag ≡ meets capture_flag probed
supports-probe_backend_example = supports-probe_backend texts (ok (some probed)) capture_flag
