-- ===== src/Platform/Backend/Probe.antt =====
-- src/platform/backend.cpp, checkBackends and probeBackend, and the check of the X11 backend in
-- src/platform/xcb.cpp. An `err` holds the text of an exception, or the message of an error code.
use mksync.Prelude.{
  ℕ, ◌==◌, ◌≡◌, refl, Bool, true, false, not, ◌&&◌, ◌||◌, String, List, [], ◌∷◌, Option, none, some,
  Result, ok, err, if◌then◌else◌, arith, Result-cases, inl, inr,
}
use mksync.Platform.Backend.{
  BackendFeatureCheck, BackendCheck, BackendDescriptor, unavailable_check, supports,
  has_requirement, screens_flag, capture_flag, injection_flag, registered_backends, check_backend,
}

pub record CheckedBackend (Platform : Type 0) : Type 0 where
  pub descriptor : BackendDescriptor Platform
  pub check : BackendCheck

module _ {Platform : Type 0} where
  unfoldable pub check_all :
      (String → BackendCheck) → List (BackendDescriptor Platform) → List (CheckedBackend Platform)
  check_all check [] = []
  check_all check (d ∷ rest) =
      record { descriptor = d; check = check d.name } ∷ check_all check rest

  unfoldable pub check_backends :
      (String → String) → List (BackendDescriptor Platform) → List (CheckedBackend Platform)
  unfolding check_all registered_backends check_backend
  check_backends unknown registry =
      check_all (check_backend unknown registry) (registered_backends registry)

-- How the capture or the injector answers: `create…` throws, or tells whether there is an interface;
-- `initialize` throws, or gives an error's message or success; `shutdown` throws or not.
pub record Interface : Type 0 where
  pub creates : Result String Bool
  pub initializes : Result String (Result String (Unit {0}))
  pub shuts_down : Result String (Unit {0})

-- What a created platform answers: `screens` throws or gives so many screens.
pub record Created : Type 0 where
  pub screens : Result String ℕ
  pub capture : Interface
  pub injector : Interface

-- The texts of the source; `count` is "{} output(s)".
pub record Texts : Type 0 where
  pub not_created : String
  pub is_available : String
  pub no_outputs : String
  pub count : ℕ → String
  pub no_capture : String
  pub capture_succeeded : String
  pub no_injection : String
  pub injection_succeeded : String

abbrev no_feature : BackendFeatureCheck
no_feature = record { supported = false; detail = "" }

unfoldable pub probe_screens : Texts → Result String ℕ → BackendFeatureCheck
probe_screens t (err what) = record no_feature { detail = what }
probe_screens t (ok n) = record {
  supported = not (n == 0);
  detail = if n == 0 then t.no_outputs else t.count n;
}

-- The exception of `shutdown` replaces the text only.
abbrev after_shutdown : Result String (Unit {0}) → BackendFeatureCheck → BackendFeatureCheck
after_shutdown (ok u) f = f
after_shutdown (err what) f = record f { detail = what }

abbrev initialized : String → Result String (Unit {0}) → BackendFeatureCheck
initialized succeeded (ok u) = record { supported = true; detail = succeeded }
initialized succeeded (err message) = record { supported = false; detail = message }

-- The block of `probeBackend` for the capture, and the one for the injector, with their texts.
unfoldable pub probe_interface : String → String → Interface → BackendFeatureCheck
probe_interface missing succeeded i = elim i.creates [
  | err what ↦ record no_feature { detail = what }
  | ok exists ↦ if not exists then record no_feature { detail = missing } else elim i.initializes [
    | err what ↦ record no_feature { detail = what }
    | ok result ↦ after_shutdown i.shuts_down (initialized succeeded result)
  ]
]

-- `create` throws, or gives null or a platform.
unfoldable pub probe_backend : Texts → Result String (Option Created) → BackendCheck
unfolding probe_screens probe_interface
probe_backend t (err what) = unavailable_check what
probe_backend t (ok none) = unavailable_check t.not_created
probe_backend t (ok (some p)) = record {
  available = true;
  detail = t.is_available;
  screens = probe_screens t p.screens;
  capture = probe_interface t.no_capture t.capture_succeeded p.capture;
  injection = probe_interface t.no_injection t.injection_succeeded p.injector;
}

abbrev unsupported : String → BackendFeatureCheck
unsupported detail = record { supported = false; detail = detail }

abbrev in_wayland_session : BackendCheck
in_wayland_session = record {
  available = false;
  detail = "Wayland session detected; XWayland is not a system-wide input backend";
  screens = unsupported "X11 output discovery is not used in a Wayland session";
  capture = unsupported "XWayland cannot capture native Wayland input";
  injection = unsupported "XWayland cannot inject into native Wayland windows";
}

-- `checkX11Backend`, from what the environment says.
unfoldable pub check_x11_backend :
    Bool → Bool → Texts → Result String (Option Created) → BackendCheck
unfolding probe_backend
check_x11_backend is_wayland_session has_wayland_display t created =
    if is_wayland_session || has_wayland_display
    then in_wayland_session
    else probe_backend t created

-- Whether the capture or the injector works.
abbrev pub works : Interface → Bool
works i = elim i.creates [
  | err what ↦ false
  | ok exists ↦ exists && elim i.initializes [
    | err what ↦ false
    | ok result ↦ elim result [ ok u ↦ true | err message ↦ false ]
  ]
]

-- What a requirement asks of a platform.
abbrev pub meets : ℕ → Created → Bool
meets requirements p =
    (not (has_requirement requirements screens_flag)
      || elim p.screens [ err what ↦ false | ok n ↦ not (n == 0) ])
    && ((not (has_requirement requirements capture_flag) || works p.capture)
        && (not (has_requirement requirements injection_flag) || works p.injector))

probe_interface-works :
    (missing succeeded : String) (i : Interface)
    → (probe_interface missing succeeded i).supported ≡ works i
unfolding probe_interface
probe_interface-works missing succeeded i = elim (Result-cases i.creates) [
  | inr (what, c) ↦ rw c refl
  | inl (true, c) ↦ elim (Result-cases i.initializes) [
    | inr (what, n) ↦ rw (c, n) refl
    | inl (ok u, n) ↦ elim (Result-cases i.shuts_down) [
      | inl (v, d) ↦ rw (c, n, d) refl
      | inr (what, d) ↦ rw (c, n, d) refl
    ]
    | inl (err m, n) ↦ elim (Result-cases i.shuts_down) [
      | inl (v, d) ↦ rw (c, n, d) refl
      | inr (what, d) ↦ rw (c, n, d) refl
    ]
  ]
  | inl (false, c) ↦ rw c refl
]

probe_screens_some :
    (t : Texts) (r : Result String ℕ)
    → (probe_screens t r).supported ≡ elim r [ err what ↦ false | ok n ↦ not (n == 0) ]
unfolding probe_screens
probe_screens_some t (ok n) = refl
probe_screens_some t (err what) = refl

-- The probe of a platform supports a requirement exactly if the platform can be created, reports a
-- screen if screens are asked for, and its capture and its injector can be created and initialized
-- if they are asked for; exceptions count as failures, except one of a shutdown.
pub supports-probe_backend :
    (t : Texts) (created : Result String (Option Created)) (requirements : ℕ)
    → supports (probe_backend t created) requirements ≡ elim created [
      | err what ↦ false
      | ok platform ↦ elim platform [ none ↦ false | some p ↦ meets requirements p ]
    ]
unfolding supports probe_backend
supports-probe_backend t (err what) requirements = refl
supports-probe_backend t (ok none) requirements = refl
supports-probe_backend t (ok (some p)) requirements =
    rw
      (
        probe_interface-works t.no_capture t.capture_succeeded p.capture,
        probe_interface-works t.no_injection t.injection_succeeded p.injector,
        probe_screens_some t p.screens,
      )
      (guards (has_requirement requirements screens_flag)
        (has_requirement requirements capture_flag) (has_requirement requirements injection_flag)
        (elim p.screens [ err what ↦ false | ok n ↦ not (n == 0) ]) (works p.capture)
        (works p.injector))
  where
    guards :
        (s c i a b d : Bool)
        → (if s && not a
            then false
            else if c && not b
            then false
            else if i && not d
            then false
            else true)
          ≡ ((not s || a) && ((not c || b) && (not i || d)))
    guards s c i a b d = ground arith
