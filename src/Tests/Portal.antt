-- ===== src/Tests/Portal.antt =====
-- The portal backend on small inputs.
use mksync.Prelude.{
  ◌+◌, inl, ℕ, ◌≤◌, ◌≡◌, refl, ℤ, pos, ◌+ℤ◌, ◌-ℤ◌, ltb_ℤ, leb_ℤ, String, Bool, true, false, List,
  [], ◌∷◌, none, some, ok, err,
}
use mksync.Core.Events.{ScreenInfo, InputEvent, button_event, MouseButton}
use mksync.Core.Events
use mksync.Platform.Portal.Errors.{io_error}
use mksync.Platform.Portal.Points.{Doubles}
use mksync.Platform.Portal.Injector.{
  Capability, pointer_absolute, Device, EiEvent, device_added, device_resumed, device_paused,
  process_ei_event, device_removed, dispatch_ei, close_devices, new_injector, inject_one,
}
use mksync.Platform.Portal.Injector.Devices.{one_if, IsBalanced, refs, unrefs}
use mksync.Platform.Portal.Injector.Emulation.{emulates, marks, OnlyFirst, stops}
use mksync.Platform.Portal.Injector.Balance.{close_devices-IsBalanced}
use mksync.Platform.Portal.Injector.Starts.{Starts, AllOffered, polled, turned, wait_ready-Starts}
use mksync.Platform.Portal.Injector.Allowed.{Emulates, inject_one-Emulates}
use mksync.Platform.Portal.Injector.Session.{
  Session, Turn, Answers, initialize, wait_ready, started,
}
use mksync.Platform.Portal.Injector.Ended.{Ended, initialize-Ended}
use mksync.Platform.Portal.Capture.{Capture, new_capture, pointer_motion}
use mksync.Platform.Portal.Capture.Activation.{
  Call, activated, deactivated, moved_cursor, ei_event, run, activations, releases_of,
}
use mksync.Platform.Portal.Capture.Traces.{releases_of-run, Traced, reversed}
use mksync.Tests.Data.{desk_info}

-- One device that has every capability.
abbrev capable : ℕ → Capability → Bool
capable o c = true

abbrev appears : List EiEvent
appears = device_added 7 ∷ device_resumed 7 ∷ []

abbrev comes_and_goes : List EiEvent
comes_and_goes = device_added 7 ∷ device_resumed 7 ∷ device_added 8 ∷ device_removed 7 ∷ []

close_devices-IsBalanced_example :
    IsBalanced (dispatch_ei comes_and_goes new_injector)
    × OnlyFirst
        (emulates 8 comes_and_goes new_injector false)
        (marks 8 (dispatch_ei comes_and_goes new_injector).devices)
    × (stops 8 ((close_devices (dispatch_ei comes_and_goes new_injector)).log)
        ≡ stops 8 (dispatch_ei comes_and_goes new_injector).log
          + one_if (emulates 8 comes_and_goes new_injector false))
    × (refs 8 ((close_devices (dispatch_ei comes_and_goes new_injector)).log)
        ≡ unrefs 8 ((close_devices (dispatch_ei comes_and_goes new_injector)).log))
close_devices-IsBalanced_example = close_devices-IsBalanced comes_and_goes 8

-- A resumed device is asked to start, and one that is paused emulates no more.
told :
    (emulates 7 appears new_injector false ≡ true)
    × (emulates 7 (device_added 7 ∷ device_resumed 7 ∷ device_paused 7 ∷ []) new_injector false
        ≡ false)
unfolding process_ei_event
told = (refl, refl)

devices : List Device
devices = record { object = 7; resumed = true; emulating = true } ∷ []

code : String → ℕ
code name = 272

abbrev clicked : InputEvent
clicked =
    button_event
      (record { x = pos 5; y = pos 6; screen_index = 0; button = Events.left; release = false })

inject_one-Emulates_example :
    Emulates capable devices [] ((inject_one capable code (desk_info ∷ []) devices clicked []).0)
inject_one-Emulates_example = inject_one-Emulates capable code (desk_info ∷ []) devices clicked []

abbrev turn : Turn
turn = record { events = appears; polls = ok false }

abbrev quiet_turn : Turn
quiet_turn = record { events = []; polls = ok false }

abbrev broken_turn : Turn
broken_turn = record { events = []; polls = err io_error }

abbrev answers : List Turn → Answers
answers turns = record {
  creates_cancellable = true;
  creates_session = ok tt;
  starts = ok tt;
  grants_pointer = true;
  grants_keyboard = true;
  connects = ok tt;
  creates_ei = true;
  sets_up = none;
  makes_poller = ok tt;
  turns = turns;
}

abbrev new_session : Session
new_session = record {
  has_cancellable = false;
  has_session = false;
  has_ei = false;
  has_poller = false;
  injector = new_injector;
}

-- A poll that fails leaves the session open.
broken_stays_open :
    ((initialize capable (answers (broken_turn ∷ [])) new_session).0).has_session ≡ true
unfolding initialize
broken_stays_open = refl

initialize-Ended_example :
    Ended capable
      (quiet_turn ∷ turn ∷ [])
      (initialize capable (answers (quiet_turn ∷ turn ∷ [])) new_session)
initialize-Ended_example = initialize-Ended capable (answers (quiet_turn ∷ turn ∷ [])) new_session

has_all : AllOffered capable (dispatch_ei appears new_injector).devices
unfolding dispatch_ei
has_all c = (7, inl (refl, refl))

-- The first turn brings no event, and the second one a device; its poll would fail.
last_turn : Turn
last_turn = record { events = appears; polls = err io_error }

brings :
    Starts capable (quiet_turn ∷ last_turn ∷ []) new_injector (dispatch_ei appears new_injector)
unfolding dispatch_ei last_turn
brings =
    polled (λ h. (h pointer_absolute).1) refl (λ h. (h pointer_absolute).1) refl
      (turned (λ h. (h pointer_absolute).1) refl has_all)

wait_ready-Starts_example :
    wait_ready capable (quiet_turn ∷ last_turn ∷ []) new_session
    ≡ (record new_session { injector = dispatch_ei appears new_injector }, started)
wait_ready-Starts_example =
    wait_ready-Starts capable (quiet_turn ∷ last_turn ∷ []) new_session
      (dispatch_ei appears new_injector) brings

-- Integers in the place of doubles.
doubles : Doubles ℤ
doubles = record {
  of_int = λ a. a;
  add = λ a b. a +ℤ b;
  sub = λ a b. a -ℤ b;
  hypot = λ a b. a;
  largest = pos 1000000;
  less = ltb_ℤ;
  at_most = leb_ℤ;
  floor = λ a. a;
  lround = λ a. a;
  negate = λ a. pos 0 -ℤ a;
  times12 = λ a. a;
}

abbrev calls : List (Call ℤ)
calls =
    activated 4 (some (pos 1919, pos 20))
    ∷ ei_event (pointer_motion (pos 3) (pos 0))
    ∷ moved_cursor 0 (pos 1900) (pos 20)
    ∷ moved_cursor 0 (pos 1800) (pos 20)
    ∷ deactivated 4
    ∷ []

abbrev zone_name : ℕ → String
zone_name n = "zone"

abbrev ran : Capture ℤ
ran = run doubles code zone_name calls (new_capture (desk_info ∷ []) (pos 0))

releases_of-run_example :
    Traced (reversed calls []) ran.releases
    × (releases_of 4 ran.releases ≤ activations 4 calls)
    × (releases_of 0 ran.releases ≡ 0)
releases_of-run_example = releases_of-run doubles code zone_name (desk_info ∷ []) (pos 0) 3 calls

-- The first move of the cursor releases the activation, and the second has none to release.
released_once : releases_of 4 ran.releases ≡ 1
unfolding run doubles code ◌+ℤ◌ ◌-ℤ◌
released_once = refl
