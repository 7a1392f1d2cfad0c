-- ===== src/Platform/Portal/Injector/Session.antt =====
-- src/platform/wayland_portal.cpp, PortalInputInjector: the start of its session, up to the screens
-- that it takes from the devices' regions, and `close`.
use mksync.Prelude.{
  ℕ, ◌||◌, Bool, true, false, not, List, [], ◌∷◌, Option, none, some, Result, ok, err,
  if◌then◌else◌,
}
use mksync.Platform.Portal.Errors.{
  Errc, not_enough_memory, permission_denied, connection_refused, connection_reset, generic,
}
use mksync.Platform.Portal.Injector.{
  Capability, Injector, EiEvent, dispatch_ei, close_devices, ready,
}

-- Which of the objects of the session there are, and the injector's devices.
pub record Session : Type 0 where
  pub has_cancellable : Bool
  pub has_session : Bool
  pub has_ei : Bool
  pub has_poller : Bool
  pub injector : Injector

-- One turn of the loop that waits for the devices: the events of libei, and what `poll` gives, where
-- `true` stands for POLLERR, POLLHUP or POLLNVAL.
pub record Turn : Type 0 where
  pub events : List EiEvent
  pub polls : Result Errc Bool

-- The answers of the portal and of libei: the cancellable, the session, its start, whether the
-- pointer and the keyboard are granted, the connection, a sender, no error or the error number of its
-- setup, the poller, and the turns of the loop.
pub record Answers : Type 0 where
  pub creates_cancellable : Bool
  pub creates_session : Result Errc (Unit {0})
  pub starts : Result Errc (Unit {0})
  pub grants_pointer : Bool
  pub grants_keyboard : Bool
  pub connects : Result Errc (Unit {0})
  pub creates_ei : Bool
  pub sets_up : Option ℕ
  pub makes_poller : Result Errc (Unit {0})
  pub turns : List Turn

-- How the start ends: with success, with an error, or not yet, where the events are used up.
pub data Ending : Type 0 where
  started : Ending
  failed : Errc → Ending
  waiting : Ending

unfoldable pub close : Session → Session
unfolding close_devices
close s = record {
  has_cancellable = false;
  has_session = false;
  has_ei = false;
  has_poller = false;
  injector = close_devices s.injector;
}

abbrev fail_closed : Errc → Session → Session × Ending
fail_closed e s = (close s, failed e)

module _ (capable : ℕ → Capability → Bool) where
  -- `while (!ready()) { … }`. A poll that fails returns at once, without `close`.
  unfoldable pub wait_ready : List Turn → Session → Session × Ending
  unfolding ready dispatch_ei close
  wait_ready [] s = if ready capable s.injector.devices then (s, started) else (s, waiting)
  wait_ready (t ∷ rest) s =
      let s' = record s { injector = dispatch_ei t.events s.injector } in
      let later = wait_ready rest s' in
      if ready capable s.injector.devices
      then (s, started)
      else if s'.injector.disconnected
      then fail_closed connection_refused s'
      else if ready capable s'.injector.devices
      then (s', started)
      else elim t.polls [
        | err e ↦ (s', failed e)
        | ok true ↦ fail_closed connection_reset s'
        | ok false ↦ later
      ]

  abbrev pub try :
      Result Errc (Unit {0}) → Session → (Session → Session × Ending) → Session × Ending
  try (ok u) s next = next s
  try (err e) s next = fail_closed e s

  unfoldable pub connect_ei : Answers → Session → Session × Ending
  unfolding wait_ready close
  connect_ei a s =
      if not a.creates_ei
      then fail_closed not_enough_memory s
      else (let with_ei = record s { has_ei = true } in
          elim a.sets_up [
            | some number ↦ fail_closed (generic number) with_ei
            | none ↦
                try a.makes_poller with_ei
                  (λ s'. wait_ready a.turns (record s' { has_poller = true }))
          ])

  unfoldable pub initialize : Answers → Session → Session × Ending
  unfolding connect_ei close
  initialize a s =
      let closed = close s in
      if not a.creates_cancellable
      then (closed, failed not_enough_memory)
      else try a.creates_session (record closed { has_cancellable = true })
          (λ s₁.
            try a.starts (record s₁ { has_session = true })
              (λ s₂.
                if not a.grants_pointer || not a.grants_keyboard
                then fail_closed permission_denied s₂
                else try a.connects s₂ (connect_ei a)))
