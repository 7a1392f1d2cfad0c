-- ===== src/Platform/Win32/Startup.antt =====
-- src/platform/win32.cpp, Win32Platform: the constructor, and the thread that it starts.
use mksync.Prelude.{
  ◌≡◌, refl, String, Bool, true, false, not, List, [], ◌∷◌, Result, ok, err, if◌then◌else◌, str_eq,
}

-- What the thread does that others can see: it counts the latch down, dispatches messages until it
-- is told to stop, and destroys the window and the hooks.
pub data Action : Type 0 where
  count_down pump_messages cleanup : Action

-- `signaled`, `mStartupSucceeded`, `mStartupError`, and the actions, the newest first.
pub record UiThread : Type 0 where
  pub signaled : Bool
  pub startup_succeeded : Bool
  pub startup_error : String
  pub actions : List Action

abbrev new_thread : UiThread
new_thread = record {
  signaled = false;
  startup_succeeded = false;
  startup_error = "";
  actions = [];
}

abbrev act : Action → UiThread → UiThread
act a t = record t { actions = a ∷ t.actions }

unfoldable pub signal_startup : UiThread → UiThread
signal_startup t = if t.signaled then t else act count_down (record t { signaled = true })

unfoldable pub fail_startup : String → UiThread → UiThread
unfolding signal_startup
fail_startup message t =
    signal_startup (record t { startup_error = message; startup_succeeded = false })

-- The answers of `IsGUIThread`, `createMessageWindow` and `enumerateMonitors`.
pub record Answers : Type 0 where
  pub is_gui_thread : Bool
  pub creates_window : Bool
  pub enumerates : Bool

unfoldable pub run_ui_thread : Answers → UiThread → UiThread
unfolding signal_startup fail_startup
run_ui_thread a t =
    if not a.is_gui_thread
    then act cleanup (fail_startup "Failed to initialize GUI thread state" t)
    else if not a.creates_window
    then act cleanup (fail_startup "Failed to create Win32 message window" t)
    else if not a.enumerates
    then act cleanup (fail_startup "Failed to enumerate Win32 monitors" t)
    else (let started = signal_startup (record t { startup_succeeded = true }) in
        act cleanup (signal_startup (act pump_messages started)))

-- The constructor waits for the latch; with the thread's actions, it makes a platform or throws.
unfoldable pub construct : Answers → List Action × Result String (Unit {0})
unfolding run_ui_thread
construct a =
    let t = run_ui_thread a new_thread in
    (
      t.actions,
      if t.startup_succeeded
          then ok tt
          else err (
              if str_eq t.startup_error ""
              then "Failed to initialize Win32 platform"
              else t.startup_error),
    )

-- The first step of the start that fails, as an error.
abbrev pub first_failure : Answers → Result String (Unit {0})
first_failure a =
    if not a.is_gui_thread
    then err "Failed to initialize GUI thread state"
    else if not a.creates_window
    then err "Failed to create Win32 message window"
    else if not a.enumerates
    then err "Failed to enumerate Win32 monitors"
    else ok tt

-- Whether a step of the start failed or not.
abbrev pub fails : Result String (Unit {0}) → Bool
fails (ok u) = false
fails (err e) = true

-- Whatever Windows answers, the thread releases the waiting constructor exactly once, before it
-- dispatches any message, and cleans up last; it dispatches messages exactly if every step of the
-- start succeeds, and else the constructor throws with the error of the first that failed.
pub construct-IsReleased :
    (a : Answers)
    → construct a ≡ (
      if fails (first_failure a)
          then cleanup ∷ count_down ∷ []
          else cleanup ∷ pump_messages ∷ count_down ∷ [],
      first_failure a,
    )
unfolding construct run_ui_thread signal_startup fail_startup
construct-IsReleased a = from a.is_gui_thread a.creates_window a.enumerates
  where
    from :
        (g c e : Bool)
        → let a' : Answers = record { is_gui_thread = g; creates_window = c; enumerates = e } in
          construct a' ≡ (
            if fails (first_failure a')
                then cleanup ∷ count_down ∷ []
                else cleanup ∷ pump_messages ∷ count_down ∷ [],
            first_failure a',
          )
    from false c e = refl
    from true false e = refl
    from true true false = refl
    from true true true = refl
