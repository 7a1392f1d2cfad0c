-- ===== src/Platform/Xcb/Capture/Release.antt =====
-- src/platform/xcb.cpp, XcbInputCapture: what a grab and its end leave held at the X server.
use mksync.Prelude.{subst, sym, Bool, true, false, List, ◌≡◌, refl, Result, ok, err}
use mksync.Platform.Xcb.Connection.{Errc}
use mksync.Platform.Xcb.Capture.{Capture, Answers}
use mksync.Platform.Xcb.Capture.Calls.{set_remote_control_active, close_connection}
use mksync.Platform.Xcb.Capture.Holding.{
  IsConsistent, is_closed, is_idle, is_active, only_cursor, initial, release-idle, Outcome, failed,
  grabbed, acquire_remote_control-Outcome,
}
use mksync.Platform.Xcb.Capture.Runs.{Call, run, close-closed, run-IsConsistent}

-- An answer of setRemoteControlActive: on success the pointer is grabbed just when this is wanted,
-- and the flag says so; without a grab, after an error as well, only the hidden cursor is held.
abbrev pub IsAnswered : Bool → Capture × Result Errc (Unit {0}) → Type 0
IsAnswered true (c, ok u) = (c.remote_control_active ≡ true) × (c.held.pointer ≡ true)
IsAnswered false (c, ok u) =
    (c.remote_control_active ≡ false) × (c.held ≡ only_cursor c.hidden_cursor)
IsAnswered wanted (c, err e) =
    (c.remote_control_active ≡ false) × (c.held ≡ only_cursor c.hidden_cursor)

acquired :
    {symbols poller : Bool} {r : Capture × Result Errc (Unit {0})}
    → Outcome symbols poller r
    → IsAnswered true r
acquired (failed cursor last e) = (refl, refl)
acquired (grabbed cursor window keyboard last) = (refl, refl)

answered :
    (a : Answers) (wanted : Bool) {c : Capture}
    → IsConsistent c
    → IsAnswered wanted (set_remote_control_active a c wanted)
unfolding set_remote_control_active
answered a true is_closed = (refl, refl)
answered a false is_closed = (refl, refl)
answered a true (is_idle cursor last s p) =
    acquired (acquire_remote_control-Outcome a last s p cursor)
answered a false (is_idle cursor last s p) = (refl, refl)
answered a true (is_active cursor window k last s p) = (refl, refl)
answered a false (is_active cursor window k last s p) =
    subst (λ c. IsAnswered false (c, ok tt)) (sym (release-idle cursor window k last s p))
      (refl, refl)

-- After any calls and whatever the X server answers: if setRemoteControlActive succeeds, the
-- pointer is grabbed and the flag set just when that was asked for; if it was not, or if the call
-- fails, the flag is clear and the server holds nothing but the hidden cursor.
pub set_remote_control_active-IsAnswered :
    (calls : List Call) (a : Answers) (wanted : Bool)
    → IsAnswered wanted (set_remote_control_active a (run calls initial) wanted)
set_remote_control_active-IsAnswered calls a wanted = answered a wanted (run-IsConsistent calls)

-- After any calls, closing the connection gives the state of a new capture back: whatever was
-- grabbed or created at the X server has been let go before the disconnection.
pub close_connection-run : (calls : List Call) → close_connection (run calls initial) ≡ initial
close_connection-run calls = close-closed (run-IsConsistent calls)
