-- ===== src/Platform/Xcb/Injector/Presses.antt =====
-- src/platform/xcb.cpp: the button clicks of a wheel event, and the deltas that a capture makes of them.
use mksync.Prelude.{
  ℕ, ◌+◌, ◌*◌, ◌==◌, ◌≡◌, refl, ℤ, pos, pos_part, neg_part, ◌+ℤ◌, +ℤ_parts, Bool, true, false, not,
  ◌&&◌, List, [], ◌∷◌, Option, none, some, if◌then◌else◌, arith,
}
use mksync.Core.Events.{InputEvent, move_event, button_event, wheel_event, key_event}
use mksync.Platform.Xcb.Events.{button_at}
use mksync.Platform.Xcb.Injector.{FakeInput, fake_motion, fake_button, fake_key}

-- What the capture makes of a request that reaches it as a button event: the wheel's delta.
abbrev wheel_of : Option InputEvent → ℤ × ℤ
wheel_of none = (pos 0, pos 0)
wheel_of (some (wheel_event w)) = (w.delta_x, w.delta_y)
wheel_of (some (move_event m)) = (pos 0, pos 0)
wheel_of (some (button_event b)) = (pos 0, pos 0)
wheel_of (some (key_event k)) = (pos 0, pos 0)

unfoldable captured_delta : FakeInput → ℤ × ℤ
unfolding button_at
captured_delta (fake_button button press) =
    wheel_of (button_at button (not press) (0, pos 0, pos 0))
captured_delta (fake_motion root x y) = (pos 0, pos 0)
captured_delta (fake_key code press) = (pos 0, pos 0)

-- The sum over the requests.
unfoldable pub captured : List FakeInput → ℤ × ℤ
unfolding captured_delta
captured [] = (pos 0, pos 0)
captured (request ∷ log) =
    let (x, y) = captured_delta request in let (xs, ys) = captured log in (x +ℤ xs, y +ℤ ys)

-- How often a button is pressed.
unfoldable pub presses : ℕ → List FakeInput → ℕ
presses button [] = 0
presses button (fake_motion root x y ∷ log) = presses button log
presses button (fake_key code press ∷ log) = presses button log
presses button (fake_button b press ∷ log) =
    (if press && (b == button) then 1 else 0) + presses button log

-- A delta counts as so many steps of 120 one way less so many the other way.
unfoldable pub IsTurned : ℤ → ℕ → ℕ → Type 0
IsTurned d up down = pos_part d + 120 * down ≡ neg_part d + 120 * up

zero-IsTurned : IsTurned (pos 0) 0 0
unfolding IsTurned
zero-IsTurned = refl

button_y-IsTurned :
    (b : ℕ) (press : Bool)
    → IsTurned
        ((captured_delta (fake_button b press)).1)
        (if press && (b == 4) then 1 else 0)
        (if press && (b == 5) then 1 else 0)
unfolding captured_delta button_at IsTurned
button_y-IsTurned b true = ground arith
button_y-IsTurned b false = ground arith

button_x-IsTurned :
    (b : ℕ) (press : Bool)
    → IsTurned
        ((captured_delta (fake_button b press)).0)
        (if press && (b == 7) then 1 else 0)
        (if press && (b == 6) then 1 else 0)
unfolding captured_delta button_at IsTurned
button_x-IsTurned b true = ground arith
button_x-IsTurned b false = ground arith

add-IsTurned :
    (c d : ℤ) (p q up down : ℕ)
    → IsTurned c p q
    → IsTurned d up down
    → IsTurned (c +ℤ d) (p + up) (q + down)
unfolding IsTurned
add-IsTurned c d p q up down g h = omega (arith, +ℤ_parts c d)

still : (d : ℤ) (up down : ℕ) → IsTurned d up down → IsTurned (pos 0 +ℤ d) up down
unfolding IsTurned
still d up down h = omega (arith, +ℤ_parts (pos 0) d)

pub captured_y-presses :
    (log : List FakeInput) → IsTurned ((captured log).1) (presses 4 log) (presses 5 log)
unfolding captured presses captured_delta
captured_y-presses [] = zero-IsTurned
captured_y-presses (fake_motion root x y ∷ log) = still _ _ _ (captured_y-presses log)
captured_y-presses (fake_key code press ∷ log) = still _ _ _ (captured_y-presses log)
captured_y-presses (fake_button b press ∷ log) =
    add-IsTurned _ _ _ _ _ _ (button_y-IsTurned b press) (captured_y-presses log)

pub captured_x-presses :
    (log : List FakeInput) → IsTurned ((captured log).0) (presses 7 log) (presses 6 log)
unfolding captured presses captured_delta
captured_x-presses [] = zero-IsTurned
captured_x-presses (fake_motion root x y ∷ log) = still _ _ _ (captured_x-presses log)
captured_x-presses (fake_key code press ∷ log) = still _ _ _ (captured_x-presses log)
captured_x-presses (fake_button b press ∷ log) =
    add-IsTurned _ _ _ _ _ _ (button_x-IsTurned b press) (captured_x-presses log)
