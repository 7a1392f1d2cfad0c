-- ===== src/Platform/Xcb/Injector/Wheel.antt =====
-- src/platform/xcb.cpp: a wheel event that is injected on one X11 machine, as another one captures
-- the button clicks.
use mksync.Prelude.{
  ℕ, zero, suc, ◌+◌, ◌*◌, ◌≤◌, ◌<◌, ◌==◌, ◌≡◌, refl, ℤ, pos, pos_part, neg_part, ltb_ℤ, true, false,
  List, [], ◌∷◌, ok, if◌then◌else◌, ap, ◌∙◌, arith, Bool-cases, inl, inr,
}
use mksync.Core.Events.{MouseWheelEvent}
use mksync.Platform.Xcb.Connection.{check}
use mksync.Platform.Xcb.Injector.{
  Outcome, FakeInput, fake_button, Target, and_then, fake_input, fake_clicks, wheel_click_count,
  inject_wheel_y, inject_wheel_x, inject_wheel,
}
use mksync.Platform.Xcb.Injector.Presses.{
  captured, presses, IsTurned, captured_y-presses, captured_x-presses,
}

-- The server accepts every request, and every flush succeeds.
abbrev pub IsWilling : Target → Type 0
IsWilling t =
    ((log : List FakeInput) (r : FakeInput) → t.accepts log r ≡ true)
    × ((log : List FakeInput) → t.flushes log ≡ ok tt)

abbrev clicks_up : ℤ → ℕ
clicks_up d = if ltb_ℤ (pos 0) d then wheel_click_count d else 0

abbrev clicks_down : ℤ → ℕ
clicks_down d = if ltb_ℤ d (pos 0) then wheel_click_count d else 0

-- The same direction, rounded up to whole steps of 120.
abbrev pub IsRoundedUp : ℤ → ℤ → Type 0
IsRoundedUp d r =
    ((up : ℕ) × (pos_part r ≡ 120 * up)
      × (pos_part d ≤ pos_part r)
      × (pos_part r < pos_part d + 120))
    × ((down : ℕ) × (neg_part r ≡ 120 * down)
        × (neg_part d ≤ neg_part r)
        × (neg_part r < neg_part d + 120))

rounded : (d r : ℤ) → IsTurned r (clicks_up d) (clicks_down d) → IsRoundedUp d r
unfolding IsTurned wheel_click_count
rounded d r h = (
  (clicks_up d, ground (arith, h), ground (arith, h), ground (arith, h)),
  (clicks_down d, ground (arith, h), ground (arith, h), ground (arith, h)),
)

presses_none : (b : ℕ) → presses b [] ≡ 0
unfolding presses
presses_none b = refl

-- The presses of a button are those of the two halves.
turned : (d : ℤ) {up down m n : ℕ} → IsTurned d up down → up ≡ m → down ≡ n → IsTurned d m n
unfolding IsTurned
turned d h p q = omega (arith, h, p, q)

module _ (t : Target) (willing : IsWilling t) where
  -- The presses after so many clicks of a button.
  clicked :
      (count button : ℕ) (log : List FakeInput)
      → (log' : List FakeInput) × (fake_clicks t count button log ≡ (log', ok tt))
        × ((b : ℕ) → presses b log' ≡ (if button == b then count else 0) + presses b log)
  unfolding fake_clicks fake_input check presses
  clicked zero button log = (log, ap (λ r. (log, r)) (willing.1 log), λ b. ground arith)
  clicked (suc count) button log =
      let next = fake_button button false ∷ fake_button button true ∷ log in
      let (log', run, count_of) = clicked count button next in
      (
        log',
        rw
            (
              willing.0 log (fake_button button true),
              willing.0 (fake_button button true ∷ log) (fake_button button false),
            )
            run,
        λ b. ground (arith, count_of b),
      )

  -- One axis of a wheel event: clicks of one button for a positive delta, of another for a negative
  -- one.
  turn : (d : ℤ) (up down : ℕ) (log : List FakeInput) → Outcome
  turn d up down log =
      if ltb_ℤ (pos 0) d
      then fake_clicks t (wheel_click_count d) up log
      else if ltb_ℤ d (pos 0)
      then fake_clicks t (wheel_click_count d) down log
      else (log, ok tt)

  -- How a run of clicks leaves the presses.
  abbrev Turns : ℕ → ℕ → ℕ → ℕ → List FakeInput → Outcome → Type 0
  Turns up down n m log r =
      (log' : List FakeInput) × (r ≡ (log', ok tt))
      × ((b : ℕ)
          → presses b log'
            ≡ (if up == b then n else 0) + (if down == b then m else 0) + presses b log)

  turn-Turns :
      (d : ℤ) (up down : ℕ) (log : List FakeInput)
      → Turns up down (clicks_up d) (clicks_down d) log (turn d up down log)
  unfolding turn
  turn-Turns d up down log = elim (Bool-cases (ltb_ℤ (pos 0) d)) [
    | inl p ↦
        let (log', run, count) = clicked (wheel_click_count d) up log in
        (log', rw (p) run, λ b. ground (arith, count b, p))
    | inr p ↦ elim (Bool-cases (ltb_ℤ d (pos 0))) [
      | inl n ↦
          let (log', run, count) = clicked (wheel_click_count d) down log in
          (log', rw (p, n) run, λ b. ground (arith, count b, p, n))
      | inr n ↦ (log, rw (p, n) refl, λ b. ground (arith, p, n))
    ]
  ]

  -- The horizontal axis is tested the other way round.
  turn_x : (d : ℤ) (log : List FakeInput) → inject_wheel_x t d log ≡ turn d 7 6 log
  unfolding turn inject_wheel_x
  turn_x d log = elim (Bool-cases (ltb_ℤ (pos 0) d)) [
    | inl p ↦ rw (p, not_both p) refl
    | inr p ↦ elim (Bool-cases (ltb_ℤ d (pos 0))) [
      | inl n ↦ rw (p, n) refl
      | inr n ↦ rw (p, n) refl
    ]
  ]
    where
      not_both : ltb_ℤ (pos 0) d ≡ true → ltb_ℤ d (pos 0) ≡ false
      not_both p = ground arith

  halves :
      (event : MouseWheelEvent) (log log' : List FakeInput)
      → turn event.delta_y 4 5 [] ≡ (log, ok tt)
      → turn event.delta_x 7 6 log ≡ (log', ok tt)
      → inject_wheel t event [] ≡ (log', ok tt)
  unfolding inject_wheel inject_wheel_y turn
  halves event log log' y x =
      ap (λ r. and_then r (inject_wheel_x t event.delta_x)) y ∙ turn_x event.delta_x log ∙ x

  -- If the server accepts every request, the injection of a wheel event succeeds, and another
  -- machine that captures the clicks gets both deltas with their signs, each rounded up to whole
  -- steps of 120.
  pub captured-inject_wheel :
      (event : MouseWheelEvent)
      → (log : List FakeInput) × (inject_wheel t event [] ≡ (log, ok tt))
        × IsRoundedUp event.delta_x ((captured log).0)
        × IsRoundedUp event.delta_y ((captured log).1)
  captured-inject_wheel event =
      let (log, y_run, y_count) = turn-Turns event.delta_y 4 5 [] in
      let (log', x_run, x_count) = turn-Turns event.delta_x 7 6 log in
      (
        log',
        halves event log log' y_run x_run,
        rounded event.delta_x _ (
            turned _ (captured_x-presses log') (omega (arith, x_count 7, y_count 7, presses_none 7))
              (omega (arith, x_count 6, y_count 6, presses_none 6))),
        rounded event.delta_y _ (
            turned _ (captured_y-presses log') (omega (arith, x_count 4, y_count 4, presses_none 4))
              (omega (arith, x_count 5, y_count 5, presses_none 5))),
      )
