-- ===== src/Platform/Portal/Injector/Starts.antt =====
-- src/platform/wayland_portal.cpp, PortalInputInjector: when the loop that waits for devices ends.
use mksync.Prelude.{
  ℕ, ◌≡◌, refl, ◌&&◌, Bool, true, false, List, [], ◌∷◌, Option, is_some, ok, if_rule, Bool-cases,
  Option-cases, inl, inr, arith,
}
use mksync.Platform.Portal.Injector.{
  Capability, pointer_absolute, button, scroll, keyboard, Device, Injector, dispatch_ei, device,
  ready,
}
use mksync.Platform.Portal.Injector.Allowed.{Offers, device-Offers}
use mksync.Platform.Portal.Injector.Session.{Session, Turn, started, wait_ready}

-- For every capability there is a resumed device that has it.
abbrev pub AllOffered : (ℕ → Capability → Bool) → List Device → Type 0
AllOffered capable ds = (c : Capability) → (o : ℕ) × Offers capable c ds o

-- The turns after which all capabilities are offered for the first time, libei being connected until
-- then, and the injector at that time. Nothing is asked of the poll of the turn that brings them.
pub data Starts (capable : ℕ → Capability → Bool) : List Turn → Injector → Injector → Type 0 where
  already :
      {turns : List Turn} {i : Injector} → AllOffered capable i.devices → Starts capable turns i i
  turned :
      {t : Turn} {rest : List Turn} {i : Injector}
      → (AllOffered capable i.devices → ⊥)
      → (dispatch_ei t.events i).disconnected ≡ false
      → AllOffered capable (dispatch_ei t.events i).devices
      → Starts capable (t ∷ rest) i (dispatch_ei t.events i)
  polled :
      {t : Turn} {rest : List Turn} {i j : Injector}
      → (AllOffered capable i.devices → ⊥)
      → (dispatch_ei t.events i).disconnected ≡ false
      → (AllOffered capable (dispatch_ei t.events i).devices → ⊥)
      → t.polls ≡ ok false
      → Starts capable rest (dispatch_ei t.events i) j
      → Starts capable (t ∷ rest) i j

module _ (capable : ℕ → Capability → Bool) where
  offered :
      (c : Capability) (ds : List Device) (o : ℕ)
      → Offers capable c ds o
      → is_some (device capable c ds) ≡ true
  unfolding device
  offered c [] o h = absurd h
  offered c (d ∷ rest) o (inl (e, b)) = rw b refl
  offered c (d ∷ rest) o (inr h) =
      if_rule (λ (r : Option ℕ). is_some r ≡ true) (d.resumed && capable d.object c) _ _ (λ b. refl)
        (λ b. offered c rest o h)

  some-Offers :
      (c : Capability) (ds : List Device)
      → is_some (device capable c ds) ≡ true
      → (o : ℕ) × Offers capable c ds o
  some-Offers c ds h = elim (Option-cases (device capable c ds)) [
    | inl e ↦ absurd (ground (arith, h, e))
    | inr (o, e) ↦ (o, device-Offers capable c ds o e)
  ]

  AllOffered-ready : (ds : List Device) → AllOffered capable ds → ready capable ds ≡ true
  unfolding ready
  AllOffered-ready ds h =
      let is = λ (c : Capability). offered c ds (h c).0 (h c).1 in
      rw (is pointer_absolute, is button, is scroll, is keyboard) refl

  ready-AllOffered : (ds : List Device) → ready capable ds ≡ true → AllOffered capable ds
  unfolding ready
  ready-AllOffered ds h pointer_absolute = some-Offers pointer_absolute ds (ground (arith, h))
  ready-AllOffered ds h button = some-Offers button ds (ground (arith, h))
  ready-AllOffered ds h scroll = some-Offers scroll ds (ground (arith, h))
  ready-AllOffered ds h keyboard = some-Offers keyboard ds (ground (arith, h))

  not_ready : (ds : List Device) → (AllOffered capable ds → ⊥) → ready capable ds ≡ false
  not_ready ds h = elim (Bool-cases (ready capable ds)) [
    | inl e ↦ absurd (h (ready-AllOffered ds e))
    | inr e ↦ e
  ]

  -- As soon as every capability is offered by a resumed device, while libei has stayed connected and
  -- the polls before have not failed, the loop ends with success in just that state, without another
  -- poll.
  pub wait_ready-Starts :
      (turns : List Turn) (s : Session) (i : Injector)
      → Starts capable turns s.injector i
      → wait_ready capable turns s ≡ (record s { injector = i }, started)
  unfolding wait_ready
  wait_ready-Starts [] s i (already h) = rw (AllOffered-ready s.injector.devices h) refl
  wait_ready-Starts (t ∷ rest) s i (already h) = rw (AllOffered-ready s.injector.devices h) refl
  wait_ready-Starts (t ∷ rest) s i (turned n d h) =
      rw
        (
          not_ready s.injector.devices n,
          d,
          AllOffered-ready (dispatch_ei t.events s.injector).devices h,
        )
        refl
  wait_ready-Starts (t ∷ rest) s i (polled n d m p h) =
      rw
        (
          not_ready s.injector.devices n,
          d,
          not_ready (dispatch_ei t.events s.injector).devices m,
          p,
        )
        (wait_ready-Starts rest (record s { injector = dispatch_ei t.events s.injector }) i h)
