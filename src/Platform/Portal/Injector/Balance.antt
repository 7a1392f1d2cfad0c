-- ===== src/Platform/Portal/Injector/Balance.antt =====
-- src/platform/wayland_portal.cpp, PortalInputInjector: devices, references and emulation over any events.
use mksync.Prelude.{
  ℕ, ◌+◌, ◌==◌, ltb, ◌≡◌, refl, sym, subst, ◌∙◌, Bool, true, false, List, [], ◌∷◌, ◌++◌, some, none,
  if◌then◌else◌, Option-cases, Bool-cases, inl, inr, arith,
}
use mksync.Platform.Portal.Injector.{
  Device, Request, stop_emulating, unref, Injector, EiEvent, seat_added, disconnect, other_event,
  device_added, device_resumed, device_paused, device_removed, find_device, process_ei_event,
  dispatch_ei, release_devices, close_devices, new_injector,
}
use mksync.Platform.Portal.Injector.Devices.{
  one_if, refs, unrefs, IsBalanced, dispatch_ei-IsBalanced, release_devices-refs,
  release_devices-unrefs,
}
use mksync.Platform.Portal.Injector.Emulation.{
  starts, stops, ends, emulates, marks, OnlyFirst, rest_of, marked, marks-add_device,
  marks-set_device, marks-erase_device, same_object,
}

module _ (o : ℕ) where
  find_device-marks :
      (p : ℕ) (ds : List Device) (d : Device)
      → (p == o) ≡ true
      → find_device p ds ≡ some d
      → (l : List Bool) × (marks o ds ≡ d.emulating ∷ l)
  unfolding find_device
  find_device-marks p [] d q h = absurd (cc h)
  find_device-marks p (d' ∷ rest) d q h = elim (Bool-cases (d'.object == p)) [
    | inl e ↦
        let same : d' ≡ d = ground (arith, e, h) in
        (marks o rest, rw (← same, same_object d'.object p o e, q) refl)
    | inr e ↦
        let (l, later) = find_device-marks p rest d q (ground (arith, e, h)) in
        (l, rw (other d'.object p e q) later)
  ]
    where
      other : (a p : ℕ) → (a == p) ≡ false → (p == o) ≡ true → (a == o) ≡ false
      other a p h k = ground (arith, h, k)

  no_device-marks :
      (p : ℕ) (ds : List Device) → (p == o) ≡ true → find_device p ds ≡ none → marks o ds ≡ []
  unfolding find_device
  no_device-marks p [] q h = refl
  no_device-marks p (d ∷ rest) q h = elim (Bool-cases (d.object == p)) [
    | inl e ↦ absurd (ground (arith, e, h))
    | inr e ↦ rw (other d.object p e q) (no_device-marks p rest q (ground (arith, e, h)))
  ]
    where
      other : (a p : ℕ) → (a == p) ≡ false → (p == o) ≡ true → (a == o) ≡ false
      other a p h k = ground (arith, h, k)

  not_less : (n : ℕ) → ltb n n ≡ false
  not_less n = ground arith

  not_less_zero : (n : ℕ) → ltb n (0 + n) ≡ false
  not_less_zero n = ground arith

  less_one : (n : ℕ) → ltb n (1 + n) ≡ true
  less_one n = ground arith

  appended :
      (b : Bool) (l : List Bool) (c : Bool)
      → OnlyFirst b l
      → OnlyFirst b (l ++ (if c then false ∷ [] else []))
  appended b [] true h = (sym h, refl)
  appended b [] false h = h
  appended b (m ∷ l) c h = (h.0, appended false l c h.1)

  paused : (b : Bool) (l : List Bool) → OnlyFirst b l → OnlyFirst false (marked false l)
  paused b [] h = refl
  paused b (m ∷ l) h = (refl, h.1)

  resumed : (b : Bool) (l : List Bool) → OnlyFirst b (false ∷ l) → OnlyFirst true (true ∷ l)
  resumed b l h = (refl, h.1)

  removed : (b : Bool) (l : List Bool) → OnlyFirst b l → OnlyFirst false (rest_of l)
  removed b [] h = refl
  removed b (m ∷ l) h = h.1

  -- Whether the object emulates after one event.
  abbrev emulates_after : EiEvent → Injector → Bool → Bool
  emulates_after e i now =
      if ends o e
      then false
      else if ltb (starts o i.log) (starts o (process_ei_event e i).log)
      then true
      else now

  Follows : EiEvent → Injector → Bool → Type 0
  Follows e i now = OnlyFirst (emulates_after e i now) (marks o (process_ei_event e i).devices)

  resumed-Follows :
      (p : ℕ) (i : Injector) (now : Bool)
      → OnlyFirst now (marks o i.devices)
      → Follows (device_resumed p) i now
  unfolding process_ei_event Follows
  resumed-Follows p i now h = elim (Option-cases (find_device p i.devices)) [
    | inl n ↦ rw (n, process_ei_event, not_less (starts o i.log)) h
    | inr (d, f) ↦ elim (Bool-cases (p == o)) [
      | inl q ↦
          let (l, m) = find_device-marks p i.devices d q f in
          elim (Bool-cases d.emulating) [
            | inl e ↦
                let there : marks o i.devices ≡ true ∷ l = m ∙ rw e refl in
                let on : OnlyFirst now (true ∷ l) = subst (OnlyFirst now) there h in
                rw
                  (
                    f,
                    process_ei_event,
                    e,
                    not_less (starts o i.log),
                    marks-set_device o p true i.devices,
                    q,
                    m,
                  )
                  on
            | inr e ↦
                let there : marks o i.devices ≡ false ∷ l = m ∙ rw e refl in
                let off : OnlyFirst now (false ∷ l) = subst (OnlyFirst now) there h in
                rw
                  (
                    f,
                    process_ei_event,
                    e,
                    marks-set_device o p true i.devices,
                    q,
                    less_one (starts o i.log),
                    m,
                  )
                  (resumed now l off)
          ]
      | inr q ↦ elim (Bool-cases d.emulating) [
        | inl e ↦
            rw
              (
                f,
                process_ei_event,
                e,
                not_less (starts o i.log),
                marks-set_device o p true i.devices,
                q,
              )
              h
        | inr e ↦
            rw
              (
                f,
                process_ei_event,
                e,
                marks-set_device o p true i.devices,
                q,
                not_less_zero (starts o i.log),
              )
              h
      ]
    ]
  ]

  paused-Follows :
      (p : ℕ) (i : Injector) (now : Bool)
      → OnlyFirst now (marks o i.devices)
      → Follows (device_paused p) i now
  unfolding process_ei_event Follows
  paused-Follows p i now h = elim (Bool-cases (p == o)) [
    | inl q ↦ elim (Option-cases (find_device p i.devices)) [
      | inl n ↦ rw (q, n, process_ei_event, no_device-marks p i.devices q n) refl
      | inr (d, f) ↦
          rw (q, f, process_ei_event, marks-set_device o p false i.devices, q)
            (paused now (marks o i.devices) h)
    ]
    | inr q ↦ elim (Option-cases (find_device p i.devices)) [
      | inl n ↦ rw (q, n, process_ei_event, not_less (starts o i.log)) h
      | inr (d, f) ↦
          rw
            (
              q,
              f,
              process_ei_event,
              not_less (starts o i.log),
              marks-set_device o p false i.devices,
              q,
            )
            h
    ]
  ]

  removed-Follows :
      (p : ℕ) (i : Injector) (now : Bool)
      → OnlyFirst now (marks o i.devices)
      → Follows (device_removed p) i now
  unfolding process_ei_event Follows
  removed-Follows p i now h = elim (Bool-cases (p == o)) [
    | inl q ↦ elim (Option-cases (find_device p i.devices)) [
      | inl n ↦ rw (q, n, process_ei_event, no_device-marks p i.devices q n) refl
      | inr (d, f) ↦
          rw (q, f, process_ei_event, marks-erase_device o p i.devices, q)
            (removed now (marks o i.devices) h)
    ]
    | inr q ↦ elim (Option-cases (find_device p i.devices)) [
      | inl n ↦ rw (q, n, process_ei_event, not_less (starts o i.log)) h
      | inr (d, f) ↦
          rw
            (
              q,
              f,
              process_ei_event,
              not_less_zero (starts o i.log),
              marks-erase_device o p i.devices,
              q,
            )
            h
    ]
  ]

  process_ei_event-Follows :
      (e : EiEvent) (i : Injector) (now : Bool)
      → OnlyFirst now (marks o i.devices)
      → Follows e i now
  unfolding process_ei_event Follows
  process_ei_event-Follows (device_added p) i now h =
      rw (not_less_zero (starts o i.log), marks-add_device o p i.devices)
        (appended now (marks o i.devices) (p == o) h)
  process_ei_event-Follows (device_resumed p) i now h = resumed-Follows p i now h
  process_ei_event-Follows (device_paused p) i now h = paused-Follows p i now h
  process_ei_event-Follows (device_removed p) i now h = removed-Follows p i now h
  process_ei_event-Follows disconnect i now h = rw (not_less (starts o i.log)) h
  process_ei_event-Follows seat_added i now h = rw (not_less (starts o i.log)) h
  process_ei_event-Follows other_event i now h = rw (not_less (starts o i.log)) h

  dispatch_ei-OnlyFirst :
      (events : List EiEvent) (i : Injector) (now : Bool)
      → OnlyFirst now (marks o i.devices)
      → OnlyFirst (emulates o events i now) (marks o (dispatch_ei events i).devices)
  unfolding dispatch_ei Follows
  dispatch_ei-OnlyFirst [] i now h = h
  dispatch_ei-OnlyFirst (e ∷ rest) i now h =
      dispatch_ei-OnlyFirst rest (process_ei_event e i) (emulates_after e i now)
        (process_ei_event-Follows e i now h)

  abbrev total : List Bool → ℕ
  total [] = 0
  total (m ∷ l) = one_if m + total l

  total-OnlyFirst : (b : Bool) (l : List Bool) → OnlyFirst b l → total l ≡ one_if b
  total-OnlyFirst b [] h = rw h refl
  total-OnlyFirst b (m ∷ l) h = rw h.0 (omega (arith, total-OnlyFirst false l h.1))

  release_devices-stops :
      (ds : List Device) (log : List Request)
      → stops o (release_devices ds log) ≡ stops o log + total (marks o ds)
  unfolding release_devices
  release_devices-stops [] log = omega arith
  release_devices-stops (d ∷ rest) log = ground (
    arith,
    release_devices-stops rest (unref d.object ∷ stop_emulating d.object ∷ log),
    release_devices-stops rest (unref d.object ∷ log),
  )

-- Whatever events libei has had since the injector was made: a device is marked as emulating just
-- while it is resumed; an object emulates, by the requests to start and the pauses and removals
-- after them, just when its device is marked; of each object as many references have been taken as
-- have been let go and are held by devices. And `close` stops each object that emulates, once, and
-- lets go as many references as were taken.
pub close_devices-IsBalanced :
    (events : List EiEvent) (o : ℕ)
    → IsBalanced (dispatch_ei events new_injector)
      × OnlyFirst
          (emulates o events new_injector false)
          (marks o (dispatch_ei events new_injector).devices)
      × (stops o ((close_devices (dispatch_ei events new_injector)).log)
          ≡ stops o (dispatch_ei events new_injector).log
            + one_if (emulates o events new_injector false))
      × (refs o ((close_devices (dispatch_ei events new_injector)).log)
          ≡ unrefs o ((close_devices (dispatch_ei events new_injector)).log))
unfolding close_devices
close_devices-IsBalanced events o =
    let i = dispatch_ei events new_injector in
    let balanced =
      dispatch_ei-IsBalanced events {i = new_injector}
        (record { paired = tt; counted = λ p. refl }) in
    let first = dispatch_ei-OnlyFirst o events new_injector false refl in
    (
      balanced,
      first,
      omega (arith, release_devices-stops o i.devices i.log, total-OnlyFirst o _ _ first),
      omega (
        arith,
        balanced.counted o,
        release_devices-refs o i.devices i.log,
        release_devices-unrefs o i.devices i.log,
      ),
    )
