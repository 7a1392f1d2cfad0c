-- ===== src/Platform/Portal/Injector/Devices.antt =====
-- src/platform/wayland_portal.cpp, PortalInputInjector: the references to devices.
use mksync.Prelude.{
  ℕ, ◌+◌, ◌==◌, ==_iff, ◌≡◌, refl, Bool, true, false, List, [], ◌∷◌, some, Option-cases, Bool-cases,
  All, inl, inr, arith,
}
use mksync.Platform.Portal.Injector.{
  Device, Request, take_ref, unref, stop_emulating, Injector, EiEvent, seat_added, disconnect,
  other_event, device_added, device_resumed, device_paused, device_removed, add_device, find_device,
  set_device, erase_device, process_ei_event, dispatch_ei, release_devices,
}

abbrev pub one_if : Bool → ℕ
one_if true = 1
one_if false = 0

abbrev is_ref : ℕ → Request → ℕ
is_ref o (take_ref p) = one_if (p == o)
is_ref o r = 0

abbrev is_unref : ℕ → Request → ℕ
is_unref o (unref p) = one_if (p == o)
is_unref o r = 0

-- How often a reference to an object has been taken, and let go, and how many devices hold one.
abbrev pub refs : ℕ → List Request → ℕ
refs o [] = 0
refs o (r ∷ log) = is_ref o r + refs o log

abbrev pub unrefs : ℕ → List Request → ℕ
unrefs o [] = 0
unrefs o (r ∷ log) = is_unref o r + unrefs o log

abbrev pub held : ℕ → List Device → ℕ
held o [] = 0
held o (d ∷ rest) = one_if (d.object == o) + held o rest

abbrev IsPaired : Device → Type 0
IsPaired d = d.emulating ≡ d.resumed

-- A device is marked as emulating just while it is resumed, and each device holds one reference.
pub record IsBalanced (i : Injector) : Type 0 where
  pub paired : All IsPaired i.devices
  pub counted : (o : ℕ) → refs o i.log ≡ unrefs o i.log + held o i.devices

held-add_device :
    (o p : ℕ) (ds : List Device) → held o (add_device p ds) ≡ held o ds + one_if (p == o)
held-add_device o p [] = omega arith
held-add_device o p (d ∷ rest) = omega (arith, held-add_device o p rest)

held-set_device :
    (o p : ℕ) (r e : Bool) (ds : List Device) → held o (set_device p r e ds) ≡ held o ds
unfolding set_device
held-set_device o p r e [] = refl
held-set_device o p r e (d ∷ rest) = ground (arith, held-set_device o p r e rest)

held-erase_device :
    (o p : ℕ) (ds : List Device) (d : Device)
    → find_device p ds ≡ some d
    → held o ds ≡ one_if (p == o) + held o (erase_device p ds)
unfolding find_device erase_device
held-erase_device o p [] d h = cc
held-erase_device o p (d' ∷ rest) d h =
    ground (arith, h, held-erase_device o p rest d, ==_iff d'.object p)

All-add_device : (p : ℕ) (ds : List Device) → All IsPaired ds → All IsPaired (add_device p ds)
All-add_device p [] h = (refl, tt)
All-add_device p (d ∷ rest) h = (h.0, All-add_device p rest h.1)

All-set_device :
    (p : ℕ) (b : Bool) (ds : List Device) → All IsPaired ds → All IsPaired (set_device p b b ds)
unfolding set_device
All-set_device p b [] h = tt
All-set_device p b (d ∷ rest) h = elim (Bool-cases (d.object == p)) [
  | inl e ↦ rw e (refl, h.1)
  | inr e ↦ rw e (h.0, All-set_device p b rest h.1)
]

All-erase_device : (p : ℕ) (ds : List Device) → All IsPaired ds → All IsPaired (erase_device p ds)
unfolding erase_device
All-erase_device p [] h = tt
All-erase_device p (d ∷ rest) h = elim (Bool-cases (d.object == p)) [
  | inl e ↦ rw e h.1
  | inr e ↦ rw e (h.0, All-erase_device p rest h.1)
]

process_ei_event-IsBalanced :
    (e : EiEvent) {i : Injector} → IsBalanced i → IsBalanced (process_ei_event e i)
unfolding process_ei_event
process_ei_event-IsBalanced (device_added p) {i} h = record {
  paired = All-add_device p i.devices h.paired;
  counted = λ o. omega (arith, h.counted o, held-add_device o p i.devices);
}
process_ei_event-IsBalanced (device_resumed p) {i} h =
    elim (Option-cases (find_device p i.devices)) [
      | inl n ↦ rw (n, process_ei_event) h
      | inr (d, f) ↦ elim (Bool-cases d.emulating) [
        | inl e ↦
            rw (f, process_ei_event, e)
              (record {
                paired = All-set_device p true i.devices h.paired;
                counted = λ o. rw (held-set_device o p true true i.devices) (h.counted o);
              })
        | inr e ↦
            rw (f, process_ei_event, e)
              (record {
                paired = All-set_device p true i.devices h.paired;
                counted =
                    λ o. rw (held-set_device o p true true i.devices) (omega (arith, h.counted o));
              })
      ]
    ]
process_ei_event-IsBalanced (device_paused p) {i} h =
    elim (Option-cases (find_device p i.devices)) [
      | inl n ↦ rw (n, process_ei_event) h
      | inr (d, f) ↦
          rw (f, process_ei_event)
            (record {
              paired = All-set_device p false i.devices h.paired;
              counted = λ o. rw (held-set_device o p false false i.devices) (h.counted o);
            })
    ]
process_ei_event-IsBalanced (device_removed p) {i} h =
    elim (Option-cases (find_device p i.devices)) [
      | inl n ↦ rw (n, process_ei_event) h
      | inr (d, f) ↦
          rw (f, process_ei_event)
            (record {
              paired = All-erase_device p i.devices h.paired;
              counted = λ o. omega (arith, h.counted o, held-erase_device o p i.devices d f);
            })
    ]
process_ei_event-IsBalanced disconnect h = record { paired = h.paired; counted = h.counted }
process_ei_event-IsBalanced seat_added h = h
process_ei_event-IsBalanced other_event h = h

pub dispatch_ei-IsBalanced :
    (events : List EiEvent) {i : Injector} → IsBalanced i → IsBalanced (dispatch_ei events i)
unfolding dispatch_ei
dispatch_ei-IsBalanced [] h = h
dispatch_ei-IsBalanced (e ∷ rest) h = dispatch_ei-IsBalanced rest (process_ei_event-IsBalanced e h)

pub release_devices-refs :
    (o : ℕ) (ds : List Device) (log : List Request) → refs o (release_devices ds log) ≡ refs o log
unfolding release_devices
release_devices-refs o [] log = refl
release_devices-refs o (d ∷ rest) log = elim (Bool-cases d.emulating) [
  | inl e ↦
      rw (e, release_devices)
        (omega
          (arith, release_devices-refs o rest (unref d.object ∷ stop_emulating d.object ∷ log)))
  | inr e ↦
      rw (e, release_devices) (omega (arith, release_devices-refs o rest (unref d.object ∷ log)))
]

pub release_devices-unrefs :
    (o : ℕ) (ds : List Device) (log : List Request)
    → unrefs o (release_devices ds log) ≡ unrefs o log + held o ds
unfolding release_devices
release_devices-unrefs o [] log = omega arith
release_devices-unrefs o (d ∷ rest) log = elim (Bool-cases d.emulating) [
  | inl e ↦
      rw (e, release_devices)
        (omega
          (arith, release_devices-unrefs o rest (unref d.object ∷ stop_emulating d.object ∷ log)))
  | inr e ↦
      rw (e, release_devices) (omega (arith, release_devices-unrefs o rest (unref d.object ∷ log)))
]
