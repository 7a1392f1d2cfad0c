-- ===== src/Platform/Portal/Injector/Emulation.antt =====
-- src/platform/wayland_portal.cpp, PortalInputInjector: which devices libei has been told emulate.
use mksync.Prelude.{
  ℕ, ◌+◌, ◌==◌, ltb, ◌≡◌, refl, Bool, true, false, List, [], ◌∷◌, ◌++◌, if◌then◌else◌, Bool-cases,
  inl, inr, arith,
}
use mksync.Platform.Portal.Injector.{
  Device, Request, start_emulating, stop_emulating, Injector, EiEvent, device_paused,
  device_removed, add_device, set_device, erase_device, process_ei_event,
}
use mksync.Platform.Portal.Injector.Devices.{one_if}

abbrev is_start : ℕ → Request → ℕ
is_start o (start_emulating p n) = one_if (p == o)
is_start o r = 0

abbrev is_stop : ℕ → Request → ℕ
is_stop o (stop_emulating p) = one_if (p == o)
is_stop o r = 0

-- How often an object has been asked to start, and to stop.
abbrev pub starts : ℕ → List Request → ℕ
starts o [] = 0
starts o (r ∷ log) = is_start o r + starts o log

abbrev pub stops : ℕ → List Request → ℕ
stops o [] = 0
stops o (r ∷ log) = is_stop o r + stops o log

abbrev pub ends : ℕ → EiEvent → Bool
ends o (device_paused p) = p == o
ends o (device_removed p) = p == o
ends o e = false

-- Whether an object emulates as libei has it: a request to start makes it, and a pause or a removal
-- ends it.
abbrev pub emulates : ℕ → List EiEvent → Injector → Bool → Bool
emulates o [] i now = now
emulates o (e ∷ rest) i now =
    let i' = process_ei_event e i in
    emulates o rest i'
      (if ends o e then false else if ltb (starts o i.log) (starts o i'.log) then true else now)

-- The marks of the devices of an object, in their order.
abbrev pub marks : ℕ → List Device → List Bool
marks o [] = []
marks o (d ∷ rest) = if d.object == o then d.emulating ∷ marks o rest else marks o rest

-- The first device of an object has this mark, and no other one is marked.
abbrev pub OnlyFirst : Bool → List Bool → Type 0
OnlyFirst b [] = b ≡ false
OnlyFirst b (m ∷ rest) = (m ≡ b) × OnlyFirst false rest

abbrev pub rest_of : List Bool → List Bool
rest_of [] = []
rest_of (m ∷ rest) = rest

abbrev pub marked : Bool → List Bool → List Bool
marked b [] = []
marked b (m ∷ rest) = b ∷ rest

pub marks-add_device :
    (o p : ℕ) (ds : List Device)
    → marks o (add_device p ds) ≡ marks o ds ++ (if p == o then false ∷ [] else [])
marks-add_device o p [] = elim (Bool-cases (p == o)) [ inl e ↦ rw e refl | inr e ↦ rw e refl ]
marks-add_device o p (d ∷ rest) = elim (Bool-cases (d.object == o)) [
  | inl e ↦ rw (e, marks-add_device o p rest) refl
  | inr e ↦ rw (e, marks-add_device o p rest) refl
]

pub same_object : (a b c : ℕ) → (a == b) ≡ true → (a == c) ≡ (b == c)
same_object a b c h = ground (arith, h)

pub marks-set_device :
    (o p : ℕ) (b : Bool) (ds : List Device)
    → marks o (set_device p b b ds) ≡ (if p == o then marked b (marks o ds) else marks o ds)
unfolding set_device
marks-set_device o p b [] = elim (Bool-cases (p == o)) [ inl e ↦ rw e refl | inr e ↦ rw e refl ]
marks-set_device o p b (d ∷ rest) = elim (Bool-cases (d.object == p)) [
  | inl e ↦ elim (Bool-cases (p == o)) [
    | inl q ↦ rw (e, same_object d.object p o e, q) refl
    | inr q ↦ rw (e, same_object d.object p o e, q) refl
  ]
  | inr e ↦ elim (Bool-cases (d.object == o)) [
    | inl q ↦
        rw (e, q, other d.object p o e q, marks-set_device o p b rest, other d.object p o e q) refl
    | inr q ↦ rw (e, q, marks-set_device o p b rest) refl
  ]
]
  where
    other : (a p o : ℕ) → (a == p) ≡ false → (a == o) ≡ true → (p == o) ≡ false
    other a p o h k = ground (arith, h, k)

pub marks-erase_device :
    (o p : ℕ) (ds : List Device)
    → marks o (erase_device p ds) ≡ (if p == o then rest_of (marks o ds) else marks o ds)
unfolding erase_device
marks-erase_device o p [] = elim (Bool-cases (p == o)) [ inl e ↦ rw e refl | inr e ↦ rw e refl ]
marks-erase_device o p (d ∷ rest) = elim (Bool-cases (d.object == p)) [
  | inl e ↦ elim (Bool-cases (p == o)) [
    | inl q ↦ rw (e, same_object d.object p o e, q) refl
    | inr q ↦ rw (e, same_object d.object p o e, q) refl
  ]
  | inr e ↦ elim (Bool-cases (d.object == o)) [
    | inl q ↦ rw (e, q, marks-erase_device o p rest, other d.object p o e q) refl
    | inr q ↦ rw (e, q, marks-erase_device o p rest) refl
  ]
]
  where
    other : (a p o : ℕ) → (a == p) ≡ false → (a == o) ≡ true → (p == o) ≡ false
    other a p o h k = ground (arith, h, k)
