-- ===== src/Platform/Portal/Injector/Ended.antt =====
-- src/platform/wayland_portal.cpp, PortalInputInjector: how the start of its session ends.
use mksync.Prelude.{
  ℕ, ◌≡◌, ◌||◌, refl, Bool, true, false, not, List, [], ◌∷◌, Result, ok, err, if_rule, Bool-cases,
  Option-cases, Result-cases, ◌⊎◌, inl, inr,
}
use mksync.Platform.Portal.Errors.{Errc}
use mksync.Platform.Portal.Injector.{Capability, dispatch_ei, close_devices, ready}
use mksync.Platform.Portal.Injector.Session.{
  Session, Turn, Answers, Ending, started, failed, waiting, close, wait_ready, try, connect_ei,
  initialize,
}

abbrev pub IsClosed : Session → Type 0
IsClosed s =
    (s.has_cancellable ≡ false)
    × (s.has_session ≡ false)
    × (s.has_ei ≡ false)
    × (s.has_poller ≡ false)
    × (s.injector.devices ≡ [])

abbrev pub IsOpen : Session → Type 0
IsOpen s =
    (s.has_cancellable ≡ true) × (s.has_session ≡ true) × (s.has_ei ≡ true) × (s.has_poller ≡ true)

-- Some poll of the loop fails with this error.
abbrev pub PollFails : List Turn → Errc → Type 0
PollFails [] e = ⊥
PollFails (t ∷ rest) e = (t.polls ≡ err e) ⊎ PollFails rest e

abbrev pub Ended : (ℕ → Capability → Bool) → List Turn → Session × Ending → Type 0
Ended capable turns (s, started) = IsOpen s × (ready capable s.injector.devices ≡ true)
Ended capable turns (s, waiting) = IsOpen s
Ended capable turns (s, failed e) = IsClosed s ⊎ (IsOpen s × PollFails turns e)

module _ (capable : ℕ → Capability → Bool) where
  later-Ended :
      (t : Turn) (rest : List Turn) (r : Session × Ending)
      → Ended capable rest r
      → Ended capable (t ∷ rest) r
  later-Ended t rest (s, started) h = h
  later-Ended t rest (s, waiting) h = h
  later-Ended t rest (s, failed e) (inl h) = inl h
  later-Ended t rest (s, failed e) (inr (o, p)) = inr (o, inr p)

  closed : (s : Session) → IsClosed (close s)
  unfolding close close_devices
  closed s = (refl, refl, refl, refl, refl)

  wait_ready-Ended :
      (turns : List Turn) (s : Session)
      → IsOpen s
      → Ended capable turns (wait_ready capable turns s)
  unfolding wait_ready
  wait_ready-Ended [] s o =
      if_rule (Ended capable []) (ready capable s.injector.devices) _ _ (λ b. (o, b)) (λ b. o)
  wait_ready-Ended (t ∷ rest) s o =
      let s' : Session = record s { injector = dispatch_ei t.events s.injector } in
      let turns = t ∷ rest in
      if_rule (Ended capable turns) (ready capable s.injector.devices) _ _ (λ b. (o, b))
        (λ b.
          if_rule (Ended capable turns) s'.injector.disconnected _ _ (λ d. inl (closed s'))
            (λ d.
              if_rule (Ended capable turns) (ready capable s'.injector.devices) _ _ (λ r. (o, r))
                (λ r. elim (Result-cases t.polls) [
                  | inr (e, p) ↦ rw p (inr (o, inl refl))
                  | inl (b, p) ↦ elim (Bool-cases b) [
                    | inl q ↦ rw (p, q) (inl (closed s'))
                    | inr q ↦
                        rw (p, q)
                          (later-Ended (record t { polls = ok false }) rest
                            (wait_ready capable rest s') (wait_ready-Ended rest s' o))
                  ]
                ])))

  try-Ended :
      (turns : List Turn) (r : Result Errc (Unit {0})) (s : Session)
      (next : Session → Session × Ending)
      → Ended capable turns (next s)
      → Ended capable turns (try capable r s next)
  try-Ended turns (ok u) s next h = h
  try-Ended turns (err e) s next h = inl (closed s)

  connect_ei-Ended :
      (a : Answers) (s : Session)
      → s.has_cancellable ≡ true
      → s.has_session ≡ true
      → Ended capable a.turns (connect_ei capable a s)
  unfolding connect_ei
  connect_ei-Ended a s c h =
      if_rule (Ended capable a.turns) (not a.creates_ei) _ _ (λ b. inl (closed s))
        (λ b. elim (Option-cases a.sets_up) [
          | inr (n, e) ↦ rw e (inl (closed (record s { has_ei = true })))
          | inl e ↦
              rw e (
                try-Ended a.turns a.makes_poller _ _
                  (wait_ready-Ended a.turns _ (c, h, refl, refl)))
        ])

  -- Whatever the portal and libei answer, the start of the injector ends with an open session and
  -- all devices ready, or with an error and everything closed, or it waits for devices in an open
  -- session; only the error of a poll that fails in the loop leaves the session open.
  pub initialize-Ended :
      (a : Answers) (s : Session) → Ended capable a.turns (initialize capable a s)
  unfolding initialize
  initialize-Ended a s =
      let opened : Session = record (close s) { has_cancellable = true; has_session = true } in
      if_rule (Ended capable a.turns) (not a.creates_cancellable) _ _ (λ b. inl (closed s))
        (λ b. try-Ended a.turns a.creates_session _ _ (
          try-Ended a.turns a.starts _ _ (
            if_rule (Ended capable a.turns) (not a.grants_pointer || not a.grants_keyboard) _ _
              (λ g. inl (closed opened))
              (λ g. try-Ended a.turns a.connects _ _ (connect_ei-Ended a opened refl refl)))))
