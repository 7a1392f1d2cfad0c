-- ===== src/Platform/Backend/Choice.antt =====
-- src/platform/backend.cpp: which backend is chosen.
use mksync.Prelude.{
  ℕ, ◌≡◌, refl, ap, inl, inr, ◌⊎◌, str_eq, Bool, true, false, ◌&&◌, ◌||◌, String, List, [], ◌∷◌,
  ◌++◌, none, some, Result, ok, err, All, arith, Bool-cases, Option-cases, is_some,
}
use mksync.Platform.Backend.{
  BackendCheck, BackendDescriptor, PlatformSelection, SelectError, operation_not_supported,
  no_such_device, supports, create_platform, select_from, select_backend, check_backend,
  registered_backends, find_backend,
}

module _ {Platform : Type 0} (check : String → BackendCheck) (requirements : ℕ) where
  -- The backend supports what is asked for, and its platform can be created.
  abbrev pub is_suitable : BackendDescriptor Platform → Bool
  is_suitable d = supports (check d.name) requirements && is_some (create_platform d)

  -- A backend is chosen, and none before it is suitable; or none is suitable.
  abbrev pub Chooses :
      List (BackendDescriptor Platform) → Result SelectError (PlatformSelection Platform) → Type 0
  Chooses l (ok s) =
      (before after : List (BackendDescriptor Platform)) × (l ≡ before ++ s.descriptor ∷ after)
      × All (λ d. is_suitable d ≡ false) before
      × (supports s.check requirements ≡ true)
      × (create_platform s.descriptor ≡ some s.platform)
  Chooses l (err e) = (e ≡ operation_not_supported) × All (λ d. is_suitable d ≡ false) l

  skip :
      (d : BackendDescriptor Platform) (l : List (BackendDescriptor Platform))
      (r : Result SelectError (PlatformSelection Platform))
      → is_suitable d ≡ false
      → Chooses l r
      → Chooses (d ∷ l) r
  skip d l (ok s) h (before, after, split, none_before, good, made) =
      (d ∷ before, after, ap (λ x. d ∷ x) split, (h, none_before), good, made)
  skip d l (err e) h (same, all) = (same, (h, all))

  pub select_from-Chooses :
      (l : List (BackendDescriptor Platform)) → Chooses l (select_from check requirements l)
  unfolding select_from
  select_from-Chooses [] = (refl, tt)
  select_from-Chooses (d ∷ l) =
      let rest = select_from-Chooses l in
      elim (Bool-cases (supports (check d.name) requirements)) [
        | inr s ↦ rw (s, select_from) (skip d l _ (rw s) rest)
        | inl s ↦ elim (Option-cases (create_platform d)) [
          | inl c ↦ rw (s, select_from, c) (skip d l _ (ground (arith, s, c)) rest)
          | inr (p, c) ↦ rw (s, select_from, c) ([], l, refl, tt, s, c)
        ]
      ]

-- Without a name, or with `auto`, the first registered backend is chosen that supports what is asked
-- for and can be created, with its check; there is an error exactly if none is suitable.
select_backend-auto :
    {Platform : Type 0} (unknown : String → String) (registry : List (BackendDescriptor Platform))
    (name : String) (requirements : ℕ)
    → (str_eq name "" || str_eq name "auto") ≡ true
    → Chooses
        (check_backend unknown registry)
        requirements
        (registered_backends registry)
        (select_backend unknown registry name requirements)
unfolding select_backend
select_backend-auto unknown registry name requirements h =
    rw (h, select_backend)
      (select_from-Chooses (check_backend unknown registry) requirements
        (registered_backends registry))

-- Any other name is an unknown device, or its backend is the only candidate.
pub select_backend-named :
    {Platform : Type 0} (unknown : String → String) (registry : List (BackendDescriptor Platform))
    (name : String) (requirements : ℕ)
    → (str_eq name "" || str_eq name "auto") ≡ false
    → ((find_backend registry name ≡ none)
        × (select_backend unknown registry name requirements ≡ err no_such_device))
      ⊎ ((d : BackendDescriptor Platform) × (find_backend registry name ≡ some d)
          × Chooses
              (check_backend unknown registry)
              requirements
              (d ∷ [])
              (select_backend unknown registry name requirements))
unfolding select_backend
select_backend-named unknown registry name requirements h =
    elim (Option-cases (find_backend registry name)) [
      | inl f ↦ inl (f, rw (h, select_backend, f))
      | inr (d, f) ↦ inr (
        d,
        f,
        rw (h, select_backend, f)
            (select_from-Chooses (check_backend unknown registry) requirements (d ∷ [])),
      )
    ]
