-- ===== src/Platform/Backend.antt =====
-- src/platform/backend.hpp and src/platform/backend.cpp: the registry of backends, their checks, and
-- the choice of one.
pub mod Registry
pub mod Choice
pub mod Probe
use mksync.Prelude.{
  ℕ, ◌/◌, ◌%◌, ◌==◌, ltb, str_eq, str_less, Bool, true, false, not, ◌&&◌, ◌||◌, String, List, [],
  ◌∷◌, ◌++◌, Option, none, some, Result, ok, err, if◌then◌else◌, any, is_some,
}

-- `BackendRequirement` is a set of flags in eight bits; these are its values with a name.
abbrev pub screens_flag : ℕ
screens_flag = 1

abbrev pub capture_flag : ℕ
capture_flag = 2

abbrev pub injection_flag : ℕ
injection_flag = 4

-- `(value & required) != None` for a flag.
abbrev pub has_requirement : ℕ → ℕ → Bool
has_requirement value flag = not (value / flag % 2 == 0)

pub record BackendFeatureCheck : Type 0 where
  pub supported : Bool
  pub detail : String

pub record BackendCheck : Type 0 where
  pub available : Bool
  pub detail : String
  pub screens : BackendFeatureCheck
  pub capture : BackendFeatureCheck
  pub injection : BackendFeatureCheck

-- A function pointer is null or a function: of `check`, what it returns or the text of the exception
-- it throws; of `create`, the platform or null.
pub record BackendDescriptor (Platform : Type 0) : Type 0 where
  pub name : String
  pub display_name : String
  pub order : ℕ
  pub check : Option (Result String BackendCheck)
  pub create : Option (Option Platform)

pub record PlatformSelection (Platform : Type 0) : Type 0 where
  pub platform : Platform
  pub descriptor : BackendDescriptor Platform
  pub check : BackendCheck

pub data SelectError : Type 0 where
  no_such_device operation_not_supported : SelectError

abbrev unavailable_feature : BackendFeatureCheck
unavailable_feature = record { supported = false; detail = "Backend unavailable" }

abbrev pub unavailable_check : String → BackendCheck
unavailable_check detail = record {
  available = false;
  detail = detail;
  screens = unavailable_feature;
  capture = unavailable_feature;
  injection = unavailable_feature;
}

unfoldable pub supports : BackendCheck → ℕ → Bool
supports c requirements =
    if not c.available
    then false
    else if has_requirement requirements screens_flag && not (c.screens).supported
    then false
    else if has_requirement requirements capture_flag && not (c.capture).supported
    then false
    else if has_requirement requirements injection_flag && not (c.injection).supported
    then false
    else true

module _ {Platform : Type 0} where
  abbrev pub is_incomplete : BackendDescriptor Platform → Bool
  is_incomplete d =
      str_eq d.name ""
      || (str_eq d.display_name "" || (not (is_some d.check) || not (is_some d.create)))

  -- `BackendRegistration`.
  unfoldable pub register :
      List (BackendDescriptor Platform)
      → BackendDescriptor Platform
      → List (BackendDescriptor Platform)
  register registry d =
      if is_incomplete d
      then registry
      else if any (λ r. str_eq r.name d.name) registry
      then registry
      else registry ++ d ∷ []

  -- The order of `std::pair{order, name}`.
  abbrev pub comes_before : BackendDescriptor Platform → BackendDescriptor Platform → Bool
  comes_before a b = ltb a.order b.order || (a.order == b.order && str_less a.name b.name)

  unfoldable pub insert_ordered :
      BackendDescriptor Platform
      → List (BackendDescriptor Platform)
      → List (BackendDescriptor Platform)
  insert_ordered d [] = d ∷ []
  insert_ordered d (r ∷ rest) = if comes_before r d then r ∷ insert_ordered d rest else d ∷ r ∷ rest

  -- The registry, sorted.
  unfoldable pub registered_backends :
      List (BackendDescriptor Platform) → List (BackendDescriptor Platform)
  unfolding insert_ordered
  registered_backends [] = []
  registered_backends (d ∷ registry) = insert_ordered d (registered_backends registry)

  unfoldable pub find_name :
      String → List (BackendDescriptor Platform) → Option (BackendDescriptor Platform)
  find_name name [] = none
  find_name name (d ∷ rest) = if str_eq d.name name then some d else find_name name rest

  unfoldable pub find_backend :
      List (BackendDescriptor Platform) → String → Option (BackendDescriptor Platform)
  unfolding find_name
  find_backend registry name = find_name name (registered_backends registry)

  -- What a check gives, an exception included. The registry has no null pointer.
  abbrev pub run_check : BackendDescriptor Platform → BackendCheck
  run_check d = elim d.check [
    | none ↦ unavailable_check ""
    | some result ↦ elim result [ ok c ↦ c | err what ↦ unavailable_check what ]
  ]

  -- `unknown` is the formatted text for a name that is not registered.
  unfoldable pub check_backend :
      (String → String) → List (BackendDescriptor Platform) → String → BackendCheck
  check_backend unknown registry name = elim (find_backend registry name) [
    | none ↦ unavailable_check (unknown name)
    | some d ↦ run_check d
  ]

  -- `descriptor.create()`. The registry has no null pointer.
  unfoldable pub create_platform : BackendDescriptor Platform → Option Platform
  create_platform d = elim d.create [ none ↦ none | some created ↦ created ]

  -- The first candidate whose check supports the requirements and that can be created.
  unfoldable pub select_from :
      (String → BackendCheck)
      → ℕ
      → List (BackendDescriptor Platform)
      → Result SelectError (PlatformSelection Platform)
  select_from check requirements [] = err operation_not_supported
  select_from check requirements (d ∷ rest) =
      let later = select_from check requirements rest in
      if supports (check d.name) requirements
      then elim (create_platform d) [
        | none ↦ later
        | some p ↦ ok (record { platform = p; descriptor = d; check = check d.name })
      ]
      else later

  unfoldable pub select_backend :
      (String → String)
      → List (BackendDescriptor Platform)
      → String
      → ℕ
      → Result SelectError (PlatformSelection Platform)
  unfolding select_from
  select_backend unknown registry name requirements =
      if str_eq name "" || str_eq name "auto"
      then select_from (check_backend unknown registry) requirements (registered_backends registry)
      else elim (find_backend registry name) [
        | none ↦ err no_such_device
        | some d ↦ select_from (check_backend unknown registry) requirements (d ∷ [])
      ]
