-- ===== src/Platform/Backend/Registry.antt =====
-- src/platform/backend.cpp: names in the registry.
use mksync.Prelude.{
  ◌≡◌, refl, ◌∙◌, str_eq, str_eq_iff, Bool, false, ◌||◌, String, List, [], ◌∷◌, ◌++◌, some,
  if◌then◌else◌, any, arith,
}
use mksync.Platform.Backend.{
  BackendDescriptor, register, insert_ordered, registered_backends, find_name, find_backend,
  is_incomplete,
}

module _ {Platform : Type 0} where
  abbrev pub has_name : String → List (BackendDescriptor Platform) → Bool
  has_name name l = any (λ r. str_eq r.name name) l

  -- Every backend of the registry is complete, and no two have one name.
  abbrev pub IsRegistry : List (BackendDescriptor Platform) → Type 0
  IsRegistry [] = Unit
  IsRegistry (d ∷ l) = (is_incomplete d ≡ false) × (has_name d.name l ≡ false) × IsRegistry l

  has_name-append :
      (name : String) (l : List (BackendDescriptor Platform)) (d : BackendDescriptor Platform)
      → has_name name (l ++ d ∷ []) ≡ (has_name name l || str_eq d.name name)
  has_name-append name [] d = ground arith
  has_name-append name (r ∷ l) d = ground (arith, has_name-append name l d)

  append-IsRegistry :
      (l : List (BackendDescriptor Platform)) (d : BackendDescriptor Platform)
      → is_incomplete d ≡ false
      → has_name d.name l ≡ false
      → IsRegistry l
      → IsRegistry (l ++ d ∷ [])
  append-IsRegistry [] d c h v = (c, refl, tt)
  append-IsRegistry (r ∷ l) d c h v = ground (
    arith,
    has_name-append r.name l d,
    str_eq_iff r.name d.name,
    str_eq_iff d.name r.name,
    append-IsRegistry l d,
  )

  -- A registration keeps a registry complete and without two backends of one name, whatever it
  -- registers.
  pub register-IsRegistry :
      (l : List (BackendDescriptor Platform)) (d : BackendDescriptor Platform)
      → IsRegistry l
      → IsRegistry (register l d)
  unfolding register
  register-IsRegistry l d v = ground (arith, append-IsRegistry l d)

  has_name-insert_ordered :
      (name : String) (d : BackendDescriptor Platform) (l : List (BackendDescriptor Platform))
      → has_name name (insert_ordered d l) ≡ (str_eq d.name name || has_name name l)
  unfolding insert_ordered
  has_name-insert_ordered name d [] = refl
  has_name-insert_ordered name d (r ∷ l) = ground (arith, has_name-insert_ordered name d l)

  has_name-registered :
      (name : String) (l : List (BackendDescriptor Platform))
      → has_name name (registered_backends l) ≡ has_name name l
  unfolding registered_backends
  has_name-registered name [] = refl
  has_name-registered name (d ∷ l) =
      has_name-insert_ordered name d (registered_backends l) ∙ rw (has_name-registered name l)

  find_name-insert_ordered :
      (name : String) (d : BackendDescriptor Platform) (l : List (BackendDescriptor Platform))
      → has_name d.name l ≡ false
      → find_name name (insert_ordered d l)
        ≡ (if str_eq d.name name then some d else find_name name l)
  unfolding insert_ordered find_name
  find_name-insert_ordered name d [] h = refl
  find_name-insert_ordered name d (r ∷ l) h = ground (
    arith,
    find_name-insert_ordered name d l,
    str_eq_iff r.name name,
    str_eq_iff d.name name,
    str_eq_iff r.name d.name,
  )

  -- In a registry without two backends of one name, a name finds the backend that was registered
  -- under it, whatever the order of the registrations and of the sort.
  find_backend-registered :
      (name : String) (l : List (BackendDescriptor Platform))
      → IsRegistry l
      → find_backend l name ≡ find_name name l
  unfolding find_backend registered_backends find_name
  find_backend-registered name [] v = refl
  find_backend-registered name (d ∷ l) (c, u, v) =
      find_name-insert_ordered name d (registered_backends l) (has_name-registered d.name l ∙ u)
      ∙ rw (find_backend-registered name l v)
