-- ===== src/Platform/KeyTable.antt =====
-- Tables from keys to the names of the system's key codes. The codes are macros of system headers:
-- a model of a table takes their values as a parameter, a function of the macro's name.
pub mod Documented
use mksync.Prelude.{
  ℕ, leb, ◌≡◌, ◌==◌, ==_iff, Bool, true, ◌&&◌, String, List, [], ◌∷◌, Option, none, some,
  if◌then◌else◌, arith,
}

-- A `switch` on a key.
unfoldable pub switch {ℓ} : {A : Type ℓ} → ℕ → List (ℕ × A) → Option A
switch key [] = none
switch key ((k, a) ∷ cases) = if k == key then some a else switch key cases

abbrev pub all {ℓ} : {A : Type ℓ} → (A → Bool) → List A → Bool
all p [] = true
all p (x ∷ l) = p x && all p l

-- What holds of every case holds of the one that is taken.
pub all-switch {ℓ} :
    {A : Type ℓ} (p : ℕ × A → Bool) (cases : List (ℕ × A)) (key : ℕ) (a : A)
    → all p cases ≡ true
    → switch key cases ≡ some a
    → p (key, a) ≡ true
unfolding switch
all-switch p [] key a h s = cc
all-switch p ((k, b) ∷ cases) key a h s = ground (arith, ==_iff k key, all-switch p cases key a)

-- The values of the macros that a table names differ where the names do.
abbrev pub AreDistinct : (String → ℕ) → List (ℕ × String) → Type 0
AreDistinct code cases =
    (k j : ℕ) (s t : String)
    → switch k cases ≡ some s
    → switch j cases ≡ some t
    → code s ≡ code t
    → s ≡ t

abbrev pub is_between : ℕ → ℕ → ℕ → Bool
is_between low high x = leb low x && leb x high

module _ (code : String → ℕ) where
  abbrev pub value_of : Option String → Option ℕ
  value_of none = none
  value_of (some name) = some (code name)

  -- A `switch` on a code, with what the default case gives.
  unfoldable pub switch_code : ℕ → List (String × ℕ) → ℕ → ℕ
  switch_code default [] value = default
  switch_code default ((name, key) ∷ cases) value =
      let later = switch_code default cases value in if code name == value then key else later
