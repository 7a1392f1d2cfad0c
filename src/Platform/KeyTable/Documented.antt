-- ===== src/Platform/KeyTable/Documented.antt =====
-- Tables of the values that system headers give to macros, and what a table of keys makes of them.
use mksync.Prelude.{
  ℕ, zero, suc, ◌<◌, ◌≡◌, refl, ap, ◌==◌, ==_iff, str_eq, Bool, true, false, ◌&&◌, String, List, [],
  ◌∷◌, some, if◌then◌else◌, arith, Bool-cases, inl, inr,
}
use mksync.Platform.KeyTable.{switch, switch_code, value_of, all}

-- 0 for a name that the table has not.
unfoldable pub documented_code : List (String × ℕ) → String → ℕ
documented_code [] name = 0
documented_code ((n, value) ∷ rest) name =
    let later = documented_code rest name in if str_eq n name then value else later

unfoldable pub is_listed : List (String × ℕ) → String → Bool
is_listed [] name = false
is_listed ((n, value) ∷ rest) name =
    let later = is_listed rest name in if str_eq n name then true else later

-- The headers define each macro of the table as documented.
abbrev pub IsDocumented : List (String × ℕ) → (String → ℕ) → Type 0
IsDocumented table code =
    (name : String) → is_listed table name ≡ true → code name ≡ documented_code table name

abbrev pub all_below : ℕ → (ℕ → Bool) → Bool
all_below zero p = true
all_below (suc n) p = p n && all_below n p

pub all_below_sound : (n : ℕ) (p : ℕ → Bool) (k : ℕ) → all_below n p ≡ true → k < n → p k ≡ true
all_below_sound zero p k h lt = absurd (omega arith)
all_below_sound (suc n) p k h lt = elim (Bool-cases (n == k)) [
  | inl e ↦ rw (← (==_iff n k).0 e) (ground (arith, h))
  | inr e ↦ all_below_sound n p k (ground (arith, h)) (ground (arith, e))
]

module _ (table : List (String × ℕ)) (code : String → ℕ) (defined : IsDocumented table code) where
  pub switch_code-documented :
      (default : ℕ) (cases : List (String × ℕ)) (s : ℕ)
      → all (λ e. is_listed table e.0) cases ≡ true
      → switch_code code default cases s ≡ switch_code (documented_code table) default cases s
  unfolding switch_code
  switch_code-documented default [] s h = refl
  switch_code-documented default ((name, key) ∷ cases) s h =
      rw
        (
          defined name (ground (arith, h)),
          switch_code-documented default cases s (ground (arith, h)),
        )
        refl

  pub value_of-documented :
      (cases : List (ℕ × String)) (k : ℕ)
      → all (λ e. is_listed table e.1) cases ≡ true
      → value_of code (switch k cases) ≡ value_of (documented_code table) (switch k cases)
  unfolding switch
  value_of-documented [] k h = refl
  value_of-documented ((j, name) ∷ cases) k h = elim (Bool-cases (j == k)) [
    | inl e ↦ rw e (ap some (defined name (ground (arith, h))))
    | inr e ↦ rw e (value_of-documented cases k (ground (arith, h)))
  ]
