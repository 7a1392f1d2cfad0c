-- ===== src/Platform/Xcb/Events/Modifiers.antt =====
-- src/platform/xcb.cpp: the modifiers of a captured key event.
use mksync.Prelude.{
  ℕ, subst, sym, zero, suc, map, str_eq, not, ◌==◌, ◌≡◌, refl, Bool, true, false, ◌&&◌, String,
  List, [], ◌∷◌, Option, none, some, if◌then◌else◌, ==_iff, inl, inr, arith, Option-cases,
}
use mksync.Core.KeyModifier
use mksync.Core.KeyModifier.{union, intersection}
use mksync.Core.Events.{InputEvent, key_event, button_event, move_event, wheel_event}
use mksync.Platform.KeyTable.{switch, all, all-switch}
use mksync.Platform.Xcb.Events.{
  Display, modifier_cases, key_modifier_for, pressed, modifiers_of, current_modifiers,
  with_own_modifier, translate_key,
}
use mksync.Platform.Xcb.Keysyms.{translate_key_sym}

-- The keysym of each modifier.
abbrev pub modifier_syms : List (ℕ × String)
modifier_syms =
    (KeyModifier.left_ctrl, "XK_Control_L")
    ∷ (KeyModifier.right_ctrl, "XK_Control_R")
    ∷ (KeyModifier.left_shift, "XK_Shift_L")
    ∷ (KeyModifier.right_shift, "XK_Shift_R")
    ∷ (KeyModifier.left_alt, "XK_Alt_L")
    ∷ (KeyModifier.right_alt, "XK_Alt_R")
    ∷ (KeyModifier.left_meta, "XK_Super_L")
    ∷ (KeyModifier.right_meta, "XK_Super_R")
    ∷ []

-- Whether a set of modifiers has a modifier just when a test says so.
abbrev has : ℕ → ℕ → Bool → Bool
has modifiers modifier test =
    intersection modifiers modifier == (if test then modifier else KeyModifier.none)

-- The test of a modifier, after its own key has been pressed or released.
abbrev pub after : ℕ → Bool → ℕ → Bool → Bool
after own release modifier test = if modifier == own then not release else test

-- The test that answers with the Booleans of a list, in the order of the names.
abbrev answer : List Bool → List (ℕ × String) → String → Bool
answer [] syms name = false
answer (b ∷ l) [] name = false
answer (b ∷ l) ((m, s) ∷ syms) name =
    let later = answer l syms name in if str_eq name s then b else later

unfoldable agrees : (String → Bool) → Bool → ℕ → Bool
unfolding with_own_modifier modifiers_of
agrees pressed release own =
    all
      (λ e.
        has (with_own_modifier own release (modifiers_of pressed)) e.0
          (after own release e.0 (pressed e.1)))
      modifier_syms

and-left : (a b : Bool) → (a && b) ≡ true → a ≡ true
and-left a b h = ground (arith, h)

and-right : (a b : Bool) → (a && b) ≡ true → b ≡ true
and-right a b h = ground (arith, h)

-- A check of all lists of `n` Booleans.
abbrev for_lists : ℕ → (List Bool → Bool) → Bool
for_lists zero p = p []
for_lists (suc n) p = for_lists n (λ l. p (true ∷ l)) && for_lists n (λ l. p (false ∷ l))

length : List Bool → ℕ
length [] = zero
length (b ∷ l) = suc (length l)

for_lists_sound :
    (n : ℕ) (p : List Bool → Bool) (l : List Bool)
    → for_lists n p ≡ true
    → length l ≡ n
    → p l ≡ true
unfolding length
for_lists_sound zero p [] h e = h
for_lists_sound zero p (b ∷ l) h e = absurd (omega (arith, e))
for_lists_sound (suc n) p [] h e = absurd (omega (arith, e))
for_lists_sound (suc n) p (true ∷ l) h e =
    for_lists_sound n (λ l. p (true ∷ l)) l (ground (arith, h)) (omega (arith, e))
for_lists_sound (suc n) p (false ∷ l) h e =
    for_lists_sound n (λ l. p (false ∷ l)) l (ground (arith, h)) (omega (arith, e))

unfoldable all_agree : (String → Bool) → Bool → Bool
unfolding agrees
all_agree pressed release =
    agrees pressed release KeyModifier.none && all (λ e. agrees pressed release e.1) modifier_cases

lists_agree :
    for_lists 8
      (λ l. all_agree (answer l modifier_syms) true && all_agree (answer l modifier_syms) false)
    ≡ true
unfolding all_agree agrees with_own_modifier modifiers_of
lists_agree = refl

tests_agree : (test : String → Bool) (release : Bool) → all_agree test release ≡ true
unfolding all_agree agrees modifiers_of length
tests_agree test = elim_both
  where
    both : (all_agree test true && all_agree test false) ≡ true
    both =
        for_lists_sound 8
          (λ l. all_agree (answer l modifier_syms) true && all_agree (answer l modifier_syms) false)
          (map (λ e. test e.1) modifier_syms) lists_agree refl

    elim_both : (release : Bool) → all_agree test release ≡ true
    elim_both true = and-left (all_agree test true) (all_agree test false) both
    elim_both false = and-right (all_agree test true) (all_agree test false) both

key_modifier_for-switch :
    (key : ℕ) (o : Option ℕ)
    → switch key modifier_cases ≡ o
    → key_modifier_for key ≡ elim o [ none ↦ KeyModifier.none | some m ↦ m ]
unfolding key_modifier_for
key_modifier_for-switch key o e = rw (← e) refl

key_agrees :
    (test : String → Bool) (release : Bool) (key : ℕ)
    → agrees test release (key_modifier_for key) ≡ true
unfolding all_agree
key_agrees test release key = elim (Option-cases (switch key modifier_cases)) [
  | inl e ↦
      subst (λ m. agrees test release m ≡ true) (sym (key_modifier_for-switch key none e))
        (and-left (agrees test release KeyModifier.none)
          (all (λ e. agrees test release e.1) modifier_cases) (tests_agree test release))
  | inr (m, e) ↦
      subst (λ m. agrees test release m ≡ true) (sym (key_modifier_for-switch key (some m) e))
        (all-switch (λ e. agrees test release e.1) modifier_cases key m
          (and-right (agrees test release KeyModifier.none)
            (all (λ e. agrees test release e.1) modifier_cases) (tests_agree test release))
          e)
]

abbrev pub modifiers_in : InputEvent → ℕ
modifiers_in (key_event e) = e.modifiers
modifiers_in (button_event e) = KeyModifier.none
modifiers_in (move_event e) = KeyModifier.none
modifiers_in (wheel_event e) = KeyModifier.none

-- The modifiers of a captured key event, by the tests of the source.
pub modifiers_in-translate_key :
    (d : Display) (keys : ℕ → ℕ) (key_code : ℕ) (release : Bool) (modifier : ℕ) (name : String)
    → d.keymap ≡ some keys
    → switch modifier modifier_syms ≡ some name
    → intersection (modifiers_in (translate_key d key_code release)) modifier ≡ (
        if after
          (key_modifier_for (translate_key_sym d.code (d.key_sym_of key_code)))
          release
          modifier
          (pressed d keys name)
        then modifier
        else KeyModifier.none)
unfolding translate_key current_modifiers agrees
modifiers_in-translate_key d keys key_code release modifier name k m =
    let key = translate_key_sym d.code (d.key_sym_of key_code) in
    rw k (
      (==_iff _ _).0 (
        all-switch
          (λ e.
            has (with_own_modifier (key_modifier_for key) release (modifiers_of (pressed d keys)))
              e.0 (after (key_modifier_for key) release e.0 (pressed d keys e.1)))
          modifier_syms modifier name (key_agrees (pressed d keys) release key) m))
