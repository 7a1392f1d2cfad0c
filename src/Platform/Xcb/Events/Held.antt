-- ===== src/Platform/Xcb/Events/Held.antt =====
-- src/platform/xcb.cpp: the modifiers of a captured key event, by the bits of the server's key map.
use Prim.Native.Nat.{bit_and}
use mksync.Prelude.{
  ℕ, zero, suc, ◌-◌, ◌/◌, ◌%◌, ◌^◌, ◌<◌, ◌==◌, leb, ltb, ==_iff, ◌≡◌, refl, sym, subst, Bool, true,
  false, not, ◌&&◌, ◌||◌, String, List, [], ◌∷◌, some, if◌then◌else◌, Bool-cases, inl, inr, arith,
}
use mksync.Core.KeyModifier
use mksync.Core.KeyModifier.{intersection}
use mksync.Platform.KeyTable.{switch}
use mksync.Platform.Xcb.Events.{Display, is_pressed, key_modifier_for, translate_key}
use mksync.Platform.Xcb.Events.Modifiers.{
  modifier_syms, modifiers_in, after, modifiers_in-translate_key,
}
use mksync.Platform.Xcb.Keysyms.{translate_key_sym}

-- The usages 0xe0 to 0xe7 of USB are the modifier keys, in the order of the bits of a modifier byte.
abbrev pub modifier_bit : ℕ → ℕ
modifier_bit key = if leb 224 key && ltb key 232 then 2 ^ (key - 224) else 0

-- The bit of a key code in the key map.
abbrev pub is_down : (ℕ → ℕ) → ℕ → Bool
is_down keys code = keys (code / 8) / 2 ^ (code % 8) % 2 == 1

-- Some key code before the first 0 has its bit set.
abbrev pub any_down : (ℕ → ℕ) → List ℕ → Bool
any_down keys [] = false
any_down keys (code ∷ rest) =
    let later = any_down keys rest in if code == 0 then false else is_down keys code || later

abbrev below : ℕ → (ℕ → Bool) → Bool
below zero p = true
below (suc n) p = p n && below n p

below_sound : (n : ℕ) (p : ℕ → Bool) (i : ℕ) → below n p ≡ true → i < n → p i ≡ true
below_sound zero p i h l = absurd (omega (arith, l))
below_sound (suc n) p i h l = elim (Bool-cases (i == n)) [
  | inl e ↦ subst (λ j. p j ≡ true) (sym ((==_iff i n).0 e)) (ground (arith, h))
  | inr e ↦ below_sound n p i (ground (arith, h)) (ground (arith, l, e))
]

abbrev same_bit : ℕ → ℕ → Bool
same_bit byte bit =
    if bit_and byte (2 ^ bit) == 0 then not (byte / 2 ^ bit % 2 == 1) else byte / 2 ^ bit % 2 == 1

bytes_agree : below 256 (λ byte. below 8 (same_bit byte)) ≡ true
bytes_agree = refl

bits_agree : (byte bit : ℕ) → byte < 256 → bit < 8 → same_bit byte bit ≡ true
bits_agree byte bit h k =
    below_sound 8 (same_bit byte) bit
      (below_sound 256 (λ b. below 8 (same_bit b)) byte bytes_agree h) k

is_down-bit_and :
    (keys : ℕ → ℕ) (code : ℕ)
    → ((b : ℕ) → keys b < 256)
    → is_down keys code ≡ not (bit_and (keys (code / 8)) (2 ^ (code % 8)) == 0)
is_down-bit_and keys code bytes =
    let agree = bits_agree (keys (code / 8)) (code % 8) (bytes (code / 8)) (omega arith) in
    elim (Bool-cases (bit_and (keys (code / 8)) (2 ^ (code % 8)) == 0)) [
      | inl e ↦ rw e (by_not _ (rw e at agree))
      | inr e ↦ rw e (rw e at agree)
    ]
  where
    by_not : (b : Bool) → not b ≡ true → b ≡ false
    by_not true h = sym h
    by_not false h = refl

is_pressed-any_down :
    (keys : ℕ → ℕ) (codes : List ℕ)
    → ((b : ℕ) → keys b < 256)
    → is_pressed keys codes ≡ any_down keys codes
unfolding is_pressed
is_pressed-any_down keys [] bytes = refl
is_pressed-any_down keys (code ∷ rest) bytes =
    let later = is_pressed-any_down keys rest bytes in
    let bit = is_down-bit_and keys code bytes in
    elim (Bool-cases (bit_and (keys (code / 8)) (2 ^ (code % 8)) == 0)) [
      | inl e ↦ rw (bit, e, later) refl
      | inr e ↦ rw (bit, e) refl
    ]

modifiers_agree : below 232 (λ key. key_modifier_for key == modifier_bit key) ≡ true
unfolding key_modifier_for switch
modifiers_agree = refl

key_modifier_for-modifier_bit : (key : ℕ) → key_modifier_for key ≡ modifier_bit key
unfolding key_modifier_for switch
key_modifier_for-modifier_bit key = elim (Bool-cases (ltb key 232)) [
  | inl e ↦ (==_iff _ _).0 (
      below_sound 232 (λ k. key_modifier_for k == modifier_bit k) key modifiers_agree
        (ground (arith, e)))
  | inr e ↦ ground (arith, e)
]

-- If the server tells which keys are pressed, a captured key event has a modifier just when the bit
-- of one of the modifier's key codes is set in the key map; but the modifier of the event's own key,
-- by the order of the modifier keys in USB, is in the event of its press and not in the event of its
-- release, whatever the server tells.
pub translate_key-modifiers :
    (d : Display) (keys : ℕ → ℕ) (key_code : ℕ) (release : Bool) (modifier : ℕ) (name : String)
    → d.keymap ≡ some keys
    → ((b : ℕ) → keys b < 256)
    → switch modifier modifier_syms ≡ some name
    → intersection (modifiers_in (translate_key d key_code release)) modifier ≡ (
        if after
          (modifier_bit (translate_key_sym d.code (d.key_sym_of key_code)))
          release
          modifier
          (any_down keys (d.key_codes_of (d.code name)))
        then modifier
        else KeyModifier.none)
translate_key-modifiers d keys key_code release modifier name k bytes m =
    rw
      (
        ← key_modifier_for-modifier_bit (translate_key_sym d.code (d.key_sym_of key_code)),
        ← is_pressed-any_down keys (d.key_codes_of (d.code name)) bytes,
      )
      (modifiers_in-translate_key d keys key_code release modifier name k m)
